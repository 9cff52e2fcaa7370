-- ===== src/Type4/Session.antt =====
-- Any sequence of the radio's events for the callback of dfc_emulator_listener.c with the SDK's
-- type_4_tag protocol.
use dfc_flipper.Base.{
  ℕ, ◌≤◌, ◌≡◌, sym, subst, Bool, List, [], ◌∷◌, arith, ◌==◌, if_rule, length, All,
}
use dfc_flipper.ByteBuf.Refine.{IsValid, length-contents, reset-IsValid}
use dfc_flipper.Engine.{Engine, Laws}
use dfc_flipper.IsoDep.Receive.{ListenerEvent, received_data, halted, field_off, end_activation}
use dfc_flipper.Type4.{
  receive, send_i_response, send_response, listener_callback, run, Effect, Dfc, send_frame, reset,
}
use dfc_flipper.IsoDep.State.{Dfc}
use dfc_flipper.IsoDep.Send.{send_frame}
use dfc_flipper.Events.{Effect, custom_event, frames, emulate, frames-append}
use dfc_flipper.IsoDep.Apdu.{after}
use dfc_flipper.ByteBuf.{reset}
use dfc_flipper.IsoDep.Respond.{response_to, handle_bare-response_to, engine_at}
use dfc_flipper.IsoDep.Answering.{frames-response_to}
use dfc_flipper.Type4.Refine.{response_to-IsValid}

module _ {Emulator : Type 0} (core : Engine Emulator) where
  -- At most one frame, which fits the radio's buffer.
  abbrev pub IsSingle : List Effect → Type 0
  IsSingle out = (length (frames out) ≤ 1) × All (λ f. length f ≤ core.bytebuf_max) (frames out)

  abbrev IsAnswer : Dfc Emulator × List Effect → Type 0
  IsAnswer r = IsValid core.bytebuf_max r.0.tx_buffer × IsSingle r.1

module _ {Emulator : Type 0} (core : Engine Emulator) (laws : Laws core) where
  send_i_response-IsAnswer :
      (radio_alloc : Bool) (s : Dfc Emulator)
      → IsValid core.bytebuf_max s.tx_buffer
      → IsAnswer core (send_i_response core radio_alloc s)
  unfolding send_i_response send_response send_frame
  send_i_response-IsAnswer radio_alloc s v =
      ground (arith, length-contents core.bytebuf_max s.tx_buffer, v)

  after-IsAnswer :
      (es : List Effect) (r : Dfc Emulator × List Effect)
      → frames es ≡ []
      → IsAnswer core r
      → IsAnswer core (after es r)
  after-IsAnswer es r e h = rw (frames-append es r.1, e) h

  receive-IsAnswer :
      (radio_alloc : Bool) (s : Dfc Emulator) (rx : List ℕ)
      → IsValid core.bytebuf_max s.tx_buffer
      → IsAnswer core (receive core radio_alloc s rx)
  unfolding receive
  receive-IsAnswer radio_alloc s rx v =
      let start = reset s.tx_buffer in
      let r = response_to core 0 s.emulator start rx in
      let sent =
        send_i_response-IsAnswer radio_alloc (engine_at s r.emulator r.tx_buffer)
          (response_to-IsValid core laws s.emulator rx (reset-IsValid core.bytebuf_max v)) in
      if_rule (IsAnswer core) (length rx == 0) (λ _. (v, (omega arith, tt)))
        (λ _.
          subst (IsAnswer core)
            (sym (
              handle_bare-response_to core (send_i_response core radio_alloc) 0
                (record s { tx_buffer = start }) rx))
            (after-IsAnswer r.events
              (send_i_response core radio_alloc (engine_at s r.emulator r.tx_buffer))
              (frames-response_to core 0 s.emulator start rx) sent))

  end_activation-IsAnswer :
      (s : Dfc Emulator)
      → IsValid core.bytebuf_max s.tx_buffer
      → IsAnswer core
          (record (end_activation core s) { last_frame = [] }, custom_event emulate ∷ [])
  unfolding end_activation
  end_activation-IsAnswer s v =
      (laws.reset_keeps_buffer s.emulator s.tx_buffer v, (omega arith, tt))

  listener_callback-IsAnswer :
      (s : Dfc Emulator) (e : ListenerEvent)
      → IsValid core.bytebuf_max s.tx_buffer
      → IsAnswer core (listener_callback core s e)
  unfolding listener_callback
  listener_callback-IsAnswer s (received_data radio_alloc rx) v =
      receive-IsAnswer radio_alloc s rx v
  listener_callback-IsAnswer s halted v = end_activation-IsAnswer s v
  listener_callback-IsAnswer s field_off v = end_activation-IsAnswer s v

  -- With the SDK's framing, through any sequence of the radio's events from a valid response buffer,
  -- the buffer stays valid, and each event is answered by at most one frame, which is no longer than
  -- the radio's buffer.
  pub run-IsSingle :
      (es : List ListenerEvent) (s : Dfc Emulator)
      → IsValid core.bytebuf_max s.tx_buffer
      → IsValid core.bytebuf_max (run core s es).0.tx_buffer × All (IsSingle core) (run core s es).1
  unfolding run
  run-IsSingle [] s v = (v, tt)
  run-IsSingle (e ∷ es) s v =
      let (w, out) = listener_callback-IsAnswer s e v in
      let (u, outs) = run-IsSingle es (listener_callback core s e).0 w in (u, (out, outs))

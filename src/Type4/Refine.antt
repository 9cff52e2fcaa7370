-- ===== src/Type4/Refine.antt =====
-- The callback of dfc_emulator_listener.c with the SDK's type_4_tag protocol, against the response to
-- a bare command.
use dfc_flipper.Base.{
  ℕ, [], ◌∷◌, ◌≡◌, refl, ap, ◌∙◌, inl, inr, true, false, List, ◌++◌, arith, ltb, ◌==◌,
  if◌then◌else◌, Bool-cases, Option-cases, length,
}
use dfc_flipper.ByteBuf.Refine.{
  IsValid, append_byte-append_to, append_to_refines, length-contents, reset-IsValid,
}
use dfc_flipper.Type4.{
  receive, send_i_response, send_response, Engine, ByteBuf, Effect, send_frame, Dfc,
}
use dfc_flipper.Engine.{Engine, Laws}
use dfc_flipper.IsoDep.Answering.{IsKept, response_to_rule, frames-response_to}
use dfc_flipper.ByteBuf.{ByteBuf, contents, reset}
use dfc_flipper.IsoDep.Apdu.{rewrap, after}
use dfc_flipper.IsoDep.Respond.{response_to, engine_at, handle_bare-response_to}
use dfc_flipper.IsoDep.Send.{send_frame}
use dfc_flipper.IsoDep.State.{Dfc}
use dfc_flipper.Events.{Effect, transmit, frames}

-- What is sent for a response buffer.
abbrev pub response_frames : ByteBuf → List Effect
response_frames tx = if tx.size_bytes == 0 then [] else transmit (contents tx) ∷ []

module _ {Emulator : Type 0} (core : Engine Emulator) (laws : Laws core) where
  IsValid-IsKept : IsKept core 0 (IsValid core.bytebuf_max)
  unfolding rewrap
  IsValid-IsKept = record {
    valid = λ tx v. v;
    extended = λ before after v x. x.valid;
    byte_added = λ tx byte v.
        rw (append_byte-append_to core.bytebuf_max tx byte v)
          (append_to_refines core.bytebuf_max tx (byte ∷ []) v).0;
    rewrapped = rewrap-IsValid;
  }
    where
      rewrap-IsValid :
          (tx : ByteBuf) → IsValid core.bytebuf_max tx → IsValid core.bytebuf_max (rewrap core 0 tx)
      rewrap-IsValid tx v = elim (Bool-cases (ltb 0 tx.size_bytes)) [
        | inr e ↦ rw e v
        | inl e ↦
            rw e
              (elim (Option-cases (
                core.wrap_native_response_as_iso7816 (contents tx) 0 core.worker_max_buffer_size)) [
                  | inl q ↦ rw q v
                  | inr (out, q) ↦
                      rw q
                        (append_to_refines core.bytebuf_max (reset tx) out
                          (reset-IsValid core.bytebuf_max v)).0
                ])
      ]

  pub response_to-IsValid :
      (emulator : Emulator) {tx : ByteBuf} (apdu : List ℕ)
      → IsValid core.bytebuf_max tx
      → IsValid core.bytebuf_max (response_to core 0 emulator tx apdu).tx_buffer
  response_to-IsValid emulator {tx} apdu v =
      response_to_rule core laws 0 (IsValid core.bytebuf_max) IsValid-IsKept emulator tx apdu v

  send_i_response_lem :
      (s : Dfc Emulator)
      → IsValid core.bytebuf_max s.tx_buffer
      → send_i_response core true s ≡ (s, response_frames s.tx_buffer)
  unfolding send_i_response send_response send_frame
  send_i_response_lem s v = ground (arith, length-contents core.bytebuf_max s.tx_buffer, v)

  -- With the SDK's framing and a valid response buffer, a received frame that is not empty is the
  -- command and the response to it, computed for an empty buffer, is sent whole and in one frame, after
  -- events that send nothing; an empty response is not sent. The emulator and the response buffer are
  -- those of the response, the buffer stays valid, and nothing else of the state changes. An empty
  -- frame does nothing. The radio's buffer can be allocated.
  pub receive-response_to :
      {s : Dfc Emulator} (octet : ℕ) (octets : List ℕ)
      → IsValid core.bytebuf_max s.tx_buffer
      → let r = response_to core 0 s.emulator (reset s.tx_buffer) (octet ∷ octets) in
        (receive core true s (octet ∷ octets)
          ≡ (engine_at s r.emulator r.tx_buffer, r.events ++ response_frames r.tx_buffer))
        × (frames r.events ≡ [])
        × IsValid core.bytebuf_max r.tx_buffer
        × (receive core true s [] ≡ (s, []))
  unfolding receive
  receive-response_to {s} octet octets v =
      let start : Dfc Emulator = record s { tx_buffer = reset s.tx_buffer } in
      let r = response_to core 0 s.emulator (reset s.tx_buffer) (octet ∷ octets) in
      let w : IsValid core.bytebuf_max r.tx_buffer =
        response_to-IsValid s.emulator (octet ∷ octets) (reset-IsValid core.bytebuf_max v) in
      let not_empty : (length (octet ∷ octets) == 0) ≡ false = ground arith in
      (
        rw not_empty (
            handle_bare-response_to core (send_i_response core true) 0 start (octet ∷ octets)
            ∙ ap (after r.events) (send_i_response_lem (engine_at s r.emulator r.tx_buffer) w)),
        frames-response_to core 0 s.emulator (reset s.tx_buffer) (octet ∷ octets),
        w,
        refl,
      )

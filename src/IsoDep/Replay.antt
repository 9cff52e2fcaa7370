-- ===== src/IsoDep/Replay.antt =====
-- Blocks that the reader repeats: a command is handled once, however often its block arrives.
use dfc_flipper.Base.{
  Bool, ◌≡◌, toggle, true, List, ℕ, ◌≤◌, subst, if_rule, sym, bit_and, ◌==◌, refl, arith, has,
  get_or, ltb, false, ltb→lt, ◌∷◌, ◌<◌, drop, length, [], ◌∙◌, leb, ap, toggle_ne, ◌&&◌,
}
use dfc_flipper.IsoDep.Invariant.{IsValid, length-i_frame}
use dfc_flipper.Engine.{Engine, Laws}
use dfc_flipper.IsoDep.State.{Dfc, Block, prefix_len, block_of, iso_dep_frame_max}
use dfc_flipper.IsoDep.Send.{
  send_i_response, send_next_i_response, advance_response, begin_response, response_prefix,
  send_frame, i_frame,
}
use dfc_flipper.IsoDep.Framed.{IsBlock, block_of-IsBlock}
use dfc_flipper.IsoDep.Apdu.{handle_apdu, after}
use dfc_flipper.IsoDep.Handling.{handle_apdu_rule}
use dfc_flipper.ByteBuf.{ByteBuf}
use dfc_flipper.IsoDep.Routing.{IsSession, receive-receive_numbered}
use dfc_flipper.IsoDep.Receive.{receive_numbered, receive_duplicate, receive_apdu, receive}
use dfc_flipper.Events.{transmit, Effect, frames, frames-append}
use dfc_flipper.IsoDep.Bounds.{receive-IsSound}
use dfc_flipper.IsoDep.Ack.{send_frame_lem}
use dfc_flipper.IsoDep.Respond.{engine_at}

module _ {Emulator : Type 0} (core : Engine Emulator) where
  -- The protocol's part of the state once a command has been answered.
  pub record Answered (s t : Dfc Emulator) : Type 0 where
    pub expected : t.expected_pcd_block ≡ toggle s.expected_pcd_block
    pub picc : t.picc_block ≡ s.expected_pcd_block
    pub answered : t.last_response_valid ≡ true
    pub command : t.command ≡ s.command
    pub cid_valid : t.cid_valid ≡ s.cid_valid
    pub cid : t.cid ≡ s.cid

module _ {Emulator : Type 0} (core : Engine Emulator) (laws : Laws core) (radio_alloc : Bool) where
  -- Whether the radio takes the frame or not, the state moves on to the next block.
  send_i_response-eq :
      (s : Dfc Emulator)
      → response_prefix core s ≤ s.tx_buffer.size_bytes
      → send_i_response core radio_alloc s ≡ (
        advance_response core (begin_response core s),
        send_frame core radio_alloc (advance_response core (begin_response core s)).last_frame,
      )
  unfolding send_i_response send_next_i_response begin_response
  send_i_response-eq s h =
      let u : Dfc Emulator = begin_response core s in
      let r : Dfc Emulator × List Effect = (
        advance_response core u,
        send_frame core radio_alloc (advance_response core u).last_frame,
      ) in
      if_rule (λ q. q ≡ r) (s.tx_buffer.size_bytes == 0) (λ e. absurd (ground arith))
        (λ _.
          if_rule (λ q. q ≡ r) (ltb s.tx_buffer.size_bytes (response_prefix core s))
            (λ e. absurd (omega (arith, ltb→lt _ _ e, h))) (λ _. refl))

  send_i_response-Answered :
      (s : Dfc Emulator)
      → response_prefix core s ≤ s.tx_buffer.size_bytes
      → Answered core s (send_i_response core radio_alloc s).0
  unfolding advance_response begin_response
  send_i_response-Answered s h =
      subst (λ (r : Dfc Emulator × List Effect). Answered core s r.0) (sym (send_i_response-eq s h))
        (record {
          expected = refl;
          picc = refl;
          answered = refl;
          command = refl;
          cid_valid = refl;
          cid = refl;
        })

  pub handle_apdu-Answered :
      {s : Dfc Emulator} {b : Block} (apdu : List ℕ)
      → IsBlock core b
      → IsValid core s
      → Answered core s (handle_apdu core radio_alloc s b apdu).0
  handle_apdu-Answered {s} {b} apdu w v =
      handle_apdu_rule core laws radio_alloc s b w (λ r. Answered core s r.0)
        (record {
          after_events = λ es r e a. a;
          respond = λ emulator tx f. respond-Answered emulator tx (rw f.first f.whole);
        })
        apdu v
    where
      respond-Answered :
          (emulator : Emulator) (tx : ByteBuf)
          → prefix_len core (get_or tx.octets 0 0) ≤ tx.size_bytes
          → Answered core s (send_i_response core radio_alloc (engine_at s emulator tx)).0
      respond-Answered emulator tx h =
          let a = send_i_response-Answered (engine_at s emulator tx) h in
          record {
            expected = a.expected;
            picc = a.picc;
            answered = a.answered;
            command = a.command;
            cid_valid = a.cid_valid;
            cid = a.cid;
          }

module _ {Emulator : Type 0} (core : Engine Emulator) (laws : Laws core) where
  send_i_response-frame :
      (s : Dfc Emulator)
      → response_prefix core s ≤ s.tx_buffer.size_bytes
      → let (t, out) = send_i_response core true s in frames out ≡ t.last_frame ∷ []
  unfolding advance_response
  send_i_response-frame s h =
      subst (λ (r : Dfc Emulator × List Effect). frames r.1 ≡ r.0.last_frame ∷ [])
        (sym (send_i_response-eq core laws true s h))
        (ap frames (
          send_frame_lem core laws (i_frame core (begin_response core s))
            (length-i_frame core laws true (begin_response core s))))

  after-frame :
      (es : List Effect) (r : Dfc Emulator × List Effect)
      → frames es ≡ []
      → frames r.1 ≡ r.0.last_frame ∷ []
      → frames (after es r).1 ≡ (after es r).0.last_frame ∷ []
  after-frame es r e h = rw (frames-append es r.1, e, h)

  handle_apdu-frame :
      {s : Dfc Emulator} {b : Block} (apdu : List ℕ)
      → IsBlock core b
      → IsValid core s
      → let (t, out) = handle_apdu core true s b apdu in frames out ≡ t.last_frame ∷ []
  handle_apdu-frame {s} {b} apdu w v =
      handle_apdu_rule core laws true s b w
        (λ (r : Dfc Emulator × List Effect). frames r.1 ≡ r.0.last_frame ∷ [])
        (record {
          after_events = after-frame;
          respond =
              λ emulator tx f. send_i_response-frame (engine_at s emulator tx) (rw f.first f.whole);
        })
        apdu v

module _ {Emulator : Type 0} (core : Engine Emulator) where
  -- A whole command in one I-block: the next block of the session, not chained and not empty, at a
  -- moment when no command is being collected and no response is under way.
  pub record IsCommand (s : Dfc Emulator) (pcb : ℕ) (rest : List ℕ) : Type 0 where
    pub session : IsSession core s pcb rest
    pub numbered : (bit_and pcb 1 == s.expected_pcd_block) ≡ true
    pub unchained : has pcb 0x10 ≡ false
    pub filled : prefix_len core pcb < length (pcb ∷ rest)
    pub collected : s.command ≡ []
    pub idle : s.response_offset ≡ 0

other_number : (n e : ℕ) {t : ℕ} → e ≤ 1 → (n == e) ≡ true → t ≡ toggle e → (n == t) ≡ false
other_number n e h p q = ground (arith, toggle_ne e h)

module _ {Emulator : Type 0} (core : Engine Emulator) (laws : Laws core) where
  pub receive-handle_apdu :
      (radio_alloc : Bool) {s : Dfc Emulator} (pcb : ℕ) (rest : List ℕ)
      → IsCommand core s pcb rest
      → receive core radio_alloc s (pcb ∷ rest)
        ≡ handle_apdu core radio_alloc s
            (block_of core pcb rest)
            (drop (prefix_len core pcb) (pcb ∷ rest))
  unfolding receive_numbered receive_apdu block_of
  receive-handle_apdu radio_alloc {s} pcb rest i =
      let idle : (s.response_offset == 0) ≡ true = ground (arith, i.idle) in
      let filled : leb (length (pcb ∷ rest)) (prefix_len core pcb) ≡ false =
        ground (arith, i.filled) in
      let collected : (length s.command == 0) ≡ true = ground (arith, ap length i.collected) in
      receive-receive_numbered core radio_alloc s pcb rest i.session
      ∙ rw (i.numbered, idle, filled, i.unchained, collected)

  receive_numbered-duplicate :
      (t : Dfc Emulator) (b : Block)
      → length t.last_frame ≤ iso_dep_frame_max
      → (bit_and b.pcb 1 == t.expected_pcd_block) ≡ false
      → (t.last_response_valid && length t.command == 0) ≡ true
      → receive_numbered core true t b ≡ (t, transmit t.last_frame ∷ [])
  unfolding receive_numbered receive_duplicate
  receive_numbered-duplicate t b h n e =
      rw (n, e) (ap (λ out. (t, out)) (send_frame_lem core laws t.last_frame h))

  pub receive-Answered :
      (radio_alloc : Bool) {s : Dfc Emulator} (pcb : ℕ) (rest : List ℕ)
      → IsValid core s
      → IsCommand core s pcb rest
      → Answered core s (receive core radio_alloc s (pcb ∷ rest)).0
  unfolding block_of
  receive-Answered radio_alloc {s} pcb rest v i =
      subst (λ (r : Dfc Emulator × List Effect). Answered core s r.0)
        (sym (receive-handle_apdu radio_alloc pcb rest i))
        (handle_apdu-Answered core laws radio_alloc _
          (block_of-IsBlock core pcb rest i.session.long_enough) v)

  -- A command is handled once. An I-block with a whole command, numbered as expected, is answered in
  -- a valid state by exactly one frame; the same block again changes nothing, neither the engine nor
  -- the listener, and is answered by that frame alone. The radio's buffer can be allocated both times.
  pub receive-replayed :
      {s : Dfc Emulator} (pcb : ℕ) (rest : List ℕ)
      → IsValid core s
      → IsCommand core s pcb rest
      → let (t, out) = receive core true s (pcb ∷ rest) in
        (frames out ≡ t.last_frame ∷ [])
        × (receive core true t (pcb ∷ rest) ≡ (t, transmit t.last_frame ∷ []))
  unfolding block_of
  receive-replayed {s} pcb rest v i = (
    subst (λ (r : Dfc Emulator × List Effect). frames r.1 ≡ r.0.last_frame ∷ [])
        (sym (receive-handle_apdu true pcb rest i))
        (handle_apdu-frame core laws _ (block_of-IsBlock core pcb rest i.session.long_enough) v),
    replayed _ (receive-Answered true pcb rest v i)
        (receive-IsSound core laws true (pcb ∷ rest) v).valid,
  )
    where
      replayed :
          (t : Dfc Emulator)
          → Answered core s t
          → IsValid core t
          → receive core true t (pcb ∷ rest) ≡ (t, transmit t.last_frame ∷ [])
      replayed t a u =
          receive-receive_numbered core true t pcb rest (record {
            octet = i.session.octet;
            i_block = i.session.i_block;
            no_nad = i.session.no_nad;
            long_enough = i.session.long_enough;
            same_cid = rw (a.cid_valid, a.cid) i.session.same_cid;
          })
          ∙ receive_numbered-duplicate t (block_of core pcb rest) u.frame_bound
              (other_number (bit_and pcb 1) s.expected_pcd_block v.expected_bit i.numbered
                a.expected)
              (rw (a.answered, a.command, i.collected))

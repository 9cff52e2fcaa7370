-- ===== src/IsoDep/Lossy.antt =====
-- A reader of ISO/IEC 14443-4 over a link that loses blocks and answers, with dfc_emulator_listener.c at the
-- other end.
pub mod Acked
pub mod Talk
pub mod Conversing
use dfc_flipper.Base.{
  ℕ, bit_and, ◌≡◌, refl, ap, ◌∙◌, Bool, true, false, ◌&&◌, List, [], ◌∷◌, ◌==◌, if◌then◌else◌,
  get_or, toggle, zero, suc, ◌≤◌, ◌<◌, sym, arith, subst, ==_iff, drop,
}
use dfc_flipper.IsoDep.Receive.{receive}
use dfc_flipper.IsoDep.Send.{send_i_response, advance_response, begin_response}
use dfc_flipper.IsoDep.Invariant.{IsValid}
use dfc_flipper.Engine.{Engine, Laws}
use dfc_flipper.IsoDep.State.{Dfc, block_of, prefix_len}
use dfc_flipper.Events.{transmit, frames, Effect}
use dfc_flipper.IsoDep.Nak.{listener_ack, nak_of}
use dfc_flipper.IsoDep.Respond.{Response, engine_at}
use dfc_flipper.IsoDep.Pcd.Exchanged.{IsReady, engine_at-Pending}
use dfc_flipper.IsoDep.Framed.{Framed, block_of-IsBlock}
use dfc_flipper.IsoDep.Replay.{IsCommand, receive-handle_apdu, receive-replayed}
use dfc_flipper.IsoDep.Lost.{receive-lost}
use dfc_flipper.IsoDep.Handling.{handle_apdu_rule}
use dfc_flipper.IsoDep.Frames.{i_frame_header}
use dfc_flipper.IsoDep.Delivery.{begin_response-Pending, send_i_lem}

-- What becomes of a block that the reader sends: it is lost, its answer is, or neither.
pub data Fate : Type 0 where
  block_lost answer_lost passes : Fate

-- Whether the answer is an R-block with the number that is not the reader's: its block was lost.
abbrev pub is_unheard : ℕ → List (List ℕ) → Bool
is_unheard number [] = false
is_unheard number (f ∷ fs) =
    bit_and (get_or f 0 0) 0xE2 == 0xA2 && bit_and (get_or f 0 0) 1 == toggle number

module _ {Emulator : Type 0} (core : Engine Emulator) (number : ℕ) (block nak : List ℕ) where
  -- A block sent, with R(NAK) after every loss, and sent again where the listener has not heard it. Past the
  -- end of the list nothing is lost.
  unfoldable pub transact : List ℕ → List Fate → Dfc Emulator → Dfc Emulator × List (List ℕ)
  transact sent [] s =
      let (t, out) = receive core true s sent in
      let (u, again) = receive core true t block in
      if is_unheard number (frames out) then (u, frames again) else (t, frames out)
  transact sent (block_lost ∷ fates) s = transact nak fates s
  transact sent (answer_lost ∷ fates) s = transact nak fates (receive core true s sent).0
  transact sent (passes ∷ fates) s =
      let (t, out) = receive core true s sent in
      let rest = transact block fates t in
      if is_unheard number (frames out) then rest else (t, frames out)

  -- Once the listener has heard the block, it answers both it and R(NAK) with the same frame.
  record IsHeard (t : Dfc Emulator) : Type 0 where
    repeated : receive core true t block ≡ (t, transmit t.last_frame ∷ [])
    asked : receive core true t nak ≡ (t, transmit t.last_frame ∷ [])
    answer : is_unheard number (t.last_frame ∷ []) ≡ false

  transact-heard_nak :
      {t : Dfc Emulator} (fates : List Fate)
      → IsHeard t
      → transact nak fates t ≡ (t, t.last_frame ∷ [])
  unfolding transact
  transact-heard_nak [] h = rw (h.asked, h.answer) refl
  transact-heard_nak (block_lost ∷ fates) h = transact-heard_nak fates h
  transact-heard_nak {t} (answer_lost ∷ fates) h =
      ap (λ (r : Dfc Emulator × List Effect). transact nak fates r.0) h.asked
      ∙ transact-heard_nak fates h
  transact-heard_nak (passes ∷ fates) h = rw (h.asked, h.answer) refl

  -- Before, it answers R(NAK) with R(ACK), and the block with its first answer.
  record IsUnheard (s : Dfc Emulator) : Type 0 where
    ack : List ℕ
    asked : receive core true s nak ≡ (s, transmit ack ∷ [])
    unheard : is_unheard number (ack ∷ []) ≡ true
    first : frames (receive core true s block).1 ≡ (receive core true s block).0.last_frame ∷ []
    heard : IsHeard (receive core true s block).0

  first_taken :
      {s : Dfc Emulator}
      → IsUnheard s
      → is_unheard number (frames (receive core true s block).1) ≡ false
  first_taken h = ap (is_unheard number) h.first ∙ h.heard.answer

  abbrev direct : Dfc Emulator → Dfc Emulator × List (List ℕ)
  direct s = let (t, out) = receive core true s block in (t, frames out)

  transact-unheard :
      {s : Dfc Emulator} (fates : List Fate)
      → IsUnheard s
      → (transact block fates s ≡ direct s) × (transact nak fates s ≡ direct s)
  unfolding transact
  transact-unheard [] h = (rw (first_taken h) refl, rw (h.asked, h.unheard) refl)
  transact-unheard (block_lost ∷ fates) h =
      let (_, later) = transact-unheard fates h in (later, later)
  transact-unheard {s} (answer_lost ∷ fates) h =
      let t = (receive core true s block).0 in
      let (_, later) = transact-unheard fates h in
      (
        transact-heard_nak fates h.heard ∙ ap (λ fs. (t, fs)) (sym h.first),
        ap (λ (r : Dfc Emulator × List Effect). transact nak fates r.0) h.asked ∙ later,
      )
  transact-unheard (passes ∷ fates) h =
      let (again, _) = transact-unheard fates h in
      (rw (first_taken h) refl, rw (h.asked, h.unheard) again)

module _ {Emulator : Type 0} (core : Engine Emulator) (laws : Laws core) where
  -- The listener's R(ACK) with the other number tells the reader that its block was lost.
  listener_ack-unheard :
      (use_cid : Bool) (cid n : ℕ)
      → n ≤ 1
      → is_unheard n (listener_ack core use_cid (toggle n) cid ∷ []) ≡ true
  listener_ack-unheard true cid zero h = rw laws.cid_mask_lem refl
  listener_ack-unheard false cid zero h = refl
  listener_ack-unheard true cid (suc zero) h = rw laws.cid_mask_lem refl
  listener_ack-unheard false cid (suc zero) h = refl
  listener_ack-unheard use_cid cid (suc (suc n)) h = absurd (omega arith)

  -- The frame that answers a command is an I-block.
  abbrev IsResponseFrame : Dfc Emulator × List Effect → Type 0
  IsResponseFrame r = bit_and (get_or r.0.last_frame 0 0) 0xE2 ≡ 0x02

  send_i_response-IsResponseFrame :
      {s : Dfc Emulator} (r : Response Emulator) (pcb : ℕ)
      → IsReady core s
      → pcb < 256
      → bit_and pcb 0xE2 ≡ 0x02
      → Framed core pcb r.tx_buffer
      → IsResponseFrame (send_i_response core true (engine_at s r.emulator r.tx_buffer))
  unfolding advance_response begin_response
  send_i_response-IsResponseFrame {s} r pcb i small kind f =
      let q = engine_at-Pending core laws s pcb r i small f in
      let (_, _, _, same_kind) = i_frame_header core laws (begin_response-Pending core laws q) in
      subst (λ (p : Dfc Emulator × List Effect). IsResponseFrame p) (sym (send_i_lem core laws q))
        (same_kind ∙ rw f.first kind)

  receive-IsResponseFrame :
      {s : Dfc Emulator} (pcb : ℕ) (rest : List ℕ)
      → IsValid core s
      → IsCommand core s pcb rest
      → IsResponseFrame (receive core true s (pcb ∷ rest))
  unfolding block_of
  receive-IsResponseFrame {s} pcb rest v i =
      let kind : bit_and pcb 0xE2 ≡ 0x02 = (==_iff (bit_and pcb 0xE2) 0x02).0 i.session.i_block in
      subst (λ (p : Dfc Emulator × List Effect). IsResponseFrame p)
        (sym (receive-handle_apdu core laws true pcb rest i))
        (handle_apdu_rule core laws true s (block_of core pcb rest)
          (block_of-IsBlock core pcb rest i.session.long_enough) IsResponseFrame
          (record {
            after_events = λ es r e p. p;
            respond = λ emulator tx f.
                send_i_response-IsResponseFrame
                  (record { emulator = emulator; tx_buffer = tx; events = [] }) pcb
                  (record { valid = v; idle = i.idle; vacant = i.collected }) i.session.octet kind
                  f;
          })
          (drop (prefix_len core pcb) (pcb ∷ rest)) v)

  -- A command is carried out once, whatever is lost. A reader sends a whole command in one block; whenever
  -- no answer comes it sends R(NAK), and when the listener answers that with R(ACK) of the other number
  -- it sends the block again. However often the block, R(NAK) or an answer is lost before the link
  -- holds, the engine and the listener end as they do over a link that loses nothing, and the reader
  -- ends with the same frame. The state is valid, the listener's last frame had the other number, and
  -- the radio's buffer can be allocated throughout.
  pub transact-receive :
      {s : Dfc Emulator} (pcb : ℕ) (rest : List ℕ) (fates : List Fate)
      → IsValid core s
      → IsCommand core s pcb rest
      → s.picc_block ≡ toggle s.expected_pcd_block
      → let nak = nak_of s.cid_valid s.expected_pcd_block s.cid in
        let (t, out) = receive core true s (pcb ∷ rest) in
        transact core s.expected_pcd_block (pcb ∷ rest) nak (pcb ∷ rest) fates s ≡ (t, frames out)
  transact-receive {s} pcb rest fates v i p =
      let (asked, first, again) = receive-lost core laws pcb rest v i p in
      let kind = receive-IsResponseFrame pcb rest v i in
      (transact-unheard core s.expected_pcd_block (pcb ∷ rest)
        (nak_of s.cid_valid s.expected_pcd_block s.cid) fates
        (record {
          ack = listener_ack core s.cid_valid (toggle s.expected_pcd_block) s.cid;
          asked = asked;
          unheard = listener_ack-unheard s.cid_valid s.cid s.expected_pcd_block v.expected_bit;
          first = first;
          heard = record {
            repeated = (receive-replayed core laws pcb rest v i).1;
            asked = again;
            answer = rw kind refl;
          };
        })).0

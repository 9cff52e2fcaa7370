-- ===== src/IsoDep/Lost.antt =====
-- Blocks and answers that get lost between the reader and dfc_emulator_listener.c.
use dfc_flipper.Base.{
  ℕ, ◌≤◌, ◌≡◌, sym, ◌∙◌, subst, true, List, [], ◌∷◌, length, All, toggle, ap, false, ◌&&◌, ◌++◌,
  arith, ◌==◌, toggle-le, toggle_ne,
}
use dfc_flipper.IsoDep.Receive.{receive}
use dfc_flipper.IsoDep.Invariant.{IsValid}
use dfc_flipper.Engine.{Engine, Laws}
use dfc_flipper.IsoDep.State.{Dfc}
use dfc_flipper.IsoDep.Links.{IsFilled, join, toggles, send_links}
use dfc_flipper.IsoDep.Replay.{IsCommand, Answered, receive-replayed, receive-Answered}
use dfc_flipper.IsoDep.Nak.{nak_of, listener_ack, receive-nak_if}
use dfc_flipper.Events.{transmit, frames}
use dfc_flipper.IsoDep.Bounds.{receive-IsSound}
use dfc_flipper.IsoDep.Chain.{send_links_lem, collected}

module _ {Emulator : Type 0} (core : Engine Emulator) (laws : Laws core) where
  -- A reader that gets no answer to a whole command in one block sends R(NAK) with the block's number.
  -- In a valid state whose last frame had the other number, and with the radio's buffer at hand:
  -- if the block was lost, the listener answers with R(ACK) of the other number, by which the reader
  -- knows it, and nothing changes, so that the block can be sent again; if the answer was lost, the
  -- listener sends the same frame again, and neither the engine nor the listener changes.
  pub receive-lost :
      {s : Dfc Emulator} (pcb : ℕ) (rest : List ℕ)
      → IsValid core s
      → IsCommand core s pcb rest
      → s.picc_block ≡ toggle s.expected_pcd_block
      → let nak = nak_of s.cid_valid s.expected_pcd_block s.cid in
        let (t, out) = receive core true s (pcb ∷ rest) in
        (receive core true s nak
          ≡ (s, transmit (listener_ack core s.cid_valid (toggle s.expected_pcd_block) s.cid) ∷ []))
        × (frames out ≡ t.last_frame ∷ [])
        × (receive core true t nak ≡ (t, transmit t.last_frame ∷ []))
  receive-lost {s} pcb rest v i p = (
    receive-nak_if core laws s.expected_pcd_block false v v.expected_bit
          (ground (arith, p, toggle_ne s.expected_pcd_block v.expected_bit))
        ∙ ap (λ n. (s, transmit (listener_ack core s.cid_valid n s.cid) ∷ [])) p,
    (receive-replayed core laws pcb rest v i).0,
    again _ (receive-Answered core laws true pcb rest v i)
        (receive-IsSound core laws true (pcb ∷ rest) v).valid,
  )
    where
      again :
          (t : Dfc Emulator)
          → Answered core s t
          → IsValid core t
          → receive core true t (nak_of s.cid_valid s.expected_pcd_block s.cid)
            ≡ (t, transmit t.last_frame ∷ [])
      again t a u =
          rw (← a.cid, ← a.cid_valid)
            (receive-nak_if core laws s.expected_pcd_block true u v.expected_bit
              (ground (arith, a.answered, a.picc)))

  -- A chained command after a response, at an even number of links: the answer to the last link is lost
  -- and the reader sends R(NAK) with that link's number. The listener, in whose state the links are
  -- collected, does not send its R(ACK) again but the last frame of the response before.
  pub receive-stale :
      {s : Dfc Emulator} (field : List ℕ) (fields : List (List ℕ))
      → IsValid core s
      → s.response_offset ≡ 0
      → s.command ≡ []
      → s.last_response_valid ≡ true
      → s.picc_block ≡ toggle s.expected_pcd_block
      → All IsFilled (field ∷ fields)
      → length (join (field ∷ fields)) ≤ core.worker_max_buffer_size
      → toggles (field ∷ fields) s.expected_pcd_block ≡ s.expected_pcd_block
      → let t = send_links core true s (field ∷ fields) in
        (t.command ≡ join (field ∷ fields))
        × (receive core true t (nak_of s.cid_valid (toggle t.expected_pcd_block) s.cid)
            ≡ (t, transmit s.last_frame ∷ []))
  receive-stale {s} field fields v idle vacant answered p f fits even =
      let (e, c) =
        send_links_lem core laws true {s = s} (field ∷ fields) 0
          (record { valid = v; idle = idle; room = omega (arith, fits, ap length vacant) }) f in
      let u = collected core laws s (field ∷ fields) in
      let n = toggle u.expected_pcd_block in
      let last : (s.last_response_valid && n == s.picc_block) ≡ true =
        ground (arith, answered, p, ap (λ k. toggle k) even) in
      subst
        (λ t.
          (t.command ≡ join (field ∷ fields))
          × (receive core true t (nak_of s.cid_valid (toggle t.expected_pcd_block) s.cid)
              ≡ (t, transmit s.last_frame ∷ [])))
        (sym e)
        (
          ap (λ (octets : List ℕ). octets ++ join (field ∷ fields)) vacant,
          receive-nak_if core laws {t = u} n true c.valid (toggle-le _ c.valid.expected_bit) last,
        )

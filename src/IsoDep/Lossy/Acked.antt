-- ===== src/IsoDep/Lossy/Acked.antt =====
-- R(ACK) sent again for a frame of dfc_emulator_listener.c that got lost, or whose R(ACK) did.
use dfc_flipper.Base.{
  ℕ, zero, suc, ◌≤◌, bit_and, ◌≡◌, refl, ap, ◌∙◌, Bool, true, false, ◌&&◌, xor, List, [], ◌∷◌,
  arith, ◌==◌, length, has, toggle,
}
use dfc_flipper.IsoDep.Receive.{receive, receive_r}
use dfc_flipper.IsoDep.Invariant.{IsValid}
use dfc_flipper.IsoDep.Ack.{ack_pcb, ack_of, send_frame_lem, ack_octet, receive-receive_r}
use dfc_flipper.Engine.{Engine, Laws}
use dfc_flipper.IsoDep.Lossy.{Fate, frames, transmit, block_of, block_lost, answer_lost, passes}
use dfc_flipper.IsoDep.State.{Dfc, block_of, Block, other_cid}
use dfc_flipper.Events.{frames, transmit, Effect}

module _ {Emulator : Type 0} (core : Engine Emulator) (block : List ℕ) where
  -- A block sent again after every loss. Past the end of the list nothing is lost.
  unfoldable pub insist : List Fate → Dfc Emulator → Dfc Emulator × List (List ℕ)
  insist [] s = let (t, out) = receive core true s block in (t, frames out)
  insist (block_lost ∷ fates) s = insist fates s
  insist (answer_lost ∷ fates) s = insist fates (receive core true s block).0
  insist (passes ∷ fates) s = let (t, out) = receive core true s block in (t, frames out)

  insist-again :
      {t : Dfc Emulator} {f : List ℕ} (fates : List Fate)
      → receive core true t block ≡ (t, transmit f ∷ [])
      → insist fates t ≡ (t, f ∷ [])
  unfolding insist
  insist-again [] h = rw h refl
  insist-again (block_lost ∷ fates) h = insist-again fates h
  insist-again (answer_lost ∷ fates) h =
      ap (λ (r : Dfc Emulator × List Effect). insist fates r.0) h ∙ insist-again fates h
  insist-again (passes ∷ fates) h = rw h refl

  pub insist_lem :
      (s : Dfc Emulator) {t : Dfc Emulator} {f : List ℕ} (fates : List Fate)
      → receive core true s block ≡ (t, transmit f ∷ [])
      → receive core true t block ≡ (t, transmit f ∷ [])
      → insist fates s ≡ (t, f ∷ [])
  unfolding insist
  insist_lem s [] h again = rw h refl
  insist_lem s (block_lost ∷ fates) h again = insist_lem s fates h again
  insist_lem s (answer_lost ∷ fates) h again =
      ap (λ (r : Dfc Emulator × List Effect). insist fates r.0) h ∙ insist-again fates again
  insist_lem s (passes ∷ fates) h again = rw h refl

ack_number : (p : ℕ) → p ≤ 1 → (c : Bool) → bit_and (ack_pcb c p) 1 ≡ toggle p
ack_number zero h true = refl
ack_number zero h false = refl
ack_number (suc zero) h true = refl
ack_number (suc zero) h false = refl
ack_number (suc (suc p)) h c = absurd (omega arith)

module _ {Emulator : Type 0} (core : Engine Emulator) (laws : Laws core) where
  receive_r-again :
      {t : Dfc Emulator} (b : Block)
      → IsValid core t
      → (bit_and b.pcb 0xE6 == 0xA2) ≡ true
      → (length b.rx_data == b.offset) ≡ true
      → other_cid t b ≡ false
      → (t.last_response_valid && bit_and b.pcb 1 == t.picc_block) ≡ true
      → receive_r core true t b ≡ (t, transmit t.last_frame ∷ [])
  unfolding receive_r
  receive_r-again {t} b v h1 h2 h3 e =
      rw (h1, h2, h3, e)
        (ap (λ out. (t, out)) (send_frame_lem core laws t.last_frame v.frame_bound))

  -- The R(ACK) that led to the last frame, once more.
  pub receive-ack_again :
      {t : Dfc Emulator} (c : Bool) (p : ℕ)
      → c ≡ t.cid_valid
      → IsValid core t
      → p ≤ 1
      → t.picc_block ≡ toggle p
      → t.last_response_valid ≡ true
      → receive core true t (ack_of c p t.cid) ≡ (t, transmit t.last_frame ∷ [])
  unfolding block_of xor
  receive-ack_again {t} true p e v h n l =
      let (a, b, c, _, _, g) = ack_octet p h true in
      let m : has (ack_pcb true p) core.cid_mask ≡ true = rw laws.cid_mask_lem g in
      receive-receive_r core laws t _ (t.cid ∷ []) (ground arith) a b
      ∙ receive_r-again (block_of core (ack_pcb true p) (t.cid ∷ [])) v c (ground arith)
          (ground arith) (ground (arith, ack_number p h true, l, n))
  receive-ack_again {t} false p e v h n l =
      let (a, b, c, _, _, g) = ack_octet p h false in
      let m : has (ack_pcb false p) core.cid_mask ≡ false = rw laws.cid_mask_lem g in
      receive-receive_r core laws t _ [] (ground arith) a b
      ∙ receive_r-again (block_of core (ack_pcb false p) []) v c (ground arith) (rw (m, ← e))
          (ground (arith, ack_number p h false, l, n))

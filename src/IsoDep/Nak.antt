-- ===== src/IsoDep/Nak.antt =====
-- R(NAK): the reader of dfc_emulator_listener.c has lost a block or its answer.
use dfc_flipper.Base.{
  ℕ, zero, suc, ◌≤◌, bit_and, bit_or, ◌≡◌, refl, Bool, true, false, ◌&&◌, xor, List, [], ◌∷◌, arith,
  ◌==◌, if◌then◌else◌, length, has, ap, ◌∙◌, inl, inr, Bool-cases,
}
use dfc_flipper.IsoDep.Receive.{receive, receive_r}
use dfc_flipper.IsoDep.Invariant.{IsValid}
use dfc_flipper.Engine.{Engine, Laws}
use dfc_flipper.IsoDep.State.{Dfc, block_of, Block, other_cid}
use dfc_flipper.IsoDep.Send.{send_control}
use dfc_flipper.Events.{transmit}
use dfc_flipper.IsoDep.Ack.{send_frame_lem, receive-receive_r, and_false}

-- R(NAK) with a block number, and with a CID or without.
abbrev pub nak_pcb : Bool → ℕ → ℕ
nak_pcb use_cid number = if use_cid then bit_or (bit_or 0xB2 number) 0x08 else bit_or 0xB2 number

abbrev pub nak_of : Bool → ℕ → ℕ → List ℕ
nak_of true number cid = nak_pcb true number ∷ cid ∷ []
nak_of false number cid = nak_pcb false number ∷ []

nak_octet :
    (n : ℕ)
    → n ≤ 1
    → (c : Bool)
    → ((bit_and (nak_pcb c n) 0xF0 == 0xD0) ≡ false)
      × ((bit_and (nak_pcb c n) 0xC0 == 0x80) ≡ true)
      × ((bit_and (nak_pcb c n) 0xE6 == 0xA2) ≡ true)
      × (bit_and (nak_pcb c n) 1 ≡ n)
      × (has (nak_pcb c n) 0x10 ≡ true)
      × (has (nak_pcb c n) 0x08 ≡ c)
nak_octet zero h true = (refl, refl, refl, refl, refl, refl)
nak_octet zero h false = (refl, refl, refl, refl, refl, refl)
nak_octet (suc zero) h true = (refl, refl, refl, refl, refl, refl)
nak_octet (suc zero) h false = (refl, refl, refl, refl, refl, refl)
nak_octet (suc (suc n)) h c = absurd (omega arith)

module _ {Emulator : Type 0} (core : Engine Emulator) where
  -- R(ACK) of the listener.
  abbrev pub listener_ack : Bool → ℕ → ℕ → List ℕ
  listener_ack use_cid number cid =
      if use_cid
      then bit_or (bit_or 0xA2 number) core.cid_mask ∷ cid ∷ []
      else bit_or 0xA2 number ∷ []

module _ {Emulator : Type 0} (core : Engine Emulator) (laws : Laws core) where
  abbrev nak_answer : Dfc Emulator → Block → List ℕ
  nak_answer t b =
      if t.last_response_valid && bit_and b.pcb 1 == t.picc_block
      then t.last_frame
      else listener_ack core b.use_cid t.picc_block b.cid

  send_control_lem :
      (use_cid : Bool) (n cid : ℕ)
      → send_control core true (bit_or 0xA2 n) use_cid cid
        ≡ transmit (listener_ack core use_cid n cid) ∷ []
  unfolding send_control
  send_control_lem true n cid =
      send_frame_lem core laws (bit_or (bit_or 0xA2 n) core.cid_mask ∷ cid ∷ []) (omega arith)
  send_control_lem false n cid = send_frame_lem core laws (bit_or 0xA2 n ∷ []) (omega arith)

  receive_r-nak :
      {t : Dfc Emulator} (b : Block)
      → IsValid core t
      → (bit_and b.pcb 0xE6 == 0xA2) ≡ true
      → (length b.rx_data == b.offset) ≡ true
      → other_cid t b ≡ false
      → has b.pcb 0x10 ≡ true
      → receive_r core true t b ≡ (t, transmit (nak_answer t b) ∷ [])
  unfolding receive_r
  receive_r-nak {t} b v h1 h2 h3 h4 =
      elim (Bool-cases (t.last_response_valid && bit_and b.pcb 1 == t.picc_block)) [
        | inl e ↦
            rw (h1, h2, h3, e)
              (ap (λ out. (t, out)) (send_frame_lem core laws t.last_frame v.frame_bound))
        | inr e ↦
            rw (h1, h2, h3, e, h4, and_false)
              (ap (λ out. (t, out)) (send_control_lem b.use_cid t.picc_block b.cid))
      ]

  -- The answer to R(NAK): the last frame where it has the number asked for, else R(ACK).
  receive-nak :
      {t : Dfc Emulator} (c : Bool) (n : ℕ)
      → c ≡ t.cid_valid
      → IsValid core t
      → n ≤ 1
      → receive core true t (nak_of c n t.cid) ≡ (
        t,
        transmit (
              if t.last_response_valid && n == t.picc_block
              then t.last_frame
              else listener_ack core c t.picc_block t.cid)
            ∷ [],
      )
  unfolding block_of xor
  receive-nak {t} true n e v h =
      let (a, b, c, d, f, g) = nak_octet n h true in
      let m : has (nak_pcb true n) core.cid_mask ≡ true = rw laws.cid_mask_lem g in
      receive-receive_r core laws t _ (t.cid ∷ []) (ground arith) a b
      ∙ receive_r-nak (block_of core (nak_pcb true n) (t.cid ∷ [])) v c (ground arith)
          (ground arith) f
      ∙ rw (d, m) refl
  receive-nak {t} false n e v h =
      let (a, b, c, d, f, g) = nak_octet n h false in
      let m : has (nak_pcb false n) core.cid_mask ≡ false = rw laws.cid_mask_lem g in
      receive-receive_r core laws t _ [] (ground arith) a b
      ∙ receive_r-nak (block_of core (nak_pcb false n) []) v c (ground arith) (rw (m, ← e)) f
      ∙ rw (d, m) refl

  pub receive-nak_if :
      {t : Dfc Emulator} (n : ℕ) (repeats : Bool)
      → IsValid core t
      → n ≤ 1
      → (t.last_response_valid && n == t.picc_block) ≡ repeats
      → receive core true t (nak_of t.cid_valid n t.cid) ≡ (
        t,
        transmit
              (if repeats then t.last_frame else listener_ack core t.cid_valid t.picc_block t.cid)
            ∷ [],
      )
  receive-nak_if {t} n repeats v h e =
      receive-nak t.cid_valid n refl v h
      ∙ ap
          (λ b. (
            t,
            transmit (if b then t.last_frame else listener_ack core t.cid_valid t.picc_block t.cid)
                ∷ [],
          ))
          e

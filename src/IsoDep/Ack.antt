-- ===== src/IsoDep/Ack.antt =====
-- The reader's acknowledgement of a frame, and what the listener of dfc_emulator_listener.c makes of it.
use dfc_flipper.Base.{
  ℕ, ◌≤◌, List, if◌then◌else◌, [], Bool, ◌∷◌, bit_or, toggle, ◌==◌, suc, drop, ◌++◌, bit_and, true,
  ◌≡◌, zero, false, has, arith, refl, length, if_rule, ltb→lt, ap, ◌&&◌, ltb, inl, inr, ◌∙◌, ◌+◌,
  ◌<◌, xor, take, ap₂, ◌⊎◌, sym, drop_all, take-drop-take, length-take, drop-drop, take-append-drop,
}
use dfc_flipper.IsoDep.Invariant.{length-i_frame}
use dfc_flipper.Engine.{Engine, Laws}
use dfc_flipper.IsoDep.State.{Dfc, block_of, Block, other_cid, iso_dep_frame_max, prefix_len}
use dfc_flipper.IsoDep.Receive.{receive, receive_block, receive_r}
use dfc_flipper.IsoDep.Send.{
  advance_response, send_next_i_response, send_frame, i_frame, response_prefix,
}
use dfc_flipper.IsoDep.Frames.{info, Pending}
use dfc_flipper.ByteBuf.{contents}
use dfc_flipper.Events.{frames, transmit}
use dfc_flipper.IsoDep.Control.{toggle_picc-IsValid}

-- R(ACK) with the block number after `picc_block`, and with a CID or without.
abbrev pub ack_pcb : Bool → ℕ → ℕ
ack_pcb use_cid picc_block =
    if use_cid
    then bit_or (bit_or 0xA2 (toggle picc_block)) 0x08
    else bit_or 0xA2 (toggle picc_block)

abbrev pub ack_of : Bool → ℕ → ℕ → List ℕ
ack_of true picc_block cid = ack_pcb true picc_block ∷ cid ∷ []
ack_of false picc_block cid = ack_pcb false picc_block ∷ []

module _ {Emulator : Type 0} (core : Engine Emulator) where
  -- The R(ACK) of the reader for the frame that was sent last.
  abbrev pub ack : Dfc Emulator → List ℕ
  ack s = ack_of s.cid_valid s.picc_block s.cid

  -- The reader acknowledges frames, at most as many as the first argument, while the response is not
  -- complete; the frames that it receives.
  unfoldable pub deliver : ℕ → Dfc Emulator → List (List ℕ)
  deliver zero s = []
  deliver (suc n) s =
      let (t, out) = receive core true s (ack s) in
      let rest = deliver n t in if s.response_offset == 0 then [] else frames out ++ rest

  -- The information fields of the frames, joined.
  abbrev pub payload : List (List ℕ) → List ℕ
  payload [] = []
  payload (f ∷ fs) = info core f ++ payload fs

  -- What is left of the response under way.
  abbrev pub unsent : Dfc Emulator → List ℕ
  unsent s = if s.response_offset == 0 then [] else drop s.response_offset (contents s.tx_buffer)

  -- The state after an acknowledgement.
  abbrev pub acknowledged : Dfc Emulator → Dfc Emulator
  acknowledged s = record (advance_response core (record s { picc_block = toggle s.picc_block })) {
    expected_pcd_block = toggle (toggle s.picc_block);
  }

pub list_split :
    (xs : List ℕ) (n o c : ℕ)
    → o + c ≤ n
    → take c (drop o xs) ++ drop (o + c) (take n xs) ≡ drop o (take n xs)
list_split xs n o c h =
    ap₂ ◌++◌ (sym (take-drop-take n c xs o h)) (sym (drop-drop o c (take n xs)))
    ∙ take-append-drop c (drop o (take n xs))

pub rest_of :
    (m : Bool) (o c n : ℕ) (xs : List ℕ)
    → ((m ≡ true) × (o + c < n) × (60 ≤ c)) ⊎ ((m ≡ false) × (o + c ≡ n))
    → (if (if m then o + c else 0) == 0 then [] else drop (if m then o + c else 0) (take n xs))
      ≡ drop (o + c) (take n xs)
rest_of true o c n xs h = ground arith
rest_of false o c n xs (inl h) = absurd (cc (h.0))
rest_of false o c n xs (inr h) =
    sym (drop_all (o + c) (take n xs) (omega (arith, length-take n xs, h.1)))

pub and_false : (x : Bool) → (x && false) ≡ false
and_false true = refl
and_false false = refl

pub ack_octet :
    (p : ℕ)
    → p ≤ 1
    → (c : Bool)
    → ((bit_and (ack_pcb c p) 0xF0 == 0xD0) ≡ false)
      × ((bit_and (ack_pcb c p) 0xC0 == 0x80) ≡ true)
      × ((bit_and (ack_pcb c p) 0xE6 == 0xA2) ≡ true)
      × ((bit_and (ack_pcb c p) 1 == p) ≡ false)
      × (has (ack_pcb c p) 0x10 ≡ false)
      × (has (ack_pcb c p) 0x08 ≡ c)
ack_octet zero h true = (refl, refl, refl, refl, refl, refl)
ack_octet zero h false = (refl, refl, refl, refl, refl, refl)
ack_octet (suc zero) h true = (refl, refl, refl, refl, refl, refl)
ack_octet (suc zero) h false = (refl, refl, refl, refl, refl, refl)
ack_octet (suc (suc p)) h c = absurd (omega arith)

module _ {Emulator : Type 0} (core : Engine Emulator) (laws : Laws core) where
  pub send_frame_lem :
      (frame : List ℕ)
      → length frame ≤ iso_dep_frame_max
      → send_frame core true frame ≡ transmit frame ∷ []
  unfolding send_frame
  send_frame_lem frame h = ground (arith, laws.frame_fits)

  pub send_next_lem :
      {s : Dfc Emulator}
      → Pending core s
      → send_next_i_response core true s ≡ (advance_response core s, transmit (i_frame core s) ∷ [])
  unfolding send_next_i_response advance_response
  send_next_lem {s} q =
      if_rule (λ r. r ≡ (advance_response core s, transmit (i_frame core s) ∷ []))
        (ltb s.tx_buffer.size_bytes (response_prefix core s))
        (λ e. absurd (omega (arith, ltb→lt _ _ e, q.whole)))
        (λ _.
          ap (λ out. (advance_response core s, out))
            (send_frame_lem (i_frame core s) (length-i_frame core laws true s)))

  pub toggle-Pending :
      {s : Dfc Emulator}
      → Pending core s
      → Pending core (record s { picc_block = toggle s.picc_block })
  toggle-Pending q = record {
    valid = toggle_picc-IsValid core laws true q.valid;
    whole = q.whole;
    octet = q.octet;
  }

  pub receive_r-ack :
      {s : Dfc Emulator} (b : Block)
      → Pending core s
      → (s.response_offset == 0) ≡ false
      → (bit_and b.pcb 0xE6 == 0xA2) ≡ true
      → (length b.rx_data == b.offset) ≡ true
      → other_cid s b ≡ false
      → (bit_and b.pcb 1 == s.picc_block) ≡ false
      → has b.pcb 0x10 ≡ false
      → receive_r core true s b ≡ (
        acknowledged core s,
        transmit (i_frame core (record s { picc_block = toggle s.picc_block })) ∷ [],
      )
  unfolding receive_r advance_response
  receive_r-ack {s} b q h0 h1 h2 h3 h4 h5 =
      rw (h1, h2, h3, h4, and_false, h0, h5, send_next_lem (toggle-Pending q))

  pub receive-receive_r :
      (s : Dfc Emulator) (pcb : ℕ) (rest : List ℕ)
      → ltb (length (pcb ∷ rest)) (prefix_len core pcb) ≡ false
      → (bit_and pcb 0xF0 == 0xD0) ≡ false
      → (bit_and pcb 0xC0 == 0x80) ≡ true
      → receive core true s (pcb ∷ rest) ≡ receive_r core true s (block_of core pcb rest)
  unfolding receive receive_block block_of receive_r
  receive-receive_r s pcb rest h0 h1 h2 = rw (h0, h1, h2)

  pub receive-ack_of :
      {s : Dfc Emulator} (c : Bool)
      → c ≡ s.cid_valid
      → Pending core s
      → (s.response_offset == 0) ≡ false
      → receive core true s (ack_of c s.picc_block s.cid) ≡ (
        acknowledged core s,
        transmit (i_frame core (record s { picc_block = toggle s.picc_block })) ∷ [],
      )
  unfolding block_of xor
  receive-ack_of {s} true e q h =
      let (a, b, c, d, f, g) = ack_octet s.picc_block q.valid.picc_bit true in
      let m : has (ack_pcb true s.picc_block) core.cid_mask ≡ true = rw laws.cid_mask_lem g in
      receive-receive_r s _ (s.cid ∷ []) (ground arith) a b
      ∙ receive_r-ack _ q h c (ground arith) (ground arith) d f
  receive-ack_of {s} false e q h =
      let (a, b, c, d, f, g) = ack_octet s.picc_block q.valid.picc_bit false in
      let m : has (ack_pcb false s.picc_block) core.cid_mask ≡ false = rw laws.cid_mask_lem g in
      receive-receive_r s _ [] (ground arith) a b
      ∙ receive_r-ack _ q h c (ground arith) (rw (m, ← e)) d f

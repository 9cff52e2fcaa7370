-- ===== src/IsoDep/Frames.antt =====
-- One frame of a response: its header, and the part of the response that it carries.
use dfc_flipper.Base.{
  ℕ, Bool, true, false, List, [], ◌∷◌, arith, if◌then◌else◌, passes_under, bit_or, bit_and, sym,
  ◌==◌, ◌≤◌, ◌&&◌, ◌<◌, ◌≡◌, length, passes_under-at, suc, drop, get_or, set, take, ◌++◌,
  length-set, length-take, refl, zero, ap, ◌+◌, ◌∙◌, ◌⊎◌, Bool-cases, drop-append, inl, inr,
}
use dfc_flipper.IsoDep.Invariant.{IsValid, remaining_lem}
use mathlib.Core.Path.{sym}
use dfc_flipper.Engine.{Engine, Laws}
use dfc_flipper.IsoDep.State.{Dfc, prefix_len}
use dfc_flipper.IsoDep.Send.{i_frame, response_prefix, response_pcb, i_pcb, chunk_len, more}

-- Bits of a PCB, by evaluation over every octet.
header : ℕ → ℕ → Bool → ℕ
header x p m = let pcb = bit_or (bit_and x 0xEE) p in if m then bit_or pcb 0x10 else pcb

header_test : Bool → ℕ → ℕ → Bool
unfolding header
header_test m p x =
    (bit_and (header x p m) 0x08 == bit_and x 0x08)
    && ((bit_and (header x p m) 1 == p)
        && ((bit_and (header x p m) 0x10 == (if m then 0x10 else 0))
            && (bit_and (header x p m) 0xE2 == bit_and x 0xE2)))

header_table : (m : Bool) (p : ℕ) → p ≤ 1 → passes_under (header_test m p) 256 ≡ true
unfolding header_test passes_under
header_table true zero h = refl
header_table true (suc zero) h = refl
header_table true (suc (suc p)) h = absurd (omega arith)
header_table false zero h = refl
header_table false (suc zero) h = refl
header_table false (suc (suc p)) h = absurd (omega arith)

header_lem :
    (m : Bool) (p x : ℕ)
    → p ≤ 1
    → x < 256
    → (bit_and (header x p m) 0x08 ≡ bit_and x 0x08)
      × (bit_and (header x p m) 1 ≡ p)
      × (bit_and (header x p m) 0x10 ≡ (if m then 0x10 else 0))
      × (bit_and (header x p m) 0xE2 ≡ bit_and x 0xE2)
unfolding header_test
header_lem m p x hp hx =
    let ok = passes_under-at (header_test m p) 256 hx (header_table m p hp) in header_parts ok
  where
    header_parts :
        header_test m p x ≡ true
        → (bit_and (header x p m) 0x08 ≡ bit_and x 0x08)
          × (bit_and (header x p m) 1 ≡ p)
          × (bit_and (header x p m) 0x10 ≡ (if m then 0x10 else 0))
          × (bit_and (header x p m) 0xE2 ≡ bit_and x 0xE2)
    header_parts ok = ground arith

module _ {Emulator : Type 0} (core : Engine Emulator) where
  -- The information field of an I-block: what follows its PCB and CID.
  abbrev pub info : List ℕ → List ℕ
  info frame = drop (prefix_len core (get_or frame 0 0)) frame

  -- A response under way: its prefix is whole and its PCB is an octet.
  pub record Pending (s : Dfc Emulator) : Type 0 where
    pub valid : IsValid core s
    pub whole : response_prefix core s ≤ s.tx_buffer.size_bytes
    pub octet : response_pcb core s < 256

set_head : (xs ys : List ℕ) (v : ℕ) → 1 ≤ length xs → get_or (set xs 0 v ++ ys) 0 0 ≡ v
set_head [] ys v h = absurd (omega arith)
set_head (x ∷ xs) ys v h = refl

module _ {Emulator : Type 0} (core : Engine Emulator) (laws : Laws core) {s : Dfc Emulator}
    (q : Pending core s) where
  pub prefix_small : (1 ≤ response_prefix core s) × (response_prefix core s ≤ 2)
  prefix_small = ground arith

  header_len :
      length (set (take (response_prefix core s) s.tx_buffer.octets) 0 (i_pcb core s))
      ≡ response_prefix core s
  header_len = omega (
    arith,
    length-set (take (response_prefix core s) s.tx_buffer.octets) 0 (i_pcb core s),
    length-take (response_prefix core s) s.tx_buffer.octets,
    q.whole,
    q.valid.buffer.array,
    q.valid.buffer.in_use,
  )

  i_frame_pcb : get_or (i_frame core s) 0 0 ≡ i_pcb core s
  i_frame_pcb = set_head (take (response_prefix core s) s.tx_buffer.octets) _ (i_pcb core s) (
      omega (
        arith,
        length-take (response_prefix core s) s.tx_buffer.octets,
        prefix_small,
        q.whole,
        q.valid.buffer.array,
        q.valid.buffer.in_use,
      ))

  -- The first octet of the next frame of a response, in a valid state with a response whose first octet
  -- is below 256 and whose prefix is whole: the response's CID bit, the block number of the state, the
  -- chaining bit just when more of the response follows, and the response's kind of block.
  pub i_frame_header :
      (bit_and (get_or (i_frame core s) 0 0) 0x08 ≡ bit_and (response_pcb core s) 0x08)
      × (bit_and (get_or (i_frame core s) 0 0) 1 ≡ s.picc_block)
      × (bit_and (get_or (i_frame core s) 0 0) 0x10 ≡ (if more core s then 0x10 else 0))
      × (bit_and (get_or (i_frame core s) 0 0) 0xE2 ≡ bit_and (response_pcb core s) 0xE2)
  unfolding header
  i_frame_header =
      rw i_frame_pcb
        (header_lem (more core s) s.picc_block (response_pcb core s) q.valid.picc_bit q.octet)

  prefix_len_of :
      (a b : ℕ) → bit_and a 0x08 ≡ bit_and b 0x08 → prefix_len core a ≡ prefix_len core b
  prefix_len_of a b e = rw (laws.cid_mask_lem, e)

  -- A frame carries the part of the response that starts at the offset and is as long as fits.
  pub info-i_frame :
      info core (i_frame core s)
      ≡ take (chunk_len core s) (drop s.response_offset s.tx_buffer.octets)
  info-i_frame =
      ap (λ n. drop n (i_frame core s))
        (prefix_len_of (get_or (i_frame core s) 0 0) (response_pcb core s) i_frame_header.0
          ∙ sym header_len)
      ∙ drop-append (set (take (response_prefix core s) s.tx_buffer.octets) 0 (i_pcb core s)) _

  -- A frame that announces more carries at least 60 octets; the last one carries all that is left.
  pub chunk_cases :
      ((more core s ≡ true)
        × (s.response_offset + chunk_len core s < s.tx_buffer.size_bytes)
        × (60 ≤ chunk_len core s))
      ⊎ ((more core s ≡ false) × (s.response_offset + chunk_len core s ≡ s.tx_buffer.size_bytes))
  chunk_cases = elim (Bool-cases (more core s)) [
    | inl e ↦ inl (
      e,
      ground (arith, remaining_lem core laws true q.valid, q.valid.offset_bound),
      ground (arith, prefix_small),
    )
    | inr e ↦ inr (e, ground (arith, remaining_lem core laws true q.valid, q.valid.offset_bound))
  ]

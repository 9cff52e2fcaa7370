-- ===== src/IsoDep/Links.antt =====
-- The links of a chained command, as the reader numbers and sends them to dfc_emulator_listener.c.
use dfc_flipper.Base.{
  ℕ, Bool, ◌≤◌, List, bit_or, if◌then◌else◌, ◌∷◌, length, ◌<◌, ◌++◌, toggle, drop, true, xor,
  bit_and, false, ◌≡◌, [], ◌==◌, has, arith, suc, zero, refl,
}
use dfc_flipper.Engine.{Engine, Laws}
use dfc_flipper.IsoDep.State.{Dfc, block_of, prefix_len}
use dfc_flipper.IsoDep.Routing.{IsSession}
use dfc_flipper.IsoDep.Receive.{receive}

-- The PCB of the reader's I-block: number, CID bit, chaining bit.
abbrev pub link_pcb : ℕ → Bool → Bool → ℕ
link_pcb number use_cid chained =
    bit_or (bit_or (bit_or 0x02 number) (if chained then 0x10 else 0)) (if use_cid then 0x08 else 0)

-- What follows the PCB: the CID, where one is used, and the information field.
abbrev pub link_rest : Bool → ℕ → List ℕ → List ℕ
link_rest true cid field = cid ∷ field
link_rest false cid field = field

-- The block number after that many links.
abbrev pub toggles : List (List ℕ) → ℕ → ℕ
toggles [] number = number
toggles (field ∷ fields) number = toggles fields (toggle number)

abbrev pub join : List (List ℕ) → List ℕ
join [] = []
join (field ∷ fields) = field ++ join fields

abbrev pub IsFilled : List ℕ → Type 0
IsFilled field = 1 ≤ length field

module _ {Emulator : Type 0} (core : Engine Emulator) (radio_alloc : Bool) where
  -- The next I-block of the reader, as a PCB and the rest.
  abbrev pub next_pcb : Dfc Emulator → Bool → ℕ
  next_pcb s chained = link_pcb s.expected_pcd_block s.cid_valid chained

  abbrev pub next_rest : Dfc Emulator → List ℕ → List ℕ
  next_rest s field = link_rest s.cid_valid s.cid field

  -- The state after the links of a chain, all but the last block.
  unfoldable pub send_links : Dfc Emulator → List (List ℕ) → Dfc Emulator
  send_links s [] = s
  send_links s (field ∷ fields) =
      send_links (receive core radio_alloc s (next_pcb s true ∷ next_rest s field)).0 fields

pub link_facts :
    (n : ℕ)
    → n ≤ 1
    → (c m : Bool)
    → (link_pcb n c m < 256)
      × ((bit_and (link_pcb n c m) 0xE2 == 0x02) ≡ true)
      × (has (link_pcb n c m) 0x04 ≡ false)
      × (has (link_pcb n c m) 0x08 ≡ c)
      × (bit_and (link_pcb n c m) 1 ≡ n)
      × (has (link_pcb n c m) 0x10 ≡ m)
link_facts zero h true true = (omega arith, refl, refl, refl, refl, refl)
link_facts zero h true false = (omega arith, refl, refl, refl, refl, refl)
link_facts zero h false true = (omega arith, refl, refl, refl, refl, refl)
link_facts zero h false false = (omega arith, refl, refl, refl, refl, refl)
link_facts (suc zero) h true true = (omega arith, refl, refl, refl, refl, refl)
link_facts (suc zero) h true false = (omega arith, refl, refl, refl, refl, refl)
link_facts (suc zero) h false true = (omega arith, refl, refl, refl, refl, refl)
link_facts (suc zero) h false false = (omega arith, refl, refl, refl, refl, refl)
link_facts (suc (suc n)) h c m = absurd (omega arith)

module _ {Emulator : Type 0} (core : Engine Emulator) (laws : Laws core) where
  -- Such a block belongs to the session, and its information field is the reader's.
  pub record IsNext (s : Dfc Emulator) (pcb : ℕ) (rest : List ℕ) (field : List ℕ) : Type 0 where
    pub session : IsSession core s pcb rest
    pub carries : drop (prefix_len core pcb) (pcb ∷ rest) ≡ field
    pub filled : prefix_len core pcb < length (pcb ∷ rest)

  pub link-IsNext :
      {s : Dfc Emulator} (c m : Bool) (field : List ℕ)
      → c ≡ s.cid_valid
      → s.expected_pcd_block ≤ 1
      → IsFilled field
      → IsNext s (link_pcb s.expected_pcd_block c m) (link_rest c s.cid field) field
  unfolding block_of xor
  link-IsNext {s} true m field e h f =
      let (a, b, d, g, _, _) = link_facts s.expected_pcd_block h true m in
      let mask : has (link_pcb s.expected_pcd_block true m) core.cid_mask ≡ true =
        rw laws.cid_mask_lem g in
      record {
        session = record {
          octet = a;
          i_block = b;
          no_nad = rw laws.nad_mask_lem d;
          long_enough = rw mask (omega arith);
          same_cid = rw (mask, ← e) (ground arith);
        };
        carries = rw mask refl;
        filled = rw mask (omega arith);
      }
  link-IsNext {s} false m field e h f =
      let (a, b, d, g, _, _) = link_facts s.expected_pcd_block h false m in
      let mask : has (link_pcb s.expected_pcd_block false m) core.cid_mask ≡ false =
        rw laws.cid_mask_lem g in
      record {
        session = record {
          octet = a;
          i_block = b;
          no_nad = rw laws.nad_mask_lem d;
          long_enough = rw mask (omega arith);
          same_cid = rw (mask, ← e);
        };
        carries = rw mask refl;
        filled = rw mask (omega arith);
      }

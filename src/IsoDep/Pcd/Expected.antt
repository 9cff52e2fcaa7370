-- ===== src/IsoDep/Pcd/Expected.antt =====
-- A frame of dfc_emulator_listener.c is the one that the reader of IsoDep/Pcd expects, and the block
-- number after a response.
use dfc_flipper.Base.{
  ℕ, suc, ◌+◌, ◌-◌, ◌≤◌, ◌<◌, ◌≡◌, true, false, get_or, has, toggle, toggle-le, bit_and, Bool, not,
  ◌&&◌, xor, arith, ◌==◌, if◌then◌else◌, ap, ◌∙◌, sym,
}
use dfc_flipper.IsoDep.Invariant.{IsValid}
use dfc_flipper.Engine.{Engine, Laws}
use dfc_flipper.IsoDep.State.{Dfc}
use dfc_flipper.IsoDep.Pcd.{is_i_block, number_after}
use dfc_flipper.IsoDep.Frames.{Pending, i_frame_header}
use dfc_flipper.IsoDep.Send.{advance_response, response_pcb, i_frame, more}
use dfc_flipper.IsoDep.Delivery.{advance_response-Pending}
use dfc_flipper.IsoDep.Links.{link_pcb, link_facts}

-- What the reader tests of a PCB, from the facts about the PCB.
expected_bits :
    (p x n mask : ℕ) (c m : Bool)
    → mask ≡ 0x08
    → bit_and p 0x08 ≡ bit_and x 0x08
    → bit_and p 1 ≡ n
    → bit_and p 0x10 ≡ (if m then 0x10 else 0)
    → bit_and p 0xE2 ≡ bit_and x 0xE2
    → (bit_and x 0xE2 == 0x02) ≡ true
    → has x 0x08 ≡ c
    → ((bit_and p 0xE2 == 0x02 && (bit_and p 1 == n && not (xor (has p mask) c))) ≡ true)
      × (has p 0x10 ≡ m)
unfolding xor
expected_bits p x n mask c m e0 e1 e2 e3 e4 e5 e6 = (rw e0 (ground arith), ground arith)

module _ {Emulator : Type 0} (core : Engine Emulator) where
  -- The state that sending a frame of a response leaves, the first one or a later one.
  abbrev pub sent : Dfc Emulator → Dfc Emulator
  sent u = record (advance_response core u) { expected_pcd_block = toggle u.picc_block }

  -- A response under way, to a block of the reader with or without a CID.
  pub record IsAnswering (u : Dfc Emulator) : Type 0 where
    pub pending : Pending core u
    pub number : ℕ
    pub number_bit : number ≤ 1
    pub framing : response_pcb core u ≡ link_pcb number u.cid_valid false

  -- What is the same once a response has been received, and what is ready for the next command.
  pub record Settled (u t : Dfc Emulator) : Type 0 where
    pub valid : IsValid core t
    pub emulator : t.emulator ≡ u.emulator
    pub tx_buffer : t.tx_buffer ≡ u.tx_buffer
    pub command : t.command ≡ u.command
    pub cid_valid : t.cid_valid ≡ u.cid_valid
    pub cid : t.cid ≡ u.cid
    pub idle : t.response_offset ≡ 0
    pub alternates : t.picc_block ≡ toggle t.expected_pcd_block

pub number_after_stop :
    (fuel room number n : ℕ) → n ≤ room → number_after (suc fuel) room number n ≡ toggle number
unfolding number_after
number_after_stop fuel room number n h = ground arith

pub number_after_more :
    (fuel room number n : ℕ)
    → room < n
    → number_after (suc fuel) room number n ≡ number_after fuel room (toggle number) (n - room)
unfolding number_after
number_after_more fuel room number n h = ground arith

pub next_count :
    (fuel room number size offset next : ℕ)
    → next ≡ offset + room
    → offset + room < size
    → number_after fuel room (toggle number) (size - next)
      ≡ number_after (suc fuel) room number (size - offset)
next_count fuel room number size offset next e h =
    ap (λ n. number_after fuel room (toggle number) n) (omega arith)
    ∙ sym (number_after_more fuel room number (size - offset) (omega arith))

module _ {Emulator : Type 0} (core : Engine Emulator) (laws : Laws core) where
  pub sent-Pending : {u : Dfc Emulator} → Pending core u → Pending core (sent core u)
  unfolding advance_response
  sent-Pending {u} q =
      let a = advance_response-Pending core laws q in
      record {
        valid = record {
          buffer = a.valid.buffer;
          frame_bound = a.valid.frame_bound;
          expected_bit = toggle-le u.picc_block q.valid.picc_bit;
          picc_bit = a.valid.picc_bit;
          command_bound = a.valid.command_bound;
          offset_bound = a.valid.offset_bound;
        };
        whole = q.whole;
        octet = q.octet;
      }

  -- The next frame is one that the reader expects.
  pub i_frame-is_i_block :
      {u : Dfc Emulator}
      → IsAnswering core u
      → (is_i_block core u.cid_valid u.cid u.picc_block (i_frame core u) ≡ true)
        × (has (get_or (i_frame core u) 0 0) 0x10 ≡ more core u)
  i_frame-is_i_block {u} i =
      let (cid_bit, number, chaining, kind) = i_frame_header core laws i.pending in
      let (_, i_kind, _, with_cid, _, _) = link_facts i.number i.number_bit u.cid_valid false in
      expected_bits _ (response_pcb core u) u.picc_block core.cid_mask u.cid_valid (more core u)
        laws.cid_mask_lem cid_bit number chaining kind (rw i.framing i_kind) (rw i.framing with_cid)

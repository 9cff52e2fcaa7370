-- ===== src/IsoDep/Routing.antt =====
-- Where the callback sends an I-block of the session, and what a command leaves behind.
use dfc_flipper.Base.{
  passes_under, ℕ, ◌≡◌, Bool, ◌<◌, not, List, true, bit_and, refl, ◌==◌, false, ◌||◌, has, ◌∷◌,
  passes_under-at, ◌&&◌, ◌≤◌, ltb, length, arith,
}
use dfc_flipper.Engine.{Engine}
use dfc_flipper.IsoDep.State.{Dfc, block_of, prefix_len, other_cid}
use dfc_flipper.IsoDep.Receive.{receive, receive_block, receive_i, receive_numbered}

routing_test : ℕ → Bool
routing_test pcb =
    not (bit_and pcb 0xE2 == 0x02)
    || (not (bit_and pcb 0xF0 == 0xD0)
        && (not (bit_and pcb 0xC0 == 0x80) && not (bit_and pcb 0xC0 == 0xC0)))

routing_table : passes_under routing_test 256 ≡ true
unfolding passes_under routing_test
routing_table = refl

pub i_block_routing :
    (pcb : ℕ)
    → pcb < 256
    → (bit_and pcb 0xE2 == 0x02) ≡ true
    → ((bit_and pcb 0xF0 == 0xD0) ≡ false)
      × ((bit_and pcb 0xC0 == 0x80) ≡ false)
      × ((bit_and pcb 0xC0 == 0xC0) ≡ false)
unfolding routing_test
i_block_routing pcb h e = routing_parts (passes_under-at routing_test 256 h routing_table)
  where
    routing_parts :
        routing_test pcb ≡ true
        → ((bit_and pcb 0xF0 == 0xD0) ≡ false)
          × ((bit_and pcb 0xC0 == 0x80) ≡ false)
          × ((bit_and pcb 0xC0 == 0xC0) ≡ false)
    routing_parts ok = ground arith

module _ {Emulator : Type 0} (core : Engine Emulator) where
  -- An I-block of this session: its PCB, no NAD, and the CID of the session.
  pub record IsSession (s : Dfc Emulator) (pcb : ℕ) (rest : List ℕ) : Type 0 where
    pub octet : pcb < 256
    pub i_block : (bit_and pcb 0xE2 == 0x02) ≡ true
    pub no_nad : has pcb core.nad_mask ≡ false
    pub long_enough : prefix_len core pcb ≤ length (pcb ∷ rest)
    pub same_cid : other_cid s (block_of core pcb rest) ≡ false

  pub receive-receive_numbered :
      (radio_alloc : Bool) (s : Dfc Emulator) (pcb : ℕ) (rest : List ℕ)
      → IsSession s pcb rest
      → receive core radio_alloc s (pcb ∷ rest)
        ≡ receive_numbered core radio_alloc s (block_of core pcb rest)
  unfolding receive receive_block receive_i block_of
  receive-receive_numbered radio_alloc s pcb rest i =
      let (a, b, c) = i_block_routing pcb i.octet i.i_block in
      let short : ltb (length (pcb ∷ rest)) (prefix_len core pcb) ≡ false =
        ground (arith, i.long_enough) in
      rw (short, a, b, c, i.i_block, i.no_nad, i.same_cid)

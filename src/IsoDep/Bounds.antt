-- ===== src/IsoDep/Bounds.antt =====
-- Every received frame keeps the listener's state valid and is answered by at most one frame, which
-- fits a 64-octet FSC with its CRC.
use dfc_flipper.Base.{
  ℕ, ◌≤◌, ◌≡◌, Bool, false, ◌||◌, not, List, [], ◌∷◌, ◌++◌, arith, bit_and, bit_or, if◌then◌else◌,
  ltb, leb, ◌==◌, if_rule, length, drop, has, toggle-le, sub_size, length-append,
}
use dfc_flipper.Engine.{Engine, Laws}
use dfc_flipper.IsoDep.State.{Dfc, Block, prefix_len, block_of}
use dfc_flipper.IsoDep.Receive.{
  receive_duplicate, receive_apdu, receive_numbered, receive_i, receive_block, receive,
}
use dfc_flipper.IsoDep.Framed.{IsBlock, block_of-IsBlock}
use dfc_flipper.IsoDep.Invariant.{IsValid, IsSound, quiet, frame-IsSound, control-IsSound}
use dfc_flipper.IsoDep.Control.{
  receive_pps-IsSound, handle_apdu-IsSound, receive_r-IsSound, receive_s-IsSound,
}

module _ {Emulator : Type 0} (core : Engine Emulator) (laws : Laws core) (radio_alloc : Bool) where
  receive_duplicate-IsSound :
      {s : Dfc Emulator} (b : Block)
      → IsValid core s
      → IsSound core (receive_duplicate core radio_alloc s b)
  unfolding receive_duplicate
  receive_duplicate-IsSound {s} b v =
      let pcb : ℕ =
        if length s.command == 0
        then bit_or 0xB2 s.expected_pcd_block
        else bit_or 0xA2 (bit_and b.pcb 1) in
      search (
        if_rule (IsSound core),
        frame-IsSound core laws radio_alloc s.last_frame v v.frame_bound,
        control-IsSound core laws radio_alloc pcb b.use_cid b.cid v,
      )

  with_command-IsValid :
      {s : Dfc Emulator} (command : List ℕ) {expected : ℕ}
      → IsValid core s
      → length command ≤ core.worker_max_buffer_size
      → expected ≤ 1
      → IsValid core (record s { command = command; expected_pcd_block = expected })
  with_command-IsValid command v h e = record {
    buffer = v.buffer;
    frame_bound = v.frame_bound;
    expected_bit = e;
    picc_bit = v.picc_bit;
    command_bound = h;
    offset_bound = v.offset_bound;
  }

  -- A command that passes the guard fits its buffer: the difference of sizes does not wrap.
  chain_fits :
      {s : Dfc Emulator} (apdu : List ℕ)
      → IsValid core s
      → ltb (sub_size core.worker_max_buffer_size (length s.command)) (length apdu) ≡ false
      → length (s.command ++ apdu) ≤ core.worker_max_buffer_size
  chain_fits {s} apdu v h =
      ground (
        arith,
        v.command_bound,
        laws.command_fits,
        laws.bytebuf_small,
        length-append s.command apdu,
      )

  receive_apdu-IsSound :
      {s : Dfc Emulator} {b : Block} (apdu : List ℕ)
      → IsBlock core b
      → IsValid core s
      → s.response_offset ≡ 0
      → IsSound core (receive_apdu core radio_alloc s b apdu)
  unfolding receive_apdu
  receive_apdu-IsSound {s} {b} apdu w v idle =
      if_rule (IsSound core) (has b.pcb 0x10 || not (length s.command == 0))
        (λ _.
          if_rule (IsSound core)
            (ltb (sub_size core.worker_max_buffer_size (length s.command)) (length apdu))
            (λ _.
              control-IsSound core laws radio_alloc (bit_or 0xB2 s.expected_pcd_block) b.use_cid
                b.cid forgotten)
            (λ fits.
              if_rule (IsSound core) (has b.pcb 0x10)
                (λ _.
                  control-IsSound core laws radio_alloc (bit_or 0xA2 (bit_and b.pcb 1)) b.use_cid
                    b.cid
                    (with_command-IsValid (s.command ++ apdu) v (chain_fits apdu v fits)
                      (toggle-le s.expected_pcd_block v.expected_bit)))
                (λ _.
                  handle_apdu-IsSound core laws radio_alloc (s.command ++ apdu) w forgotten idle)))
        (λ _. handle_apdu-IsSound core laws radio_alloc apdu w v idle)
    where
      forgotten : IsValid core (record s { command = [] })
      forgotten = with_command-IsValid [] v (omega arith) v.expected_bit

  receive_numbered-IsSound :
      {s : Dfc Emulator} {b : Block}
      → IsBlock core b
      → IsValid core s
      → IsSound core (receive_numbered core radio_alloc s b)
  unfolding receive_numbered
  receive_numbered-IsSound {s} {b} w v =
      if_rule (IsSound core) (not (bit_and b.pcb 1 == s.expected_pcd_block))
        (λ _. receive_duplicate-IsSound b v)
        (λ _.
          if_rule (IsSound core) (not (s.response_offset == 0) || leb (length b.rx_data) b.offset)
            (λ _.
              control-IsSound core laws radio_alloc (bit_or 0xB2 s.expected_pcd_block) b.use_cid
                b.cid v)
            (λ h. receive_apdu-IsSound (drop b.offset b.rx_data) w v (ground arith)))

  with_cid-IsValid :
      {s : Dfc Emulator} (cid_valid : Bool) (cid : ℕ)
      → IsValid core s
      → IsValid core (record s { cid_valid = cid_valid; cid = cid })
  with_cid-IsValid cid_valid cid v = record {
    buffer = v.buffer;
    frame_bound = v.frame_bound;
    expected_bit = v.expected_bit;
    picc_bit = v.picc_bit;
    command_bound = v.command_bound;
    offset_bound = v.offset_bound;
  }

  receive_i-IsSound :
      {s : Dfc Emulator} {b : Block}
      → IsBlock core b
      → IsValid core s
      → IsSound core (receive_i core radio_alloc s b)
  unfolding receive_i
  receive_i-IsSound {s} {b} w v = search (
    if_rule (IsSound core),
    quiet core laws radio_alloc v,
    receive_numbered-IsSound w v,
    receive_numbered-IsSound w (with_cid-IsValid b.use_cid b.cid v),
  )

  pub receive-IsSound :
      {s : Dfc Emulator} (rx : List ℕ)
      → IsValid core s
      → IsSound core (receive core radio_alloc s rx)
  unfolding receive receive_block block_of
  receive-IsSound [] v = quiet core laws radio_alloc v
  receive-IsSound {s} (pcb ∷ rest) v =
      if_rule (IsSound core) (ltb (length (pcb ∷ rest)) (prefix_len core pcb))
        (λ _. quiet core laws radio_alloc v)
        (λ h.
          let w = block_of-IsBlock core pcb rest (ground arith) in
          search (
            if_rule (IsSound core),
            receive_pps-IsSound core laws radio_alloc (block_of core pcb rest) v,
            receive_r-IsSound core laws radio_alloc (block_of core pcb rest) v,
            receive_s-IsSound core laws radio_alloc w v,
            receive_i-IsSound w v,
          ))

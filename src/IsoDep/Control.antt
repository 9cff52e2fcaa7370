-- ===== src/IsoDep/Control.antt =====
-- The PPS, R and S blocks of the callback, and what the handling of an APDU leaves.
use dfc_flipper.ByteBuf.Refine
use dfc_flipper.Base.{
  ℕ, ◌-◌, ◌≤◌, ◌≡◌, Bool, true, false, ◌&&◌, not, List, [], arith, bit_and, bit_or, ◌==◌, if_rule,
  length, toggle, toggle-le,
}
use dfc_flipper.Events.{Effect, frames, frames-append}
use dfc_flipper.Engine.{Engine, Laws}
use dfc_flipper.IsoDep.State.{Dfc, Block, iso_dep_frame_max, other_cid}
use dfc_flipper.IsoDep.Receive.{end_activation, receive_pps, receive_r, receive_s}
use dfc_flipper.IsoDep.Framed.{IsBlock}
use dfc_flipper.IsoDep.Invariant.{
  send_i_response-IsSound, IsValid, IsSound, quiet, frame-IsSound, control-IsSound,
  send_next_i_response-IsSound,
}
use dfc_flipper.IsoDep.Apdu.{handle_apdu, after}
use dfc_flipper.ByteBuf.{ByteBuf}
use dfc_flipper.IsoDep.Handling.{handle_apdu_rule}
use dfc_flipper.IsoDep.Respond.{engine_at}

module _ {Emulator : Type 0} (core : Engine Emulator) (laws : Laws core) (radio_alloc : Bool) where
  after-IsSound :
      (es : List Effect) (r : Dfc Emulator × List Effect)
      → frames es ≡ []
      → IsSound core r
      → IsSound core (after es r)
  after-IsSound es r e v = record {
    valid = v.valid;
    single = rw (frames-append es r.1, e) v.single;
    bounded = rw (frames-append es r.1, e) v.bounded;
  }

  engine_at-IsValid :
      {s : Dfc Emulator} (emulator : Emulator) {tx : ByteBuf}
      → IsValid core s
      → s.response_offset ≡ 0
      → Refine.IsValid core.bytebuf_max tx
      → IsValid core (engine_at s emulator tx)
  engine_at-IsValid emulator v idle f = record {
    buffer = f;
    frame_bound = v.frame_bound;
    expected_bit = v.expected_bit;
    picc_bit = v.picc_bit;
    command_bound = v.command_bound;
    offset_bound = omega (arith, idle);
  }

  pub handle_apdu-IsSound :
      {s : Dfc Emulator} {b : Block} (apdu : List ℕ)
      → IsBlock core b
      → IsValid core s
      → s.response_offset ≡ 0
      → IsSound core (handle_apdu core radio_alloc s b apdu)
  handle_apdu-IsSound {s} {b} apdu w v idle =
      handle_apdu_rule core laws radio_alloc s b w (IsSound core)
        (record {
          after_events = after-IsSound;
          respond = λ emulator tx f.
              send_i_response-IsSound core laws radio_alloc
                (engine_at-IsValid emulator v idle f.valid) (rw f.first f.whole);
        })
        apdu v

  pub end_activation-IsValid :
      {s : Dfc Emulator} → IsValid core s → IsValid core (end_activation core s)
  unfolding end_activation
  end_activation-IsValid {s} v = record {
    buffer = laws.reset_keeps_buffer s.emulator s.tx_buffer v.buffer;
    frame_bound = v.frame_bound;
    expected_bit = omega arith;
    picc_bit = omega arith;
    command_bound = omega arith;
    offset_bound = omega arith;
  }

  pub toggle_picc-IsValid :
      {s : Dfc Emulator}
      → IsValid core s
      → IsValid core (record s { picc_block = toggle s.picc_block })
  toggle_picc-IsValid {s} v = record {
    buffer = v.buffer;
    frame_bound = v.frame_bound;
    expected_bit = v.expected_bit;
    picc_bit = toggle-le s.picc_block v.picc_bit;
    command_bound = v.command_bound;
    offset_bound = v.offset_bound;
  }

  expect_next-IsSound :
      {r : Dfc Emulator × List Effect}
      → IsSound core r
      → IsSound core (record (r.0) { expected_pcd_block = toggle r.0.picc_block }, r.1)
  expect_next-IsSound {r} i = record {
    valid = record {
      buffer = i.valid.buffer;
      frame_bound = i.valid.frame_bound;
      expected_bit = toggle-le r.0.picc_block i.valid.picc_bit;
      picc_bit = i.valid.picc_bit;
      command_bound = i.valid.command_bound;
      offset_bound = i.valid.offset_bound;
    };
    single = i.single;
    bounded = i.bounded;
  }

  pub receive_pps-IsSound :
      {s : Dfc Emulator} (b : Block)
      → IsValid core s
      → IsSound core (receive_pps core radio_alloc s b)
  unfolding receive_pps
  receive_pps-IsSound b v = search (
    if_rule (IsSound core),
    control-IsSound core laws radio_alloc b.pcb false 0 v,
    quiet core laws radio_alloc v,
  )

  pub receive_r-IsSound :
      {s : Dfc Emulator} (b : Block)
      → IsValid core s
      → IsSound core (receive_r core radio_alloc s b)
  unfolding receive_r
  receive_r-IsSound {s} b v =
      search
        (
          if_rule (IsSound core),
          quiet core laws radio_alloc v,
          frame-IsSound core laws radio_alloc s.last_frame v v.frame_bound,
          expect_next-IsSound
              (send_next_i_response-IsSound core laws radio_alloc (toggle_picc-IsValid v)),
          control-IsSound core laws radio_alloc (bit_or 0xA2 s.picc_block) b.use_cid b.cid v,
        )
        depth 8

  pub receive_s-IsSound :
      {s : Dfc Emulator} {b : Block}
      → IsBlock core b
      → IsValid core s
      → IsSound core (receive_s core radio_alloc s b)
  unfolding receive_s
  receive_s-IsSound {s} {b} w v =
      if_rule (IsSound core) _
        (λ h. frame-IsSound core laws radio_alloc b.rx_data (end_activation-IsValid v) (short h))
        (λ _. quiet core laws radio_alloc v)
    where
      short :
          (bit_and b.pcb (255 - core.cid_mask) == 0xC2
              && (length b.rx_data == b.offset && not (other_cid s b)))
            ≡ true
          → length b.rx_data ≤ iso_dep_frame_max
      short h = ground (arith, w.prefixed)

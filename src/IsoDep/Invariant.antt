-- ===== src/IsoDep/Invariant.antt =====
-- The invariant of the listener's state, and what sending does to it.
use dfc_flipper.Base.{
  ℕ, ◌+◌, ◌-◌, ◌≤◌, ◌≡◌, Bool, true, false, List, [], inl, inr, arith, ltb, ◌==◌, Bool-cases,
  length, take, drop, set, All, toggle-le, length-append, length-take, length-set,
}
use dfc_flipper.ByteBuf.Refine
use dfc_flipper.Events.{Effect, frames}
use dfc_flipper.Engine.{Engine, Laws}
use dfc_flipper.IsoDep.State.{Dfc, iso_dep_frame_max}
use dfc_flipper.IsoDep.Send.{
  send_frame, send_control, response_prefix, remaining, chunk_len, more, i_pcb, i_frame,
  advance_response, send_next_i_response, begin_response, send_i_response,
}

module _ {Emulator : Type 0} (core : Engine Emulator) where
  -- Every array is within its bounds, and the block numbers are bits.
  pub record IsValid (s : Dfc Emulator) : Type 0 where
    pub buffer : Refine.IsValid core.bytebuf_max s.tx_buffer
    pub frame_bound : length s.last_frame ≤ iso_dep_frame_max
    pub expected_bit : s.expected_pcd_block ≤ 1
    pub picc_bit : s.picc_block ≤ 1
    pub command_bound : length s.command ≤ core.worker_max_buffer_size
    pub offset_bound : s.response_offset ≤ s.tx_buffer.size_bytes

  -- What holds of the result of every function of the callback: a valid state, and at most one
  -- frame, which fits the reader's frame size.
  pub record IsSound (r : Dfc Emulator × List Effect) : Type 0 where
    pub valid : IsValid r.0
    pub single : length (frames r.1) ≤ 1
    pub bounded : All (λ f. length f ≤ iso_dep_frame_max) (frames r.1)

abbrev Fits : List Effect → Type 0
Fits es = (length (frames es) ≤ 1) × All (λ f. length f ≤ iso_dep_frame_max) (frames es)

module _ {Emulator : Type 0} (core : Engine Emulator) (laws : Laws core) (radio_alloc : Bool) where
  send_frame-Fits :
      (frame : List ℕ) → length frame ≤ iso_dep_frame_max → Fits (send_frame core radio_alloc frame)
  unfolding send_frame
  send_frame-Fits frame h = ground arith

  send_control-Fits :
      (pcb : ℕ) (use_cid : Bool) (cid : ℕ) → Fits (send_control core radio_alloc pcb use_cid cid)
  unfolding send_control
  send_control-Fits pcb true cid = send_frame-Fits _ (omega arith)
  send_control-Fits pcb false cid = send_frame-Fits _ (omega arith)

  pub quiet : {s : Dfc Emulator} → IsValid core s → IsSound core (s, [])
  quiet v = record { valid = v; single = omega arith; bounded = tt }

  pub frame-IsSound :
      {s : Dfc Emulator} (frame : List ℕ)
      → IsValid core s
      → length frame ≤ iso_dep_frame_max
      → IsSound core (s, send_frame core radio_alloc frame)
  frame-IsSound frame v h = record {
    valid = v;
    single = (send_frame-Fits frame h).0;
    bounded = (send_frame-Fits frame h).1;
  }

  pub control-IsSound :
      {s : Dfc Emulator} (pcb : ℕ) (use_cid : Bool) (cid : ℕ)
      → IsValid core s
      → IsSound core (s, send_control core radio_alloc pcb use_cid cid)
  control-IsSound pcb use_cid cid v = record {
    valid = v;
    single = (send_control-Fits pcb use_cid cid).0;
    bounded = (send_control-Fits pcb use_cid cid).1;
  }

  -- No size wraps: the buffer is far below 2 ^ 32.
  pub remaining_lem :
      {s : Dfc Emulator}
      → IsValid core s
      → remaining core s ≡ s.tx_buffer.size_bytes - s.response_offset
  remaining_lem v = omega (arith, v.buffer.in_use, v.offset_bound, laws.bytebuf_small)

  chunk_len-le : (s : Dfc Emulator) → chunk_len core s + response_prefix core s ≤ iso_dep_frame_max
  chunk_len-le s = ground arith

  chunk_len-le-remaining : (s : Dfc Emulator) → chunk_len core s ≤ remaining core s
  chunk_len-le-remaining s = ground arith

  pub length-i_frame : (s : Dfc Emulator) → length (i_frame core s) ≤ iso_dep_frame_max
  length-i_frame s = omega (
    arith,
    length-append (set (take (response_prefix core s) s.tx_buffer.octets) 0 (i_pcb core s))
        (take (chunk_len core s) (drop s.response_offset s.tx_buffer.octets)),
    length-set (take (response_prefix core s) s.tx_buffer.octets) 0 (i_pcb core s),
    length-take (response_prefix core s) s.tx_buffer.octets,
    length-take (chunk_len core s) (drop s.response_offset s.tx_buffer.octets),
    chunk_len-le s,
  )

  pub advance_response-IsValid :
      {s : Dfc Emulator} → IsValid core s → IsValid core (advance_response core s)
  unfolding advance_response
  advance_response-IsValid {s} v = record {
    buffer = v.buffer;
    frame_bound = length-i_frame s;
    expected_bit = v.expected_bit;
    picc_bit = v.picc_bit;
    command_bound = v.command_bound;
    offset_bound = elim (Bool-cases (more core s)) [
      | inl e ↦ rw e (omega (arith, chunk_len-le-remaining s, remaining_lem v, v.offset_bound))
      | inr e ↦ rw e (omega arith)
    ];
  }

  pub send_next_i_response-IsSound :
      {s : Dfc Emulator} → IsValid core s → IsSound core (send_next_i_response core radio_alloc s)
  unfolding send_next_i_response
  send_next_i_response-IsSound {s} v =
      elim (Bool-cases (ltb s.tx_buffer.size_bytes (response_prefix core s))) [
        | inl e ↦ rw e (quiet v)
        | inr e ↦ rw e (
            frame-IsSound (advance_response core s).last_frame (advance_response-IsValid v)
              (advance_response-IsValid v).frame_bound)
      ]

  pub begin_response-IsValid :
      {s : Dfc Emulator}
      → IsValid core s
      → response_prefix core s ≤ s.tx_buffer.size_bytes
      → IsValid core (begin_response core s)
  unfolding begin_response
  begin_response-IsValid {s} v h = record {
    buffer = v.buffer;
    frame_bound = v.frame_bound;
    expected_bit = toggle-le s.expected_pcd_block v.expected_bit;
    picc_bit = v.expected_bit;
    command_bound = v.command_bound;
    offset_bound = h;
  }

  pub send_i_response-IsSound :
      {s : Dfc Emulator}
      → IsValid core s
      → response_prefix core s ≤ s.tx_buffer.size_bytes
      → IsSound core (send_i_response core radio_alloc s)
  unfolding send_i_response
  send_i_response-IsSound {s} v h = elim (Bool-cases (s.tx_buffer.size_bytes == 0)) [
    | inl e ↦ rw e (quiet v)
    | inr e ↦ rw e (send_next_i_response-IsSound (begin_response-IsValid v h))
  ]

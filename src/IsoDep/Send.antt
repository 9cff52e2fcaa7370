-- ===== src/IsoDep/Send.antt =====
-- Sending: send_frame, send_control, send_next_i_response and send_i_response of
-- dfc_emulator_listener.c. A function that changes `*dfc` returns it beside its effects.
-- `radio_alloc` says whether the radio's buffer can be allocated during this callback.
use dfc_flipper.Base.{
  ℕ, ◌+◌, ◌-◌, Bool, true, List, [], ◌∷◌, ◌++◌, bit_and, bit_or, if◌then◌else◌, ltb, ◌==◌, length,
  take, drop, get_or, set, toggle, sub_size,
}
use dfc_flipper.Events.{Effect, transmit}
use dfc_flipper.ByteBuf.{get_data, get_size_bytes}
use dfc_flipper.Engine.{Engine}
use dfc_flipper.IsoDep.State.{Dfc, iso_dep_frame_max, prefix_len}

module _ {Emulator : Type 0} (core : Engine Emulator) (radio_alloc : Bool) where
  unfoldable pub send_frame : List ℕ → List Effect
  send_frame frame =
      if ltb core.bytebuf_max (length frame)
      then []
      else if radio_alloc
      then transmit frame ∷ []
      else []

  unfoldable pub send_control : ℕ → Bool → ℕ → List Effect
  send_control pcb use_cid cid =
      send_frame (if use_cid then bit_or pcb core.cid_mask ∷ cid ∷ [] else pcb ∷ [])

module _ {Emulator : Type 0} (core : Engine Emulator) where
  -- The first octet of the response in the buffer, `data[0]`.
  abbrev pub response_pcb : Dfc Emulator → ℕ
  response_pcb s = get_or (get_data s.tx_buffer) 0 0

  abbrev pub response_prefix : Dfc Emulator → ℕ
  response_prefix s = prefix_len core (response_pcb s)

  abbrev pub remaining : Dfc Emulator → ℕ
  remaining s = sub_size (get_size_bytes s.tx_buffer) s.response_offset

  abbrev pub chunk_len : Dfc Emulator → ℕ
  chunk_len s =
      let room = iso_dep_frame_max - response_prefix s in
      if ltb (remaining s) room then remaining s else room

  abbrev pub more : Dfc Emulator → Bool
  more s = ltb (chunk_len s) (remaining s)

  -- The PCB of the next frame: the response's with the block number and chaining bit of now.
  abbrev pub i_pcb : Dfc Emulator → ℕ
  i_pcb s =
      let pcb = bit_or (bit_and (response_pcb s) 0xEE) s.picc_block in
      if more s then bit_or pcb 0x10 else pcb

  abbrev pub i_frame : Dfc Emulator → List ℕ
  i_frame s =
      set (take (response_prefix s) (get_data s.tx_buffer)) 0 (i_pcb s)
      ++ take (chunk_len s) (drop s.response_offset (get_data s.tx_buffer))

  -- The state that `send_next_i_response` leaves.
  unfoldable pub advance_response : Dfc Emulator → Dfc Emulator
  advance_response s = record s {
    last_frame = i_frame s;
    response_offset = if more s then s.response_offset + chunk_len s else 0;
    last_response_valid = true;
  }

  unfoldable pub send_next_i_response : Bool → Dfc Emulator → Dfc Emulator × List Effect
  send_next_i_response radio_alloc s =
      if ltb (get_size_bytes s.tx_buffer) (response_prefix s)
      then (s, [])
      else (advance_response s, send_frame core radio_alloc (advance_response s).last_frame)

  -- The state in which `send_i_response` sends the first frame of a response.
  unfoldable pub begin_response : Dfc Emulator → Dfc Emulator
  begin_response s = record s {
    picc_block = s.expected_pcd_block;
    expected_pcd_block = toggle s.expected_pcd_block;
    response_offset = response_prefix s;
  }

  unfoldable pub send_i_response : Bool → Dfc Emulator → Dfc Emulator × List Effect
  send_i_response radio_alloc s =
      if get_size_bytes s.tx_buffer == 0
      then (s, [])
      else send_next_i_response radio_alloc (begin_response s)

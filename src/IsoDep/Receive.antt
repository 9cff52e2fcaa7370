-- ===== src/IsoDep/Receive.antt =====
-- `dfc_worker_listener_callback`: the blocks of ISO-DEP, and the ends of an activation.
use dfc_flipper.Base.{
  ℕ, ◌-◌, Bool, false, ◌||◌, ◌&&◌, not, List, [], ◌∷◌, ◌++◌, bit_and, bit_or, if◌then◌else◌, ltb,
  leb, ◌==◌, length, drop, get_or, has, toggle, sub_size,
}
use dfc_flipper.Events.{Effect, custom_event, emulate}
use dfc_flipper.Engine.{Engine}
use dfc_flipper.IsoDep.State.{Dfc, Block, prefix_len, block_of, other_cid}
use dfc_flipper.IsoDep.Send.{send_frame, send_control, send_next_i_response}
use dfc_flipper.IsoDep.Apdu.{handle_apdu}

-- `iso14443_4a_event->type`, with the frame of a received one and whether the radio's buffer can be
-- allocated while it is handled.
pub data ListenerEvent : Type 0 where
  received_data : Bool → List ℕ → ListenerEvent
  halted : ListenerEvent
  field_off : ListenerEvent

module _ {Emulator : Type 0} (core : Engine Emulator) where
  -- What deselection, a halt and a lost field do alike.
  unfoldable pub end_activation : Dfc Emulator → Dfc Emulator
  end_activation s =
      let (emulator, tx_buffer) = core.reset_activation s.emulator s.tx_buffer in
      record s {
        emulator = emulator;
        tx_buffer = tx_buffer;
        last_response_valid = false;
        expected_pcd_block = 0;
        picc_block = 1;
        command = [];
        response_offset = 0;
        cid_valid = false;
      }

  -- PPS: only the two requests that keep 106 kbit/s are answered.
  unfoldable pub receive_pps : Bool → Dfc Emulator → Block → Dfc Emulator × List Effect
  receive_pps radio_alloc s b =
      let rx_len = length b.rx_data in
      let rx_1 = get_or b.rx_data 1 0 in
      if (rx_len == 2 && rx_1 == 0x01)
        || (rx_len == 3 && (rx_1 == 0x11 && get_or b.rx_data 2 0 == 0x00))
      then (s, send_control core radio_alloc b.pcb false 0)
      else (s, [])

  -- R-blocks: retransmission, the next frame of a response, or an acknowledgement.
  unfoldable pub receive_r : Bool → Dfc Emulator → Block → Dfc Emulator × List Effect
  receive_r radio_alloc s b =
      if not (bit_and b.pcb 0xE6 == 0xA2) || not (length b.rx_data == b.offset)
      then (s, [])
      else if other_cid s b
      then (s, [])
      else if s.last_response_valid && bit_and b.pcb 1 == s.picc_block
      then (s, send_frame core radio_alloc s.last_frame)
      else if not (s.response_offset == 0) && not (has b.pcb 0x10)
      then (let (t, out) =
            send_next_i_response core radio_alloc (record s { picc_block = toggle s.picc_block }) in
          (record t { expected_pcd_block = toggle t.picc_block }, out))
      else if has b.pcb 0x10
      then (s, send_control core radio_alloc (bit_or 0xA2 s.picc_block) b.use_cid b.cid)
      else (s, [])

  -- S(DESELECT) is echoed and ends the activation.
  unfoldable pub receive_s : Bool → Dfc Emulator → Block → Dfc Emulator × List Effect
  receive_s radio_alloc s b =
      if bit_and b.pcb (255 - core.cid_mask) == 0xC2
        && (length b.rx_data == b.offset && not (other_cid s b))
      then (end_activation s, send_frame core radio_alloc b.rx_data)
      else (s, [])

  -- An I-block with the wrong number.
  unfoldable pub receive_duplicate : Bool → Dfc Emulator → Block → Dfc Emulator × List Effect
  receive_duplicate radio_alloc s b =
      if s.last_response_valid && length s.command == 0
      then (s, send_frame core radio_alloc s.last_frame)
      else (
        s,
        send_control core radio_alloc
            (if length s.command == 0
              then bit_or 0xB2 s.expected_pcd_block
              else bit_or 0xA2 (bit_and b.pcb 1))
            b.use_cid b.cid,
      )

  -- The information field of an I-block with the right number: a link of a command or a whole one.
  unfoldable pub receive_apdu : Bool → Dfc Emulator → Block → List ℕ → Dfc Emulator × List Effect
  receive_apdu radio_alloc s b apdu =
      if has b.pcb 0x10 || not (length s.command == 0)
      then (if ltb (sub_size core.worker_max_buffer_size (length s.command)) (length apdu)
          then (
            record s { command = [] },
            send_control core radio_alloc (bit_or 0xB2 s.expected_pcd_block) b.use_cid b.cid,
          )
          else if has b.pcb 0x10
          then (
            record s {
              command = s.command ++ apdu;
              expected_pcd_block = toggle s.expected_pcd_block;
            },
            send_control core radio_alloc (bit_or 0xA2 (bit_and b.pcb 1)) b.use_cid b.cid,
          )
          else handle_apdu core radio_alloc (record s { command = [] }) b (s.command ++ apdu))
      else handle_apdu core radio_alloc s b apdu

  -- An I-block of this session.
  unfoldable pub receive_numbered : Bool → Dfc Emulator → Block → Dfc Emulator × List Effect
  receive_numbered radio_alloc s b =
      if not (bit_and b.pcb 1 == s.expected_pcd_block)
      then receive_duplicate radio_alloc s b
      else if not (s.response_offset == 0) || leb (length b.rx_data) b.offset
      then (s, send_control core radio_alloc (bit_or 0xB2 s.expected_pcd_block) b.use_cid b.cid)
      else receive_apdu radio_alloc s b (drop b.offset b.rx_data)

  -- I-blocks; the first one of an activation fixes its CID.
  unfoldable pub receive_i : Bool → Dfc Emulator → Block → Dfc Emulator × List Effect
  receive_i radio_alloc s b =
      if not (bit_and b.pcb 0xE2 == 0x02) || has b.pcb core.nad_mask
      then (s, [])
      else if other_cid s b
      then (if s.last_response_valid || not (length s.command == 0)
          then (s, [])
          else receive_numbered radio_alloc (record s { cid_valid = b.use_cid; cid = b.cid }) b)
      else receive_numbered radio_alloc s b

  unfoldable pub receive_block : Bool → Dfc Emulator → Block → Dfc Emulator × List Effect
  receive_block radio_alloc s b =
      if bit_and b.pcb 0xF0 == 0xD0
      then receive_pps radio_alloc s b
      else if bit_and b.pcb 0xC0 == 0x80
      then receive_r radio_alloc s b
      else if bit_and b.pcb 0xC0 == 0xC0
      then receive_s radio_alloc s b
      else receive_i radio_alloc s b

  unfoldable pub receive : Bool → Dfc Emulator → List ℕ → Dfc Emulator × List Effect
  receive radio_alloc s [] = (s, [])
  receive radio_alloc s (pcb ∷ rest) =
      if ltb (length (pcb ∷ rest)) (prefix_len core pcb)
      then (s, [])
      else receive_block radio_alloc s (block_of core pcb rest)

  -- The callback. A halt and a lost field also forget the last frame.
  unfoldable pub listener_callback : Dfc Emulator → ListenerEvent → Dfc Emulator × List Effect
  listener_callback s (received_data radio_alloc rx) = receive radio_alloc s rx
  listener_callback s halted =
      (record (end_activation s) { last_frame = [] }, custom_event emulate ∷ [])
  listener_callback s field_off =
      (record (end_activation s) { last_frame = [] }, custom_event emulate ∷ [])

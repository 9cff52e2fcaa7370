-- ===== src/Type4.antt =====
-- dfc_emulator_listener.c in the build with the SDK's type_4_tag protocol: the SDK does the ISO-DEP
-- framing, and the callback gets and sends bare commands and responses.
pub mod Refine
pub mod Session
pub mod Tests
use dfc_flipper.Base.{ℕ, Bool, List, [], ◌∷◌, if◌then◌else◌, ◌==◌, length}
use dfc_flipper.ByteBuf.{contents, get_size_bytes, reset, ByteBuf}
use dfc_flipper.Engine.{Engine}
use dfc_flipper.IsoDep.State.{Dfc}
use dfc_flipper.IsoDep.Send.{send_frame}
use dfc_flipper.IsoDep.Receive.{ListenerEvent, received_data, halted, field_off, end_activation}
use dfc_flipper.Events.{Effect, custom_event, emulate}
use dfc_flipper.IsoDep.Apdu.{handle_bare}

module _ {Emulator : Type 0} (core : Engine Emulator) (radio_alloc : Bool) where
  -- The frame is the whole response; `transmit` hands it to `iso14443_4a_listener_send_block`.
  unfoldable pub send_response : ByteBuf → List Effect
  send_response response = send_frame core radio_alloc (contents response)

  unfoldable pub send_i_response : Dfc Emulator → Dfc Emulator × List Effect
  send_i_response s =
      if get_size_bytes s.tx_buffer == 0 then (s, []) else (s, send_response s.tx_buffer)

  -- The received frame is the command: there is nothing in front of it.
  unfoldable pub receive : Dfc Emulator → List ℕ → Dfc Emulator × List Effect
  unfolding reset
  receive s rx_data =
      if length rx_data == 0
      then (s, [])
      else handle_bare core send_i_response 0 (record s { tx_buffer = reset s.tx_buffer }) rx_data

module _ {Emulator : Type 0} (core : Engine Emulator) where
  unfoldable pub listener_callback : Dfc Emulator → ListenerEvent → Dfc Emulator × List Effect
  listener_callback s (received_data radio_alloc rx) = receive core radio_alloc s rx
  listener_callback s halted =
      (record (end_activation core s) { last_frame = [] }, custom_event emulate ∷ [])
  listener_callback s field_off =
      (record (end_activation core s) { last_frame = [] }, custom_event emulate ∷ [])

  -- The events of the radio in order, with what each makes the callback do.
  unfoldable pub run : Dfc Emulator → List ListenerEvent → Dfc Emulator × List (List Effect)
  run s [] = (s, [])
  run s (e ∷ es) =
      let (t, out) = listener_callback s e in let (u, outs) = run t es in (u, out ∷ outs)

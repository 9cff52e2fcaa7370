-- ===== src/Type4/Tests.antt =====
-- The callback with the SDK's framing and the echoing engine.
use dfc_flipper.Base.{ℕ, List, [], ◌∷◌, ◌++◌, ◌≡◌, true, refl, arith, replicate, All}
use dfc_flipper.ByteBuf.Refine.{IsValid}
use dfc_flipper.Engine.Echo.{echo, echo-Laws}
use dfc_flipper.IsoDep.Session.{started}
use dfc_flipper.IsoDep.Receive.{ListenerEvent, received_data, halted}
use dfc_flipper.Type4.{
  receive, run, send_i_response, send_response, ByteBuf, Dfc, handle_bare, send_frame,
}
use dfc_flipper.Type4.Refine.{response_frames, receive-response_to}
use dfc_flipper.Type4.Session.{IsSingle, run-IsSingle}
use dfc_flipper.ByteBuf.{ByteBuf, reset, append_to}
use dfc_flipper.IsoDep.Respond.{response_to, engine_at}
use dfc_flipper.IsoDep.State.{Dfc}
use dfc_flipper.IsoDep.Apdu.{handle_bare, unwrap_command, run_native}
use dfc_flipper.Events.{frames, notify_all, transmit}
use dfc_flipper.IsoDep.Send.{send_frame}

abbrev blank_buffer : ByteBuf
blank_buffer = record { octets = replicate 128 0; size_bytes = 0 }

abbrev waiting : Dfc ℕ
waiting = started echo 0 blank_buffer

abbrev received : List ListenerEvent
received = received_data true (0x5A ∷ 0x01 ∷ []) ∷ received_data true [] ∷ halted ∷ []

-- A native command of two octets, answered with neither PCB nor CID.
bare_answer :
    (receive echo true waiting (0x5A ∷ 0x01 ∷ [])).1 ≡ transmit (0x00 ∷ 0x5A ∷ 0x01 ∷ []) ∷ []
unfolding receive handle_bare unwrap_command run_native append_to send_i_response send_response
    send_frame notify_all reset
bare_answer = refl

receive-response_to_example :
    let r = response_to echo 0 0 (reset blank_buffer) (0x5A ∷ 0x01 ∷ []) in
    (receive echo true waiting (0x5A ∷ 0x01 ∷ [])
      ≡ (engine_at waiting r.emulator r.tx_buffer, r.events ++ response_frames r.tx_buffer))
    × (frames r.events ≡ [])
    × IsValid 128 r.tx_buffer
    × (receive echo true waiting [] ≡ (waiting, []))
receive-response_to_example =
    receive-response_to echo echo-Laws {s = waiting} 0x5A (0x01 ∷ []) (omega arith)

run-IsSingle_example :
    IsValid 128 (run echo waiting received).0.tx_buffer
    × All (IsSingle echo) (run echo waiting received).1
run-IsSingle_example = run-IsSingle echo echo-Laws received waiting (omega arith)

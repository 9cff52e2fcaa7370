-- ===== src/IsoDep/Session.antt =====
-- The life of an emulation: its start in scenes/dfc_scene_emulate.c, and the callback on a sequence
-- of the radio's events.
use dfc_flipper.ByteBuf.Refine
use dfc_flipper.Base.{◌≤◌, true, false, List, [], ◌∷◌, arith, length, All}
use dfc_flipper.ByteBuf.{ByteBuf}
use dfc_flipper.Events.{Effect, custom_event, emulate, frames}
use dfc_flipper.Engine.{Engine, Laws}
use dfc_flipper.IsoDep.State.{Dfc, iso_dep_frame_max}
use dfc_flipper.IsoDep.Receive.{
  ListenerEvent, received_data, halted, field_off, end_activation, listener_callback,
}
use dfc_flipper.IsoDep.Control.{end_activation-IsValid}
use dfc_flipper.IsoDep.Bounds.{receive-IsSound}
use dfc_flipper.IsoDep.Invariant.{IsValid, IsSound}

-- A state in which emulation starts: `dfc_scene_emulate_on_enter` sets the protocol's fields, and
-- the engine has allocated its buffer.
module _ {Emulator : Type 0} (core : Engine Emulator) where
  abbrev pub started : Emulator → ByteBuf → Dfc Emulator
  started emulator tx_buffer = record {
    emulator = emulator;
    tx_buffer = tx_buffer;
    last_response_valid = false;
    expected_pcd_block = 0;
    picc_block = 1;
    last_frame = [];
    command = [];
    response_offset = 0;
    cid_valid = false;
    cid = 0;
  }

  -- The radio's events in order, with what each makes the callback do.
  unfoldable pub run : Dfc Emulator → List ListenerEvent → Dfc Emulator × List (List Effect)
  run s [] = (s, [])
  run s (e ∷ es) =
      let (t, out) = listener_callback core s e in let (u, outs) = run t es in (u, out ∷ outs)

  pub started-IsValid :
      (emulator : Emulator) {tx : ByteBuf}
      → Refine.IsValid core.bytebuf_max tx
      → IsValid core (started emulator tx)
  started-IsValid emulator v = record {
    buffer = v;
    frame_bound = omega arith;
    expected_bit = omega arith;
    picc_bit = omega arith;
    command_bound = omega arith;
    offset_bound = omega arith;
  }

module _ {Emulator : Type 0} (core : Engine Emulator) (laws : Laws core) where
  forget_frame-IsSound :
      {s : Dfc Emulator}
      → IsValid core s
      → IsSound core (record (end_activation core s) { last_frame = [] }, custom_event emulate ∷ [])
  forget_frame-IsSound {s} v =
      let w = end_activation-IsValid core laws true v in
      record {
        valid = record {
          buffer = w.buffer;
          frame_bound = omega arith;
          expected_bit = w.expected_bit;
          picc_bit = w.picc_bit;
          command_bound = w.command_bound;
          offset_bound = w.offset_bound;
        };
        single = omega arith;
        bounded = tt;
      }

  -- One event of the radio, whatever it is, keeps a valid state valid, and the callback sends at most
  -- one frame for it, of at most 62 octets.
  pub listener_callback-IsSound :
      {s : Dfc Emulator} (e : ListenerEvent)
      → IsValid core s
      → IsSound core (listener_callback core s e)
  unfolding listener_callback
  listener_callback-IsSound (received_data radio_alloc rx) v =
      receive-IsSound core laws radio_alloc rx v
  listener_callback-IsSound halted v = forget_frame-IsSound v
  listener_callback-IsSound field_off v = forget_frame-IsSound v

  -- Through any sequence of the radio's events, from the start of emulation with a valid response
  -- buffer, the state stays valid, and each event is answered by at most one frame, of at most 62
  -- octets.
  pub run-IsSound :
      (es : List ListenerEvent) {s : Dfc Emulator}
      → IsValid core s
      → IsValid core (run core s es).0
        × All
            (λ out.
              (length (frames out) ≤ 1) × All (λ f. length f ≤ iso_dep_frame_max) (frames out))
            (run core s es).1
  unfolding run
  run-IsSound [] v = (v, tt)
  run-IsSound (e ∷ es) v =
      let i = listener_callback-IsSound e v in
      let (w, outs) = run-IsSound es i.valid in (w, ((i.single, i.bounded), outs))

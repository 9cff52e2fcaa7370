-- ===== src/IsoDep/Apdu.antt =====
-- The second half of `dfc_worker_listener_callback` for a received frame: what happens to a whole
-- command once its framing is off, up to the response.
use dfc_flipper.Base.{
  ℕ, ◌+◌, ◌-◌, Bool, true, false, ◌||◌, ◌&&◌, none, some, List, [], ◌∷◌, ◌++◌, if◌then◌else◌, ltb,
  leb, ◌==◌, length, take, drop, get_or,
}
use dfc_flipper.Events.{Effect, custom_event, emulate, app_selected, notify_all}
use dfc_flipper.ByteBuf.{ByteBuf, append_to, append_byte, reset, contents, get_size_bytes}
use dfc_flipper.Engine.{Engine}
use dfc_flipper.IsoDep.State.{Dfc, Block}
use dfc_flipper.IsoDep.Send.{send_i_response}

-- Effects that come before those of the rest.
abbrev pub after : {S : Type 0} → List Effect → S × List Effect → S × List Effect
after es (s, out) = (s, es ++ out)

module _ {Emulator : Type 0} (core : Engine Emulator) where
  open core use {bytebuf_max, worker_max_buffer_size}

  -- The response buffer at the start: the PCB and CID of the frame.
  unfoldable pub with_prefix : Dfc Emulator → Block → Dfc Emulator
  unfolding append_to reset
  with_prefix s b = record s {
    tx_buffer = append_to bytebuf_max (reset s.tx_buffer) (some b.rx_data) b.offset;
  }

  -- The wrapped form of a native response, where the engine gives one.
  unfoldable pub rewrap : ℕ → ByteBuf → ByteBuf
  rewrap offset tx =
      if ltb offset (get_size_bytes tx)
      then elim (core.wrap_native_response_as_iso7816 (contents tx) offset worker_max_buffer_size) [
        | none ↦ tx
        | some out ↦ append_to bytebuf_max (reset tx) (some out) (length out)
      ]
      else tx

-- `send` is the `send_i_response` of the build, and `offset` the length of the framing in `tx_buffer`.
module _ {Emulator : Type 0} (core : Engine Emulator)
    (send : Dfc Emulator → Dfc Emulator × List Effect) (offset : ℕ) where
  open core use {bytebuf_max, worker_max_buffer_size}

  -- Appends 91 and the length error, and sends that.
  unfoldable pub length_error : Dfc Emulator → Dfc Emulator × List Effect
  length_error s = send (record s {
    tx_buffer =
        append_byte bytebuf_max (append_byte bytebuf_max s.tx_buffer 0x91) core.status_length_error;
  })

  -- The engine's command handler and the response, for a native command.
  unfoldable pub run_native : Dfc Emulator → Bool → List ℕ → Dfc Emulator × List Effect
  run_native s iso_wrapped native_apdu =
      let h = core.handle_command s.emulator native_apdu s.tx_buffer in
      let tx = if iso_wrapped then rewrap core offset h.tx_buffer else h.tx_buffer in
      after (notify_all h.notified ++ (if h.handled then [] else custom_event emulate ∷ []))
        (send (record s { emulator = h.emulator; tx_buffer = tx }))

  -- A wrapped command, INS and data, or a native one as it stands.
  unfoldable pub unwrap_command : Dfc Emulator → List ℕ → Dfc Emulator × List Effect
  unwrap_command s apdu =
      let lc = get_or apdu 4 0 in
      if leb 5 (length apdu) && get_or apdu 0 0 == core.iso7816_cla_wrapper
      then (if ltb (worker_max_buffer_size - 1) lc || ltb (length apdu) (5 + lc)
          then length_error s
          else run_native s true (get_or apdu 1 0 ∷ take lc (drop 5 apdu)))
      else run_native s false apdu

  -- A command without its framing, with the framing of the response in `tx_buffer`.
  unfoldable pub handle_bare : Dfc Emulator → List ℕ → Dfc Emulator × List Effect
  handle_bare s apdu =
      if ltb worker_max_buffer_size (length apdu)
      then length_error s
      else if leb 4 (length apdu) && get_or apdu 0 0 == core.iso7816_cla_standard
      then (let r = core.handle_iso7816_select s.emulator apdu s.tx_buffer offset in
          let t = record s { emulator = r.emulator; tx_buffer = r.tx_buffer } in
          if r.handled
          then after (if r.app_selected then custom_event app_selected ∷ [] else []) (send t)
          else unwrap_command t apdu)
      else unwrap_command s apdu

module _ {Emulator : Type 0} (core : Engine Emulator) where
  unfoldable pub handle_apdu : Bool → Dfc Emulator → Block → List ℕ → Dfc Emulator × List Effect
  handle_apdu radio_alloc s b apdu =
      handle_bare core (send_i_response core radio_alloc) b.offset (with_prefix core s b) apdu

-- ===== src/IsoDep/Respond.antt =====
-- The response to a bare command, apart from how dfc_emulator_listener.c sends it: what the engine's
-- side makes of the command, as a function of the emulator and the response buffer alone.
use dfc_flipper.Base.{
  ℕ, ◌+◌, ◌-◌, ◌≡◌, not, ◌&&◌, List, [], ◌∷◌, ◌++◌, arith, ltb, leb, ◌==◌, if◌then◌else◌, length,
  get_or, take, drop, inl, inr, Bool-cases,
}
use dfc_flipper.ByteBuf.{ByteBuf, append_byte}
use dfc_flipper.IsoDep.State.{Dfc}
use dfc_flipper.Engine.{Engine, Selected}
use dfc_flipper.Events.{Effect, custom_event, notify_all, emulate, app_selected}
use dfc_flipper.IsoDep.Apdu.{after, handle_bare, unwrap_command, rewrap, length_error, run_native}

-- The emulator and the response buffer after a command, and the custom events on the way.
pub record Response (Emulator : Type 0) : Type 0 where
  pub emulator : Emulator
  pub tx_buffer : ByteBuf
  pub events : List Effect

-- A command as the engine's handler gets it.
pub data Command : Type 0 where
  bad_length : Command
  wrapped : List ℕ → Command
  native : List ℕ → Command

-- `s` with the engine's part replaced.
abbrev pub engine_at : {Emulator : Type 0} → Dfc Emulator → Emulator → ByteBuf → Dfc Emulator
engine_at s emulator tx = record s { emulator = emulator; tx_buffer = tx }

module _ {Emulator : Type 0} (core : Engine Emulator) (offset : ℕ) where
  open core use {bytebuf_max, worker_max_buffer_size}

  unfoldable pub decode : List ℕ → Command
  decode apdu =
      let lc = get_or apdu 4 0 in
      if leb 5 (length apdu) && get_or apdu 0 0 == core.iso7816_cla_wrapper
      then (if leb lc (worker_max_buffer_size - 1) && leb (5 + lc) (length apdu)
          then wrapped (get_or apdu 1 0 ∷ take lc (drop 5 apdu))
          else bad_length)
      else native apdu

  -- The engine's handler, with an event for a command that it does not know.
  unfoldable pub run_handler : Emulator → ByteBuf → List ℕ → Response Emulator
  run_handler emulator tx command =
      let h = core.handle_command emulator command tx in
      record {
        emulator = h.emulator;
        tx_buffer = h.tx_buffer;
        events = notify_all h.notified ++ (if h.handled then [] else custom_event emulate ∷ []);
      }

  unfoldable pub execute : Emulator → ByteBuf → Command → Response Emulator
  execute emulator tx bad_length = record {
    emulator = emulator;
    tx_buffer = append_byte bytebuf_max (append_byte bytebuf_max tx 0x91) core.status_length_error;
    events = [];
  }
  execute emulator tx (wrapped command) =
      let r = run_handler emulator tx command in
      record r { tx_buffer = rewrap core offset r.tx_buffer }
  execute emulator tx (native command) = run_handler emulator tx command

  -- SELECT by ISO 7816 comes first where the command can be one.
  unfoldable pub response_to : Emulator → ByteBuf → List ℕ → Response Emulator
  unfolding decode execute run_handler
  response_to emulator tx apdu =
      let r = core.handle_iso7816_select emulator apdu tx offset in
      if ltb worker_max_buffer_size (length apdu)
      then execute emulator tx bad_length
      else if not (leb 4 (length apdu) && get_or apdu 0 0 == core.iso7816_cla_standard)
      then execute emulator tx (decode apdu)
      else if not r.handled
      then execute r.emulator r.tx_buffer (decode apdu)
      else record {
        emulator = r.emulator;
        tx_buffer = r.tx_buffer;
        events = if r.app_selected then custom_event app_selected ∷ [] else [];
      }

module _ {Emulator : Type 0} (core : Engine Emulator)
    (send : Dfc Emulator → Dfc Emulator × List Effect) (offset : ℕ) where
  -- The response sent, with the events before it.
  abbrev pub sent_as : Dfc Emulator → Response Emulator → Dfc Emulator × List Effect
  sent_as s r = after r.events (send (engine_at s r.emulator r.tx_buffer))

  unwrap_command-execute :
      (s : Dfc Emulator) (apdu : List ℕ)
      → unwrap_command core send offset s apdu
        ≡ sent_as s (execute core offset s.emulator s.tx_buffer (decode core offset apdu))
  unfolding unwrap_command run_native length_error decode execute run_handler
  unwrap_command-execute s apdu = ground arith

  pub handle_bare-response_to :
      (s : Dfc Emulator) (apdu : List ℕ)
      → handle_bare core send offset s apdu
        ≡ sent_as s (response_to core offset s.emulator s.tx_buffer apdu)
  unfolding handle_bare response_to length_error execute
  handle_bare-response_to s apdu =
      elim (Bool-cases (ltb core.worker_max_buffer_size (length apdu))) [
        | inl e ↦ rw e
        | inr e ↦
            rw e
              (elim (Bool-cases
                (leb 4 (length apdu) && get_or apdu 0 0 == core.iso7816_cla_standard)) [
                  | inr o ↦ rw o (unwrap_command-execute s apdu)
                  | inl o ↦ rw o (elim (Bool-cases r.handled) [
                    | inl h ↦ rw h
                    | inr h ↦
                        rw h (unwrap_command-execute (engine_at s r.emulator r.tx_buffer) apdu)
                  ])
                ])
      ]
    where
      r : Selected Emulator
      r = core.handle_iso7816_select s.emulator apdu s.tx_buffer offset

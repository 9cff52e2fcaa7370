-- ===== src/IsoDep/Answering.antt =====
-- What the engine's side keeps of the response buffer while it answers a bare command.
use dfc_flipper.Base.{
  ℕ, ◌≡◌, refl, ap₂, ◌∙◌, Bool, true, false, not, ◌&&◌, List, [], ◌∷◌, ◌++◌, ltb, leb, ◌==◌,
  if◌then◌else◌, if_rule, length, get_or,
}
use dfc_flipper.ByteBuf.Refine.{IsValid}
use dfc_flipper.Engine.{Engine, Laws, Selected, Extends}
use dfc_flipper.IsoDep.Respond.{
  response_to, execute, Response, run_handler, Command, bad_length, wrapped, decode, native,
}
use dfc_flipper.Events.{
  DfcEvent, frames, notify_all, custom_event, emulate, app_selected, frames-append,
  frames-notify_all,
}
use dfc_flipper.ByteBuf.{ByteBuf, append_byte}
use dfc_flipper.IsoDep.Apdu.{rewrap}

frames_if : (b : Bool) → frames (if b then custom_event app_selected ∷ [] else []) ≡ []
frames_if true = refl
frames_if false = refl

frames_unhandled :
    (es : List DfcEvent) (b : Bool)
    → frames (notify_all es ++ (if b then [] else custom_event emulate ∷ [])) ≡ []
frames_unhandled es true = frames-append (notify_all es) [] ∙ ap₂ ◌++◌ (frames-notify_all es) refl
frames_unhandled es false = frames-append (notify_all es) _ ∙ ap₂ ◌++◌ (frames-notify_all es) refl

module _ {Emulator : Type 0} (core : Engine Emulator) (offset : ℕ) where
  -- A property of response buffers that every write of the listener and of the engine keeps.
  pub record IsKept (Q : ByteBuf → Type 0) : Type 0 where
    pub valid : (tx : ByteBuf) → Q tx → IsValid core.bytebuf_max tx
    pub extended :
        (before after : ByteBuf) → Q before → Extends core.bytebuf_max before after → Q after
    pub byte_added : (tx : ByteBuf) (byte : ℕ) → Q tx → Q (append_byte core.bytebuf_max tx byte)
    pub rewrapped : (tx : ByteBuf) → Q tx → Q (rewrap core offset tx)

  frames-execute :
      (emulator : Emulator) (tx : ByteBuf) (c : Command)
      → frames (execute core offset emulator tx c).events ≡ []
  unfolding execute run_handler
  frames-execute emulator tx bad_length = refl
  frames-execute emulator tx (wrapped command) = frames_unhandled _ _
  frames-execute emulator tx (native command) = frames_unhandled _ _

  -- No frame is sent before the response.
  pub frames-response_to :
      (emulator : Emulator) (tx : ByteBuf) (apdu : List ℕ)
      → frames (response_to core offset emulator tx apdu).events ≡ []
  unfolding response_to
  frames-response_to emulator tx apdu =
      let r = core.handle_iso7816_select emulator apdu tx offset in
      if_rule Silent (ltb core.worker_max_buffer_size (length apdu))
        (λ _. frames-execute emulator tx bad_length)
        (λ _.
          if_rule Silent (not (leb 4 (length apdu) && get_or apdu 0 0 == core.iso7816_cla_standard))
            (λ _. frames-execute emulator tx (decode core offset apdu))
            (λ _.
              if_rule Silent (not r.handled)
                (λ _. frames-execute r.emulator r.tx_buffer (decode core offset apdu))
                (λ _. frames_if r.app_selected)))
    where
      Silent : Response Emulator → Type 0
      Silent r = frames r.events ≡ []

module _ {Emulator : Type 0} (core : Engine Emulator) (laws : Laws core) (offset : ℕ)
    (Q : ByteBuf → Type 0) (kept : IsKept core offset Q) where
  execute_rule :
      (emulator : Emulator) (tx : ByteBuf) (c : Command)
      → Q tx
      → Q (execute core offset emulator tx c).tx_buffer
  unfolding execute run_handler
  execute_rule emulator tx bad_length f =
      kept.byte_added _ core.status_length_error (kept.byte_added tx 0x91 f)
  execute_rule emulator tx (wrapped command) f =
      kept.rewrapped _
        (kept.extended tx _ f (laws.command_appends emulator command tx (kept.valid tx f)))
  execute_rule emulator tx (native command) f =
      kept.extended tx _ f (laws.command_appends emulator command tx (kept.valid tx f))

  pub response_to_rule :
      (emulator : Emulator) (tx : ByteBuf) (apdu : List ℕ)
      → Q tx
      → Q (response_to core offset emulator tx apdu).tx_buffer
  unfolding response_to
  response_to_rule emulator tx apdu f =
      if_rule Good (ltb core.worker_max_buffer_size (length apdu))
        (λ _. execute_rule emulator tx bad_length f)
        (λ _.
          if_rule Good (not (leb 4 (length apdu) && get_or apdu 0 0 == core.iso7816_cla_standard))
            (λ _. execute_rule emulator tx (decode core offset apdu) f)
            (λ _.
              if_rule Good (not r.handled)
                (λ _. execute_rule r.emulator r.tx_buffer (decode core offset apdu) selected)
                (λ _. selected)))
    where
      Good : Response Emulator → Type 0
      Good r = Q r.tx_buffer

      r : Selected Emulator
      r = core.handle_iso7816_select emulator apdu tx offset

      selected : Q r.tx_buffer
      selected =
          kept.extended tx r.tx_buffer f
            (laws.select_appends emulator apdu tx offset (kept.valid tx f))

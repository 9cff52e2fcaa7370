-- ===== src/IsoDep/Handling.antt =====
-- The handling of a whole command, `handle_apdu`, as a rule: on every path it ends in
-- `send_i_response` on a response buffer that begins with the command's PCB and CID, with the
-- protocol's state as it was before the command.
use dfc_flipper.Base.{List, Bool, ℕ, [], ◌≡◌, sym, subst}
use dfc_flipper.IsoDep.Invariant.{IsValid}
use dfc_flipper.Engine.{Engine, Laws}
use dfc_flipper.Events.{frames, Effect}
use dfc_flipper.IsoDep.State.{Dfc, Block, prefix_len}
use dfc_flipper.ByteBuf.{ByteBuf}
use dfc_flipper.IsoDep.Framed.{
  IsBlock, Framed, with_prefix-Framed, append_byte-Framed, Extends-Framed, rewrap-Framed,
}
use dfc_flipper.IsoDep.Apdu.{handle_apdu, with_prefix, after}
use dfc_flipper.IsoDep.Send.{send_i_response}
use dfc_flipper.IsoDep.Respond.{response_to, engine_at, handle_bare-response_to}
use dfc_flipper.IsoDep.Answering.{frames-response_to, response_to_rule, IsKept}

module _ {Emulator : Type 0} (core : Engine Emulator) where
  -- What a property of results must satisfy to hold of `handle_apdu`.
  pub record Handles (radio_alloc : Bool) (s : Dfc Emulator) (pcb : ℕ)
      (P : Dfc Emulator × List Effect → Type 0) : Type 0 where
    pub after_events :
        (es : List Effect) (r : Dfc Emulator × List Effect) → frames es ≡ [] → P r → P (after es r)
    pub respond :
        (emulator : Emulator) (tx : ByteBuf)
        → Framed core pcb tx
        → P (send_i_response core radio_alloc (engine_at s emulator tx))

module _ {Emulator : Type 0} (core : Engine Emulator) (laws : Laws core) (offset pcb : ℕ)
    (prefixed : offset ≡ prefix_len core pcb) where
  Framed-IsKept : IsKept core offset (Framed core pcb)
  Framed-IsKept = record {
    valid = λ tx f. f.valid;
    extended = λ before after f x. Extends-Framed core f x;
    byte_added = λ tx byte f. append_byte-Framed core byte f;
    rewrapped = λ tx f. rewrap-Framed core laws offset pcb prefixed f;
  }

  pub response_to-Framed :
      (emulator : Emulator) {tx : ByteBuf} (apdu : List ℕ)
      → Framed core pcb tx
      → Framed core pcb (response_to core offset emulator tx apdu).tx_buffer
  response_to-Framed emulator {tx} apdu f =
      response_to_rule core laws offset (Framed core pcb) Framed-IsKept emulator tx apdu f

module _ {Emulator : Type 0} (core : Engine Emulator) (laws : Laws core) (radio_alloc : Bool)
    (s : Dfc Emulator) (b : Block) (w : IsBlock core b) (P : Dfc Emulator × List Effect → Type 0)
    (hs : Handles core radio_alloc s b.pcb P) where
  pub handle_apdu_rule :
      (apdu : List ℕ) → IsValid core s → P (handle_apdu core radio_alloc s b apdu)
  unfolding handle_apdu with_prefix
  handle_apdu_rule apdu v =
      let start = with_prefix core s b in
      let r = response_to core b.offset s.emulator start.tx_buffer apdu in
      let f =
        response_to-Framed core laws b.offset b.pcb w.prefixed s.emulator apdu
          (with_prefix-Framed core laws s w v.buffer) in
      subst P
        (sym (handle_bare-response_to core (send_i_response core radio_alloc) b.offset start apdu))
        (hs.after_events r.events _
          (frames-response_to core b.offset s.emulator start.tx_buffer apdu)
          (hs.respond r.emulator r.tx_buffer f))

-- ===== src/Engine.antt =====
-- The interface of lib/core (a submodule) that the radio listener uses: its constants, and the
-- operations on the emulator. `Laws` states what the listener relies on.
pub mod Echo
use dfc_flipper.Base.{ℕ, ◌≤◌, ◌≡◌, Bool, Option, some, List, ◌++◌, length, take}
use dfc_flipper.ByteBuf.{ByteBuf, contents}
use dfc_flipper.ByteBuf.Refine.{IsValid}
use dfc_flipper.Events.{DfcEvent}

-- `dfc_emulator_handle_iso7816_select`: the emulator and the response buffer after the call, its
-- result, and what it wrote through `app_selected`.
pub record Selected (Emulator : Type 0) : Type 0 where
  pub emulator : Emulator
  pub tx_buffer : ByteBuf
  pub handled : Bool
  pub app_selected : Bool

-- `dfc_emulator_handle_command`: the same, with the events that it notified on the way.
pub record Handled (Emulator : Type 0) : Type 0 where
  pub emulator : Emulator
  pub tx_buffer : ByteBuf
  pub handled : Bool
  pub notified : List DfcEvent

pub record Engine (Emulator : Type 0) : Type 0 where
  pub bytebuf_max : ℕ
  pub worker_max_buffer_size : ℕ
  pub cid_mask : ℕ
  pub nad_mask : ℕ
  pub iso7816_cla_standard : ℕ
  pub iso7816_cla_wrapper : ℕ
  pub status_length_error : ℕ
  -- emulator, command, response buffer, length of the response's prefix
  pub handle_iso7816_select : Emulator → List ℕ → ByteBuf → ℕ → Selected Emulator
  -- emulator, command, response buffer
  pub handle_command : Emulator → List ℕ → ByteBuf → Handled Emulator
  -- response, length of its prefix, capacity of the output
  pub wrap_native_response_as_iso7816 : List ℕ → ℕ → ℕ → Option (List ℕ)
  pub reset_activation : Emulator → ByteBuf → Emulator × ByteBuf

-- A response buffer that the engine has appended to.
pub record Extends (m : ℕ) (before after : ByteBuf) : Type 0 where
  pub valid : IsValid m after
  pub written : List ℕ
  pub appended : contents after ≡ contents before ++ written

-- What the listener relies on. The masks are those of ISO/IEC 14443-4; the buffers hold at least a
-- frame; the engine writes its response behind the prefix that the listener has put in the buffer.
pub record Laws {Emulator : Type 0} (core : Engine Emulator) : Type 0 where
  pub cid_mask_lem : core.cid_mask ≡ 0x08
  pub nad_mask_lem : core.nad_mask ≡ 0x04
  pub frame_fits : 64 ≤ core.bytebuf_max
  pub command_fits : core.worker_max_buffer_size ≤ core.bytebuf_max
  pub bytebuf_small : core.bytebuf_max ≤ 0xffff
  pub select_appends :
      (e : Emulator) (apdu : List ℕ) (tx : ByteBuf) (offset : ℕ)
      → IsValid core.bytebuf_max tx
      → Extends core.bytebuf_max tx (core.handle_iso7816_select e apdu tx offset).tx_buffer
  pub command_appends :
      (e : Emulator) (apdu : List ℕ) (tx : ByteBuf)
      → IsValid core.bytebuf_max tx
      → Extends core.bytebuf_max tx (core.handle_command e apdu tx).tx_buffer
  pub wrap_bounded :
      (response : List ℕ) (offset capacity : ℕ) (out : List ℕ)
      → core.wrap_native_response_as_iso7816 response offset capacity ≡ some out
      → length out ≤ capacity
  pub wrap_keeps_prefix :
      (response : List ℕ) (offset capacity : ℕ) (out : List ℕ)
      → core.wrap_native_response_as_iso7816 response offset capacity ≡ some out
      → (written : List ℕ) × (out ≡ take offset response ++ written)
  pub reset_keeps_buffer :
      (e : Emulator) (tx : ByteBuf)
      → IsValid core.bytebuf_max tx
      → IsValid core.bytebuf_max (core.reset_activation e tx).1

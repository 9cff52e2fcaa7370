-- ===== src/Storage/Memory.antt =====
-- The blocks and handles that dfc_credential_storage.c takes and gives back, and what becomes of
-- them along a run.
use dfc_flipper.Base.{false, List, Bool, Option, some, if◌then◌else◌, none, true, [], ◌∷◌}

-- The buffer with the file, the binary copy, the rendered text, the plugin manager, the file handle.
pub data Resource : Type 0 where
  raw_buffer octets_buffer text_buffer plugin_manager file_handle : Resource

pub data MemoryEvent : Type 0 where
  taken : Resource → MemoryEvent
  given_back : Resource → MemoryEvent

-- Which of them are held.
pub record Held : Type 0 where
  pub raw : Bool
  pub octets : Bool
  pub text : Bool
  pub manager : Bool
  pub file : Bool

abbrev pub nothing_held : Held
nothing_held = record { raw = false; octets = false; text = false; manager = false; file = false }

abbrev pub holds : Held → Resource → Bool
holds h raw_buffer = h.raw
holds h octets_buffer = h.octets
holds h text_buffer = h.text
holds h plugin_manager = h.manager
holds h file_handle = h.file

abbrev pub put : Held → Resource → Bool → Held
put h raw_buffer b = record h { raw = b }
put h octets_buffer b = record h { octets = b }
put h text_buffer b = record h { text = b }
put h plugin_manager b = record h { manager = b }
put h file_handle b = record h { file = b }

-- `none` where a resource is taken while it is held, which loses it, or given back while it is not,
-- a double free.
abbrev pub account : Held → List MemoryEvent → Option Held
account h [] = some h
account h (taken r ∷ es) = if holds h r then none else account (put h r true) es
account h (given_back r ∷ es) = if holds h r then account (put h r false) es else none

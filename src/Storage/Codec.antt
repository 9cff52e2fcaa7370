-- ===== src/Storage/Codec.antt =====
-- `dfc_text_codec_open` and `dfc_text_codec_close`: the text plugin, loaded for one operation.
use dfc_flipper.Base.{
  false, List, Bool, ℕ, Option, if◌then◌else◌, some, ◌&&◌, not, none, [], ◌∷◌, ◌==◌, true,
}
use dfc_flipper.Storage.Memory.{MemoryEvent, given_back, plugin_manager, taken}

-- The entry point of a plugin: which of its functions are not NULL.
pub record Plugin : Type 0 where
  pub bind : Bool
  pub parse : Bool
  pub write : Bool
  pub status_name : Bool

-- The plugins, each with an id and a path.
pub data PluginName : Type 0 where
  text_import text_export : PluginName

-- What the plugin manager of the SDK answers, by the id of the plugin that it is allocated for or the path
-- of the plugin that it loads.
pub record PluginSystem : Type 0 where
  pub alloc_ok : PluginName → Bool
  pub loads : PluginName → Bool
  pub count : PluginName → ℕ
  pub entry : PluginName → Option Plugin

-- The choice of the id, and of the path.
abbrev pub plugin_for : Bool → PluginName
plugin_for for_write = if for_write then text_export else text_import

-- `DfcTextCodec`, with whether its pointers are set.
pub record TextCodec : Type 0 where
  pub manager : Bool
  pub api : Bool

abbrev pub closed : TextCodec
closed = record { manager = false; api = false }

-- The test of the entry point.
abbrev pub is_usable : Bool → Option Plugin → Bool
is_usable for_write none = false
is_usable for_write (some p) = p.bind && (p.status_name && (if for_write then p.write else p.parse))

unfoldable pub open_codec : PluginSystem → TextCodec → Bool → TextCodec × Bool × List MemoryEvent
open_codec system codec for_write =
    if not (system.alloc_ok (plugin_for for_write))
    then (record codec { manager = false }, false, [])
    else if not (system.loads (plugin_for for_write))
    then (
      record codec { manager = false },
      false,
      taken plugin_manager ∷ given_back plugin_manager ∷ [],
    )
    else if not (system.count (plugin_for for_write) == 1)
    then (
      record codec { manager = false },
      false,
      taken plugin_manager ∷ given_back plugin_manager ∷ [],
    )
    else if not (is_usable for_write (system.entry (plugin_for for_write)))
    then (closed, false, taken plugin_manager ∷ given_back plugin_manager ∷ [])
    else (record { manager = true; api = true }, true, taken plugin_manager ∷ [])

unfoldable pub close_codec : TextCodec → TextCodec × List MemoryEvent
close_codec codec = (closed, if codec.manager then given_back plugin_manager ∷ [] else [])

-- ===== src/Storage/Plugin.antt =====
-- text_plugin/dfc_text_codec.c: the entry point of the two plugins, which of them
-- `dfc_text_codec_open` takes, and where their calls go.
use dfc_flipper.Base.{Bool, true, not}
use dfc_flipper.Storage.Codec.{Plugin}
use dfc_flipper.Storage.HostApi.{HostApi}

-- `codec`; `imports` says whether DFC_TEXT_IMPORT_PLUGIN is defined.
unfoldable pub codec : (imports : Bool) → Plugin
codec imports = record { bind = true; parse = imports; write = not imports; status_name = true }

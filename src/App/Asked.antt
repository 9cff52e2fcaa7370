-- ===== src/App/Asked.antt =====
-- Which scenes the handlers of scenes/ ask for.
use dfc_flipper.Base.{◌≡◌, refl, sym, ap, ◌∙◌, Bool, true, false, Option, some, arith}
use dfc_flipper.App.Scenes.{handle, World}
use dfc_flipper.App.State.{
  Scene, Request, main_menu, read, next_scene, read_success, App, read_error, SceneEvent,
  file_select, emulating, saved_menu, save_name, mutation_save, save_success, about, delete_scene,
  delete_success, info_scene,
}
use dfc_flipper.App.Core.{AppCore}
use dfc_flipper.App.Saving.{
  select_file, mutation_save_return, handle_file_select, handle_save_name, handle_mutation_save,
}
use dfc_flipper.App.Menus.{
  handle_main_menu, handle_saved_menu, handle_save_success, handle_delete, handle_delete_success,
}
use dfc_flipper.Storage.Load.{LoadSystem}
use dfc_flipper.App.Cards.{handle_emulating, handle_read}
use dfc_flipper.App.Reports.{handle_read_success, handle_read_error, handle_info}
use dfc_flipper.App.AboutScene.{handle_about}

-- DfcSceneRead, DfcSceneReadSuccess and DfcSceneReadError.
abbrev pub is_reader_scene : Scene → Bool
is_reader_scene read = true
is_reader_scene read_success = true
is_reader_scene read_error = true
is_reader_scene _ = false

-- Whether a request opens one of them.
abbrev opens_reader : Option Request → Bool
opens_reader (some (next_scene s)) = is_reader_scene s
opens_reader _ = false

-- The scenes that are opened from the first one: by a handler's request, whatever the state, the event
-- and the answers of the SDK are, or by the choice of a file.
pub data Opened {Credential : Type 0} (core : AppCore Credential) : Scene → Type 0 where
  first : Opened core main_menu
  asked :
      (w : World) (s t : Scene) (app : App Credential) (e : SceneEvent)
      → Opened core s
      → (handle core w s app e).request ≡ some (next_scene t)
      → Opened core t
  chosen :
      (system : LoadSystem) (t : Scene) (app : App Credential)
      → Opened core file_select
      → (select_file core system app).2 ≡ next_scene t
      → Opened core t

module _ {Credential : Type 0} (core : AppCore Credential) where
  handle-stays :
      (w : World) (s : Scene) (app : App Credential) (e : SceneEvent)
      → is_reader_scene s ≡ false
      → opens_reader (handle core w s app e).request ≡ false
  unfolding handle mutation_save_return handle_main_menu handle_emulating handle_read
      handle_file_select handle_saved_menu handle_read_success handle_save_name handle_mutation_save
      handle_save_success handle_about handle_delete handle_delete_success handle_read_error
      handle_info
  handle-stays w main_menu app e r = ground arith
  handle-stays w emulating app e r = ground arith
  handle-stays w read app e r = cc
  handle-stays w file_select app e r = ground arith
  handle-stays w saved_menu app e r = ground arith
  handle-stays w read_success app e r = cc
  handle-stays w save_name app e r = ground arith
  handle-stays w mutation_save app e r = ground arith
  handle-stays w save_success app e r = ground arith
  handle-stays w about app e r = ground arith
  handle-stays w delete_scene app e r = ground arith
  handle-stays w delete_success app e r = ground arith
  handle-stays w read_error app e r = cc
  handle-stays w info_scene app e r = ground arith

  select_file-stays :
      (system : LoadSystem) (app : App Credential)
      → opens_reader (some (select_file core system app).2) ≡ false
  unfolding select_file
  select_file-stays system app = ground arith

  -- No scene that a handler's request or the choice of a file opens, from the main menu on, is one of the
  -- three of the card reader.
  pub Opened-avoids_reader : (s : Scene) → Opened core s → is_reader_scene s ≡ false
  Opened-avoids_reader _ first = refl
  Opened-avoids_reader _ (asked w s t app e o q) =
      sym (ap opens_reader q) ∙ handle-stays w s app e (Opened-avoids_reader s o)
  Opened-avoids_reader _ (chosen system t app o q) =
      sym (ap (λ r. opens_reader (some r)) q) ∙ select_file-stays system app

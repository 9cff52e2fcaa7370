-- ===== src/App/Scenes.antt =====
-- The tables of handlers of scenes/dfc_scene.c, and a visit of a scene: the scene manager calls its
-- on_enter, its on_event for each event, and its on_exit.
use dfc_flipper.Base.{ℕ, Bool, Option, none, some, List, [], ◌∷◌}
use dfc_flipper.App.State.{
  Scene, App, Handling, SceneEvent, main_menu, emulating, read, file_select, saved_menu,
  read_success, save_name, mutation_save, save_success, about, delete_success, read_error,
  delete_scene, info_scene,
}
use dfc_flipper.App.Core.{AppCore}
use dfc_flipper.Storage.Load.{LoadSystem}
use dfc_flipper.Storage.Save.{SaveSystem}
use dfc_flipper.App.Menus.{
  handle_main_menu, enter_main_menu, exit_main_menu, exit_saved_menu, enter_saved_menu,
  handle_saved_menu, exit_save_success, enter_save_success, handle_save_success, enter_delete,
  handle_delete, exit_delete, exit_delete_success, enter_delete_success, handle_delete_success,
}
use dfc_flipper.App.Saving.{
  select_file, exit_file_select, handle_file_select, enter_file_select, handle_save_name,
  enter_save_name, exit_save_name, exit_mutation_save, handle_mutation_save, enter_mutation_save,
}
use dfc_flipper.App.Cards.{
  RadioStart, enter_emulating, handle_emulating, exit_emulating, exit_read, handle_read, enter_read,
}
use dfc_flipper.App.Reports.{
  exit_read_success, handle_read_success, enter_read_success, handle_read_error, exit_read_error,
  enter_read_error, enter_info, exit_info, handle_info,
}
use dfc_flipper.App.AboutScene.{exit_about, handle_about, enter_about}

-- What the SDK and the heap answer during one call of a handler.
pub record World : Type 0 where
  pub start : RadioStart
  pub poller_alloc : Bool
  pub generated : List ℕ
  -- What scene_manager_previous_scene and scene_manager_search_and_switch_to_previous_scene answer.
  pub went : Bool
  pub found : Bool
  pub removes : List ℕ → Bool
  pub save_system : SaveSystem
  pub load_system : LoadSystem

-- What happens during a visit: an event, a credential that the emulator or the poller leaves, or a path
-- that the file browser has written before it calls `dfc_scene_file_select_callback`.
pub data Happening (Credential : Type 0) : Type 0 where
  event : World → SceneEvent → Happening Credential
  changed : Credential → Happening Credential
  browsed : World → List ℕ → Happening Credential

pub record Visit (Credential : Type 0) : Type 0 where
  pub world : World
  pub scene : Scene
  pub happenings : List (Happening Credential)

module _ {Credential : Type 0} where
  -- dfc_on_exit_handlers
  unfoldable pub exit : Scene → App Credential → App Credential
  exit main_menu app = exit_main_menu app
  exit emulating app = exit_emulating app
  exit read app = exit_read app
  exit file_select app = exit_file_select app
  exit saved_menu app = exit_saved_menu app
  exit read_success app = exit_read_success app
  exit save_name app = exit_save_name app
  exit mutation_save app = exit_mutation_save app
  exit save_success app = exit_save_success app
  exit about app = exit_about app
  exit delete_scene app = exit_delete app
  exit delete_success app = exit_delete_success app
  exit read_error app = exit_read_error app
  exit info_scene app = exit_info app

module _ {Credential : Type 0} (core : AppCore Credential) where
  -- dfc_on_enter_handlers; none where an assertion fails.
  unfoldable pub enter : World → Scene → App Credential → Option (App Credential)
  enter w main_menu app = some (enter_main_menu app)
  enter w emulating app = enter_emulating core w.start app
  enter w read app = some (enter_read w.poller_alloc app)
  enter w file_select app = some (enter_file_select app)
  enter w saved_menu app = some (enter_saved_menu app)
  enter w read_success app = some (enter_read_success core app)
  enter w save_name app = some (enter_save_name core w.generated app)
  enter w mutation_save app = some (enter_mutation_save app)
  enter w save_success app = some (enter_save_success app)
  enter w about app = some (enter_about app)
  enter w delete_scene app = some (enter_delete core app)
  enter w delete_success app = some (enter_delete_success app)
  enter w read_error app = some (enter_read_error core app)
  enter w info_scene app = some (enter_info core app)

  -- dfc_on_event_handlers
  unfoldable pub handle : World → Scene → App Credential → SceneEvent → Handling Credential
  handle w main_menu app e = handle_main_menu core app e
  handle w emulating app e = handle_emulating core app e
  handle w read app e = handle_read app e
  handle w file_select app e = handle_file_select app e
  handle w saved_menu app e = handle_saved_menu core app e
  handle w read_success app e = handle_read_success core app e
  handle w save_name app e = handle_save_name core w.found w.save_system app e
  handle w mutation_save app e = handle_mutation_save core w.went w.save_system app e
  handle w save_success app e = handle_save_success w.found app e
  handle w about app e = handle_about core w.went app e
  handle w delete_scene app e = handle_delete core w.went w.removes app e
  handle w delete_success app e = handle_delete_success w.found app e
  handle w read_error app e = handle_read_error core w.went app e
  handle w info_scene app e = handle_info core w.went app e

  unfoldable pub happen : Scene → App Credential → Happening Credential → App Credential
  happen s app (event w e) = (handle w s app e).app
  happen s app (changed credential) = record app { credential = credential }
  happen s app (browsed w path) =
      (select_file core w.load_system (record app { load_path = path })).0

  unfoldable pub happen_all : Scene → App Credential → List (Happening Credential) → App Credential
  happen_all s app [] = app
  happen_all s app (h ∷ hs) = happen_all s (happen s app h) hs

  -- The visits of scenes in any order; none where an assertion fails.
  unfoldable pub visit_all : App Credential → List (Visit Credential) → Option (App Credential)
  visit_all app [] = some app
  visit_all app (v ∷ vs) = elim (enter v.world v.scene app) [
    | none ↦ none
    | some entered ↦ visit_all (exit v.scene (happen_all v.scene entered v.happenings)) vs
  ]

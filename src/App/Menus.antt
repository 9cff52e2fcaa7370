-- ===== src/App/Menus.antt =====
-- scenes/dfc_scene_main_menu.c, dfc_scene_saved_menu.c, dfc_scene_delete.c, dfc_scene_delete_success.c
-- and dfc_scene_save_success.c. `enter`, `handle` and `exit` are on_enter, on_event and on_exit.
use dfc_flipper.Storage.Save
use dfc_flipper.Base.{ℕ, Bool, true, false, some, List, [], ◌∷◌, ◌++◌, ◌==◌, if◌then◌else◌, take}
use dfc_flipper.App.Core.{AppCore}
use dfc_flipper.App.State.{
  App, Handling, SceneEvent, custom, back, tick, ignored, asks, asks_answered, next_scene,
  previous_scene, search_scene, previous_scenes, view_popup, emulating, file_select, view_menu,
  event_code, blank_popup, about, text_element, delete_success, button_element, main_menu,
  view_widget, info_scene, delete_scene,
}
use dfc_flipper.App.Text.{codes}
use dfc_flipper.Events.{view_exit}

module _ {Credential : Type 0} where
  unfoldable pub enter_main_menu : App Credential → App Credential
  enter_main_menu app = record app {
    submenu = 0 ∷ 1 ∷ 2 ∷ [];
    selected_item = app.main_menu_state;
    view = view_menu;
  }

  unfoldable pub exit_main_menu : App Credential → App Credential
  exit_main_menu app = record app { submenu = [] }

  unfoldable pub enter_saved_menu : App Credential → App Credential
  enter_saved_menu app = record app {
    submenu = app.submenu ++ (0 ∷ 2 ∷ 1 ∷ []);
    selected_item = app.saved_menu_state;
    view = view_menu;
  }

  unfoldable pub exit_saved_menu : App Credential → App Credential
  exit_saved_menu app = record app { submenu = [] }

  unfoldable pub exit_delete : App Credential → App Credential
  exit_delete app = record app { widget = [] }

  -- A popup that closes itself after its timeout.
  abbrev pub timed_popup : App Credential → List ℕ → App Credential
  timed_popup app header = record app {
    popup = record app.popup { header = header; timeout = true };
    view = view_popup;
  }

  unfoldable pub enter_delete_success : App Credential → App Credential
  enter_delete_success app = timed_popup app (codes "Deleted")

  unfoldable pub exit_delete_success : App Credential → App Credential
  exit_delete_success app = record app { popup = blank_popup }

  unfoldable pub enter_save_success : App Credential → App Credential
  enter_save_success app = timed_popup app (codes "Saved!")

  unfoldable pub exit_save_success : App Credential → App Credential
  exit_save_success app = record app { popup = blank_popup }

  -- `found` is what scene_manager_search_and_switch_to_previous_scene answers.
  unfoldable pub handle_delete_success : Bool → App Credential → SceneEvent → Handling Credential
  handle_delete_success found app (custom event) =
      if event == event_code view_exit
      then asks_answered app (search_scene main_menu) found
      else ignored app
  handle_delete_success found app event = ignored app

  unfoldable pub handle_save_success : Bool → App Credential → SceneEvent → Handling Credential
  handle_save_success found app (custom event) =
      if event == event_code view_exit
      then asks_answered app (search_scene main_menu) found
      else ignored app
  handle_save_success found app event = ignored app

module _ {Credential : Type 0} (core : AppCore Credential) where
  unfoldable pub handle_main_menu : App Credential → SceneEvent → Handling Credential
  handle_main_menu app (custom event) =
      if event == 0
      then asks (record app { main_menu_state = 0 }) (next_scene file_select)
      else if event == 1
      then asks
          (record app {
            main_menu_state = 1;
            credential = core.init_blank app.credential;
            emulate_from_blank = true;
          })
          (next_scene emulating)
      else if event == 2
      then asks (record app { main_menu_state = 2 }) (next_scene about)
      else ignored app
  handle_main_menu app back = record {
    app = app;
    request = some previous_scenes;
    consumed = false;
    files = [];
  }
  handle_main_menu app tick = ignored app

  unfoldable pub handle_saved_menu : App Credential → SceneEvent → Handling Credential
  handle_saved_menu app (custom event) =
      let kept = record app { saved_menu_state = event } in
      if event == 0
      then asks kept (next_scene emulating)
      else if event == 2
      then asks kept (next_scene info_scene)
      else if event == 1
      then asks kept (next_scene delete_scene)
      else ignored kept
  handle_saved_menu app back = ignored (record app { credential = core.model.clear app.credential })
  handle_saved_menu app tick = ignored app

  unfoldable pub enter_delete : App Credential → App Credential
  enter_delete app = record app {
    widget =
        app.widget
        ++ (text_element (
              take 140
                (codes "\u{1b}#Delete " ++ (core.model.name app.credential ++ codes "?\u{1b}#")))
            ∷ button_element core.button_left (codes "Back")
            ∷ button_element core.button_right (codes "Delete")
            ∷ []);
    view = view_widget;
  }

  -- `went` is what scene_manager_previous_scene answers, and `removes` storage_simply_remove.
  unfoldable pub handle_delete :
      Bool → (List ℕ → Bool) → App Credential → SceneEvent → Handling Credential
  handle_delete went removes app (custom event) =
      if event == core.button_left
      then asks_answered app previous_scene went
      else if event == core.button_right
      then (if (Save.delete core.model core.app_data_path removes app.credential app.load_path
            true).0
          then asks app (next_scene delete_success)
          else asks app (search_scene main_menu))
      else ignored app
  handle_delete went removes app event = ignored app

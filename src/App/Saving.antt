-- ===== src/App/Saving.antt =====
-- scenes/dfc_scene_mutation_save.c, dfc_scene_save_name.c and dfc_scene_file_select.c. `enter`, `handle`
-- and `exit` are on_enter, on_event and on_exit.
use dfc_flipper.Storage.Status.{
  LoadStatus, load_ok, open_failed, unsupported_format, malformed_file, unsupported_auth_mode,
  codec_unavailable, capacity, ends_with,
}
use dfc_flipper.Base.{
  ℕ, ◌-◌, Bool, true, false, not, ◌&&◌, ◌||◌, Option, none, some, List, [], ◌∷◌, ◌++◌, ◌==◌,
  if◌then◌else◌, length, take,
}
use dfc_flipper.App.Core.{AppCore}
use dfc_flipper.Storage.Load.{LoadSystem, load_selected_file}
use dfc_flipper.Storage.Save.{SaveSystem, Saving, save, save_loaded}
use dfc_flipper.App.State.{
  App, Handling, SceneEvent, custom, back, tick, ignored, asks, asks_answered, next_scene,
  previous_scene, search_scene, view_file_browser, saved_menu, view_menu, save_success, event_code,
  Request, main_menu, save_name, view_text_input,
}
use dfc_flipper.Storage.Status.{LoadStatus, ends_with, load_ok}
use dfc_flipper.App.Text.{codes}
use dfc_flipper.Events.{text_input_done}

module _ {Credential : Type 0} where
  -- `dfc_scene_mutation_save_return`
  unfoldable pub mutation_save_return : App Credential → Handling Credential
  mutation_save_return app =
      let app' = record app { emulate_from_blank = false } in
      if not (length app.load_path == 0)
      then asks app' (search_scene saved_menu)
      else asks app' (search_scene main_menu)

  unfoldable pub enter_mutation_save : App Credential → App Credential
  enter_mutation_save app = record app {
    submenu =
        app.submenu ++ ((if not (length app.load_path == 0) then 0 ∷ 1 ∷ [] else 2 ∷ []) ++ 3 ∷ []);
    selected_item = app.mutation_save_state;
    view = view_menu;
  }

  unfoldable pub exit_mutation_save : App Credential → App Credential
  exit_mutation_save app = record app { submenu = [] }

  unfoldable pub exit_save_name : App Credential → App Credential
  exit_save_name app = record app { text_input = []; validator = false }

  unfoldable pub enter_file_select : App Credential → App Credential
  enter_file_select app = record app { file_browser = true; view = view_file_browser }

  unfoldable pub exit_file_select : App Credential → App Credential
  exit_file_select app = record app { file_browser = false }

  unfoldable pub handle_file_select : App Credential → SceneEvent → Handling Credential
  handle_file_select app event = ignored app

  -- What a call that saves leaves of the state.
  abbrev pub after_saving : App Credential → Saving Credential → App Credential
  after_saving app s = record app { credential = s.credential; load_path = s.load_path }

-- `dfc_scene_file_select_load_error_message`
unfoldable pub load_error_message : LoadStatus → List ℕ
load_error_message unsupported_format = codes "File format\nunsupported"
load_error_message unsupported_auth_mode = codes "Auth mode\nunsupported"
load_error_message codec_unavailable = codes "Text codec\ncould not load"
load_error_message open_failed = codes "Can not open\nfile"
load_error_message capacity = codes "Too large for\nthis build"
load_error_message malformed_file = codes "Can not parse\nfile"
load_error_message load_ok = codes "Can not parse\nfile"

module _ {Credential : Type 0} (core : AppCore Credential) where
  -- `went` is what scene_manager_previous_scene answers.
  unfoldable pub handle_mutation_save :
      Bool → SaveSystem → App Credential → SceneEvent → Handling Credential
  handle_mutation_save went system app (custom event) =
      let kept = record app { mutation_save_state = event } in
      let s = save_loaded core.model system kept.credential kept.load_path in
      if event == 0
      then (if s.saved
          then record (asks (after_saving kept s) (next_scene save_success)) { files = s.files }
          else record (mutation_save_return (after_saving kept s)) { files = s.files })
      else if event == 1 || event == 2
      then asks kept (next_scene save_name)
      else if event == 3
      then mutation_save_return
          (record kept { credential = core.model.clear_dirty kept.credential })
      else ignored kept
  handle_mutation_save went system app back = asks_answered app previous_scene went
  handle_mutation_save went system app tick = ignored app

  -- `dfc_text_store_set`: the store has room for a file name and its end.
  abbrev pub text_store_set : App Credential → List ℕ → App Credential
  text_store_set app text = record app { text_store = take core.model.file_name_max_length text }

  -- `generated` is what name_generator_make_auto writes.
  unfoldable pub enter_save_name : List ℕ → App Credential → App Credential
  enter_save_name generated app = record app {
    text_store =
        if length (core.model.name app.credential) == 0
        then generated
        else (text_store_set app (core.model.name app.credential)).text_store;
    text_input = codes "Name the card";
    validator = true;
    view = view_text_input;
  }

  -- The folder that the validator looks in.
  unfoldable pub validator_folder : App Credential → List ℕ
  validator_folder app =
      if ends_with app.load_path core.model.app_extension
        || ends_with app.load_path core.model.binary_extension
      then core.dirname app.load_path
      else core.app_data_prefix

  -- `found` is what scene_manager_search_and_switch_to_previous_scene answers.
  unfoldable pub handle_save_name :
      Bool → SaveSystem → App Credential → SceneEvent → Handling Credential
  handle_save_name found system app (custom event) =
      let named =
        core.model.set_name (take (core.model.name_size - 1) app.text_store) app.credential in
      let s =
        save core.model system core.dirname core.app_data_prefix named app.load_path
          app.text_store in
      if event == event_code text_input_done
      then (if s.saved
          then record (asks (after_saving app s) (next_scene save_success)) { files = s.files }
          else record (asks_answered (after_saving app s) (search_scene main_menu) found) {
            files = s.files;
          })
      else ignored app
  handle_save_name found system app event = ignored app

  -- `dfc_scene_file_select_callback`, once the browser has written the path chosen: the state, the
  -- message that it shows, and its request.
  unfoldable pub select_file :
      LoadSystem → App Credential → App Credential × Option (List ℕ) × Request
  select_file system app =
      let named =
        core.model.set_name (take (core.model.name_size - 1) (core.filename app.load_path))
          app.credential in
      let loaded =
        load_selected_file core.model system named app.load_path (core.filename app.load_path)
          load_ok in
      if not (ends_with app.load_path core.model.app_extension)
        && not (ends_with app.load_path core.model.binary_extension)
      then (
        record app { credential = core.model.clear app.credential },
        none,
        search_scene main_menu,
      )
      else if loaded.parsed
      then (record app { credential = loaded.credential }, none, next_scene saved_menu)
      else (
        record app { credential = core.model.clear loaded.credential },
        some (load_error_message loaded.status),
        search_scene main_menu,
      )

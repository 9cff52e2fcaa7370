-- ===== src/App/Keeps.antt =====
-- What the handlers of scenes/ do with the credential, and with Back.
use dfc_flipper.Base.{
  ◌≡◌, refl, ◌⊎◌, inl, inr, Bool, true, false, ◌||◌, some, arith, ◌==◌, Bool-cases, [],
}
use dfc_flipper.App.State.{
  main_menu, emulating, read, file_select, saved_menu, read_success, save_name, mutation_save,
  save_success, about, delete_scene, delete_success, read_error, info_scene, Scene, SceneEvent,
  custom, event_code, App, back, Request, next_scene,
}
use dfc_flipper.App.Scenes.{handle, World}
use dfc_flipper.App.Core.{AppCore}
use dfc_flipper.App.Saving.{
  mutation_save_return, handle_file_select, handle_save_name, handle_mutation_save,
}
use dfc_flipper.App.Menus.{
  handle_main_menu, handle_saved_menu, handle_save_success, handle_delete, handle_delete_success,
}
use dfc_flipper.App.Cards.{handle_emulating, handle_read}
use dfc_flipper.Events.{text_input_done}
use dfc_flipper.App.Reports.{handle_read_success, handle_read_error, handle_info}
use dfc_flipper.App.AboutScene.{handle_about}

-- The scenes and events that may replace the credential or the load path, or write a file: "Blank Card",
-- Back from the menu of a loaded file, a name typed, "Update File" and "Discard".
abbrev pub replaces : Scene → SceneEvent → Bool
replaces main_menu (custom n) = n == 1
replaces saved_menu back = true
replaces save_name (custom n) = n == event_code text_input_done
replaces mutation_save (custom n) = n == 0 || n == 3
replaces _ _ = false

module _ {Credential : Type 0} (core : AppCore Credential) (w : World) where
  -- No event of a scene changes the credential, with what a reader has written to it, or the load path, or
  -- writes a file, but five: "Blank Card" of the main menu, Back from the menu of a loaded file, a name typed,
  -- and "Update File" and "Discard" of the scene that saves mutations. The state and the answers of the SDK
  -- are any.
  pub handle-keeps :
      (s : Scene) (app : App Credential) (e : SceneEvent)
      → replaces s e ≡ false
      → ((handle core w s app e).app.credential ≡ app.credential)
        × ((handle core w s app e).app.load_path ≡ app.load_path)
        × ((handle core w s app e).files ≡ [])
  unfolding handle mutation_save_return handle_main_menu handle_emulating handle_read
      handle_file_select handle_saved_menu handle_read_success handle_save_name handle_mutation_save
      handle_save_success handle_about handle_delete handle_delete_success handle_read_error
      handle_info
  handle-keeps main_menu app e h = (ground (arith, h), ground (arith, h), ground (arith, h))
  handle-keeps emulating app e h = (ground (arith, h), ground (arith, h), ground (arith, h))
  handle-keeps read app e h = (ground (arith, h), ground (arith, h), ground (arith, h))
  handle-keeps file_select app e h = (ground (arith, h), ground (arith, h), ground (arith, h))
  handle-keeps saved_menu app e h = (ground (arith, h), ground (arith, h), ground (arith, h))
  handle-keeps read_success app e h = (ground (arith, h), ground (arith, h), ground (arith, h))
  handle-keeps save_name app e h = (ground (arith, h), ground (arith, h), ground (arith, h))
  handle-keeps mutation_save app e h = (ground (arith, h), ground (arith, h), ground (arith, h))
  handle-keeps save_success app e h = (ground (arith, h), ground (arith, h), ground (arith, h))
  handle-keeps about app e h = (ground (arith, h), ground (arith, h), ground (arith, h))
  handle-keeps delete_scene app e h = (ground (arith, h), ground (arith, h), ground (arith, h))
  handle-keeps delete_success app e h = (ground (arith, h), ground (arith, h), ground (arith, h))
  handle-keeps read_error app e h = (ground (arith, h), ground (arith, h), ground (arith, h))
  handle-keeps info_scene app e h = (ground (arith, h), ground (arith, h), ground (arith, h))

  -- No scene swallows Back: where a handler consumes it, it asks for another scene, and else the scene
  -- manager goes back by itself.
  pub handle-answers_back :
      (s : Scene) (app : App Credential)
      → ((handle core w s app back).consumed ≡ false)
        ⊎ ((r : Request) × ((handle core w s app back).request ≡ some r))
  unfolding handle mutation_save_return handle_main_menu handle_emulating handle_read
      handle_file_select handle_saved_menu handle_read_success handle_save_name handle_mutation_save
      handle_save_success handle_about handle_delete handle_delete_success handle_read_error
      handle_info
  handle-answers_back main_menu app = inr (_, refl)
  handle-answers_back emulating app = elim (Bool-cases (core.model.dirty app.credential)) [
    | inl e ↦ inr (next_scene mutation_save, rw (e, handle, handle_emulating) refl)
    | inr e ↦ inl (ground (arith, e))
  ]
  handle-answers_back read app = inr (_, refl)
  handle-answers_back file_select app = inl refl
  handle-answers_back saved_menu app = inl refl
  handle-answers_back read_success app = inr (_, refl)
  handle-answers_back save_name app = inl refl
  handle-answers_back mutation_save app = inr (_, refl)
  handle-answers_back save_success app = inl refl
  handle-answers_back about app = inr (_, refl)
  handle-answers_back delete_scene app = inl refl
  handle-answers_back delete_success app = inl refl
  handle-answers_back read_error app = inr (_, refl)
  handle-answers_back info_scene app = inr (_, refl)

-- ===== src/App/Rest.antt =====
-- Between two visits the application holds nothing and its views are empty.
use dfc_flipper.Base.{◌≡◌, false, [], arith, true, Option, none, some}
use dfc_flipper.App.State.{
  Scene, main_menu, emulating, read, file_select, saved_menu, read_success, save_name,
  mutation_save, save_success, about, delete_scene, delete_success, read_error, info_scene, App,
  blank_popup, SceneEvent,
}
use dfc_flipper.App.Core.{AppCore}
use dfc_flipper.App.Scenes.{World, handle, exit, enter}
use dfc_flipper.App.Menus.{
  handle_main_menu, exit_main_menu, handle_saved_menu, handle_save_success, handle_delete,
  handle_delete_success, exit_saved_menu, exit_save_success, exit_delete, exit_delete_success,
  enter_main_menu, enter_saved_menu, enter_save_success, enter_delete, enter_delete_success,
}
use dfc_flipper.App.Saving.{
  mutation_save_return, handle_file_select, handle_save_name, handle_mutation_save,
  exit_file_select, exit_save_name, exit_mutation_save, enter_file_select, enter_save_name,
  enter_mutation_save,
}
use dfc_flipper.App.Cards.{
  handle_emulating, handle_read, exit_emulating, exit_read, enter_emulating, enter_read,
}
use dfc_flipper.App.Reports.{
  handle_read_success, handle_read_error, handle_info, exit_read_success, exit_read_error,
  exit_info, enter_read_success, enter_read_error, enter_info,
}
use dfc_flipper.App.AboutScene.{handle_about, exit_about, enter_about}

-- No emulator, listener or poller is held, the light does not blink, and every view module is as its
-- reset leaves it.
pub record IsAtRest {Credential : Type 0} (app : App Credential) : Type 0 where
  pub emulator : app.emulator ≡ false
  pub listener : app.listener ≡ false
  pub poller : app.poller ≡ false
  pub blinking : app.blinking ≡ false
  pub submenu : app.submenu ≡ []
  pub popup : app.popup ≡ blank_popup
  pub widget : app.widget ≡ []
  pub text_input : app.text_input ≡ []
  pub validator : app.validator ≡ false
  pub text_box : app.text_box ≡ []
  pub file_browser : app.file_browser ≡ false

-- A state during a visit: leaving the scene brings the application to rest.
abbrev pub IsIn : {Credential : Type 0} → Scene → App Credential → Type 0
IsIn s app = IsAtRest (exit s app)

module _ {Credential : Type 0} (core : AppCore Credential) (w : World) where
  pub handle-IsIn :
      (s : Scene) (app : App Credential) (e : SceneEvent)
      → IsIn s app
      → IsIn s (handle core w s app e).app
  unfolding handle exit mutation_save_return handle_main_menu handle_emulating handle_read
      handle_file_select handle_saved_menu handle_read_success handle_save_name handle_mutation_save
      handle_save_success handle_about handle_delete handle_delete_success handle_read_error
      handle_info exit_main_menu exit_emulating exit_read exit_file_select exit_saved_menu
      exit_read_success exit_save_name exit_mutation_save exit_save_success exit_about exit_delete
      exit_delete_success exit_read_error exit_info
  handle-IsIn main_menu app e r = ground (arith, r)
  handle-IsIn emulating app e r = ground (arith, r)
  handle-IsIn read app e r = ground (arith, r)
  handle-IsIn file_select app e r = ground (arith, r)
  handle-IsIn saved_menu app e r = ground (arith, r)
  handle-IsIn read_success app e r = ground (arith, r)
  handle-IsIn save_name app e r = ground (arith, r)
  handle-IsIn mutation_save app e r = ground (arith, r)
  handle-IsIn save_success app e r = ground (arith, r)
  handle-IsIn about app e r = ground (arith, r)
  handle-IsIn delete_scene app e r = ground (arith, r)
  handle-IsIn delete_success app e r = ground (arith, r)
  handle-IsIn read_error app e r = ground (arith, r)
  handle-IsIn info_scene app e r = ground (arith, r)

  -- What a scene leaves of the state that it enters: none is a failed assertion.
  abbrev pub IsEntered : Scene → Option (App Credential) → Type 0
  IsEntered s none = true ≡ false
  IsEntered s (some app) = IsIn s app

  pub enter-IsEntered :
      (s : Scene) (app : App Credential) → IsAtRest app → IsEntered s (enter core w s app)
  unfolding enter exit exit_main_menu exit_emulating exit_read exit_file_select exit_saved_menu
      exit_read_success exit_save_name exit_mutation_save exit_save_success exit_about exit_delete
      exit_delete_success exit_read_error exit_info enter_main_menu enter_emulating enter_read
      enter_file_select enter_saved_menu enter_read_success enter_save_name enter_mutation_save
      enter_save_success enter_about enter_delete enter_delete_success enter_read_error enter_info
  enter-IsEntered main_menu app r = ground (arith, r)
  enter-IsEntered emulating app r = ground (arith, r)
  enter-IsEntered read app r = ground (arith, r)
  enter-IsEntered file_select app r = ground (arith, r)
  enter-IsEntered saved_menu app r = ground (arith, r)
  enter-IsEntered read_success app r = ground (arith, r)
  enter-IsEntered save_name app r = ground (arith, r)
  enter-IsEntered mutation_save app r = ground (arith, r)
  enter-IsEntered save_success app r = ground (arith, r)
  enter-IsEntered about app r = ground (arith, r)
  enter-IsEntered delete_scene app r = ground (arith, r)
  enter-IsEntered delete_success app r = ground (arith, r)
  enter-IsEntered read_error app r = ground (arith, r)
  enter-IsEntered info_scene app r = ground (arith, r)

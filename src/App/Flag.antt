-- ===== src/App/Flag.antt =====
-- The field `emulate_from_blank` of dfc_i.h, which the scenes write.
use dfc_flipper.Base.{◌≡◌, Bool, false, arith, refl, suc, zero}
use dfc_flipper.App.State.{
  main_menu, emulating, read, file_select, saved_menu, read_success, save_name, mutation_save,
  save_success, about, delete_scene, delete_success, read_error, info_scene, Handling, Scene, App,
  SceneEvent, custom, back, tick,
}
use dfc_flipper.App.Scenes.{handle, World}
use dfc_flipper.App.Core.{AppCore}
use dfc_flipper.App.Saving.{
  mutation_save_return, handle_file_select, handle_save_name, handle_mutation_save,
}
use dfc_flipper.App.Menus.{
  handle_main_menu, handle_saved_menu, handle_save_success, handle_delete, handle_delete_success,
}
use dfc_flipper.App.Cards.{handle_emulating, handle_read}
use dfc_flipper.App.Reports.{handle_read_success, handle_read_error, handle_info}
use dfc_flipper.App.AboutScene.{handle_about}

-- The same handling but for `emulate_from_blank`.
abbrev pub IsSame : {Credential : Type 0} → Handling Credential → Handling Credential → Type 0
IsSame h k =
    (h.request ≡ k.request)
    × (h.consumed ≡ k.consumed)
    × (h.files ≡ k.files)
    × (record h.app { emulate_from_blank = false } ≡ record k.app { emulate_from_blank = false })

module _ {Credential : Type 0} (core : AppCore Credential) (w : World) where
  -- The field decides nothing: with another value of it, every handler asks for the same scene, consumes
  -- the event or not as before, does the same to the files, and leaves every other field as before.
  pub handle-ignores_flag :
      (s : Scene) (app : App Credential) (e : SceneEvent) (b : Bool)
      → IsSame (handle core w s (record app { emulate_from_blank = b }) e) (handle core w s app e)
  unfolding handle mutation_save_return handle_main_menu handle_emulating handle_read
      handle_file_select handle_saved_menu handle_read_success handle_save_name handle_mutation_save
      handle_save_success handle_about handle_delete handle_delete_success handle_read_error
      handle_info
  handle-ignores_flag main_menu app e b = (ground arith, ground arith, ground arith, ground arith)
  handle-ignores_flag emulating app e b = (ground arith, ground arith, ground arith, ground arith)
  handle-ignores_flag read app e b = (ground arith, ground arith, ground arith, ground arith)
  handle-ignores_flag file_select app e b = (ground arith, ground arith, ground arith, ground arith)
  handle-ignores_flag saved_menu app e b = (ground arith, ground arith, ground arith, ground arith)
  handle-ignores_flag read_success app e b =
      (ground arith, ground arith, ground arith, ground arith)
  handle-ignores_flag save_name app e b = (ground arith, ground arith, ground arith, ground arith)
  handle-ignores_flag mutation_save app (custom zero) b =
      (ground arith, ground arith, ground arith, ground arith)
  handle-ignores_flag mutation_save app (custom (suc zero)) b = (refl, refl, refl, refl)
  handle-ignores_flag mutation_save app (custom (suc (suc zero))) b = (refl, refl, refl, refl)
  handle-ignores_flag mutation_save app (custom (suc (suc (suc zero)))) b =
      (ground arith, ground arith, ground arith, ground arith)
  handle-ignores_flag mutation_save app (custom (suc (suc (suc (suc n))))) b =
      (ground arith, ground arith, ground arith, ground arith)
  handle-ignores_flag mutation_save app back b = (refl, refl, refl, refl)
  handle-ignores_flag mutation_save app tick b = (refl, refl, refl, refl)
  handle-ignores_flag save_success app e b =
      (ground arith, ground arith, ground arith, ground arith)
  handle-ignores_flag about app e b = (ground arith, ground arith, ground arith, ground arith)
  handle-ignores_flag delete_scene app e b =
      (ground arith, ground arith, ground arith, ground arith)
  handle-ignores_flag delete_success app e b =
      (ground arith, ground arith, ground arith, ground arith)
  handle-ignores_flag read_error app e b = (ground arith, ground arith, ground arith, ground arith)
  handle-ignores_flag info_scene app e b = (ground arith, ground arith, ground arith, ground arith)

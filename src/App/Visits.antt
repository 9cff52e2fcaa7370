-- ===== src/App/Visits.antt =====
-- Whole runs of the application: every sequence of visits, from rest to rest.
use dfc_flipper.Base.{
  ℕ, ◌≡◌, refl, subst, inl, inr, some, List, [], ◌∷◌, arith, Option-cases, true, false,
}
use dfc_flipper.App.Scenes.{
  Happening, event, changed, browsed, Visit, exit, enter, happen, happen_all, visit_all,
}
use dfc_flipper.App.Core.{AppCore}
use dfc_flipper.App.Rest.{IsAtRest, IsIn, IsEntered, handle-IsIn, enter-IsEntered}
use dfc_flipper.App.Saving.{select_file, exit_file_select, exit_save_name, exit_mutation_save}
use dfc_flipper.App.Menus.{
  exit_main_menu, exit_saved_menu, exit_save_success, exit_delete, exit_delete_success,
}
use dfc_flipper.App.State.{
  App, Scene, main_menu, emulating, read, file_select, saved_menu, read_success, save_name,
  mutation_save, save_success, about, delete_scene, delete_success, read_error, info_scene,
}
use dfc_flipper.App.Cards.{exit_emulating, exit_read}
use dfc_flipper.Storage.Load.{LoadSystem}
use dfc_flipper.App.Reports.{exit_read_success, exit_read_error, exit_info}
use dfc_flipper.App.AboutScene.{exit_about}

module _ {Credential : Type 0} (core : AppCore Credential) where
  -- A new credential touches nothing that a scene releases.
  recredited :
      (s : Scene) (app : App Credential) (c : Credential) (path : List ℕ)
      → IsIn s app
      → IsIn s (record app { credential = c; load_path = path })
  unfolding exit exit_main_menu exit_emulating exit_read exit_file_select exit_saved_menu
      exit_read_success exit_save_name exit_mutation_save exit_save_success exit_about exit_delete
      exit_delete_success exit_read_error exit_info
  recredited main_menu app c path r = ground (arith, r)
  recredited emulating app c path r = ground (arith, r)
  recredited read app c path r = ground (arith, r)
  recredited file_select app c path r = ground (arith, r)
  recredited saved_menu app c path r = ground (arith, r)
  recredited read_success app c path r = ground (arith, r)
  recredited save_name app c path r = ground (arith, r)
  recredited mutation_save app c path r = ground (arith, r)
  recredited save_success app c path r = ground (arith, r)
  recredited about app c path r = ground (arith, r)
  recredited delete_scene app c path r = ground (arith, r)
  recredited delete_success app c path r = ground (arith, r)
  recredited read_error app c path r = ground (arith, r)
  recredited info_scene app c path r = ground (arith, r)

  selected-credential :
      (system : LoadSystem) (app : App Credential)
      → (select_file core system app).0
        ≡ record app { credential = (select_file core system app).0.credential }
  unfolding select_file
  selected-credential system app = ground arith

  selected-IsIn :
      (system : LoadSystem) (s : Scene) (app : App Credential)
      → IsIn s app
      → IsIn s (select_file core system app).0
  selected-IsIn system s app r =
      rw (selected-credential system app)
        (recredited s app (select_file core system app).0.credential app.load_path r)

  happen-IsIn :
      (s : Scene) (app : App Credential) (h : Happening Credential)
      → IsIn s app
      → IsIn s (happen core s app h)
  unfolding happen
  happen-IsIn s app (event w e) r = handle-IsIn core w s app e r
  happen-IsIn s app (changed c) r = recredited s app c app.load_path r
  happen-IsIn s app (browsed w path) r =
      selected-IsIn w.load_system s (record app { load_path = path })
        (recredited s app app.credential path r)

  happen_all-IsIn :
      (s : Scene) (app : App Credential) (hs : List (Happening Credential))
      → IsIn s app
      → IsIn s (happen_all core s app hs)
  unfolding happen_all
  happen_all-IsIn s app [] r = r
  happen_all-IsIn s app (h ∷ hs) r =
      happen_all-IsIn s (happen core s app h) hs (happen-IsIn s app h r)

  -- From rest, whatever the SDK answers, visits of any scenes with any events, changes of the credential
  -- and files chosen never fail the assertion of the emulate scene, and they end at rest: every emulator,
  -- listener, poller and browser that was started is gone, the light does not blink and no view keeps
  -- its content.
  pub visit_all-IsAtRest :
      (app : App Credential) (vs : List (Visit Credential))
      → IsAtRest app
      → (last : App Credential) × (visit_all core app vs ≡ some last) × IsAtRest last
  unfolding visit_all
  visit_all-IsAtRest app [] r = (app, refl, r)
  visit_all-IsAtRest app (v ∷ vs) r = elim (Option-cases (enter core v.world v.scene app)) [
    | inl q ↦
        (let no : true ≡ false =
            subst (IsEntered core v.world v.scene) q (enter-IsEntered core v.world v.scene app r) in
          cc)
    | inr (first, q) ↦
        rw (q, visit_all)
          (visit_all-IsAtRest (exit v.scene (happen_all core v.scene first v.happenings)) vs (
            happen_all-IsIn v.scene first v.happenings (
              subst (IsEntered core v.world v.scene) q
                (enter-IsEntered core v.world v.scene app r))))
  ]

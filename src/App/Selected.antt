-- ===== src/App/Selected.antt =====
-- What a choice in the file browser leaves, for scenes/dfc_scene_file_select.c with
-- dfc_credential_storage.c below it.
use dfc_flipper.Base.{
  ℕ, ◌-◌, ◌<◌, ◌≡◌, refl, ◌≢◌, not, ◌&&◌, Option, none, some, List, if_rule, length, take,
}
use dfc_flipper.Storage.Model.{Laws}
use dfc_flipper.App.Core.{AppCore}
use dfc_flipper.Storage.Load.{LoadSystem, load_selected_file, selected_name_for}
use dfc_flipper.App.State.{App, Request, next_scene, saved_menu, search_scene, main_menu}
use dfc_flipper.App.Saving.{select_file, load_error_message}
use dfc_flipper.Storage.Verdict.{IsUsable, kept, dropped}
use dfc_flipper.Storage.Status.{LoadStatus, load_ok, ends_with}
use dfc_flipper.Storage.Loaded.{load_selected_file-IsConcluded}

-- The file is loaded and its menu opens; or its name has neither extension, or it cannot be loaded, and
-- then the credential is cleared and the main menu comes back, in the second case with a message.
pub data Selected {Credential : Type 0} (core : AppCore Credential)
    (r : App Credential × Option (List ℕ) × Request) : Type 0 where
  loads :
      (name : List ℕ)
      → r.1 ≡ none
      → r.2 ≡ next_scene saved_menu
      → IsUsable core.model name r.0.credential
      → Selected core r
  refuses :
      (origin : Credential)
      → r.1 ≡ none
      → r.2 ≡ search_scene main_menu
      → r.0.credential ≡ core.model.clear origin
      → Selected core r
  fails :
      (origin : Credential) (status : LoadStatus)
      → status ≢ load_ok
      → r.1 ≡ some (load_error_message status)
      → r.2 ≡ search_scene main_menu
      → r.0.credential ≡ core.model.clear origin
      → Selected core r

module _ {Credential : Type 0} (core : AppCore Credential) (system : LoadSystem) where
  -- Whatever the storage, the heap and the codecs answer, choosing a file with a path either opens the menu
  -- of a credential that passed every test of a load, or clears the credential and goes back to the main
  -- menu; and a load that fails shows the message of a status that is not Ok.
  pub select_file-Selected :
      (laws : Laws core.model) (app : App Credential)
      → 0 < length app.load_path
      → Selected core (select_file core system app)
  unfolding select_file
  select_file-Selected laws app h =
      let named =
        core.model.set_name (take (core.model.name_size - 1) (core.filename app.load_path))
          app.credential in
      let loaded =
        load_selected_file core.model system named app.load_path (core.filename app.load_path)
          load_ok in
      let i =
        load_selected_file-IsConcluded core.model system laws named app.load_path
          (core.filename app.load_path) load_ok h in
      if_rule (Selected core)
        (not (ends_with app.load_path core.model.app_extension)
          && not (ends_with app.load_path core.model.binary_extension))
        (λ _. refuses app.credential refl refl refl)
        (λ _.
          if_rule (Selected core) loaded.parsed
            (λ p. elim i.verdict [
              | kept q o u ↦
                  loads (selected_name_for core.model named (core.filename app.load_path)) refl refl
                    u
              | dropped origin q n e ↦ cc
            ])
            (λ p. elim i.verdict [
              | kept q o u ↦ cc
              | dropped origin q n e ↦ fails loaded.credential loaded.status n refl refl refl
            ]))

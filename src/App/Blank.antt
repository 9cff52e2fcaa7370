-- ===== src/App/Blank.antt =====
-- What "Blank Card" of scenes/dfc_scene_main_menu.c leaves of the file that was loaded before.
use dfc_flipper.Base.{
  ◌≡◌, true, false, some, [], ◌∷◌, ◌++◌, ◌==◌, length, All, ℕ, refl, List, if_rule, Bool,
}
use dfc_flipper.App.Scenes.{handle, World}
use dfc_flipper.App.Settled.{Settled, mutation_save-Settled}
use dfc_flipper.App.Core.{AppCore}
use dfc_flipper.App.Menus.{handle_main_menu}
use dfc_flipper.App.Cards.{handle_emulating}
use dfc_flipper.App.Saving.{enter_mutation_save, handle_mutation_save, mutation_save_return}
use dfc_flipper.App.State.{
  App, main_menu, custom, emulating, back, next_scene, mutation_save, search_scene, saved_menu,
  Handling,
}
use dfc_flipper.Storage.Save.{path_of, text_path, save_loaded, SaveSystem, save_to, Saving}
use dfc_flipper.Storage.Model.{CredentialModel}
use dfc_flipper.Storage.Saved.{write_file-IsWriting, whole, untouched, cut_short}

module _ {Credential : Type 0} (m : CredentialModel Credential) (system : SaveSystem) where
  save_to-path :
      (c : Credential) (load_path path : List ℕ)
      → All (λ e. path_of e ≡ path) (save_to m system c load_path path).files
  unfolding save_to
  save_to-path c load_path path = elim (write_file-IsWriting m system c path).written [
    | whole room len text q e h f ↦ rw f (refl, (refl, tt))
    | untouched h f ↦ rw f tt
    | cut_short k room len text e h f ↦ rw f (refl, (refl, tt))
  ]

  save_loaded-path :
      (c : Credential) (load_path : List ℕ)
      → All (λ e. path_of e ≡ text_path m load_path) (save_loaded m system c load_path).files
  unfolding save_loaded
  save_loaded-path c load_path =
      if_rule (λ (s : Saving Credential). All (λ e. path_of e ≡ text_path m load_path) s.files)
        (length load_path == 0) (λ _. tt) (λ _. save_to-path c load_path (text_path m load_path))

module _ {Credential : Type 0} (core : AppCore Credential) (went : Bool) (system : SaveSystem) where
  update-path :
      (app : App Credential)
      → All
          (λ e. path_of e ≡ text_path core.model app.load_path)
          (handle_mutation_save core went system app (custom 0)).files
  unfolding handle_mutation_save
  update-path app =
      let s = save_loaded core.model system app.credential app.load_path in
      let paths = save_loaded-path core.model system app.credential app.load_path in
      if_rule
        (λ (r : Handling Credential).
          All (λ e. path_of e ≡ text_path core.model app.load_path) r.files)
        s.saved (λ _. paths) (λ _. paths)

module _ {Credential : Type 0} (core : AppCore Credential) (w : World) where
  -- Where the path of a file is still set when "Blank Card" is chosen, and a reader then makes the blank
  -- credential dirty while it is emulated, Back asks for the scene that saves mutations. It offers "Update
  -- File", "Save Copy" and "Discard" as for that file, and "Discard" asks for the menu of a loaded file.
  -- Every file that "Update File" writes is the text file of that path, and it either empties that file and
  -- writes to it the whole of a text rendered of the changed blank card, or keeps the card and the load path
  -- and does not ask for the scene of a save.
  pub blank_card-updates_loaded :
      (app : App Credential) (changed : Credential)
      → core.model.dirty changed ≡ true
      → (length app.load_path == 0) ≡ false
      → let blank = (handle core w main_menu app (custom 1)).app in
        let emulated = record blank { credential = changed } in
        ((handle core w emulating emulated back).request ≡ some (next_scene mutation_save))
        × ((enter_mutation_save emulated).submenu ≡ app.submenu ++ 0 ∷ 1 ∷ 3 ∷ [])
        × ((handle core w mutation_save emulated (custom 3)).request
            ≡ some (search_scene saved_menu))
        × All
            (λ e. path_of e ≡ text_path core.model app.load_path)
            (handle core w mutation_save emulated (custom 0)).files
        × Settled core w.save_system emulated 0 (handle core w mutation_save emulated (custom 0))
  unfolding handle handle_main_menu handle_emulating enter_mutation_save handle_mutation_save
      mutation_save_return
  blank_card-updates_loaded app changed d n =
      let blank = (handle core w main_menu app (custom 1)).app in
      (
        cc,
        rw n refl,
        rw n refl,
        update-path core w.went w.save_system (record blank { credential = changed }),
        mutation_save-Settled core w.went w.save_system (record blank { credential = changed }) 0,
      )

-- ===== src/App/Named.antt =====
-- What naming a card in scenes/dfc_scene_save_name.c leaves, with dfc_credential_storage.c below it.
use dfc_flipper.Base.{
  ℕ, ◌-◌, ◌≡◌, some, List, ◌∷◌, ◌++◌, ◌==◌, if◌then◌else◌, length, take, refl, inl, inr, Bool,
  Bool-cases, if_rule, ◌+◌, [],
}
use dfc_flipper.App.Core.{AppCore}
use dfc_flipper.App.State.{
  App, Handling, next_scene, save_success, search_scene, main_menu, custom, event_code,
}
use dfc_flipper.Storage.Save.{SaveSystem, save, save_to, emptied, extended}
use dfc_flipper.Storage.Saved.{save_to-Stored, stored, unsaved}
use dfc_flipper.App.Saving.{handle_save_name}
use dfc_flipper.Events.{text_input_done}
use dfc_flipper.Storage.Status.{text_ok}

-- What a name typed leaves of the files, the credential and the load path.
pub data Named {Credential : Type 0} (core : AppCore Credential) (app : App Credential)
    (r : Handling Credential) : Type 0 where
  stores :
      (folder : List ℕ) (room len : ℕ) (text : List ℕ)
      → folder
        ≡ (if length app.load_path == 0 then core.app_data_prefix else core.dirname app.load_path)
      → core.model.write
          (core.model.set_name (take (core.model.name_size - 1) app.text_store) app.credential)
          (some (room + 1))
        ≡ (text_ok, len, text)
      → r.request ≡ some (next_scene save_success)
      → r.files
        ≡ emptied (folder ++ (0x2F ∷ (app.text_store ++ core.model.app_extension)))
          ∷ extended
              (folder ++ (0x2F ∷ (app.text_store ++ core.model.app_extension)))
              (take len text)
          ∷ []
      → r.app.credential
        ≡ core.model.clear_dirty
            (core.model.set_name (take (core.model.name_size - 1) app.text_store) app.credential)
      → r.app.load_path ≡ folder ++ (0x2F ∷ (app.text_store ++ core.model.app_extension))
      → Named core app r
  fails :
      r.request ≡ some (search_scene main_menu)
      → r.app.credential
        ≡ core.model.set_name (take (core.model.name_size - 1) app.text_store) app.credential
      → r.app.load_path ≡ app.load_path
      → Named core app r

module _ {Credential : Type 0} (core : AppCore Credential) (found : Bool)
    (system : SaveSystem) where
  save-folder :
      (c : Credential) (load_path name : List ℕ)
      → save core.model system core.dirname core.app_data_prefix c load_path name
        ≡ save_to core.model system c load_path (
            (if length load_path == 0 then core.app_data_prefix else core.dirname load_path)
            ++ (0x2F ∷ (name ++ core.model.app_extension)))
  unfolding save
  save-folder c load_path name = elim (Bool-cases (length load_path == 0)) [
    | inl e ↦ rw (e, save) refl
    | inr e ↦ rw (e, save) refl
  ]

  -- Whatever the storage and the codecs answer, a name typed either empties the file of that name, in the
  -- folder of the file loaded before or in the application's, writes to it the whole of a text that the codec
  -- rendered of the credential so named, makes it the loaded file and the credential not dirty, and asks for
  -- the scene of a save; or goes back to the main menu with the file loaded before and the credential as it
  -- was but for its name.
  pub handle_save_name-Named :
      (app : App Credential)
      → Named core app
          (handle_save_name core found system app (custom (event_code text_input_done)))
  unfolding handle_save_name
  handle_save_name-Named app =
      let named =
        core.model.set_name (take (core.model.name_size - 1) app.text_store) app.credential in
      let folder =
        if length app.load_path == 0 then core.app_data_prefix else core.dirname app.load_path in
      let path = folder ++ (0x2F ∷ (app.text_store ++ core.model.app_extension)) in
      let s = save_to core.model system named app.load_path path in
      let stored_to = save_to-Stored core.model system named path app.load_path in
      rw (save-folder named app.load_path app.text_store, handle_save_name)
        (if_rule (Named core app) s.saved
          (λ h. elim stored_to [
            | stored room len text e k p c f ↦ stores folder room len text refl e refl f c p
            | unsaved k p c ↦ cc
          ])
          (λ h. elim stored_to [
            | stored room len text e k p c f ↦ cc
            | unsaved k p c ↦ fails refl c p
          ]))

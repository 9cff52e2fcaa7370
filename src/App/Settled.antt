-- ===== src/App/Settled.antt =====
-- What each choice in scenes/dfc_scene_mutation_save.c leaves, with dfc_credential_storage.c below it.
use dfc_flipper.Base.{
  ℕ, zero, suc, ◌≡◌, refl, ◌≢◌, Bool, true, some, arith, ◌<◌, ◌∙◌, false, List, if_rule, length,
  ◌+◌, [], ◌∷◌, take,
}
use dfc_flipper.App.Core.{AppCore}
use dfc_flipper.Storage.Save.{SaveSystem, save_loaded, text_path, save_to, emptied, extended}
use dfc_flipper.App.Saving.{handle_mutation_save, mutation_save_return, after_saving}
use dfc_flipper.App.State.{App, Handling, custom, next_scene, save_success}
use dfc_flipper.Storage.Saved.{save_loaded-Stored, stored, unsaved}
use dfc_flipper.Storage.Status.{text_ok}

-- What "Update File", the other choices and "Discard" leave of the files, the credential and the load path.
pub data Settled {Credential : Type 0} (core : AppCore Credential) (system : SaveSystem)
    (app : App Credential) (choice : ℕ) (r : Handling Credential) : Type 0 where
  updated :
      choice ≡ 0
      → (room len : ℕ) (text : List ℕ)
      → core.model.write app.credential (some (room + 1)) ≡ (text_ok, len, text)
      → r.request ≡ some (next_scene save_success)
      → r.files
        ≡ emptied (text_path core.model app.load_path)
          ∷ extended (text_path core.model app.load_path) (take len text)
          ∷ []
      → r.app.credential ≡ core.model.clear_dirty app.credential
      → r.app.load_path ≡ text_path core.model app.load_path
      → Settled core system app choice r
  retained :
      choice ≢ 3
      → r.request ≢ some (next_scene save_success)
      → (choice ≢ 0 → r.files ≡ [])
      → r.app.credential ≡ app.credential
      → r.app.load_path ≡ app.load_path
      → Settled core system app choice r
  discarded :
      choice ≡ 3
      → r.files ≡ []
      → r.app.credential ≡ core.model.clear_dirty app.credential
      → r.app.load_path ≡ app.load_path
      → Settled core system app choice r

module _ {Credential : Type 0} (core : AppCore Credential) (went : Bool) (system : SaveSystem) where
  return-retains :
      (app : App Credential)
      → ((mutation_save_return app).app.credential ≡ app.credential)
        × ((mutation_save_return app).app.load_path ≡ app.load_path)
  unfolding mutation_save_return
  return-retains app = (ground arith, ground arith)

  return-files : (app : App Credential) → (mutation_save_return app).files ≡ []
  unfolding mutation_save_return
  return-files app = ground arith

  return-request :
      (app : App Credential) → (mutation_save_return app).request ≢ some (next_scene save_success)
  unfolding mutation_save_return
  return-request app = ground arith

  save_loaded-path_set :
      (c : Credential) (load_path : List ℕ)
      → (save_loaded core.model system c load_path).saved ≡ true
      → 0 < length load_path
  unfolding save_loaded
  save_loaded-path_set c load_path h = ground (arith, h)

  save_loaded-unsaved :
      (c : Credential) (load_path : List ℕ)
      → (save_loaded core.model system c load_path).saved ≡ false
      → ((save_loaded core.model system c load_path).credential ≡ c)
        × ((save_loaded core.model system c load_path).load_path ≡ load_path)
  unfolding save_loaded save_to
  save_loaded-unsaved c load_path h = (ground (arith, h), ground (arith, h))

  update-Settled :
      (app : App Credential)
      → Settled core system app 0 (handle_mutation_save core went system app (custom 0))
  unfolding handle_mutation_save
  update-Settled app =
      let kept = record app { mutation_save_state = 0 } in
      let s = save_loaded core.model system app.credential app.load_path in
      let back_to = return-retains (after_saving kept s) in
      if_rule (Settled core system app 0) s.saved
        (λ h.
          elim (save_loaded-Stored core.model system app.credential app.load_path
            (save_loaded-path_set app.credential app.load_path h)) [
              | stored room len text e k p c f ↦ updated refl room len text e refl f c p
              | unsaved k p c ↦ cc
            ])
        (λ h.
          let (c, p) = save_loaded-unsaved app.credential app.load_path h in
          retained (omega arith) (return-request (after_saving kept s)) (λ n. absurd (n refl))
            (back_to.0 ∙ c) (back_to.1 ∙ p))

  -- Whatever the storage and the codecs answer, a choice loses a change of the credential only where it is
  -- "Discard". "Update File" asks for the scene of a save just where it has emptied the text file of the
  -- load path and written to it the whole of a text that the codec rendered of the credential, which is then
  -- not dirty; otherwise, as with every other choice but "Discard", the credential with its mark and the load
  -- path are as before. No choice but "Update File" writes a file.
  pub mutation_save-Settled :
      (app : App Credential) (choice : ℕ)
      → Settled core system app choice (handle_mutation_save core went system app (custom choice))
  unfolding handle_mutation_save
  mutation_save-Settled app zero = update-Settled app
  mutation_save-Settled app (suc zero) = retained (omega arith) (ground arith) (λ _. refl) refl refl
  mutation_save-Settled app (suc (suc zero)) =
      retained (omega arith) (ground arith) (λ _. refl) refl refl
  mutation_save-Settled app (suc (suc (suc zero))) =
      let cleared = record app {
        mutation_save_state = 3;
        credential = core.model.clear_dirty app.credential;
      } in
      discarded refl (return-files cleared) (return-retains cleared).0 (return-retains cleared).1
  mutation_save-Settled app (suc (suc (suc (suc n)))) =
      retained (omega arith) (ground arith) (λ _. ground arith) (ground arith) (ground arith)

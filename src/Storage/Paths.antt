-- ===== src/Storage/Paths.antt =====
-- Where dfc_credential_storage.c saves a loaded credential.
use dfc_flipper.Base.{
  ℕ, ◌-◌, ◌<◌, ◌≡◌, refl, sym, ap, ◌∙◌, ◌≢◌, inl, inr, true, false, List, [], ◌∷◌, ◌++◌, arith,
  Bool-cases, if_rule, length, take, drop, take-append-drop, ◌==◌, All,
}
use dfc_flipper.Storage.Save.{text_path, SaveSystem, save_loaded, save_to, path_of, Saving}
use dfc_flipper.Storage.Model.{CredentialModel}
use dfc_flipper.Storage.Status.{ends_with, str_eq_iff}
use dfc_flipper.Storage.Saved.{write_file-IsWriting, whole, untouched, cut_short}

abbrev pub last_or : ℕ → List ℕ → ℕ
last_or d [] = d
last_or d (x ∷ xs) = last_or x xs

last_or-append : (d y : ℕ) (xs ys : List ℕ) → last_or d (xs ++ y ∷ ys) ≡ last_or y ys
last_or-append d y [] ys = refl
last_or-append d y (x ∷ xs) ys = last_or-append x y xs ys

last_or-ending : (d : ℕ) (xs ys : List ℕ) → 0 < length ys → last_or d (xs ++ ys) ≡ last_or d ys
last_or-ending d xs [] h = omega (arith, h)
last_or-ending d xs (y ∷ ys) h = last_or-append d y xs ys

ends_with-splits :
    (path ext : List ℕ) → ends_with path ext ≡ true → (stem : List ℕ) × (path ≡ stem ++ ext)
unfolding ends_with
ends_with-splits path ext h =
    let n = length path - length ext in
    (
      take n path,
      sym (take-append-drop n path)
          ∙ ap (λ e. take n path ++ e) ((str_eq_iff (drop n path) ext).0 (ground (arith, h))),
    )

module _ {Credential : Type 0} (m : CredentialModel Credential) where
  text_path-is-text :
      (path : List ℕ)
      → 0 < length m.app_extension
      → 0 < length m.binary_extension
      → last_or 0 m.app_extension ≢ last_or 0 m.binary_extension
      → ends_with (text_path m path) m.binary_extension ≡ false
  unfolding text_path
  text_path-is-text path a b n =
      if_rule (λ p. ends_with p m.binary_extension ≡ false) (ends_with path m.binary_extension)
        (λ _.
          let cut = take (length path - length m.binary_extension) path in
          elim (Bool-cases (ends_with (cut ++ m.app_extension) m.binary_extension)) [
            | inl e ↦
                let (stem, q) = ends_with-splits (cut ++ m.app_extension) m.binary_extension e in
                absurd (
                  n (
                    sym (last_or-ending 0 cut m.app_extension a)
                    ∙ (ap (last_or 0) q ∙ last_or-ending 0 stem m.binary_extension b)))
            | inr e ↦ e
          ])
        (λ k. k)

module _ {Credential : Type 0} (m : CredentialModel Credential) (system : SaveSystem)
    (c : Credential) where
  -- Where the two extensions are not empty and end in different characters, as .dfc and .dfcb do, saving
  -- a loaded credential writes to no file with the binary extension.
  pub save_loaded-spares :
      (load_path : List ℕ)
      → 0 < length m.app_extension
      → 0 < length m.binary_extension
      → last_or 0 m.app_extension ≢ last_or 0 m.binary_extension
      → All
          (λ e. ends_with (path_of e) m.binary_extension ≡ false)
          (save_loaded m system c load_path).files
  unfolding save_loaded save_to
  save_loaded-spares load_path a b n =
      let path = text_path m load_path in
      let spared = text_path-is-text m load_path a b n in
      let P : Saving Credential → Type 0 =
        λ s. All (λ e. ends_with (path_of e) m.binary_extension ≡ false) s.files in
      if_rule P (length load_path == 0) (λ _. tt)
        (λ _. elim (write_file-IsWriting m system c path).written [
          | whole room len text q e h f ↦ rw f (spared, (spared, tt))
          | untouched h f ↦ rw f tt
          | cut_short k room len text e h f ↦ rw f (spared, (spared, tt))
        ])

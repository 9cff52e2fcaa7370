-- ===== src/Storage/Loaded.antt =====
-- What a load of dfc_credential_storage.c leaves, whatever the file, the heap and the codecs answer.
use dfc_flipper.Base.{
  ℕ, ◌<◌, ◌≡◌, refl, ◌≢◌, ◌⊎◌, inl, inr, true, false, some, List, arith, ◌==◌, if_rule, length,
  get_or,
}
use dfc_flipper.Storage.Model.{Laws, CredentialModel}
use dfc_flipper.Storage.Load.{
  raw_octets, LoadSystem, file_load, load_selected_file, selected_name_for,
}
use dfc_flipper.Storage.Status.{LoadStatus, load_ok, malformed_file, binary_first_octet}
use dfc_flipper.Storage.Memory.{account, nothing_held}
use dfc_flipper.Storage.Verdict.{IsConcluded, Verdict, dropped, kept}
use dfc_flipper.Storage.Reading.{read_whole_file-reads, misses, reads}
use dfc_flipper.Storage.Accepted.{accept-IsConcluded, load_text-IsConcluded}

module _ {Credential : Type 0} (m : CredentialModel Credential) (system : LoadSystem) where
  -- The run of `dfc_credential_file_load` gives back all that it took.
  file_load-IsConcluded :
      (laws : Laws m) (c : Credential) (path name : List ℕ)
      → (account nothing_held (file_load m system c path name).memory ≡ some nothing_held)
        × (((file_load m system c path name).parsed ≡ false)
              × ((file_load m system c path name).status ≢ load_ok)
            ⊎ Verdict m name (file_load m system c path name))
  unfolding file_load
  file_load-IsConcluded laws c path name =
      elim (read_whole_file-reads m system path {status = malformed_file} (λ q. cc)) [
        | misses e n h ↦ rw (file_load, e) (h, inl (refl, n))
        | reads e l b n h ↦
            let octets = system.file_octets in
            let i =
              if_rule (IsConcluded m name) (get_or octets 0 0 == binary_first_octet)
                (λ _. accept-IsConcluded m system laws c _ true raw_octets octets name _ n h)
                (λ _. load_text-IsConcluded m system laws c _ octets name _ n h) in
            rw (file_load, e) (i.released, inr i.verdict)
      ]

  -- Whatever the storage, the heap and the codecs answer, a load of the selected file gives back, once,
  -- every block and handle that it took, and either its credential is usable and its status Ok, or
  -- its credential is cleared and its status is not Ok.
  pub load_selected_file-IsConcluded :
      (laws : Laws m) (c : Credential) (path filename : List ℕ) (status : LoadStatus)
      → 0 < length path
      → IsConcluded m
          (selected_name_for m c filename)
          (load_selected_file m system c path filename status)
  unfolding load_selected_file
  load_selected_file-IsConcluded laws c path filename status h =
      let name = selected_name_for m c filename in
      let loaded = file_load m system c path name in
      let (released, ending) = file_load-IsConcluded laws c path name in
      if_rule (IsConcluded m name) (length path == 0) (λ z. ground (arith, z))
        (λ _.
          if_rule (IsConcluded m name) loaded.parsed
            (λ p. elim ending [
              | inl (q, n) ↦ cc
              | inr v ↦ record { verdict = v; released = released }
            ])
            (λ p. elim ending [
              | inl (q, n) ↦ record {
                verdict = dropped loaded.credential p n refl;
                released = released;
              }
              | inr (kept q o u) ↦ cc
              | inr (dropped d q n e) ↦ record {
                verdict = dropped loaded.credential p n refl;
                released = released;
              }
            ]))

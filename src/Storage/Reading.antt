-- ===== src/Storage/Reading.antt =====
-- What `dfc_credential_read_whole_file` leaves.
use dfc_flipper.Base.{
  ℕ, ◌≤◌, ◌<◌, ◌≡◌, refl, ◌≢◌, Bool, true, false, not, Option, none, some, List, [], ◌∷◌, ◌++◌,
  arith, ltb, ◌==◌, ==_iff, if_rule, length,
}
use dfc_flipper.Storage.Load.{LoadSystem, reserve_for, null_octets, read_whole_file, read_opened}
use dfc_flipper.Storage.Model.{CredentialModel}
use dfc_flipper.Storage.Status.{LoadStatus, credential_max_size, load_ok, has_heap_for}
use dfc_flipper.Storage.Memory.{MemoryEvent, taken, file_handle, account, given_back, nothing_held}
use dfc_flipper.Storage.Ledger.{held_by}

pub not-false : (b : Bool) → not b ≡ false → b ≡ true
not-false true h = refl
not-false false h = cc

-- Either the buffer holds the file, which fits, and is all that is held, or there is none.
pub data Reading (file : List ℕ) (r : Option (List ℕ) × LoadStatus × List MemoryEvent)
    : Type 0 where
  reads :
      r.0 ≡ some file
      → 0 < length file
      → length file ≤ credential_max_size
      → r.1 ≢ load_ok
      → account nothing_held r.2 ≡ some (held_by true null_octets false)
      → Reading file r
  misses :
      r.0 ≡ none → r.1 ≢ load_ok → account nothing_held r.2 ≡ some nothing_held → Reading file r

abbrev enclosed :
    Option (List ℕ) × LoadStatus × List MemoryEvent
    → Option (List ℕ) × LoadStatus × List MemoryEvent
enclosed r = (r.0, r.1, taken file_handle ∷ r.2 ++ given_back file_handle ∷ [])

abbrev EnclosedReading : List ℕ → Option (List ℕ) × LoadStatus × List MemoryEvent → Type 0
EnclosedReading file r = Reading file (enclosed r)

module _ {Credential : Type 0} (m : CredentialModel Credential) (system : LoadSystem) where
  -- Reading a file, where the status is not Ok before, leaves one that is not Ok, and either a buffer with
  -- the octets of the file, at least one and at most 16384, as all that is held, or no buffer and
  -- nothing held.
  pub read_whole_file-reads :
      (path : List ℕ) {status : LoadStatus}
      → status ≢ load_ok
      → Reading system.file_octets (read_whole_file m system path status)
  unfolding read_whole_file read_opened
  read_whole_file-reads path n =
      if_rule (EnclosedReading system.file_octets) (not system.file_opens)
        (λ _. misses refl (λ q. cc) refl)
        (λ _.
          if_rule (EnclosedReading system.file_octets) (system.file_size == 0)
            (λ _. misses refl (λ q. cc) refl)
            (λ z.
              if_rule (EnclosedReading system.file_octets)
                (ltb credential_max_size system.file_size) (λ _. misses refl (λ q. cc) refl)
                (λ c.
                  if_rule (EnclosedReading system.file_octets)
                    (not (
                      has_heap_for system.memory_at_read system.file_size
                        (reserve_for m system path)))
                    (λ _. misses refl (λ q. cc) refl)
                    (λ _.
                      if_rule (EnclosedReading system.file_octets) (not system.raw_malloc)
                        (λ _. misses refl (λ q. cc) refl)
                        (λ _.
                          if_rule (EnclosedReading system.file_octets)
                            (not (length system.file_octets == system.file_size))
                            (λ _. misses refl (λ q. cc) refl)
                            (λ l.
                              let full =
                                (==_iff (length system.file_octets) system.file_size).0
                                  (not-false _ l) in
                              reads refl (ground (arith, z, full)) (ground (arith, c, full)) n
                                refl))))))

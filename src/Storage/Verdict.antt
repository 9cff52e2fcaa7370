-- ===== src/Storage/Verdict.antt =====
-- How `dfc_credential_file_load` ends: the credential that it keeps, or clears, and the releases.
use dfc_flipper.Base.{
  ℕ, ◌-◌, ◌≡◌, refl, ap, ◌∙◌, ◌≢◌, ◌⊎◌, inl, inr, Bool, true, false, some, List, take,
}
use dfc_flipper.Storage.Status.{
  DerStatus, status_for, TextStatus, der_ok, der_failed, load_ok, LoadStatus, text_ok,
  text_unsupported, text_capacity, text_malformed, text_other,
}
use dfc_flipper.Storage.Model.{CredentialModel}
use dfc_flipper.Storage.Load.{Outcome, LoadSystem, conclude, Octets}
use dfc_flipper.Storage.Memory.{account, nothing_held, MemoryEvent}
use dfc_flipper.Ats.{ats_is_radio_supported}
use dfc_flipper.Storage.Codec.{close_codec, TextCodec}
use dfc_flipper.Storage.Ledger.{held_by, account-append, releases, continued, account-releases}

-- `m.decode` made the credential from octets that passed every test of `dfc_credential_file_load`,
-- and the load has given it the name.
pub record IsUsable {Credential : Type 0} (m : CredentialModel Credential) (name : List ℕ)
    (c : Credential) : Type 0 where
  pub origin : Credential
  pub octets : List ℕ
  pub decoded : Credential
  pub decodes : m.decode origin octets ≡ (decoded, der_ok)
  pub detectable : m.uid_is_detectable decoded ≡ true
  pub consistent : m.picc_ats_is_consistent decoded ≡ true
  pub radio : ats_is_radio_supported (m.picc_ats decoded) ≡ true
  pub named : c ≡ m.set_name (take (m.name_size - 1) name) decoded

-- Either the credential is usable and the status is Ok, or it is cleared and the status is not.
pub data Verdict {Credential : Type 0} (m : CredentialModel Credential) (name : List ℕ)
    (o : Outcome Credential) : Type 0 where
  kept : o.parsed ≡ true → o.status ≡ load_ok → IsUsable m name o.credential → Verdict m name o
  dropped :
      (origin : Credential)
      → o.parsed ≡ false
      → o.status ≢ load_ok
      → o.credential ≡ m.clear origin
      → Verdict m name o

-- With that, every block and handle that the load took is given back, once.
pub record IsConcluded {Credential : Type 0} (m : CredentialModel Credential) (name : List ℕ)
    (o : Outcome Credential) : Type 0 where
  pub verdict : Verdict m name o
  pub released : account nothing_held o.memory ≡ some nothing_held

pub status_for-ok : (t : TextStatus) → status_for t ≡ load_ok → t ≡ text_ok
unfolding status_for
status_for-ok text_ok h = refl
status_for-ok text_unsupported h = cc
status_for-ok text_capacity h = cc
status_for-ok text_malformed h = cc
status_for-ok text_other h = cc

pub DerStatus-cases : (d : DerStatus) → (d ≡ der_ok) ⊎ ((t : TextStatus) × (d ≡ der_failed t))
DerStatus-cases der_ok = inl refl
DerStatus-cases (der_failed t) = inr (t, refl)

module _ {Credential : Type 0} (m : CredentialModel Credential) (system : LoadSystem) where
  pub account-conclude :
      (parsed : Bool) (status : LoadStatus) (c : Credential) (raw : Bool) (pointer : Octets)
      (codec : TextCodec) (name : List ℕ) (memory : List MemoryEvent)
      → account nothing_held memory ≡ some (held_by raw pointer codec.manager)
      → account nothing_held
          (conclude m system parsed status c raw pointer codec name memory).memory
        ≡ some nothing_held
  unfolding conclude close_codec
  account-conclude parsed status c raw pointer codec name memory h =
      account-append nothing_held memory (releases raw pointer codec.manager)
      ∙ (ap (λ e. continued e (releases raw pointer codec.manager)) h
          ∙ account-releases raw pointer codec.manager)

  pub conclude-dropped :
      (status : LoadStatus) (c : Credential) (raw : Bool) (pointer : Octets) (codec : TextCodec)
      (name : List ℕ) (memory : List MemoryEvent)
      → status ≢ load_ok
      → account nothing_held memory ≡ some (held_by raw pointer codec.manager)
      → IsConcluded m name (conclude m system false status c raw pointer codec name memory)
  unfolding conclude
  conclude-dropped status c raw pointer codec name memory n h = record {
    verdict = dropped c refl n refl;
    released = account-conclude false status c raw pointer codec name memory h;
  }

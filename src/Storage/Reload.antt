-- ===== src/Storage/Reload.antt =====
-- A credential that dfc_credential_storage.c has saved, loaded again.
use dfc_flipper.Base.{
  ℕ, ◌-◌, ◌<◌, ◌≡◌, true, false, some, List, ◌==◌, length, get_or, take, [], ◌∷◌, ◌++◌,
}
use dfc_flipper.Storage.Model.{CredentialModel}
use dfc_flipper.Storage.Status.{
  text_ok, binary_first_octet, has_heap_for, load_ok, der_ok, binary_load_heap_reserve,
}
use dfc_flipper.Storage.Load.{LoadSystem, Outcome, reserve_for}
use dfc_flipper.Ats.{ats_is_radio_supported}
use dfc_flipper.Storage.Codec.{open_codec, closed}
use dfc_flipper.Storage.Save.{FileEvent, emptied, extended}

-- What the codecs do with one credential: its text is not empty, fits, does not start like a binary file,
-- and is parsed into `loaded`; the binary copy of `loaded` decodes to it; and the tests of a load pass.
pub record RoundTrips {Credential : Type 0} (m : CredentialModel Credential) (c target : Credential)
    : Type 0 where
  pub loaded : Credential
  pub needed : ℕ
  pub octets : List ℕ
  pub filled :
      (room len : ℕ) (text : List ℕ)
      → m.write c (some room) ≡ (text_ok, len, text)
      → (0 < length (take len text)) × (length (take len text) < room)
  pub marked :
      (room len : ℕ) (text : List ℕ)
      → m.write c (some room) ≡ (text_ok, len, text)
      → (get_or (take len text) 0 0 == binary_first_octet) ≡ false
  pub parses :
      (room len : ℕ) (text : List ℕ)
      → m.write c (some room) ≡ (text_ok, len, text)
      → m.parse target (take len text) ≡ (loaded, text_ok)
  pub sized : m.encoded_size loaded ≡ (der_ok, needed)
  pub encodes : m.encode loaded needed ≡ (der_ok, octets)
  pub decodes : m.decode loaded octets ≡ (loaded, der_ok)
  pub detectable : m.uid_is_detectable loaded ≡ true
  pub consistent : m.picc_ats_is_consistent loaded ≡ true
  pub radio : ats_is_radio_supported (m.picc_ats loaded) ≡ true

-- The SDK and the heap give a load of `text` what it asks for.
pub record CanLoad {Credential : Type 0} (m : CredentialModel Credential) (system : LoadSystem)
    (path text : List ℕ) (needed : ℕ) : Type 0 where
  pub opens : system.file_opens ≡ true
  pub contents : system.file_octets ≡ text
  pub size : system.file_size ≡ length text
  pub heap : has_heap_for system.memory_at_read (length text) (reserve_for m system path) ≡ true
  pub buffer : system.raw_malloc ≡ true
  pub plugin : (open_codec system.plugins closed false).1 ≡ true
  pub copy_heap : has_heap_for system.memory_at_copy needed binary_load_heap_reserve ≡ true
  pub copy_buffer : system.octets_malloc ≡ true

-- The load succeeds with the credential, which has the name.
pub record IsLoaded {Credential : Type 0} (m : CredentialModel Credential) (c : Credential)
    (name : List ℕ) (o : Outcome Credential) : Type 0 where
  pub parsed : o.parsed ≡ true
  pub status : o.status ≡ load_ok
  pub credential : o.credential ≡ m.set_name (take (m.name_size - 1) name) c

-- What events on one file leave in it.
abbrev pub content : List ℕ → List FileEvent → List ℕ
content old [] = old
content old (emptied path ∷ es) = content [] es
content old (extended path text ∷ es) = content (old ++ text) es

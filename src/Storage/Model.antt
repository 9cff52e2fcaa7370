-- ===== src/Storage/Model.antt =====
-- What dfc_credential_storage.c uses of lib/core: the credential, its two encodings, and constants.
use dfc_flipper.Base.{◌≢◌, List, ℕ, Option, Bool}
use dfc_flipper.Storage.Status.{der_failed, text_ok, TextStatus, DerStatus}

pub record CredentialModel (Credential : Type 0) : Type 0 where
  -- The codec's `parse` and `write`; `write` has the capacity of the buffer, none for NULL, and
  -- answers the status, the length and the text.
  pub parse : Credential → List ℕ → Credential × TextStatus
  pub write : Credential → Option ℕ → TextStatus × ℕ × List ℕ
  pub encoded_size : Credential → DerStatus × ℕ
  pub encode : Credential → ℕ → DerStatus × List ℕ
  pub decode : Credential → List ℕ → Credential × DerStatus
  pub clear : Credential → Credential
  pub clear_dirty : Credential → Credential
  pub dirty : Credential → Bool
  pub uid_is_detectable : Credential → Bool
  pub picc_ats_is_consistent : Credential → Bool
  pub picc_ats : Credential → List ℕ
  pub name : Credential → List ℕ
  pub set_name : List ℕ → Credential → Credential
  -- `sizeof(credential->name)`, DFC_FILE_NAME_MAX_LENGTH, DFC_APP_EXTENSION and DFC_BINARY_EXTENSION.
  pub name_size : ℕ
  pub file_name_max_length : ℕ
  pub app_extension : List ℕ
  pub binary_extension : List ℕ

-- A failure of the binary codec is never taken for DfcTextOk.
pub record Laws {Credential : Type 0} (m : CredentialModel Credential) : Type 0 where
  pub size_status : (c : Credential) → (m.encoded_size c).0 ≢ der_failed text_ok
  pub encode_status : (c : Credential) (size : ℕ) → (m.encode c size).0 ≢ der_failed text_ok
  pub decode_status :
      (c : Credential) (octets : List ℕ) → (m.decode c octets).1 ≢ der_failed text_ok

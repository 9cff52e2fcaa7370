-- ===== src/Reader/Model.antt =====
-- What dfc_reader.c uses of lib/core, of the poller of the SDK and of the card behind it.
use dfc_flipper.Base.{ℕ, List, Option, Bool}

-- `DfcApplication`, as far as the reader reads it.
pub record Application : Type 0 where
  pub aid : List ℕ
  pub auth_command : ℕ
  pub num_keys : ℕ
  pub key_len : ℕ

-- `DfcFile`
pub record File : Type 0 where
  pub number : ℕ
  pub app_index : ℕ
  pub comm_settings : ℕ

-- A cipher of the engine: a text, from a key and an initial vector, becomes another text and the
-- initial vector that the call leaves.
pub record Cipher : Type 0 where
  pub encrypt : List ℕ → List ℕ → List ℕ → List ℕ × List ℕ
  pub decrypt : List ℕ → List ℕ → List ℕ → List ℕ × List ℕ

pub record Core (Credential Session : Type 0) : Type 0 where
  pub cmd_authenticate_legacy : ℕ
  pub cmd_authenticate_aes : ℕ
  pub cmd_additional_frame : ℕ
  pub cmd_read_data : ℕ
  pub status_ok : ℕ
  pub comm_plain : ℕ
  pub max_file_data : ℕ
  pub select_application_frame : List ℕ → List ℕ
  pub read_data_frame : ℕ → List ℕ
  pub block_size_for_cipher : ℕ → ℕ
  pub aes : Cipher
  pub des : Cipher
  pub rotate_left : List ℕ → List ℕ
  -- From the cipher, the key, RndA and RndB.
  pub derive_session_key : ℕ → List ℕ → List ℕ → List ℕ → List ℕ
  -- A session, from the cipher, the session key and an initial vector, none for NULL; or none where
  -- the heap has no room.
  pub secure_messaging_alloc : ℕ → List ℕ → Option (List ℕ) → Option Session
  -- `secure_messaging->pcd = true`
  pub as_pcd : Session → Session
  pub applies_ev1 : Session → ℕ → Bool
  pub update_ev1_command : Session → ℕ → List ℕ → Session
  -- none for SIZE_MAX.
  pub unwrap_ev1_response : Session → ℕ → List ℕ → Session × Option (List ℕ)
  pub unwrap : Session → ℕ → ℕ → List ℕ → Session × List ℕ
  pub primary_application : Credential → Option Application
  pub key_const : Credential → Application → ℕ → Option (List ℕ)
  pub files : Credential → List File
  pub file_resize : Credential → File → ℕ → Credential × Bool
  pub write_file_data : Credential → File → List ℕ → Option Credential
  pub store_uid : Credential → List ℕ → Credential
  -- `sizeof(credential->uid)`
  pub uid_size : ℕ

-- The card and the radio between: what `iso14443_4a_poller_send_block` answers to a frame, none for an
-- error, and the card after it.
abbrev pub SendBlock : Type 0 → Type 0
SendBlock Card = Card → List ℕ → Card × Option (List ℕ)

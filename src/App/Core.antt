-- ===== src/App/Core.antt =====
-- What the scenes use of lib/core and of the SDK.
use dfc_flipper.Base.{ℕ, Option, List}
use dfc_flipper.Storage.Model.{CredentialModel}
use dfc_flipper.Reader.Model.{Application}

pub record AppCore (Credential : Type 0) : Type 0 where
  pub model : CredentialModel Credential
  pub init_blank : Credential → Credential
  pub uid : Credential → List ℕ
  pub num_apps : Credential → ℕ
  pub num_files : Credential → ℕ
  pub primary_application : Credential → Option Application
  -- Without an application, a key of the card.
  pub key_const : Credential → Option Application → ℕ → Option (List ℕ)
  pub picc_key_len : Credential → ℕ
  -- `GuiButtonTypeLeft` and `GuiButtonTypeRight`.
  pub button_left : ℕ
  pub button_right : ℕ
  -- APP_DATA_PATH("") and STORAGE_APP_DATA_PATH_PREFIX.
  pub app_data_path : List ℕ
  pub app_data_prefix : List ℕ
  -- path_extract_dirname and path_extract_filename.
  pub dirname : List ℕ → List ℕ
  pub filename : List ℕ → List ℕ

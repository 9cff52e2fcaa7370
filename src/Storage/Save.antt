-- ===== src/Storage/Save.antt =====
-- Saving and deleting in dfc_credential_storage.c. What the SDK and the heap answer during one call is
-- an argument.
use dfc_flipper.Base.{
  ℕ, ◌+◌, ◌-◌, Bool, true, false, not, ◌&&◌, none, some, List, [], ◌∷◌, ◌++◌, ltb, ◌==◌,
  if◌then◌else◌, length, take,
}
use dfc_flipper.Storage.Status.{TextStatus, text_ok, text_capacity, credential_max_size, ends_with}
use dfc_flipper.Storage.Memory.{MemoryEvent, taken, given_back, text_buffer, file_handle}
use dfc_flipper.Storage.Codec.{TextCodec, PluginSystem, open_codec, close_codec, closed}
use dfc_flipper.Storage.Model.{CredentialModel}

pub record SaveSystem : Type 0 where
  pub plugins : PluginSystem
  pub text_malloc : Bool
  pub file_creates : Bool
  -- How much of the text `storage_file_write` writes.
  pub file_write : List ℕ → ℕ

-- What is done to a file: created or truncated, or extended by some octets.
pub data FileEvent : Type 0 where
  emptied : List ℕ → FileEvent
  extended : List ℕ → List ℕ → FileEvent

abbrev pub path_of : FileEvent → List ℕ
path_of (emptied path) = path
path_of (extended path text) = path

-- `error_shown` for the dialog.
pub record Writing : Type 0 where
  pub saved : Bool
  pub error_shown : Bool
  pub files : List FileEvent
  pub memory : List MemoryEvent

-- The new `store.load_path` and credential with it.
pub record Saving (Credential : Type 0) : Type 0 where
  pub saved : Bool
  pub load_path : List ℕ
  pub credential : Credential
  pub files : List FileEvent

abbrev pub is_text_ok : TextStatus → Bool
is_text_ok text_ok = true
is_text_ok _ = false

abbrev pub is_text_capacity : TextStatus → Bool
is_text_capacity text_capacity = true
is_text_capacity _ = false

-- The end of `dfc_credential_write_file`; `text` says whether `text` is set.
unfoldable pub finish_write : Bool → Bool → TextCodec → List FileEvent → List MemoryEvent → Writing
finish_write saved text codec files memory = record {
  saved = saved;
  error_shown = not saved;
  files = files;
  memory =
      memory
      ++ ((if text then given_back text_buffer ∷ [] else [])
          ++ ((close_codec codec).1 ++ given_back file_handle ∷ []));
}

module _ {Credential : Type 0} (m : CredentialModel Credential) where
  -- The path of `dfc_credential_save_loaded`.
  unfoldable pub text_path : List ℕ → List ℕ
  text_path path =
      if ends_with path m.binary_extension
      then take (length path - length m.binary_extension) path ++ m.app_extension
      else path

  -- The path that `dfc_credential_delete` removes; `app_data` is APP_DATA_PATH("").
  unfoldable pub delete_path : (app_data : List ℕ) → Credential → List ℕ → Bool → List ℕ
  delete_path app_data credential load_path use_load_path =
      if use_load_path && not (length load_path == 0)
      then load_path
      else app_data ++ (m.name credential ++ m.app_extension)

  -- `dfc_credential_delete`, with the answers of `storage_simply_remove`: whether the file is deleted,
  -- and whether the dialog is shown.
  unfoldable pub delete :
      (app_data : List ℕ) (removes : List ℕ → Bool) → Credential → List ℕ → Bool → Bool × Bool
  delete app_data removes credential load_path use_load_path =
      let deleted = removes (delete_path app_data credential load_path use_load_path) in
      (deleted, not deleted)

module _ {Credential : Type 0} (m : CredentialModel Credential) (system : SaveSystem) where
  -- `dfc_credential_write_file` once the text is rendered.
  unfoldable pub write_text : List ℕ → List ℕ → ℕ → List MemoryEvent → Writing
  write_text path text len memory =
      let written = system.file_write (take len text) in
      if not system.file_creates
      then finish_write false true closed [] memory
      else if not (written == len)
      then finish_write false true closed
          (emptied path ∷ extended path (take written (take len text)) ∷ []) memory
      else finish_write true true closed (emptied path ∷ extended path (take len text) ∷ []) memory

  -- The second call of the codec, with the buffer.
  unfoldable pub render : Credential → List ℕ → ℕ → TextCodec → List MemoryEvent → Writing
  render credential path needed codec memory =
      let (st, len, text) = m.write credential (some (needed + 1)) in
      if not system.text_malloc
      then finish_write false false codec [] memory
      else if not (is_text_ok st)
      then finish_write false true codec [] (memory ++ taken text_buffer ∷ [])
      else write_text path text len (memory ++ taken text_buffer ∷ (close_codec codec).1)

  unfoldable pub write_file : Credential → List ℕ → Writing
  write_file credential path =
      let (codec, opened, codec_memory) = open_codec system.plugins closed true in
      let memory = taken file_handle ∷ codec_memory in
      let (st, needed, _) = m.write credential none in
      if not opened
      then finish_write false false codec [] memory
      else if not (is_text_capacity st) && not (is_text_ok st)
      then finish_write false false codec [] memory
      else if ltb credential_max_size needed
      then finish_write false false codec [] memory
      else render credential path needed codec memory

  -- What `dfc_credential_save` and `dfc_credential_save_loaded` do with the path that they made.
  unfoldable pub save_to : Credential → List ℕ → List ℕ → Saving Credential
  save_to credential load_path path =
      let w = write_file credential path in
      record {
        saved = w.saved;
        load_path = if w.saved then path else load_path;
        credential = if w.saved then m.clear_dirty credential else credential;
        files = w.files;
      }

  -- `dfc_credential_save`. `dirname` is what `path_extract_dirname` makes of the path, and
  -- `app_data` STORAGE_APP_DATA_PATH_PREFIX.
  unfoldable pub save :
      (dirname : List ℕ → List ℕ) (app_data : List ℕ)
      → Credential
      → List ℕ
      → List ℕ
      → Saving Credential
  save dirname app_data credential load_path dev_name =
      let name = 0x2F ∷ dev_name ++ m.app_extension in
      save_to credential load_path
        (if length load_path == 0 then app_data ++ name else dirname load_path ++ name)

  unfoldable pub save_loaded : Credential → List ℕ → Saving Credential
  save_loaded credential load_path =
      let s = save_to credential load_path (text_path m load_path) in
      if length load_path == 0
      then record { saved = false; load_path = load_path; credential = credential; files = [] }
      else s

-- ===== src/Storage/Load.antt =====
-- The load path of dfc_credential_storage.c. A function that writes `*status` returns the new status;
-- every caller passes a status. What the SDK and the heap answer during one load is an argument.
use dfc_flipper.Base.{
  Bool, ℕ, List, if◌then◌else◌, Option, not, take, false, ◌++◌, none, ◌∷◌, [], ◌==◌, true, ltb,
  length, some, ◌-◌, get_or,
}
use dfc_flipper.Storage.Model.{CredentialModel}
use dfc_flipper.Storage.Status.{
  LoadStatus, FreeMemory, ends_with, der_failed, text_load_heap_reserve, status_for,
  binary_load_heap_reserve, open_failed, unsupported_format, malformed_file, credential_max_size,
  load_ok, der_ok, capacity, has_heap_for, TextStatus, binary_first_octet, text_ok,
  codec_unavailable,
}
use dfc_flipper.Storage.Codec.{TextCodec, PluginSystem, closed, close_codec, open_codec}
use dfc_flipper.Storage.Memory.{
  MemoryEvent, taken, file_handle, given_back, octets_buffer, raw_buffer,
}
use dfc_flipper.Ats.{ats_is_radio_supported}

pub record LoadSystem : Type 0 where
  pub file_opens : Bool
  pub file_size : ℕ
  -- What `storage_file_read` puts into the buffer.
  pub file_octets : List ℕ
  pub memory_at_read : FreeMemory
  pub raw_malloc : Bool
  pub plugins : PluginSystem
  pub memory_at_copy : FreeMemory
  pub octets_malloc : Bool

-- What a load leaves.
pub record Outcome (Credential : Type 0) : Type 0 where
  pub parsed : Bool
  pub status : LoadStatus
  pub credential : Credential
  pub memory : List MemoryEvent

-- Where `octets` points.
pub data Octets : Type 0 where
  null_octets raw_octets own_octets : Octets

module _ {Credential : Type 0} (m : CredentialModel Credential) where
  -- The name of the credential, or of its file: the buffer of `dfc_credential_load_selected_file`.
  abbrev pub selected_name_for : Credential → List ℕ → List ℕ
  selected_name_for credential filename =
      let kept = take m.file_name_max_length (m.name credential) in
      if length kept == 0 then take m.file_name_max_length filename else kept

module _ {Credential : Type 0} (m : CredentialModel Credential) (system : LoadSystem) where
  open system use {
    file_opens, file_size, file_octets, memory_at_read, raw_malloc, plugins, memory_at_copy,
    octets_malloc,
  }

  abbrev pub reserve_for : List ℕ → ℕ
  reserve_for path =
      if ends_with path m.app_extension then text_load_heap_reserve else binary_load_heap_reserve

  -- The body of `dfc_credential_read_whole_file` between taking and giving back the file handle.
  unfoldable pub read_opened : List ℕ → LoadStatus → Option (List ℕ) × LoadStatus × List MemoryEvent
  read_opened path status =
      if not file_opens
      then (none, open_failed, [])
      else if file_size == 0
      then (none, malformed_file, [])
      else if ltb credential_max_size file_size
      then (none, capacity, [])
      else if not (has_heap_for memory_at_read file_size (reserve_for path))
      then (none, capacity, [])
      else if not raw_malloc
      then (none, capacity, [])
      else if not (length file_octets == file_size)
      then (none, open_failed, taken raw_buffer ∷ given_back raw_buffer ∷ [])
      else (some file_octets, status, taken raw_buffer ∷ [])

  unfoldable pub read_whole_file :
      List ℕ → LoadStatus → Option (List ℕ) × LoadStatus × List MemoryEvent
  read_whole_file path status =
      let (buffer, status', memory) = read_opened path status in
      (buffer, status', taken file_handle ∷ memory ++ given_back file_handle ∷ [])

  -- The end of `dfc_credential_file_load`: the name, the buffers, the codec, and a credential that was
  -- not accepted. `raw` says whether `raw` is set.
  unfoldable pub conclude :
      Bool
      → LoadStatus
      → Credential
      → Bool
      → Octets
      → TextCodec
      → List ℕ
      → List MemoryEvent
      → Outcome Credential
  conclude parsed status credential raw octets codec selected_name memory = record {
    parsed = parsed;
    status = status;
    credential =
        if parsed
        then m.set_name (take (m.name_size - 1) selected_name) credential
        else m.clear credential;
    memory =
        memory
        ++ (elim octets [ own_octets ↦ given_back octets_buffer ∷ [] | _ ↦ [] ]
            ++ ((if raw then given_back raw_buffer ∷ [] else []) ++ (close_codec codec).1));
  }

  -- From `dfc_der_decode` on.
  unfoldable pub accept :
      Credential
      → LoadStatus
      → Bool
      → Octets
      → List ℕ
      → List ℕ
      → List MemoryEvent
      → Outcome Credential
  accept credential status raw pointer octets selected_name memory =
      let (c, decoded) = m.decode credential octets in
      elim decoded [
        | der_failed text ↦
            conclude false (status_for text) c raw pointer closed selected_name memory
        | der_ok ↦
            if not (m.uid_is_detectable c)
            then conclude false status c raw pointer closed selected_name memory
            else if not (m.picc_ats_is_consistent c)
            then conclude false unsupported_format c raw pointer closed selected_name memory
            else if not (ats_is_radio_supported (m.picc_ats c))
            then conclude false unsupported_format c raw pointer closed selected_name memory
            else conclude true load_ok c raw pointer closed selected_name memory
      ]

  -- The text path from the release of the source on: the binary copy and its decoding.
  unfoldable pub load_copy :
      Credential → LoadStatus → ℕ → List ℕ → List MemoryEvent → Outcome Credential
  load_copy credential status needed selected_name memory =
      if not (has_heap_for memory_at_copy needed binary_load_heap_reserve)
      then conclude false capacity credential false null_octets closed selected_name memory
      else if not octets_malloc
      then conclude false capacity credential false null_octets closed selected_name memory
      else (let (encoded, octets) = m.encode credential needed in
          let memory' = memory ++ taken octets_buffer ∷ [] in
          elim encoded [
            | der_failed text ↦
                conclude false (status_for text) credential false own_octets closed selected_name
                  memory'
            | der_ok ↦ accept credential status false own_octets octets selected_name memory'
          ])

  -- What the parser has made of the text.
  unfoldable pub load_parsed :
      Credential
      → TextStatus
      → LoadStatus
      → TextCodec
      → List ℕ
      → List MemoryEvent
      → Outcome Credential
  load_parsed credential text_ok status codec selected_name memory =
      let (_, codec_memory) = close_codec codec in
      let (sized, needed) = m.encoded_size credential in
      let memory' = memory ++ codec_memory in
      elim sized [
        | der_failed text ↦
            conclude false (status_for text) credential true null_octets closed selected_name
              memory'
        | der_ok ↦
            load_copy credential status needed selected_name (memory' ++ given_back raw_buffer ∷ [])
      ]
  load_parsed credential text status codec selected_name memory =
      conclude false (status_for text) credential true null_octets codec selected_name memory

  unfoldable pub load_text :
      Credential → LoadStatus → List ℕ → List ℕ → List MemoryEvent → Outcome Credential
  load_text credential status raw selected_name memory =
      let (codec, opened, codec_memory) = open_codec plugins closed false in
      let (parsed, text_status) = m.parse credential raw in
      if not opened
      then conclude false codec_unavailable credential true null_octets codec selected_name
          (memory ++ codec_memory)
      else load_parsed parsed text_status status codec selected_name (memory ++ codec_memory)

  -- `dfc_credential_file_load`. A file that could not be read leaves the credential as it is.
  unfoldable pub file_load : Credential → List ℕ → List ℕ → Outcome Credential
  file_load credential path selected_name =
      let (raw, status, memory) = read_whole_file path malformed_file in
      elim raw [
        | none ↦ record {
          parsed = false;
          status = status;
          credential = credential;
          memory = memory;
        }
        | some octets ↦
            if get_or octets 0 0 == binary_first_octet
            then accept credential status true raw_octets octets selected_name memory
            else load_text credential status octets selected_name memory
      ]

  -- `dfc_credential_load_selected_file`, for the path that the storage module keeps. `filename` is
  -- what `path_extract_filename` makes of it.
  unfoldable pub load_selected_file : Credential → List ℕ → List ℕ → LoadStatus → Outcome Credential
  load_selected_file credential load_path filename status =
      let loaded = file_load credential load_path (selected_name_for m credential filename) in
      if length load_path == 0
      then record { parsed = false; status = open_failed; credential = credential; memory = [] }
      else if loaded.parsed
      then loaded
      else record loaded { credential = m.clear loaded.credential }

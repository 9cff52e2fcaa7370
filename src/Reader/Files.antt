-- ===== src/Reader/Files.antt =====
-- dfc_reader.c: reading the files, the state machine and the poller's callback.
use dfc_flipper.Base.{
  ℕ, Bool, not, ◌&&◌, ◌||◌, Option, none, some, List, [], ◌∷◌, ltb, leb, ◌==◌, if◌then◌else◌,
  length, get_or, drop,
}
use dfc_flipper.Reader.Model.{Core, File, SendBlock}
use dfc_flipper.Reader.Steps.{
  Reader, NfcCommand, stop, continue, exchange, select_application, authenticate,
}
use dfc_flipper.Events.{CustomEvent, poller_error, poller_success}

-- `Iso14443_4aError`, as the cases of the switch name it.
pub data PollerFault : Type 0 where
  fault_none fault_not_present fault_protocol fault_timeout fault_other : PollerFault

-- `Iso14443_4aPollerEvent`; with `ready`, the UID of the card, none for NULL.
pub data PollerEvent : Type 0 where
  ready : Option (List ℕ) → PollerEvent
  failed : PollerFault → PollerEvent
  other_event : PollerEvent

module _ {Credential Session Card : Type 0} (core : Core Credential Session)
    (send_block : SendBlock Card) where
  -- `dfc_reader_read_file` from the test of the unwrapped data on.
  unfoldable pub store :
      Reader Credential Session Card → File → List ℕ → Reader Credential Session Card × NfcCommand
  store r file plain =
      let (credential, resized) = core.file_resize r.credential file (length plain) in
      let r' = record r { credential = credential } in
      if ltb core.max_file_data (length plain)
      then (r, stop)
      else if not resized
      then (r', stop)
      else if ltb 0 (length plain)
      then elim (core.write_file_data credential file plain) [
        | none ↦ (r', stop)
        | some written ↦ (record r' { credential = written }, continue)
      ]
      else (r', continue)

  -- The unwrapping of an answer, none where it fails.
  unfoldable pub unwrap_answer : Session → Bool → File → List ℕ → Session × Option (List ℕ)
  unwrap_answer session ev1_sm file rx =
      let status = get_or rx 0 0 in
      let wrapped = drop 1 rx in
      let (session', plain) = core.unwrap session file.comm_settings status wrapped in
      if ev1_sm
      then core.unwrap_ev1_response session status wrapped
      else if length plain == 0
          && (ltb 0 (length wrapped) && not (file.comm_settings == core.comm_plain))
      then (session', none)
      else (session', some plain)

  -- `dfc_reader_read_file`, with the session that its assertion asks for.
  unfoldable pub read_with :
      Reader Credential Session Card → Session → File → Reader Credential Session Card × NfcCommand
  read_with r session file =
      let request = core.read_data_frame file.number in
      let ev1_sm = core.applies_ev1 session core.cmd_read_data in
      let session' =
        if ev1_sm
        then core.update_ev1_command session core.cmd_read_data (drop 1 request)
        else session in
      let (r', sent) =
        exchange core send_block (record r { secure_messaging = some session' }) request in
      let (session'', plain) = unwrap_answer session' ev1_sm file r'.rx_buffer in
      let r'' = record r' { secure_messaging = some session'' } in
      if not sent
      then (r', stop)
      else if ltb (length r'.rx_buffer) 1 || not (get_or r'.rx_buffer 0 0 == core.status_ok)
      then (r', stop)
      else elim plain [ none ↦ (r'', stop) | some octets ↦ store r'' file octets ]

  -- none where the assertion fails.
  unfoldable pub read_file :
      Reader Credential Session Card → File → Option (Reader Credential Session Card × NfcCommand)
  read_file r file = elim r.secure_messaging [
    | none ↦ none
    | some session ↦ some (read_with r session file)
  ]

  abbrev pub next_file :
      (Reader Credential Session Card → Option (Reader Credential Session Card × NfcCommand))
      → Reader Credential Session Card × NfcCommand
      → Option (Reader Credential Session Card × NfcCommand)
  next_file rest (r, stop) = some (r, stop)
  next_file rest (r, continue) = rest r

  -- The loop of `dfc_state_machine`. It takes the numbers and settings of the files from the list as it
  -- is before the loop: storing a file's data leaves them.
  unfoldable pub read_files :
      List File
      → Reader Credential Session Card
      → Option (Reader Credential Session Card × NfcCommand)
  read_files [] r = some (r, continue)
  read_files (file ∷ files) r =
      let rest = λ (r' : Reader Credential Session Card). read_files files r' in
      if not (file.app_index == 0)
      then rest r
      else elim (read_file r file) [ none ↦ none | some read ↦ next_file rest read ]

  -- The body of the state machine's `do`: the credential's application is selected, authenticated with
  -- key 0, and its files are read.
  unfoldable pub read_application :
      Reader Credential Session Card → List ℕ → Option (Reader Credential Session Card × NfcCommand)
  read_application r rnd_a = elim (core.primary_application r.credential) [
    | none ↦ some (r, stop)
    | some app ↦
        next_file
          (λ r'.
            next_file (λ r''. read_files (core.files r''.credential) r'')
              (authenticate core send_block r' 0 app.auth_command rnd_a))
          (select_application core send_block r app.aid)
  ]

  -- The custom event that tells how it ended.
  abbrev pub report : NfcCommand → CustomEvent
  report stop = poller_error
  report continue = poller_success

  -- `dfc_state_machine`: the credential, the card, the events that it sends and its command; none where
  -- an assertion fails. `alloc_ok` says whether `dfc_reader_alloc` gives a reader.
  unfoldable pub state_machine :
      Bool → Credential → Card → List ℕ → Option (Credential × Card × List CustomEvent × NfcCommand)
  state_machine alloc_ok credential card rnd_a =
      if not alloc_ok
      then some (credential, card, poller_error ∷ [], stop)
      else elim (read_application
          (record { credential = credential; secure_messaging = none; rx_buffer = []; card = card })
          rnd_a) [
            | none ↦ none
            | some (r, command) ↦ some (r.credential, r.card, report command ∷ [], stop)
          ]

  -- `dfc_reader_capture_uid`
  unfoldable pub capture_uid : Credential → Option (List ℕ) → Credential
  capture_uid credential none = credential
  capture_uid credential (some uid) =
      if leb (length uid) core.uid_size then core.store_uid credential uid else credential

  -- `dfc_worker_poller_dispatch` with `dfc_state_machine`, which is `dfc_worker_poller_callback`.
  unfoldable pub poller_callback :
      Bool
      → Credential
      → Card
      → List ℕ
      → PollerEvent
      → Option (Credential × Card × List CustomEvent × NfcCommand)
  poller_callback alloc_ok credential card rnd_a (ready uid) =
      state_machine alloc_ok (capture_uid credential uid) card rnd_a
  poller_callback alloc_ok credential card rnd_a (failed fault_protocol) =
      some (credential, card, [], stop)
  poller_callback alloc_ok credential card rnd_a event = some (credential, card, [], continue)

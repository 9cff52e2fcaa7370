-- ===== src/Reader/Reports.antt =====
-- `dfc_state_machine` of dfc_reader.c: its assertions hold, and it reports its end once.
use dfc_flipper.Base.{
  ℕ, ◌≡◌, inl, inr, some, List, Option-cases, refl, not, ◌||◌, [], ◌∷◌, ltb, ◌==◌, if◌then◌else◌,
  if_rule, length, get_or, drop, Bool, true, false, Option, none, ◌⊎◌, ap, ◌∙◌,
}
use dfc_flipper.Reader.Model.{Core, SendBlock, File, Application}
use dfc_flipper.Reader.Steps.{
  Reader, NfcCommand, stop, continue, exchange, authenticate, select_application,
}
use dfc_flipper.Reader.Proved.{gives_up, authenticates, authenticate-attempts}
use dfc_flipper.Reader.Files.{
  store, read_with, read_files, unwrap_answer, read_file, read_application, state_machine,
  next_file,
}
use dfc_flipper.Events.{poller_error, poller_success}

abbrev IsOpen : {Credential Session Card : Type 0} → Reader Credential Session Card → Type 0
IsOpen {Session = Session} r = (s : Session) × (r.secure_messaging ≡ some s)

abbrev IsReturned : {A : Type 0} → Option A → Type 0
IsReturned {A = A} o = (x : A) × (o ≡ some x)

module _ {Credential Session Card : Type 0} (core : Core Credential Session)
    (send_block : SendBlock Card) where
  -- The reader has selected the credential's application and authenticated with its key 0.
  abbrev pub IsProved : Credential → Reader Credential Session Card → List ℕ → Type 0
  IsProved credential r rnd_a =
      (app : Application) × (core.primary_application credential ≡ some app)
      × ((select_application core send_block r app.aid).1 ≡ continue)
      × ((authenticate core send_block (select_application core send_block r app.aid).0 0
            app.auth_command rnd_a).1
          ≡ continue)

  exchange-IsOpen :
      (r : Reader Credential Session Card) (frame : List ℕ)
      → IsOpen r
      → IsOpen (exchange core send_block r frame).0
  unfolding exchange
  exchange-IsOpen r frame o = elim (Option-cases (send_block r.card frame).1) [
    | inl e ↦ rw (exchange, e) o
    | inr (rx, e) ↦ rw (exchange, e) o
  ]

  store-IsOpen :
      (r : Reader Credential Session Card) (file : File) (plain : List ℕ)
      → IsOpen r
      → IsOpen (store core send_block r file plain).0
  unfolding store
  store-IsOpen r file plain o =
      let resized = core.file_resize r.credential file (length plain) in
      let P = λ (x : Reader Credential Session Card × NfcCommand). IsOpen x.0 in
      if_rule P (ltb core.max_file_data (length plain)) (λ _. o)
        (λ _.
          if_rule P (not resized.1) (λ _. o)
            (λ _.
              if_rule P (ltb 0 (length plain))
                (λ _. elim (Option-cases (core.write_file_data resized.0 file plain)) [
                  | inl e ↦ rw e o
                  | inr (w, e) ↦ rw e o
                ])
                (λ _. o)))

  read_with-IsOpen :
      (r : Reader Credential Session Card) (session : Session) (file : File)
      → IsOpen (read_with core send_block r session file).0
  unfolding read_with
  read_with-IsOpen r session file =
      let request = core.read_data_frame file.number in
      let ev1_sm = core.applies_ev1 session core.cmd_read_data in
      let session' =
        if ev1_sm
        then core.update_ev1_command session core.cmd_read_data (drop 1 request)
        else session in
      let (r', sent) =
        exchange core send_block (record r { secure_messaging = some session' }) request in
      let o =
        exchange-IsOpen (record r { secure_messaging = some session' }) request (session', refl) in
      let (session'', plain) = unwrap_answer core send_block session' ev1_sm file r'.rx_buffer in
      let r'' = record r' { secure_messaging = some session'' } in
      let P = λ (x : Reader Credential Session Card × NfcCommand). IsOpen x.0 in
      if_rule P (not sent) (λ _. o)
        (λ _.
          if_rule P (ltb (length r'.rx_buffer) 1 || not (get_or r'.rx_buffer 0 0 == core.status_ok))
            (λ _. o)
            (λ _. elim (Option-cases plain) [
              | inl e ↦ rw e (session'', refl)
              | inr (octets, e) ↦ rw e (store-IsOpen r'' file octets (session'', refl))
            ]))

  next_file-returns :
      (rest : Reader Credential Session Card → Option (Reader Credential Session Card × NfcCommand))
      (x : Reader Credential Session Card × NfcCommand)
      → (x.1 ≡ continue → IsReturned (rest x.0))
      → IsReturned (next_file core send_block rest x)
  next_file-returns rest (r, stop) f = ((r, stop), refl)
  next_file-returns rest (r, continue) f = f refl

  read_files-returns :
      (files : List File) (r : Reader Credential Session Card)
      → IsOpen r
      → IsReturned (read_files core send_block files r)
  unfolding read_files read_file
  read_files-returns [] r o = ((r, continue), refl)
  read_files-returns (file ∷ files) r (s, e) =
      if_rule IsReturned (not (file.app_index == 0)) (λ _. read_files-returns files r (s, e))
        (λ _. rw e (
          next_file-returns (λ r'. read_files core send_block files r')
            (read_with core send_block r s file)
            (λ _.
              read_files-returns files (read_with core send_block r s file).0
                (read_with-IsOpen r s file))))

  authenticate-IsOpen :
      (r : Reader Credential Session Card) (key_no cipher : ℕ) (rnd_a : List ℕ)
      → (authenticate core send_block r key_no cipher rnd_a).1 ≡ continue
      → IsOpen (authenticate core send_block r key_no cipher rnd_a).0
  authenticate-IsOpen r key_no cipher rnd_a h =
      elim (authenticate-attempts core send_block r key_no cipher rnd_a) [
        | gives_up e ↦ cc
        | authenticates p c e k ↦ (core.as_pcd p.session, e)
      ]

  read_application-returns :
      (r : Reader Credential Session Card) (rnd_a : List ℕ)
      → IsReturned (read_application core send_block r rnd_a)
  unfolding read_application
  read_application-returns r rnd_a = elim (Option-cases (core.primary_application r.credential)) [
    | inl e ↦ rw (read_application, e) ((r, stop), refl)
    | inr (app, e) ↦
        let selected = select_application core send_block r app.aid in
        let proved = authenticate core send_block selected.0 0 app.auth_command rnd_a in
        let reading = λ (x : Reader Credential Session Card).
          read_files core send_block (core.files x.credential) x in
        let proving = λ (x : Reader Credential Session Card).
          next_file core send_block reading
            (authenticate core send_block x 0 app.auth_command rnd_a) in
        rw (read_application, e)
          (next_file-returns proving selected (λ _. next_file-returns reading proved (λ c.
            read_files-returns (core.files proved.0.credential) proved.0
              (authenticate-IsOpen selected.0 0 app.auth_command rnd_a c))))
  ]

  next_file-continues :
      (rest : Reader Credential Session Card → Option (Reader Credential Session Card × NfcCommand))
      (x : Reader Credential Session Card × NfcCommand) {y : Reader Credential Session Card}
      → next_file core send_block rest x ≡ some (y, continue)
      → (x.1 ≡ continue) × (rest x.0 ≡ some (y, continue))
  next_file-continues rest (r, stop) e = absurd cc
  next_file-continues rest (r, continue) e = (refl, e)

  stops :
      {x y : Reader Credential Session Card}
      → ◌≡◌ {A = Option (Reader Credential Session Card × NfcCommand)}
          (some (x, stop))
          (some (y, continue))
      → ⊥
  stops h = cc

  NfcCommand-cases : (c : NfcCommand) → (c ≡ stop) ⊎ (c ≡ continue)
  NfcCommand-cases stop = inl refl
  NfcCommand-cases continue = inr refl

  read_application-proves :
      (r : Reader Credential Session Card) (rnd_a : List ℕ) {y : Reader Credential Session Card}
      → read_application core send_block r rnd_a ≡ some (y, continue)
      → IsProved r.credential r rnd_a
  unfolding read_application
  read_application-proves r rnd_a h = elim (Option-cases (core.primary_application r.credential)) [
    | inl e ↦ absurd (stops (rw (read_application, e) at h))
    | inr (app, e) ↦
        let selected = select_application core send_block r app.aid in
        let reading = λ (x : Reader Credential Session Card).
          read_files core send_block (core.files x.credential) x in
        let proving = λ (x : Reader Credential Session Card).
          next_file core send_block reading
            (authenticate core send_block x 0 app.auth_command rnd_a) in
        let (a, h') = next_file-continues proving selected (rw (read_application, e) at h) in
        let (b, _) =
          next_file-continues reading
            (authenticate core send_block selected.0 0 app.auth_command rnd_a) h' in
        (app, e, a, b)
  ]

  -- The reader as `dfc_state_machine` starts it.
  abbrev pub fresh : Credential → Card → Reader Credential Session Card
  fresh credential card = record {
    credential = credential;
    secure_messaging = none;
    rx_buffer = [];
    card = card;
  }

  -- The state machine never fails its assertions, whatever the card answers. It stops, and sends one
  -- custom event: PollerError, or PollerSuccess, and that only where the selection of the credential's
  -- application and the authentication with its key 0 have both continued.
  pub state_machine-reports :
      (alloc_ok : Bool) (credential : Credential) (card : Card) (rnd_a : List ℕ)
      → (credential' : Credential) × (card' : Card) × ((state_machine core send_block alloc_ok
              credential card rnd_a
            ≡ some (credential', card', poller_error ∷ [], stop))
          ⊎ ((state_machine core send_block alloc_ok credential card rnd_a
                ≡ some (credential', card', poller_success ∷ [], stop))
              × IsProved credential (fresh credential card) rnd_a))
  unfolding state_machine
  state_machine-reports true credential card rnd_a =
      let ((r, command), e) = read_application-returns (fresh credential card) rnd_a in
      elim (NfcCommand-cases command) [
        | inl k ↦ (r.credential, r.card, inl (rw (state_machine, e, k) refl))
        | inr k ↦ (
          r.credential,
          r.card,
          inr (
            rw (state_machine, e, k) refl,
            read_application-proves (fresh credential card) rnd_a (e ∙ ap (λ c. some (r, c)) k),
          ),
        )
      ]
  state_machine-reports false credential card rnd_a = (credential, card, inl refl)

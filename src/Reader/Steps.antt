-- ===== src/Reader/Steps.antt =====
-- The steps of dfc_reader.c: one native frame out, one answer back, and what is made of it.
use dfc_flipper.Base.{
  ℕ, ◌+◌, Bool, true, false, not, ◌||◌, Option, none, some, List, [], ◌∷◌, ◌++◌, ltb, ◌==◌,
  if◌then◌else◌, length, get_or, take, drop, replicate,
}
use dfc_flipper.Reader.Model.{Core, Cipher, SendBlock}
use dfc_flipper.Storage.Status.{str_eq}

-- `NfcCommand`
pub data NfcCommand : Type 0 where
  stop continue : NfcCommand

-- `DfcReader`, and the card that its poller talks to.
pub record Reader (Credential Session Card : Type 0) : Type 0 where
  pub credential : Credential
  pub secure_messaging : Option Session
  pub rx_buffer : List ℕ
  pub card : Card

abbrev pub zero_iv : List ℕ
zero_iv = replicate 16 0

-- The test of an answer that carries one block, and the block.
abbrev pub has_block : List ℕ → ℕ → ℕ → Bool
has_block rx block_size status =
    not (ltb (length rx) (1 + block_size) || not (get_or rx 0 0 == status))

abbrev pub block_in : List ℕ → ℕ → List ℕ
block_in rx block_size = take block_size (drop 1 rx)

module _ {Credential Session : Type 0} (core : Core Credential Session) where
  abbrev pub cipher_of : ℕ → Cipher
  cipher_of cipher = if cipher == core.cmd_authenticate_aes then core.aes else core.des

  -- The key that `dfc_reader_authenticate` uses.
  unfoldable pub key_of : Credential → ℕ → Option (List ℕ)
  key_of credential key_no = elim (core.primary_application credential) [
    | none ↦ none
    | some app ↦
        if not (ltb key_no app.num_keys)
        then none
        else elim (core.key_const credential app key_no) [
          | none ↦ none
          | some key ↦ some (take app.key_len key)
        ]
  ]

module _ {Credential Session Card : Type 0} (core : Core Credential Session) where
  -- `dfc_reader_authenticate` from the derivation of the session key on; `iv` is what the last
  -- decryption has left.
  unfoldable pub open_session :
      Reader Credential Session Card
      → List ℕ
      → ℕ
      → List ℕ
      → List ℕ
      → List ℕ
      → Reader Credential Session Card × NfcCommand
  open_session r key cipher rnd_a rnd_b iv =
      let session_key = core.derive_session_key cipher key rnd_a rnd_b in
      let initial_iv = if cipher == core.cmd_authenticate_legacy then none else some iv in
      elim (core.secure_messaging_alloc cipher session_key initial_iv) [
        | none ↦ (record r { secure_messaging = none }, stop)
        | some session ↦ (record r { secure_messaging = some (core.as_pcd session) }, continue)
      ]

  -- The check of the card's second answer; `iv` is what the encryption has left.
  unfoldable pub verify_card :
      Reader Credential Session Card
      → List ℕ
      → ℕ
      → List ℕ
      → List ℕ
      → List ℕ
      → Reader Credential Session Card × NfcCommand
  verify_card r key cipher rnd_a rnd_b iv =
      let block_size = core.block_size_for_cipher cipher in
      let iv' = if cipher == core.cmd_authenticate_legacy then zero_iv else iv in
      let (rnd_a_rot, iv'') =
        (cipher_of core cipher).decrypt key iv' (block_in r.rx_buffer block_size) in
      if not (has_block r.rx_buffer block_size core.status_ok)
      then (r, stop)
      else if not (str_eq rnd_a_rot (core.rotate_left rnd_a))
      then (r, stop)
      else open_session r key cipher rnd_a rnd_b iv''

module _ {Credential Session Card : Type 0} (core : Core Credential Session)
    (send_block : SendBlock Card) where
  -- `dfc_reader_exchange`
  unfoldable pub exchange :
      Reader Credential Session Card → List ℕ → Reader Credential Session Card × Bool
  exchange r frame =
      let (card, answer) = send_block r.card frame in
      elim answer [
        | none ↦ (record r { card = card }, false)
        | some rx ↦ (record r { card = card; rx_buffer = rx }, true)
      ]

  -- `dfc_reader_select_application`
  unfoldable pub select_application :
      Reader Credential Session Card → List ℕ → Reader Credential Session Card × NfcCommand
  select_application r aid =
      let (r', sent) = exchange r (core.select_application_frame aid) in
      if not sent
      then (r', stop)
      else if ltb (length r'.rx_buffer) 1 || not (get_or r'.rx_buffer 0 0 == core.status_ok)
      then (r', stop)
      else (r', continue)

  -- The answer to the card's challenge; `rnd_a` is what the random number generator gives.
  unfoldable pub answer_challenge :
      Reader Credential Session Card
      → List ℕ
      → ℕ
      → List ℕ
      → Reader Credential Session Card × NfcCommand
  answer_challenge r key cipher rnd_a =
      let block_size = core.block_size_for_cipher cipher in
      let enc_rnd_b = block_in r.rx_buffer block_size in
      let (rnd_b, iv) = (cipher_of core cipher).decrypt key zero_iv enc_rnd_b in
      let iv' =
        if cipher == core.cmd_authenticate_legacy
        then zero_iv
        else enc_rnd_b ++ drop block_size iv in
      let (encrypted, iv'') =
        (cipher_of core cipher).encrypt key iv' (rnd_a ++ core.rotate_left rnd_b) in
      let (r', sent) = exchange r (core.cmd_additional_frame ∷ encrypted) in
      if not (has_block r.rx_buffer block_size core.cmd_additional_frame)
      then (r, stop)
      else if not sent
      then (r', stop)
      else verify_card core r' key cipher rnd_a rnd_b iv''

  unfoldable pub authenticate_with :
      Reader Credential Session Card
      → List ℕ
      → ℕ
      → ℕ
      → List ℕ
      → Reader Credential Session Card × NfcCommand
  authenticate_with r key key_no cipher rnd_a =
      let (r', sent) = exchange r (cipher ∷ key_no ∷ []) in
      if not sent then (r', stop) else answer_challenge r' key cipher rnd_a

  -- `dfc_reader_authenticate`
  unfoldable pub authenticate :
      Reader Credential Session Card → ℕ → ℕ → List ℕ → Reader Credential Session Card × NfcCommand
  authenticate r key_no cipher rnd_a = elim (key_of core r.credential key_no) [
    | none ↦ (r, stop)
    | some key ↦ authenticate_with r key key_no cipher rnd_a
  ]

-- ===== src/Reader/Proved.antt =====
-- What `dfc_reader_authenticate` of dfc_reader.c has established when it continues.
use dfc_flipper.Base.{
  ℕ, ◌≡◌, ap, ◌∙◌, inl, inr, true, false, not, none, some, List, [], ◌∷◌, ◌++◌, ◌==◌, if◌then◌else◌,
  Option-cases, length, drop, ◌≤◌, refl, sym, arith, if_rule, length-take, take-append-drop,
}
use dfc_flipper.Storage.Reading.{not-false}
use dfc_flipper.Storage.Status.{str_eq, str_eq_iff}
use dfc_flipper.Reader.Model.{Core, SendBlock}
use dfc_flipper.Reader.Steps.{
  key_of, cipher_of, has_block, Reader, NfcCommand, zero_iv, block_in, exchange, stop, continue,
  open_session, verify_card, authenticate_with, authenticate, answer_challenge,
}

module _ {Card : Type 0} (send_block : SendBlock Card) where
  -- The card's answer to a frame: a status, a block of `size` octets, and what may follow.
  pub record Answers (size status : ℕ) (card : Card) (frame block : List ℕ) (after : Card)
      : Type 0 where
    pub rest : List ℕ
    pub whole : length block ≡ size
    pub answer : send_block card frame ≡ (after, some (status ∷ (block ++ rest)))

module _ {Credential Session : Type 0} (core : Core Credential Session) (cipher : ℕ)
    (key : List ℕ) where
  -- RndB, and the initial vector that its decipherment leaves.
  abbrev pub opened_challenge : List ℕ → List ℕ × List ℕ
  opened_challenge challenge = (cipher_of core cipher).decrypt key zero_iv challenge

  -- The reader's answer to a challenge: RndA and RndB rotated, chained to the challenge unless the cipher
  -- is the legacy one; and the initial vector that its encipherment leaves.
  abbrev pub sealed : List ℕ → List ℕ → List ℕ × List ℕ
  sealed rnd_a challenge =
      let (rnd_b, iv) = opened_challenge challenge in
      (cipher_of core cipher).encrypt key
        (if cipher == core.cmd_authenticate_legacy
          then zero_iv
          else challenge ++ drop (core.block_size_for_cipher cipher) iv)
        (rnd_a ++ core.rotate_left rnd_b)

  -- What the card's second answer deciphers to, and the initial vector that this leaves.
  abbrev pub opened_response : List ℕ → List ℕ → List ℕ → List ℕ × List ℕ
  opened_response rnd_a challenge response =
      (cipher_of core cipher).decrypt key
        (if cipher == core.cmd_authenticate_legacy then zero_iv else (sealed rnd_a challenge).1)
        response

module _ {Credential Session Card : Type 0} (core : Core Credential Session)
    (send_block : SendBlock Card) where
  -- The card has answered the command with a challenge, and the reader's answer to it with the encipherment,
  -- under the configured key, of RndA rotated; and the session has the key derived from the two numbers.
  pub record HoldsKey (credential : Credential) (card : Card) (key_no cipher : ℕ) (rnd_a : List ℕ)
      : Type 0 where
    pub key : List ℕ
    pub configured : key_of core credential key_no ≡ some key
    pub challenge : List ℕ
    pub asked : Card
    pub challenged :
        Answers send_block
          (core.block_size_for_cipher cipher)
          core.cmd_additional_frame
          card
          (cipher ∷ key_no ∷ [])
          challenge
          asked
    pub response : List ℕ
    pub after : Card
    pub responded :
        Answers send_block
          (core.block_size_for_cipher cipher)
          core.status_ok
          asked
          (core.cmd_additional_frame ∷ (sealed core cipher key rnd_a challenge).0)
          response
          after
    pub proved :
        (opened_response core cipher key rnd_a challenge response).0 ≡ core.rotate_left rnd_a
    pub session : Session
    pub derived :
        core.secure_messaging_alloc cipher
          (core.derive_session_key cipher key rnd_a (opened_challenge core cipher key challenge).0)
          (if cipher == core.cmd_authenticate_legacy
            then none
            else some (opened_response core cipher key rnd_a challenge response).1)
        ≡ some session

  -- An attempt stops, or continues with a session once the card has proved that it holds the key.
  pub data Attempt (credential : Credential) (card : Card) (key_no cipher : ℕ) (rnd_a : List ℕ)
      (result : Reader Credential Session Card × NfcCommand) : Type 0 where
    gives_up : result.1 ≡ stop → Attempt credential card key_no cipher rnd_a result
    authenticates :
        (p : HoldsKey credential card key_no cipher rnd_a)
        → result.1 ≡ continue
        → result.0.secure_messaging ≡ some (core.as_pcd p.session)
        → result.0.card ≡ p.after
        → Attempt credential card key_no cipher rnd_a result

module _ {Credential Session Card : Type 0} (core : Core Credential Session)
    (send_block : SendBlock Card) where
  -- What is in the receive buffer after an exchange is the card's answer.
  pub exchange-answers :
      (r : Reader Credential Session Card) (frame : List ℕ)
      → (exchange core send_block r frame).1 ≡ true
      → send_block r.card frame ≡ (
        (exchange core send_block r frame).0.card,
        some (exchange core send_block r frame).0.rx_buffer,
      )
  unfolding exchange
  exchange-answers r frame h = elim (Option-cases (send_block r.card frame).1) [
    | inl e ↦
        let failed : (exchange core send_block r frame).1 ≡ false = rw (exchange, e) refl in
        absurd cc
    | inr (rx, e) ↦ rw (exchange, e) refl
  ]

  has_block-cases :
      (rx : List ℕ) (size status : ℕ)
      → has_block rx size status ≡ true
      → (length (block_in rx size) ≡ size)
        × (rx ≡ status ∷ (block_in rx size ++ drop size (drop 1 rx)))
  has_block-cases [] size status h = absurd (ground arith)
  has_block-cases (x ∷ rx) size status h =
      let long : size ≤ length rx = ground (arith, h) in
      let same : x ≡ status = ground (arith, h) in
      (
        length-take size rx ∙ omega (arith, long),
        ap (λ y. y ∷ rx) same ∙ ap (λ ys. status ∷ ys) (sym (take-append-drop size rx)),
      )

  has_block-Answers :
      {card after : Card} {frame rx : List ℕ} (size status : ℕ)
      → send_block card frame ≡ (after, some rx)
      → not (has_block rx size status) ≡ false
      → Answers send_block size status card frame (block_in rx size) after
  has_block-Answers {after = after} {rx = rx} size status e h =
      let (whole, split) =
        has_block-cases rx size status (not-false (has_block rx size status) h) in
      record {
        rest = drop size (drop 1 rx);
        whole = whole;
        answer = e ∙ ap (λ (o : List ℕ). (after, some o)) split;
      }

module _ {Credential Session Card : Type 0} (core : Core Credential Session)
    (send_block : SendBlock Card) (credential : Credential) (card : Card) (key_no cipher : ℕ)
    (rnd_a : List ℕ) {key : List ℕ} (configured : key_of core credential key_no ≡ some key)
    (asked : Card) (challenge : List ℕ)
    (challenged : Answers send_block
      (core.block_size_for_cipher cipher)
      core.cmd_additional_frame
      card
      (cipher ∷ key_no ∷ [])
      challenge
      asked) where
  open_session-attempts :
      (r : Reader Credential Session Card) (response : List ℕ)
      → Answers send_block
          (core.block_size_for_cipher cipher)
          core.status_ok
          asked
          (core.cmd_additional_frame ∷ (sealed core cipher key rnd_a challenge).0)
          response
          r.card
      → (opened_response core cipher key rnd_a challenge response).0 ≡ core.rotate_left rnd_a
      → Attempt core send_block credential card key_no cipher rnd_a (
          open_session core r key cipher rnd_a
            (opened_challenge core cipher key challenge).0
            (opened_response core cipher key rnd_a challenge response).1)
  unfolding open_session
  open_session-attempts r response responded proved =
      let initial_iv =
        if cipher == core.cmd_authenticate_legacy
        then none
        else some (opened_response core cipher key rnd_a challenge response).1 in
      let allocated =
        core.secure_messaging_alloc cipher
          (core.derive_session_key cipher key rnd_a (opened_challenge core cipher key challenge).0)
          initial_iv in
      elim (Option-cases allocated) [
        | inl e ↦ gives_up (rw (open_session, e) refl)
        | inr (session, e) ↦
            authenticates
              (record {
                key = key;
                configured = configured;
                challenge = challenge;
                asked = asked;
                challenged = challenged;
                response = response;
                after = r.card;
                responded = responded;
                proved = proved;
                session = session;
                derived = e;
              })
              (rw (open_session, e) refl) (rw (open_session, e) refl) (rw (open_session, e) refl)
      ]

  verify_card-attempts :
      (r : Reader Credential Session Card)
      → send_block asked (core.cmd_additional_frame ∷ (sealed core cipher key rnd_a challenge).0)
        ≡ (r.card, some r.rx_buffer)
      → Attempt core send_block credential card key_no cipher rnd_a (
          verify_card core r key cipher rnd_a
            (opened_challenge core cipher key challenge).0
            (sealed core cipher key rnd_a challenge).1)
  unfolding verify_card
  verify_card-attempts r got =
      let P = Attempt core send_block credential card key_no cipher rnd_a in
      let size = core.block_size_for_cipher cipher in
      let response = block_in r.rx_buffer size in
      let opened = (opened_response core cipher key rnd_a challenge response).0 in
      if_rule P (not (has_block r.rx_buffer size core.status_ok)) (λ _. gives_up refl)
        (λ e.
          if_rule P (not (str_eq opened (core.rotate_left rnd_a))) (λ _. gives_up refl)
            (λ k.
              open_session-attempts r response
                (has_block-Answers core send_block size core.status_ok got e)
                ((str_eq_iff opened (core.rotate_left rnd_a)).0
                  (not-false (str_eq opened (core.rotate_left rnd_a)) k))))

module _ {Credential Session Card : Type 0} (core : Core Credential Session)
    (send_block : SendBlock Card) where
  authenticate_with-attempts :
      (r : Reader Credential Session Card) (key_no cipher : ℕ) (rnd_a : List ℕ) {key : List ℕ}
      → key_of core r.credential key_no ≡ some key
      → Attempt core send_block r.credential r.card key_no cipher rnd_a
          (authenticate_with core send_block r key key_no cipher rnd_a)
  unfolding authenticate_with answer_challenge
  authenticate_with-attempts r key_no cipher rnd_a {key} configured =
      let P = Attempt core send_block r.credential r.card key_no cipher rnd_a in
      let first = cipher ∷ key_no ∷ [] in
      let (r', sent) = exchange core send_block r first in
      let size = core.block_size_for_cipher cipher in
      let challenge = block_in r'.rx_buffer size in
      let second = core.cmd_additional_frame ∷ (sealed core cipher key rnd_a challenge).0 in
      let (r'', again) = exchange core send_block r' second in
      if_rule P (not sent) (λ _. gives_up refl)
        (λ s.
          if_rule P (not (has_block r'.rx_buffer size core.cmd_additional_frame))
            (λ _. gives_up refl)
            (λ b.
              if_rule P (not again) (λ _. gives_up refl)
                (λ a.
                  verify_card-attempts core send_block r.credential r.card key_no cipher rnd_a
                    configured r'.card challenge
                    (has_block-Answers core send_block size core.cmd_additional_frame
                      (exchange-answers core send_block r first (not-false sent s)) b)
                    r'' (exchange-answers core send_block r' second (not-false again a)))))

  -- Whatever the card answers, an authentication stops, or it continues once the card has proved that it
  -- holds the configured key. Then the card has answered the command with the status of an additional frame
  -- and a whole block, the challenge, and has answered RndA and RndB rotated, enciphered, with the status of
  -- success and a whole block that deciphers under that key to RndA rotated; and the session has the key
  -- derived from that key, from RndA and from the RndB that the challenge deciphers to.
  pub authenticate-attempts :
      (r : Reader Credential Session Card) (key_no cipher : ℕ) (rnd_a : List ℕ)
      → Attempt core send_block r.credential r.card key_no cipher rnd_a
          (authenticate core send_block r key_no cipher rnd_a)
  unfolding authenticate
  authenticate-attempts r key_no cipher rnd_a =
      elim (Option-cases (key_of core r.credential key_no)) [
        | inl e ↦ gives_up (rw (authenticate, e) refl)
        | inr (key, e) ↦ rw (authenticate, e) (authenticate_with-attempts r key_no cipher rnd_a e)
      ]

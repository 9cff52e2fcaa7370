-- ===== src/Reader/Genuine.antt =====
-- `dfc_reader_authenticate` of dfc_reader.c with a genuine card.
use dfc_flipper.Base.{
  ℕ, ◌≡◌, refl, true, Option, none, some, List, [], ◌∷◌, ◌++◌, ◌==◌, if◌then◌else◌, length, take,
  drop, ◌∙◌, subst, arith, take-append, drop-append, take_all, ap,
}
use dfc_flipper.Reader.Model.{Core, SendBlock}
use dfc_flipper.Reader.Steps.{
  Reader, NfcCommand, continue, cipher_of, zero_iv, open_session, block_in, has_block, verify_card,
  answer_challenge, exchange, authenticate, authenticate_with, key_of,
}
use dfc_flipper.Storage.Status.{str_eq, str_eq_iff}
use dfc_flipper.Reader.Card.{
  IsCbc, CardStep, chained_iv, genuine, challenge_of, challenging, idle, accepted,
}

-- The reader continues, with the session of the key that the two random numbers give.
pub data Accepted {Credential Session Card : Type 0} (core : Core Credential Session) (cipher : ℕ)
    (key rnd_a rnd_b : List ℕ) (result : Reader Credential Session Card × NfcCommand) : Type 0 where
  opens :
      (initial_iv : Option (List ℕ)) (session : Session)
      → core.secure_messaging_alloc cipher
          (core.derive_session_key cipher key rnd_a rnd_b)
          initial_iv
        ≡ some session
      → result.0.secure_messaging ≡ some (core.as_pcd session)
      → result.1 ≡ continue
      → Accepted core cipher key rnd_a rnd_b result

exchange_lem :
    {Credential Session Card : Type 0} (core : Core Credential Session)
    (send_block : SendBlock Card) (r : Reader Credential Session Card) (frame : List ℕ)
    {card : Card} {rx : List ℕ}
    → send_block r.card frame ≡ (card, some rx)
    → exchange core send_block r frame ≡ (record r { card = card; rx_buffer = rx }, true)
unfolding exchange
exchange_lem core send_block r frame {rx = rx} e =
    rw (exchange, e) (ap (λ k. (record r { card = k; rx_buffer = rx }, true)) (ap (λ p. p.0) e))

str_eq_refl : (xs : List ℕ) → str_eq xs xs ≡ true
str_eq_refl xs = (str_eq_iff xs xs).1 refl

take_front : (xs ys : List ℕ) (n : ℕ) → length xs ≡ n → take n (xs ++ ys) ≡ xs
take_front xs ys n h = subst (λ k. take k (xs ++ ys) ≡ xs) h (take-append xs ys)

drop_front : (xs ys : List ℕ) (n : ℕ) → length xs ≡ n → drop n (xs ++ ys) ≡ ys
drop_front xs ys n h = subst (λ k. drop k (xs ++ ys) ≡ ys) h (drop-append xs ys)

has_block-cons : (x : ℕ) (xs : List ℕ) (n : ℕ) → length xs ≡ n → has_block (x ∷ xs) n x ≡ true
has_block-cons x xs n h = ground (arith, h)

block_in-cons : (x : ℕ) (xs : List ℕ) (n : ℕ) → length xs ≡ n → block_in (x ∷ xs) n ≡ xs
block_in-cons x xs n h = take_all n xs (omega (arith, h))

module _ {Credential Session Card : Type 0} (core : Core Credential Session) (cipher : ℕ)
    (key rnd_a rnd_b : List ℕ)
    (roomy : (iv : Option (List ℕ))
      → (s : Session) × (core.secure_messaging_alloc cipher
            (core.derive_session_key cipher key rnd_a rnd_b)
            iv
          ≡ some s)) where
  open_session-Accepted :
      (r : Reader Credential Session Card) (iv : List ℕ)
      → Accepted core cipher key rnd_a rnd_b (open_session core r key cipher rnd_a rnd_b iv)
  unfolding open_session
  open_session-Accepted r iv =
      let initial_iv = if cipher == core.cmd_authenticate_legacy then none else some iv in
      let (s, e) = roomy initial_iv in
      opens initial_iv s e (rw (open_session, e) refl) (rw (open_session, e) refl)

  module _ (cbc : IsCbc (cipher_of core cipher) (core.block_size_for_cipher cipher))
      (rotates : length (core.rotate_left rnd_a) ≡ core.block_size_for_cipher cipher) where
    verify_card-Accepted :
        (r : Reader Credential Session Card) (card : Card) (iv : List ℕ)
        → Accepted core cipher key rnd_a rnd_b (
            verify_card core
              (record r {
                card = card;
                rx_buffer =
                    core.status_ok
                    ∷ ((cipher_of core cipher).encrypt key
                        (chained_iv core cipher iv)
                        (core.rotate_left rnd_a)).0;
              })
              key
              cipher
              rnd_a
              rnd_b
              iv)
    unfolding verify_card
    verify_card-Accepted r card iv =
        let block_size = core.block_size_for_cipher cipher in
        let text = core.rotate_left rnd_a in
        let iv' = chained_iv core cipher iv in
        let answer = ((cipher_of core cipher).encrypt key iv' text).0 in
        let long : length answer ≡ block_size = cbc.encrypt_length key iv' text ∙ rotates in
        let h = has_block-cons core.status_ok answer block_size long in
        let b = block_in-cons core.status_ok answer block_size long in
        rw (verify_card, h, b, cbc.deciphers key iv' text, str_eq_refl text)
          (open_session-Accepted (record r { card = card; rx_buffer = core.status_ok ∷ answer })
            ((cipher_of core cipher).encrypt key iv' text).1)

module _ {Credential Session : Type 0} (core : Core Credential Session) (cipher key_no refusal : ℕ)
    (key rnd_a rnd_b : List ℕ)
    (roomy : (iv : Option (List ℕ))
      → (s : Session) × (core.secure_messaging_alloc cipher
            (core.derive_session_key cipher key rnd_a rnd_b)
            iv
          ≡ some s))
    (cbc : IsCbc (cipher_of core cipher) (core.block_size_for_cipher cipher))
    (rotates : length (core.rotate_left rnd_a) ≡ core.block_size_for_cipher cipher)
    (long_a : length rnd_a ≡ core.block_size_for_cipher cipher)
    (long_b : length rnd_b ≡ core.block_size_for_cipher cipher) where
  abbrev talk : SendBlock CardStep
  talk = genuine core cipher key_no key rnd_b refusal

  abbrev sent : List ℕ × List ℕ
  sent = challenge_of core cipher key rnd_b

  -- The second message, and the card's answer to it.
  abbrev proof : List ℕ × List ℕ
  proof =
      (cipher_of core cipher).encrypt key (chained_iv core cipher sent.1)
        (rnd_a ++ core.rotate_left rnd_b)

  abbrev answer : List ℕ
  answer =
      ((cipher_of core cipher).encrypt key (chained_iv core cipher proof.1)
        (core.rotate_left rnd_a)).0

  genuine-accepts :
      talk challenging (core.cmd_additional_frame ∷ proof.0)
      ≡ (accepted, some (core.status_ok ∷ answer))
  unfolding genuine
  genuine-accepts =
      let n = core.block_size_for_cipher cipher in
      rw
        (
          genuine,
          cbc.deciphers key (chained_iv core cipher sent.1) (rnd_a ++ core.rotate_left rnd_b),
          take_front rnd_a (core.rotate_left rnd_b) n long_a,
          drop_front rnd_a (core.rotate_left rnd_b) n long_a,
          str_eq_refl (core.rotate_left rnd_b),
        )
        refl

  genuine-challenges :
      talk idle (cipher ∷ key_no ∷ []) ≡ (challenging, some (core.cmd_additional_frame ∷ sent.0))
  unfolding genuine
  genuine-challenges = rw (genuine, str_eq_refl (cipher ∷ key_no ∷ [])) refl

  answer_challenge-Accepted :
      (r : Reader Credential Session CardStep)
      → Accepted core cipher key rnd_a rnd_b (
          answer_challenge core talk
            (record r { card = challenging; rx_buffer = core.cmd_additional_frame ∷ sent.0 })
            key
            cipher
            rnd_a)
  unfolding answer_challenge
  answer_challenge-Accepted r =
      let n = core.block_size_for_cipher cipher in
      let long : length sent.0 ≡ n = cbc.encrypt_length key zero_iv rnd_b ∙ long_b in
      let h = has_block-cons core.cmd_additional_frame sent.0 n long in
      let b = block_in-cons core.cmd_additional_frame sent.0 n long in
      let challenged = record r {
        card = challenging;
        rx_buffer = core.cmd_additional_frame ∷ sent.0;
      } in
      rw
        (
          answer_challenge,
          h,
          b,
          cbc.deciphers key zero_iv rnd_b,
          cbc.chains key zero_iv rnd_b long_b,
          exchange_lem core talk challenged (core.cmd_additional_frame ∷ proof.0) genuine-accepts,
        )
        (verify_card-Accepted core cipher key rnd_a rnd_b roomy cbc rotates challenged accepted
          proof.1)

  -- The reader accepts a genuine card, in every mode. Where the two ends hold the same key, the cipher is a
  -- CBC mode whose block size both random numbers have, rotated or not, and the heap has room for a
  -- session, the authentication with a card that has not begun one continues, and the session is that
  -- of the key derived from both random numbers.
  pub authenticate-Accepted :
      (r : Reader Credential Session CardStep)
      → key_of core r.credential key_no ≡ some key
      → r.card ≡ idle
      → Accepted core cipher key rnd_a rnd_b (authenticate core talk r key_no cipher rnd_a)
  unfolding authenticate authenticate_with
  authenticate-Accepted r e f =
      rw (authenticate, e)
        (rw
          (
            authenticate_with,
            exchange_lem core talk r (cipher ∷ key_no ∷ [])
                (ap (λ k. talk k (cipher ∷ key_no ∷ [])) f ∙ genuine-challenges),
          )
          (answer_challenge-Accepted r))

-- ===== src/Reader/Card.antt =====
-- A card that holds its end of the authentication of dfc_reader.c.
use dfc_flipper.Base.{ℕ, ◌≡◌, some, List, [], ◌∷◌, ◌++◌, ◌==◌, if◌then◌else◌, length, take, drop}
use dfc_flipper.Reader.Model.{Core, Cipher, SendBlock}
use dfc_flipper.Reader.Steps.{zero_iv, cipher_of}
use dfc_flipper.Storage.Status.{str_eq}

-- A cipher in CBC mode with blocks of `block_size` octets: deciphering undoes enciphering and leaves the
-- same initial vector, which begins with the enciphered block where the text is one block.
pub record IsCbc (c : Cipher) (block_size : ℕ) : Type 0 where
  pub deciphers :
      (key iv text : List ℕ)
      → c.decrypt key iv (c.encrypt key iv text).0 ≡ (text, (c.encrypt key iv text).1)
  pub chains :
      (key iv text : List ℕ)
      → length text ≡ block_size
      → (c.encrypt key iv text).0 ++ drop block_size (c.encrypt key iv text).1
        ≡ (c.encrypt key iv text).1
  pub encrypt_length : (key iv text : List ℕ) → length (c.encrypt key iv text).0 ≡ length text

-- How far a card is in one authentication.
pub data CardStep : Type 0 where
  idle challenging accepted : CardStep

module _ {Credential Session : Type 0} (core : Core Credential Session) where
  -- The initial vector of a new message: zero in the legacy mode, else what the last one has left.
  abbrev pub chained_iv : ℕ → List ℕ → List ℕ
  chained_iv cipher iv = if cipher == core.cmd_authenticate_legacy then zero_iv else iv

  abbrev pub challenge_of : ℕ → List ℕ → List ℕ → List ℕ × List ℕ
  challenge_of cipher key rnd_b = (cipher_of core cipher).encrypt key zero_iv rnd_b

  -- The end of the card: it refuses a command that is not the authentication asked for, and a reader
  -- that does not show RndB rotated, with an octet of its own.
  unfoldable pub genuine : ℕ → ℕ → List ℕ → List ℕ → ℕ → SendBlock CardStep
  genuine cipher key_no key rnd_b refusal idle frame =
      if str_eq frame (cipher ∷ key_no ∷ [])
      then (challenging, some (core.cmd_additional_frame ∷ (challenge_of cipher key rnd_b).0))
      else (idle, some (refusal ∷ []))
  genuine cipher key_no key rnd_b refusal challenging frame =
      let block_size = core.block_size_for_cipher cipher in
      let (plain, iv) =
        (cipher_of core cipher).decrypt key (chained_iv cipher (challenge_of cipher key rnd_b).1)
          (drop 1 frame) in
      let answer =
        (cipher_of core cipher).encrypt key (chained_iv cipher iv)
          (core.rotate_left (take block_size plain)) in
      if str_eq (drop block_size plain) (core.rotate_left rnd_b)
      then (accepted, some (core.status_ok ∷ answer.0))
      else (idle, some (refusal ∷ []))
  genuine cipher key_no key rnd_b refusal accepted frame = (idle, some (refusal ∷ []))

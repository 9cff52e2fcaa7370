-- ===== src/Reader/Tests.antt =====
-- The reader with small cards, and each theorem at one exchange.
use dfc_flipper.Base.{
  ℕ, zero, suc, ◌≡◌, refl, true, false, none, some, List, [], ◌∷◌, ◌++◌, take, drop, replicate, ap,
  ◌∙◌, subst, map, length, drop-append, ◌⊎◌,
}
use dfc_flipper.Reader.Model.{Core, Cipher, SendBlock}
use dfc_flipper.Reader.Steps.{
  Reader, stop, authenticate, select_application, exchange, key_of, authenticate_with,
  answer_challenge, verify_card, open_session,
}
use dfc_flipper.Reader.Proved.{Attempt, authenticate-attempts}
use dfc_flipper.Reader.Files.{
  state_machine, read_application, read_files, read_file, read_with, unwrap_answer, store,
}
use dfc_flipper.Reader.Reports.{state_machine-reports, IsProved, fresh}
use dfc_flipper.Storage.Status.{str_eq}
use dfc_flipper.Events.{poller_success, poller_error, CustomEvent}
use dfc_flipper.Reader.Card.{CardStep, IsCbc, genuine, idle}
use dfc_flipper.Reader.Genuine.{Accepted, authenticate-Accepted}
use dfc_flipper.Reader.Blocks.{account_blocks, no_blocks, reader_life, account-reader_life}
use dfc_flipper.App.Cards.{handle_read}
use dfc_flipper.App.Life.{initial}
use dfc_flipper.App.State.{custom, event_code, next_scene, read_error, read_success, App}
use dfc_flipper.App.Reading.{state_machine-shown}
use dfc_flipper.Reader.Authentic.{IsAuthentic}

abbrev key_material : List ℕ
key_material = replicate 8 0x11

-- A cipher that adds nothing to the text.
abbrev plain_cipher : Cipher
plain_cipher = record { encrypt = λ key iv text. (text, iv); decrypt = λ key iv text. (text, iv) }

abbrev rotate : List ℕ → List ℕ
rotate [] = []
rotate (x ∷ xs) = xs ++ x ∷ []

-- The credential is the data of its one file; a session is its key.
abbrev toy_core : Core (List ℕ) (List ℕ)
toy_core = record {
  cmd_authenticate_legacy = 0x0A;
  cmd_authenticate_aes = 0xAA;
  cmd_additional_frame = 0xAF;
  cmd_read_data = 0xBD;
  status_ok = 0x00;
  comm_plain = 0;
  max_file_data = 32;
  select_application_frame = λ aid. 0x5A ∷ aid;
  read_data_frame = λ number. 0xBD ∷ number ∷ replicate 6 0;
  block_size_for_cipher = λ cipher. 8;
  aes = plain_cipher;
  des = plain_cipher;
  rotate_left = rotate;
  derive_session_key = λ cipher key rnd_a rnd_b. take 4 rnd_a ++ take 4 rnd_b;
  secure_messaging_alloc = λ cipher key iv. some key;
  as_pcd = λ session. session;
  applies_ev1 = λ session command. false;
  update_ev1_command = λ session command octets. session;
  unwrap_ev1_response = λ session status wrapped. (session, some wrapped);
  unwrap = λ session comm status wrapped. (session, wrapped);
  primary_application =
      λ c. some (record { aid = 1 ∷ 2 ∷ 3 ∷ []; auth_command = 0x0A; num_keys = 1; key_len = 8 });
  key_const = λ c app n. some key_material;
  files = λ c. record { number = 1; app_index = 0; comm_settings = 0 } ∷ [];
  file_resize = λ c file n. (c, true);
  write_file_data = λ c file octets. some octets;
  store_uid = λ c uid. c;
  uid_size = 10;
}

abbrev rnd_a : List ℕ
rnd_a = 1 ∷ 2 ∷ 3 ∷ 4 ∷ 5 ∷ 6 ∷ 7 ∷ 8 ∷ []

abbrev rnd_b : List ℕ
rnd_b = 9 ∷ 8 ∷ 7 ∷ 6 ∷ 5 ∷ 4 ∷ 3 ∷ 2 ∷ []

-- A card that answers the four commands in turn.
abbrev toy_card : SendBlock ℕ
toy_card zero frame = (1, some (0x00 ∷ []))
toy_card (suc zero) frame = (2, some (0xAF ∷ rnd_b))
toy_card (suc (suc zero)) frame = (3, some (0x00 ∷ rotate (take 8 (drop 1 frame))))
toy_card (suc (suc (suc n))) frame = (4, some (0x00 ∷ 0x42 ∷ []))

abbrev selected : Reader (List ℕ) (List ℕ) ℕ
selected = record { credential = []; secure_messaging = none; rx_buffer = []; card = 1 }

read_out :
    state_machine toy_core toy_card true [] 0 rnd_a ≡ some (0x42 ∷ [], 4, poller_success ∷ [], stop)
unfolding state_machine read_application select_application exchange authenticate key_of
    authenticate_with answer_challenge verify_card open_session read_files read_file read_with
    unwrap_answer store str_eq
read_out = refl

authenticate-attempts_example :
    Attempt toy_core toy_card [] 1 0 0x0A rnd_a
      (authenticate toy_core toy_card selected 0 0x0A rnd_a)
authenticate-attempts_example = authenticate-attempts toy_core toy_card selected 0 0x0A rnd_a

state_machine-reports_example :
    (credential : List ℕ) × (card : ℕ) × ((state_machine toy_core toy_card true [] 0 rnd_a
        ≡ some (credential, card, poller_error ∷ [], stop))
      ⊎ ((state_machine toy_core toy_card true [] 0 rnd_a
            ≡ some (credential, card, poller_success ∷ [], stop))
          × IsProved toy_core toy_card [] (fresh toy_core toy_card [] 0) rnd_a))
state_machine-reports_example = state_machine-reports toy_core toy_card true [] 0 rnd_a

abbrev before : ℕ → ℕ
before zero = zero
before (suc n) = n

-- A cipher in CBC mode for one block.
abbrev shifting : Cipher
shifting = record {
  encrypt = λ key iv text. (map suc text, map suc text ++ drop 8 iv);
  decrypt = λ key iv text. (map before text, text ++ drop 8 iv);
}

before-suc : (xs : List ℕ) → map before (map suc xs) ≡ xs
before-suc [] = refl
before-suc (x ∷ xs) = ap (◌∷◌ x) (before-suc xs)

length-map-suc : (xs : List ℕ) → length (map suc xs) ≡ length xs
length-map-suc [] = refl
length-map-suc (x ∷ xs) = ap suc (length-map-suc xs)

drop_shifted : (xs ys : List ℕ) → length xs ≡ 8 → drop 8 (map suc xs ++ ys) ≡ ys
drop_shifted xs ys h =
    subst (λ k. drop k (map suc xs ++ ys) ≡ ys) (length-map-suc xs ∙ h)
      (drop-append (map suc xs) ys)

shifting-IsCbc : IsCbc shifting 8
shifting-IsCbc = record {
  deciphers = λ key iv text. ap (λ t. (t, map suc text ++ drop 8 iv)) (before-suc text);
  chains = λ key iv text h. ap (λ t. map suc text ++ t) (drop_shifted text (drop 8 iv) h);
  encrypt_length = λ key iv text. length-map-suc text;
}

abbrev cbc_core : Core (List ℕ) (List ℕ)
cbc_core = record toy_core { aes = shifting; des = shifting }

abbrev unknown : Reader (List ℕ) (List ℕ) CardStep
unknown = record { credential = []; secure_messaging = none; rx_buffer = []; card = idle }

configured : key_of cbc_core [] 0 ≡ some key_material
unfolding key_of
configured = refl

authenticate-Accepted_example :
    Accepted cbc_core 0xAA key_material rnd_a rnd_b
      (authenticate cbc_core (genuine cbc_core 0xAA 0 key_material rnd_b 0xAE) unknown 0 0xAA rnd_a)
authenticate-Accepted_example =
    authenticate-Accepted cbc_core 0xAA 0 0xAE key_material rnd_a rnd_b
      (λ iv. (take 4 rnd_a ++ take 4 rnd_b, refl)) shifting-IsCbc refl refl refl unknown configured
      refl

account-reader_life_example :
    account_blocks no_blocks
      (reader_life (record { reader = true; tx = true; rx = true }) (true ∷ false ∷ true ∷ []))
    ≡ some no_blocks
account-reader_life_example =
    account-reader_life (record { reader = true; tx = true; rx = true }) (true ∷ false ∷ true ∷ [])

abbrev reading : App (List ℕ)
reading = initial []

state_machine-shown_example :
    (credential : List ℕ) × (card : ℕ) × (event : CustomEvent) × (state_machine toy_core toy_card
        true [] 0 rnd_a
      ≡ some (credential, card, event ∷ [], stop))
    × (((handle_read reading (custom (event_code event))).request ≡ some (next_scene read_error))
        ⊎ (((handle_read reading (custom (event_code event))).request
              ≡ some (next_scene read_success))
            × IsAuthentic toy_core toy_card [] 0 rnd_a))
state_machine-shown_example = state_machine-shown toy_core toy_card true [] 0 rnd_a reading

-- ===== src/Storage/Toy.antt =====
-- A credential that is a name and an answer to RATS, whose text is that answer and whose binary form
-- has the first octet of a .dfcb file before it: an instance of what Storage.Model asks of lib/core. With it,
-- files and the answers of an SDK where all goes well.
use dfc_flipper.Base.{
  ℕ, ◌+◌, ◌≢◌, Bool, true, false, Option, none, some, List, [], ◌∷◌, ltb, ◌==◌, if◌then◌else◌,
  if_rule, length, ◌≡◌,
}
use dfc_flipper.Storage.Model.{CredentialModel, Laws}
use dfc_flipper.Storage.Status.{
  der_failed, text_ok, DerStatus, TextStatus, binary_first_octet, text_malformed, text_capacity,
  der_ok, FreeMemory,
}
use dfc_flipper.Storage.Load.{LoadSystem}
use dfc_flipper.Storage.Codec.{PluginSystem}
use dfc_flipper.Storage.Save.{SaveSystem}

pub record Toy : Type 0 where
  pub name : List ℕ
  pub ats : List ℕ
  pub dirty : Bool

abbrev pub blank : Toy
blank = record { name = []; ats = []; dirty = false }

abbrev pub toy_write : Toy → Option ℕ → TextStatus × ℕ × List ℕ
toy_write c none = (text_capacity, length c.ats, [])
toy_write c (some room) =
    if ltb (length c.ats) room then (text_ok, length c.ats, c.ats) else (text_capacity, 0, [])

abbrev pub toy_decode : Toy → List ℕ → Toy × DerStatus
toy_decode c [] = (c, der_failed text_malformed)
toy_decode c (x ∷ xs) =
    if x == binary_first_octet
    then (record c { ats = xs }, der_ok)
    else (c, der_failed text_malformed)

abbrev pub toy : CredentialModel Toy
toy = record {
  parse = λ c text. (record c { ats = text; dirty = true }, text_ok);
  write = toy_write;
  encoded_size = λ c. (der_ok, length c.ats + 1);
  encode = λ c n. (der_ok, binary_first_octet ∷ c.ats);
  decode = toy_decode;
  clear = λ c. blank;
  clear_dirty = λ c. record c { dirty = false };
  dirty = λ c. c.dirty;
  uid_is_detectable = λ c. true;
  picc_ats_is_consistent = λ c. true;
  picc_ats = λ c. c.ats;
  name = λ c. c.name;
  set_name = λ n c. record c { name = n };
  name_size = 64;
  file_name_max_length = 64;
  app_extension = 0x2E ∷ 0x64 ∷ 0x66 ∷ 0x63 ∷ [];
  binary_extension = 0x2E ∷ 0x64 ∷ 0x66 ∷ 0x63 ∷ 0x62 ∷ [];
}

-- "a.dfc"
abbrev pub text_file : List ℕ
text_file = 0x61 ∷ 0x2E ∷ 0x64 ∷ 0x66 ∷ 0x63 ∷ []

-- "a.dfcb"
abbrev pub binary_file : List ℕ
binary_file = 0x61 ∷ 0x2E ∷ 0x64 ∷ 0x66 ∷ 0x63 ∷ 0x62 ∷ []

abbrev pub sound_ats : List ℕ
sound_ats = 0x05 ∷ 0x75 ∷ 0x00 ∷ 0x80 ∷ 0x02 ∷ []

abbrev pub plugins : PluginSystem
plugins = record {
  alloc_ok = λ name. true;
  loads = λ name. true;
  count = λ name. 1;
  entry = λ name. some (record { bind = true; parse = true; write = true; status_name = true });
}

abbrev pub heap : FreeMemory
heap = record { free_heap = 40000; max_free_block = 30000 }

abbrev pub system : LoadSystem
system = record {
  file_opens = true;
  file_size = 5;
  file_octets = sound_ats;
  memory_at_read = heap;
  raw_malloc = true;
  plugins = plugins;
  memory_at_copy = heap;
  octets_malloc = true;
}

abbrev pub saving : SaveSystem
saving = record {
  plugins = plugins;
  text_malloc = true;
  file_creates = true;
  file_write = λ text. length text;
}

toy_decode-status : (c : Toy) (octets : List ℕ) → (toy_decode c octets).1 ≢ der_failed text_ok
toy_decode-status c [] = λ (h : der_failed text_malformed ≡ der_failed text_ok). cc
toy_decode-status c (x ∷ xs) =
    if_rule (λ (r : Toy × DerStatus). r.1 ≢ der_failed text_ok) (x == binary_first_octet)
      (λ _ (h : der_ok ≡ der_failed text_ok). cc)
      (λ _ (h : der_failed text_malformed ≡ der_failed text_ok). cc)

pub toy-Laws : Laws toy
toy-Laws = record {
  size_status = λ c (h : der_ok ≡ der_failed text_ok). cc;
  encode_status = λ c n (h : der_ok ≡ der_failed text_ok). cc;
  decode_status = toy_decode-status;
}

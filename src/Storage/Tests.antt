-- ===== src/Storage/Tests.antt =====
-- Loads and saves of the credential of Storage.Toy, and each theorem at one of them.
use dfc_flipper.Base.{
  ◌≡◌, true, false, [], ◌∷◌, arith, refl, All, some, ℕ, ◌<◌, sym, ap, List, ltb, ltb→lt, if_rule,
}
use dfc_flipper.Storage.Toy.{
  Toy, toy, toy-Laws, blank, sound_ats, text_file, system, saving, binary_file, toy_write,
}
use dfc_flipper.Storage.Load.{
  load_selected_file, selected_name_for, read_whole_file, file_load, read_opened, load_text,
  load_parsed, load_copy, accept, conclude,
}
use dfc_flipper.Storage.Verdict.{IsConcluded}
use dfc_flipper.Storage.Reading.{Reading, read_whole_file-reads}
use dfc_flipper.Storage.Loaded.{load_selected_file-IsConcluded}
use dfc_flipper.Storage.Status.{
  has_heap_for, ends_with, malformed_file, str_eq, text_ok, binary_first_octet, TextStatus,
  text_capacity,
}
use dfc_flipper.Storage.Save.{write_file, text_path, path_of, save_loaded}
use dfc_flipper.Storage.Codec.{open_codec, close_codec}
use dfc_flipper.Ats.{ats_is_radio_supported, check_ta, check_tb, check_tc}
use dfc_flipper.Storage.Saved.{Stored, IsWriting, write_file-IsWriting, save_loaded-Stored}
use dfc_flipper.Storage.Paths.{save_loaded-spares}
use dfc_flipper.Storage.Reload.{RoundTrips}
use dfc_flipper.Storage.HostApi.{HostApi, HostFunction}

loaded_text :
    (load_selected_file toy system blank text_file (0x61 ∷ []) malformed_file).parsed ≡ true
unfolding load_selected_file file_load read_whole_file read_opened has_heap_for ends_with str_eq
    load_text open_codec load_parsed close_codec load_copy accept conclude ats_is_radio_supported
    check_ta check_tb check_tc
loaded_text = refl

load_selected_file-IsConcluded_example :
    IsConcluded toy
      (selected_name_for toy blank (0x61 ∷ []))
      (load_selected_file toy system blank text_file (0x61 ∷ []) malformed_file)
load_selected_file-IsConcluded_example =
    load_selected_file-IsConcluded toy system toy-Laws blank text_file (0x61 ∷ []) malformed_file
      (omega arith)

read_whole_file-reads_example :
    Reading sound_ats (read_whole_file toy system text_file malformed_file)
read_whole_file-reads_example = read_whole_file-reads toy system text_file (λ q. cc)

write_file-IsWriting_example : IsWriting toy blank text_file (write_file toy saving blank text_file)
write_file-IsWriting_example = write_file-IsWriting toy saving blank text_file

abbrev spoilt : Toy
spoilt = record { name = 0x61 ∷ []; ats = sound_ats; dirty = true }

save_loaded-Stored_example :
    Stored toy spoilt binary_file
      (text_path toy binary_file)
      (save_loaded toy saving spoilt binary_file)
save_loaded-Stored_example = save_loaded-Stored toy saving spoilt binary_file (omega arith)

save_loaded-spares_example :
    All
      (λ e. ends_with (path_of e) toy.binary_extension ≡ false)
      (save_loaded toy saving spoilt binary_file).files
save_loaded-spares_example =
    save_loaded-spares toy saving spoilt binary_file (omega arith) (omega arith)
      (λ h. omega (arith, h))

-- Functions that answer with their name and their arguments.
abbrev Octets : HostFunction → Type 0
Octets name = List ℕ

abbrev Call : HostFunction → Type 0
Call name = HostFunction × List ℕ

abbrev echoing : HostApi Octets Call
echoing = λ name arguments. (name, arguments)

abbrev sound : Toy
sound = record { name = 0x61 ∷ []; ats = sound_ats; dirty = true }

sound_written :
    (room len : ℕ) (text : List ℕ)
    → toy_write sound (some room) ≡ (text_ok, len, text)
    → (5 < room) × (len ≡ 5) × (text ≡ sound_ats)
sound_written room len text =
    if_rule
      (λ (r : TextStatus × ℕ × List ℕ).
        r ≡ (text_ok, len, text) → (5 < room) × (len ≡ 5) × (text ≡ sound_ats))
      (ltb 5 room) (λ e q. (ltb→lt 5 room e, sym (ap (λ r. r.1) q), sym (ap (λ r. r.2) q)))
      (λ _ q. (let no : text_capacity ≡ text_ok = ap (λ r. r.0) q in cc))

sound_radio : ats_is_radio_supported sound_ats ≡ true
unfolding ats_is_radio_supported check_ta check_tb check_tc
sound_radio = refl

abbrev sound_trips : RoundTrips toy sound blank
sound_trips = record {
  loaded = record { name = []; ats = sound_ats; dirty = true };
  needed = 6;
  octets = binary_first_octet ∷ sound_ats;
  filled = λ room len text q.
      let (h, l, t) = sound_written room len text q in rw l (rw t (omega arith, omega arith));
  marked = λ room len text q. let (h, l, t) = sound_written room len text q in rw l (rw t refl);
  parses = λ room len text q. let (h, l, t) = sound_written room len text q in rw l (rw t refl);
  sized = refl;
  encodes = refl;
  decodes = refl;
  detectable = refl;
  consistent = refl;
  radio = sound_radio;
}

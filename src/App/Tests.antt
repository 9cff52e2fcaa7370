-- ===== src/App/Tests.antt =====
-- Runs of the scenes on the credential of Storage.Toy, and each theorem at one of them.
use dfc_flipper.Base.{
  ◌≡◌, refl, true, false, none, some, List, [], ◌∷◌, arith, All, ◌⊎◌, ◌<◌, sym, ap, subst, Option,
  length, drop,
}
use dfc_flipper.App.Selected.{Selected, select_file-Selected}
use dfc_flipper.Storage.Toy.{Toy, toy, toy-Laws, blank, text_file, system, saving}
use dfc_flipper.App.Cards.{RadioStart}
use dfc_flipper.App.Reports.{uid_text, hex_octets, enter_info, enter_read_success}
use dfc_flipper.App.Life.{LifeEvent, dfc_app, initial}
use dfc_flipper.App.Settled.{Settled, mutation_save-Settled}
use dfc_flipper.App.State.{
  App, main_menu, emulating, custom, back, next_scene, mutation_save, search_scene, saved_menu,
  event_code, Request,
}
use dfc_flipper.App.Shown.{read_counts, read_hex, text_at, read_aid, enter_info-shows}
use dfc_flipper.App.Flag.{IsSame, handle-ignores_flag}
use dfc_flipper.App.Scenes.{World, Visit, handle, visit_all, event, changed}
use dfc_flipper.App.Core.{AppCore}
use dfc_flipper.App.Asked.{is_reader_scene, Opened-avoids_reader, asked, first}
use dfc_flipper.App.Saving.{
  handle_mutation_save, enter_mutation_save, select_file, handle_save_name,
}
use dfc_flipper.App.Text.{hex_octet, codes}
use dfc_flipper.App.Menus.{handle_main_menu}
use dfc_flipper.App.Rest.{IsAtRest}
use dfc_flipper.App.Releases.{follow_all, nothing, dfc_app-releases, initial-IsAtRest}
use dfc_flipper.App.Visits.{visit_all-IsAtRest}
use dfc_flipper.Storage.Save.{
  path_of, text_path, save_loaded, save_to, write_file, render, write_text, finish_write, emptied,
  extended,
}
use dfc_flipper.App.Blank.{blank_card-updates_loaded}
use dfc_flipper.App.Named.{Named, handle_save_name-Named}
use dfc_flipper.About.Width.{within}
use dfc_flipper.About.{build_text}
use dfc_flipper.App.AboutScene.{about_paragraphs}
use dfc_flipper.About.Laid.{build_text-within}
use dfc_flipper.Events.{text_input_done}
use dfc_flipper.App.Keeps.{handle-keeps, handle-answers_back}
use dfc_flipper.Storage.Codec.{open_codec, close_codec}
use dfc_flipper.Storage.Status.{ends_with, str_eq}
use dfc_flipper.Reader.Model.{Application}

abbrev core : AppCore Toy
core = record {
  model = toy;
  init_blank = λ c. blank;
  uid = λ c. 0x04 ∷ 0xA5 ∷ [];
  num_apps = λ c. 1;
  num_files = λ c. 12;
  primary_application = λ c. none;
  key_const = λ c a i. none;
  picc_key_len = λ c. 8;
  button_left = 0;
  button_right = 2;
  app_data_path = [];
  app_data_prefix = [];
  dirname = λ p. [];
  filename = λ p. p;
}

abbrev started : RadioStart
started = record {
  device_uid = true;
  data_uid = true;
  emulator_alloc = true;
  listener_alloc = true;
}

abbrev world : World
world = record {
  start = started;
  poller_alloc = true;
  generated = 0x61 ∷ [];
  went = true;
  found = true;
  removes = λ p. true;
  save_system = saving;
  load_system = system;
}

-- The state after a file was loaded and its menu left.
abbrev with_file : App Toy
with_file = record (initial blank) { load_path = text_file }

abbrev written : Toy
written = record blank { ats = 0x05 ∷ []; dirty = true }

-- The blank card is chosen, emulated, changed by a reader, and Back is pressed.
abbrev visits : List (Visit Toy)
visits =
    record { world = world; scene = main_menu; happenings = event world (custom 1) ∷ [] }
    ∷ record {
      world = world;
      scene = emulating;
      happenings = changed written ∷ event world back ∷ [];
    }
    ∷ record { world = world; scene = mutation_save; happenings = event world (custom 0) ∷ [] }
    ∷ []

visit_all-IsAtRest_example :
    (last : App Toy) × (visit_all core (initial blank) visits ≡ some last) × IsAtRest last
visit_all-IsAtRest_example = visit_all-IsAtRest core (initial blank) visits (initial-IsAtRest blank)

dfc_app-releases_example :
    (events : List LifeEvent) × (dfc_app core blank visits ≡ some events)
    × (follow_all nothing events ≡ some nothing)
dfc_app-releases_example = dfc_app-releases core blank visits

mutation_save-Settled_example :
    Settled core saving
      (record with_file { credential = written })
      0
      (handle_mutation_save core true saving (record with_file { credential = written }) (custom 0))
mutation_save-Settled_example =
    mutation_save-Settled core true saving (record with_file { credential = written }) 0

select_file-Selected_example : Selected core (select_file core system with_file)
select_file-Selected_example = select_file-Selected core system toy-Laws with_file (omega arith)

handle-ignores_flag_example :
    IsSame
      (handle core world emulating (record with_file { emulate_from_blank = true }) back)
      (handle core world emulating with_file back)
handle-ignores_flag_example = handle-ignores_flag core world emulating with_file back true

blank_card_emulates :
    (handle core world main_menu with_file (custom 1)).request ≡ some (next_scene emulating)
unfolding handle handle_main_menu
blank_card_emulates = refl

Opened-avoids_reader_example : is_reader_scene emulating ≡ false
Opened-avoids_reader_example =
    Opened-avoids_reader core emulating
      (asked world main_menu emulating with_file (custom 1) first blank_card_emulates)

-- "Update File" after that writes the blank card over the file.
abbrev emulated_blank : App Toy
emulated_blank = record (handle core world main_menu with_file (custom 1)).app {
  credential = written;
}

updated_file :
    (handle core world mutation_save emulated_blank (custom 0)).files
    ≡ emptied text_file ∷ extended text_file (0x05 ∷ []) ∷ []
unfolding handle handle_main_menu handle_mutation_save save_loaded save_to write_file open_codec
    render write_text finish_write text_path close_codec ends_with str_eq
updated_file = refl

blank_card-updates_loaded_example :
    ((handle core world emulating
        (record (handle core world main_menu with_file (custom 1)).app { credential = written })
        back).request
      ≡ some (next_scene mutation_save))
    × ((enter_mutation_save (record (handle core world main_menu with_file (custom 1)).app {
      credential = written;
    })).submenu
        ≡ 0 ∷ 1 ∷ 3 ∷ [])
    × ((handle core world mutation_save emulated_blank (custom 3)).request
        ≡ some (search_scene saved_menu))
    × All
        (λ e. path_of e ≡ text_path toy text_file)
        (handle core world mutation_save emulated_blank (custom 0)).files
    × Settled core saving emulated_blank 0
        (handle core world mutation_save emulated_blank (custom 0))
unfolding handle handle_main_menu
blank_card-updates_loaded_example = blank_card-updates_loaded core world with_file written refl refl

abbrev with_app : AppCore Toy
with_app = record core {
  primary_application = λ c.
      some
        (record { aid = 0x12 ∷ 0xAB ∷ 0x00 ∷ []; auth_command = 0xAA; num_keys = 1; key_len = 16 });
}

aid_given :
    (a : Application)
    → with_app.primary_application blank ≡ some a
    → a.aid ≡ 0x12 ∷ 0xAB ∷ 0x00 ∷ []
aid_given a e = sym (ap (λ (o : Option Application). elim o [ none ↦ [] | some b ↦ b.aid ]) e)

enter_info-shows_example :
    let info = (enter_info with_app with_file).widget in
    (read_hex (drop 5 (text_at 1 info)) ≡ 0x04 ∷ 0xA5 ∷ [])
    × (read_aid (text_at 2 info) ≡ some (0x12 ∷ 0xAB ∷ 0x00 ∷ []))
    × (read_counts (text_at 3 info) ≡ (1, 12))
    × (read_hex (drop 5 (text_at 3 (enter_read_success with_app with_file).widget))
        ≡ 0x04 ∷ 0xA5 ∷ [])
enter_info-shows_example =
    enter_info-shows with_app with_file refl (omega arith)
      (λ a e.
        (ap length (aid_given a e), subst (All (λ x. x < 256)) (sym (aid_given a e)) (omega arith)))
      (omega arith) (omega arith)

shown_uid : uid_text (0x04 ∷ 0xA5 ∷ []) ≡ codes "UID: 04A5"
unfolding uid_text hex_octets hex_octet
shown_uid = refl

-- The paragraphs of the source.
build_text-within_example : within 0 (build_text about_paragraphs) ≡ true
build_text-within_example = build_text-within about_paragraphs refl

handle_save_name-Named_example :
    Named core
      (record with_file { credential = written; text_store = 0x62 ∷ [] })
      (handle_save_name core true saving
        (record with_file { credential = written; text_store = 0x62 ∷ [] })
        (custom (event_code text_input_done)))
handle_save_name-Named_example =
    handle_save_name-Named core true saving
      (record with_file { credential = written; text_store = 0x62 ∷ [] })

handle-keeps_example :
    ((handle core world saved_menu with_file (custom 1)).app.credential ≡ blank)
    × ((handle core world saved_menu with_file (custom 1)).app.load_path ≡ text_file)
    × ((handle core world saved_menu with_file (custom 1)).files ≡ [])
handle-keeps_example = handle-keeps core world saved_menu with_file (custom 1) refl

handle-answers_back_example :
    ((handle core world emulating (record with_file { credential = written }) back).consumed
      ≡ false)
    ⊎ ((r : Request) × ((handle core world emulating
            (record with_file { credential = written })
            back).request
          ≡ some r))
handle-answers_back_example =
    handle-answers_back core world emulating (record with_file { credential = written })

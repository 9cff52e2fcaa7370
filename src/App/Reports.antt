-- ===== src/App/Reports.antt =====
-- scenes/dfc_scene_info.c, dfc_scene_read_success.c and dfc_scene_read_error.c. `enter`, `handle` and
-- `exit` are on_enter, on_event and on_exit.
use dfc_flipper.Base.{
  ℕ, zero, suc, ◌+◌, Bool, false, not, ◌||◌, Option, none, some, List, [], ◌∷◌, ◌++◌, ◌==◌,
  if◌then◌else◌, get_or, take, replicate,
}
use dfc_flipper.App.Core.{AppCore}
use dfc_flipper.App.State.{
  App, Handling, SceneEvent, custom, back, tick, ignored, asks, asks_answered, next_scene,
  previous_scene, search_scene, main_menu, save_name, button_element, saved_menu, string_element,
  view_widget,
}
use dfc_flipper.Storage.Status.{str_eq}
use dfc_flipper.App.Text.{decimal, hex_octet, codes}

-- The loop over the octets of the UID.
unfoldable pub hex_octets : List ℕ → List ℕ
hex_octets [] = []
hex_octets (x ∷ xs) = hex_octet x ++ hex_octets xs

unfoldable pub uid_text : List ℕ → List ℕ
uid_text uid = codes "UID: " ++ hex_octets uid

-- An AID has three octets.
unfoldable pub aid_text : List ℕ → List ℕ
aid_text aid =
    hex_octet (get_or aid 0 0) ++ (hex_octet (get_or aid 1 0) ++ hex_octet (get_or aid 2 0))

unfoldable pub counts_text : ℕ → ℕ → List ℕ
counts_text num_apps num_files =
    decimal num_apps ++ (codes " app(s), " ++ (decimal num_files ++ codes " file(s)"))

-- `key && memcmp(key, empty, key_len) != 0`
unfoldable pub is_set_key : ℕ → Option (List ℕ) → Bool
is_set_key key_len none = false
is_set_key key_len (some key) = not (str_eq (take key_len key) (replicate key_len 0))

-- The loop over the keys of an application, from `slot` on with `count` of them left; it ends with the
-- first key that is set.
unfoldable pub any_set_key : ℕ → (ℕ → Option (List ℕ)) → ℕ → ℕ → Bool
any_set_key key_len key_at slot zero = false
any_set_key key_len key_at slot (suc count) =
    is_set_key key_len (key_at slot) || any_set_key key_len key_at (slot + 1) count

module _ {Credential : Type 0} where
  unfoldable pub exit_info : App Credential → App Credential
  exit_info app = record app { widget = [] }

  unfoldable pub exit_read_success : App Credential → App Credential
  exit_read_success app = record app { widget = [] }

  unfoldable pub exit_read_error : App Credential → App Credential
  exit_read_error app = record app { widget = [] }

module _ {Credential : Type 0} (core : AppCore Credential) where
  -- Whether the credential has a key that is not all zeros, as the info scene looks for one.
  unfoldable pub has_keys : Credential → Bool
  has_keys credential = elim (core.primary_application credential) [
    | none ↦ is_set_key (core.picc_key_len credential) (core.key_const credential none 0)
    | some app ↦
        any_set_key app.key_len (λ slot. core.key_const credential (some app) slot) 0 app.num_keys
  ]

  unfoldable pub info_aid : Credential → List ℕ
  info_aid credential = elim (core.primary_application credential) [
    | none ↦ codes "AID: none"
    | some app ↦ codes "AID: " ++ aid_text app.aid
  ]

  unfoldable pub enter_info : App Credential → App Credential
  enter_info app =
      let credential = app.credential in
      let details =
        counts_text (core.num_apps credential) (core.num_files credential)
        ++ (if has_keys credential then codes " +keys" else []) in
      record app {
        widget =
            app.widget
            ++ (string_element (codes "Info")
                ∷ string_element (uid_text (core.uid credential))
                ∷ string_element (info_aid credential)
                ∷ string_element details
                ∷ []);
        view = view_widget;
      }

  -- `went` is what scene_manager_previous_scene answers.
  unfoldable pub handle_info : Bool → App Credential → SceneEvent → Handling Credential
  handle_info went app (custom event) =
      if event == core.button_left then asks_answered app previous_scene went else ignored app
  handle_info went app back = asks_answered app previous_scene went
  handle_info went app tick = ignored app

  unfoldable pub read_details : Credential → List ℕ
  read_details credential = elim (core.primary_application credential) [
    | none ↦ counts_text (core.num_apps credential) (core.num_files credential)
    | some app ↦
        codes "AID "
        ++ (aid_text app.aid
            ++ (codes ", " ++ (decimal (core.num_files credential) ++ codes " file(s)")))
  ]

  unfoldable pub enter_read_success : App Credential → App Credential
  enter_read_success app = record app {
    widget =
        app.widget
        ++ (button_element core.button_left (codes "Save")
            ∷ button_element core.button_right (codes "Emulate")
            ∷ string_element (codes "Card Read")
            ∷ string_element (uid_text (core.uid app.credential))
            ∷ string_element (read_details app.credential)
            ∷ []);
    view = view_widget;
  }

  unfoldable pub handle_read_success : App Credential → SceneEvent → Handling Credential
  handle_read_success app (custom event) =
      if event == core.button_left
      then asks app (next_scene save_name)
      else if event == core.button_right
      then asks app (next_scene saved_menu)
      else ignored app
  handle_read_success app back = asks app (search_scene main_menu)
  handle_read_success app tick = ignored app

  unfoldable pub enter_read_error : App Credential → App Credential
  enter_read_error app = record app {
    widget =
        app.widget
        ++ (button_element core.button_left (codes "Retry")
            ∷ string_element (codes "Read Errror")
            ∷ string_element (codes "Try again?")
            ∷ []);
    view = view_widget;
  }

  unfoldable pub handle_read_error : Bool → App Credential → SceneEvent → Handling Credential
  handle_read_error went app (custom event) =
      if event == core.button_left then asks_answered app previous_scene went else ignored app
  handle_read_error went app back = asks app (search_scene main_menu)
  handle_read_error went app tick = ignored app

-- ===== src/App/State.antt =====
-- The application's state: the fields of `Dfc` (dfc_i.h) that the scenes read or write, what the views
-- show, and the scenes of scenes/dfc_scene_config.h.
use dfc_flipper.Events.{
  CustomEvent, view_exit, text_input_done, poller_error, poller_success, emulate, app_selected,
  authenticated, file_requested,
}
use dfc_flipper.Storage.Save.{FileEvent}
use dfc_flipper.Base.{ℕ, Bool, true, false, Option, none, some, List, []}

-- `DfcScene`
pub data Scene : Type 0 where
  main_menu emulating read file_select saved_menu read_success save_name : Scene
  mutation_save save_success about delete_scene delete_success read_error info_scene : Scene

-- `DfcView`, and none of them before the first scene.
pub data View : Type 0 where
  view_none view_menu view_popup view_loading view_text_input view_text_box : View
  view_widget view_file_browser : View

-- What a widget shows.
pub data Element : Type 0 where
  text_element : List ℕ → Element
  string_element : List ℕ → Element
  -- `GuiButtonType` and the label.
  button_element : ℕ → List ℕ → Element

-- A popup's header and text; `timeout` says whether its timeout is enabled.
pub record Popup : Type 0 where
  pub header : List ℕ
  pub text : List ℕ
  pub timeout : Bool

abbrev pub blank_popup : Popup
blank_popup = record { header = []; text = []; timeout = false }

-- `emulator`, `listener` and `poller` say whether the pointers are set, `file_browser` whether the
-- browser runs, and `validator` whether the text input has one.
pub record App (Credential : Type 0) : Type 0 where
  pub credential : Credential
  pub load_path : List ℕ
  pub emulate_from_blank : Bool
  pub text_store : List ℕ
  pub emulator : Bool
  pub listener : Bool
  pub poller : Bool
  pub blinking : Bool
  pub view : View
  pub submenu : List ℕ
  pub selected_item : ℕ
  pub popup : Popup
  pub widget : List Element
  pub text_input : List ℕ
  pub validator : Bool
  pub text_box : List ℕ
  pub file_browser : Bool
  -- The states that the scene manager keeps for the scenes with a menu.
  pub main_menu_state : ℕ
  pub mutation_save_state : ℕ
  pub saved_menu_state : ℕ

-- `SceneManagerEvent`
pub data SceneEvent : Type 0 where
  custom : ℕ → SceneEvent
  back : SceneEvent
  tick : SceneEvent

-- What a handler asks of the scene manager. Every handler asks as the last thing that it does.
pub data Request : Type 0 where
  next_scene : Scene → Request
  previous_scene : Request
  -- scene_manager_search_and_switch_to_previous_scene
  search_scene : Scene → Request
  -- scene_manager_previous_scene until it answers false.
  previous_scenes : Request

-- What `on_event` leaves: the state, its request, whether the event is consumed, and what it has done to
-- the files that it writes.
pub record Handling (Credential : Type 0) : Type 0 where
  pub app : App Credential
  pub request : Option Request
  pub consumed : Bool
  pub files : List FileEvent

-- `enum DfcCustomEvent` as numbers.
abbrev pub event_code : CustomEvent → ℕ
event_code view_exit = 101
event_code text_input_done = 102
event_code poller_error = 103
event_code poller_success = 104
event_code emulate = 105
event_code app_selected = 106
event_code authenticated = 107
event_code file_requested = 108

module _ {Credential : Type 0} where
  abbrev pub ignored : App Credential → Handling Credential
  ignored app = record { app = app; request = none; consumed = false; files = [] }

  abbrev pub asks : App Credential → Request → Handling Credential
  asks app r = record { app = app; request = some r; consumed = true; files = [] }

  -- A request whose answer is what the handler returns.
  abbrev pub asks_answered : App Credential → Request → Bool → Handling Credential
  asks_answered app r answer = record { app = app; request = some r; consumed = answer; files = [] }

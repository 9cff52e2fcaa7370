-- ===== src/App/Life.antt =====
-- dfc.c: what the application takes from the SDK and gives back, in order, over its whole life.
use dfc_flipper.Base.{Bool, false, Option, none, some, List, [], ◌∷◌, ◌++◌, if◌then◌else◌}
use dfc_flipper.App.Core.{AppCore}
use dfc_flipper.App.State.{App, view_none, blank_popup}
use dfc_flipper.App.Scenes.{Visit, visit_all}

-- What `dfc_alloc` and the scenes take. `store_path`, `storage` and `dialogs` are the fields of the store of
-- dfc_credential_storage.c.
pub data Resource : Type 0 where
  app_block view_dispatcher scene_manager nfc nfc_device gui notifications submenu popup : Resource
  loading text_input text_box text_box_store widget store_path storage dialogs : Resource
  credential file_browser listener poller emulator : Resource

pub data LifeEvent : Type 0 where
  obtained : Resource → LifeEvent
  released : Resource → LifeEvent
  -- view_dispatcher_add_view with the view of a module, and view_dispatcher_remove_view.
  attached : Resource → LifeEvent
  detached : Resource → LifeEvent

-- `dfc_credential_storage_init` and `dfc_credential_storage_deinit`
unfoldable pub storage_init : List LifeEvent
storage_init = obtained store_path ∷ obtained storage ∷ obtained dialogs ∷ []

unfoldable pub storage_deinit : List LifeEvent
storage_deinit = released store_path ∷ released storage ∷ released dialogs ∷ []

-- `dfc_alloc`
unfoldable pub alloc : List LifeEvent
alloc =
    obtained app_block
    ∷ obtained view_dispatcher
    ∷ obtained scene_manager
    ∷ obtained nfc
    ∷ obtained nfc_device
    ∷ obtained gui
    ∷ obtained notifications
    ∷ obtained submenu
    ∷ attached submenu
    ∷ obtained popup
    ∷ attached popup
    ∷ obtained loading
    ∷ attached loading
    ∷ obtained text_input
    ∷ attached text_input
    ∷ obtained text_box
    ∷ attached text_box
    ∷ obtained text_box_store
    ∷ obtained widget
    ∷ attached widget
    ∷ (storage_init ++ (obtained credential ∷ obtained file_browser ∷ attached file_browser ∷ []))

-- The fields after `dfc_alloc`, which zeroes them.
abbrev pub initial : {Credential : Type 0} → Credential → App Credential
initial c = record {
  credential = c;
  load_path = [];
  emulate_from_blank = false;
  text_store = [];
  emulator = false;
  listener = false;
  poller = false;
  blinking = false;
  view = view_none;
  submenu = [];
  selected_item = 0;
  popup = blank_popup;
  widget = [];
  text_input = [];
  validator = false;
  text_box = [];
  file_browser = false;
  main_menu_state = 0;
  mutation_save_state = 0;
  saved_menu_state = 0;
}

-- What an optional pointer adds to the releases.
abbrev pub released_if : Bool → Resource → List LifeEvent
released_if held r = if held then released r ∷ [] else []

-- `dfc_free`
unfoldable pub free : {Credential : Type 0} → App Credential → List LifeEvent
free app =
    released_if app.listener listener
    ++ (released_if app.poller poller
        ++ (released nfc
            ∷ released nfc_device
            ∷ detached submenu
            ∷ released submenu
            ∷ detached popup
            ∷ released popup
            ∷ detached loading
            ∷ released loading
            ∷ detached text_input
            ∷ released text_input
            ∷ detached text_box
            ∷ released text_box
            ∷ released text_box_store
            ∷ detached widget
            ∷ released widget
            ∷ detached file_browser
            ∷ released file_browser
            ∷ released view_dispatcher
            ∷ released scene_manager
            ∷ released gui
            ∷ released notifications
            ∷ released credential
            ∷ (storage_deinit ++ (released_if app.emulator emulator ++ released app_block ∷ []))))

-- `dfc_app`, for the visits that the scene manager makes until the view dispatcher stops; none where an
-- assertion fails.
unfoldable pub dfc_app :
    {Credential : Type 0}
    → AppCore Credential
    → Credential
    → List (Visit Credential)
    → Option (List LifeEvent)
dfc_app core c vs = elim (visit_all core (initial c) vs) [
  | none ↦ none
  | some app ↦ some (alloc ++ free app)
]

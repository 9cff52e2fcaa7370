-- ===== src/App/Releases.antt =====
-- The order of dfc.c's allocations and releases against what the SDK asks of it.
use dfc_flipper.Base.{
  ℕ, ◌≡◌, refl, Bool, true, false, not, ◌&&◌, ◌||◌, Option, none, some, List, [], ◌∷◌, ◌++◌, ◌==◌,
  if◌then◌else◌,
}
use dfc_flipper.App.Life.{
  Resource, dfc_app, app_block, LifeEvent, listener, alloc, view_dispatcher, free, poller, obtained,
  scene_manager, emulator, released, nfc, file_browser, attached, nfc_device, initial, submenu,
  detached, gui, popup, loading, notifications, text_input, text_box, text_box_store, widget,
  store_path, credential, storage, storage_init, dialogs, storage_deinit,
}
use dfc_flipper.App.Core.{AppCore}
use dfc_flipper.App.Scenes.{Visit}
use dfc_flipper.App.State.{App}
use dfc_flipper.App.Rest.{IsAtRest}
use dfc_flipper.App.Visits.{visit_all-IsAtRest}

-- A number for each resource, to compare them.
abbrev pub number : Resource → ℕ
number app_block = 0
number view_dispatcher = 1
number scene_manager = 2
number nfc = 3
number nfc_device = 4
number gui = 5
number notifications = 6
number submenu = 7
number popup = 8
number loading = 9
number text_input = 10
number text_box = 11
number text_box_store = 12
number widget = 13
number store_path = 14
number storage = 20
number dialogs = 21
number credential = 15
number file_browser = 16
number listener = 17
number poller = 18
number emulator = 19

abbrev has : Resource → List Resource → Bool
has r [] = false
has r (x ∷ xs) = let rest = has r xs in if number r == number x then true else rest

abbrev without : Resource → List Resource → List Resource
without r [] = []
without r (x ∷ xs) = let rest = without r xs in if number r == number x then xs else x ∷ rest

abbrev has_any : List Resource → List Resource → Bool
has_any [] xs = false
has_any (r ∷ rs) xs = has r xs || has_any rs xs

-- What points to a resource, or is used through it, and goes first.
abbrev users : Resource → List Resource
users nfc = listener ∷ poller ∷ []
users nfc_device = listener ∷ []
users credential = emulator ∷ poller ∷ []
users store_path = file_browser ∷ []
users gui = view_dispatcher ∷ []
users scene_manager = view_dispatcher ∷ []
users view_dispatcher =
    submenu ∷ popup ∷ loading ∷ text_input ∷ text_box ∷ widget ∷ file_browser ∷ []
users app_block =
    view_dispatcher ∷ scene_manager ∷ nfc ∷ nfc_device ∷ gui ∷ notifications ∷ store_path ∷ storage
    ∷ dialogs ∷ credential ∷ []
users _ = []

-- What is held, and the modules whose view the view dispatcher has.
pub record Possessed : Type 0 where
  pub held : List Resource
  pub views : List Resource

abbrev pub nothing : Possessed
nothing = record { held = []; views = [] }

-- none for an event that breaks an order: a resource taken twice or given back when it is not held, when
-- the dispatcher has its view or when a user of it is held, and a view added twice, without its module or
-- the dispatcher, or removed when the dispatcher does not have it.
abbrev pub follow : Possessed → LifeEvent → Option Possessed
follow p (obtained r) = if has r p.held then none else some (record p { held = r ∷ p.held })
follow p (released r) =
    if has r p.held && (not (has r p.views) && not (has_any (users r) p.held))
    then some (record p { held = without r p.held })
    else none
follow p (attached r) =
    if has r p.held && (has view_dispatcher p.held && not (has r p.views))
    then some (record p { views = r ∷ p.views })
    else none
follow p (detached r) =
    if has r p.views && has view_dispatcher p.held
    then some (record p { views = without r p.views })
    else none

abbrev pub follow_all : Possessed → List LifeEvent → Option Possessed
follow_all p [] = some p
follow_all p (e ∷ es) = elim (follow p e) [ none ↦ none | some q ↦ follow_all q es ]

free-releases :
    {Credential : Type 0} (app : App Credential)
    → IsAtRest app
    → follow_all nothing (alloc ++ free app) ≡ some nothing
unfolding alloc free storage_init storage_deinit
free-releases app r = rw (r.listener, free) (rw (r.poller, free) (rw (r.emulator, free) refl))

pub initial-IsAtRest : {Credential : Type 0} (c : Credential) → IsAtRest (initial c)
initial-IsAtRest c = record {
  emulator = refl;
  listener = refl;
  poller = refl;
  blinking = refl;
  submenu = refl;
  popup = refl;
  widget = refl;
  text_input = refl;
  validator = refl;
  text_box = refl;
  file_browser = refl;
}

-- Whatever the visits of its scenes are, the application runs without a failed assertion, and it gives
-- back once each all that `dfc_alloc` took, no view's module before the view is removed and nothing before
-- what uses it.
pub dfc_app-releases :
    {Credential : Type 0} (core : AppCore Credential) (c : Credential)
    (vs : List (Visit Credential))
    → (events : List LifeEvent) × (dfc_app core c vs ≡ some events)
      × (follow_all nothing events ≡ some nothing)
unfolding dfc_app
dfc_app-releases core c vs =
    let (last, q, r) = visit_all-IsAtRest core (initial c) vs (initial-IsAtRest c) in
    (alloc ++ free last, rw (dfc_app, q) refl, free-releases last r)

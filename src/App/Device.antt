-- ===== src/App/Device.antt =====
-- dfc.c: the light, the text store, the popup that the SDK's device shows while it loads, and the
-- callbacks of the view dispatcher.
use dfc_flipper.Base.{Bool, true, false, [], if◌then◌else◌, ℕ}
use dfc_flipper.App.State.{App, view_loading}

-- The priority of the SDK's timer thread.
pub data TimerPriority : Type 0 where
  normal elevated : TimerPriority

module _ {Credential : Type 0} where
  -- `dfc_blink_start` and `dfc_blink_stop`: a notification that starts or stops the light.
  abbrev pub blink_start : App Credential → App Credential
  blink_start app = record app { blinking = true }

  abbrev pub blink_stop : App Credential → App Credential
  blink_stop app = record app { blinking = false }

  -- `dfc_text_store_clear`: the store is an array that is read up to its first NUL.
  unfoldable pub text_store_clear : App Credential → App Credential
  text_store_clear app = record app { text_store = [] }

  -- `dfc_show_loading_popup`, the callback of the SDK's device.
  unfoldable pub show_loading_popup : Bool → App Credential → App Credential × TimerPriority
  show_loading_popup show app =
      if show then (record app { view = view_loading }, elevated) else (app, normal)

-- The SDK's scene manager, as far as the callbacks call it.
pub record SceneManager (Manager : Type 0) : Type 0 where
  pub handle_custom_event : Manager → ℕ → Manager × Bool
  pub handle_back_event : Manager → Manager × Bool
  pub handle_tick_event : Manager → Manager

module _ {Manager : Type 0} (sdk : SceneManager Manager) where
  abbrev pub custom_event_callback : Manager → ℕ → Manager × Bool
  custom_event_callback manager event = sdk.handle_custom_event manager event

  abbrev pub back_event_callback : Manager → Manager × Bool
  back_event_callback manager = sdk.handle_back_event manager

  abbrev pub tick_event_callback : Manager → Manager
  tick_event_callback manager = sdk.handle_tick_event manager

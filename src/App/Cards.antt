-- ===== src/App/Cards.antt =====
-- scenes/dfc_scene_emulate.c and dfc_scene_read.c: the radio while a card is emulated or read. `enter`,
-- `handle` and `exit` are on_enter, on_event and on_exit.
use dfc_flipper.Base.{ℕ, Bool, true, false, not, Option, none, some, List, ◌==◌, if◌then◌else◌}
use dfc_flipper.App.Core.{AppCore}
use dfc_flipper.App.State.{
  App, Handling, SceneEvent, custom, back, tick, ignored, asks, next_scene, search_scene,
  view_popup, event_code, blank_popup, read_success, read_error, mutation_save, main_menu,
}
use dfc_flipper.App.Text.{codes}
use dfc_flipper.Events.{
  emulate, poller_success, app_selected, poller_error, authenticated, file_requested,
}
use dfc_flipper.App.Device.{blink_start, blink_stop}

-- What the SDK and the heap answer while the emulation starts: whether nfc_device_set_uid,
-- iso14443_4a_set_uid, dfc_emulator_alloc and nfc_listener_alloc succeed.
pub record RadioStart : Type 0 where
  pub device_uid : Bool
  pub data_uid : Bool
  pub emulator_alloc : Bool
  pub listener_alloc : Bool

module _ {Credential : Type 0} where
  abbrev pub popup_headed : App Credential → List ℕ → App Credential
  popup_headed app header = record app { popup = record app.popup { header = header } }

  abbrev pub popup_texted : App Credential → List ℕ → List ℕ → App Credential
  popup_texted app header text = record app {
    popup = record app.popup { header = header; text = text };
    view = view_popup;
  }

  unfoldable pub exit_emulating : App Credential → App Credential
  exit_emulating app =
      blink_stop (record app { listener = false; emulator = false; popup = blank_popup })

  -- `poller_alloc` says whether nfc_poller_alloc succeeds.
  unfoldable pub enter_read : Bool → App Credential → App Credential
  enter_read poller_alloc app =
      let reading = popup_headed app (codes "Reading") in
      if not poller_alloc
      then popup_texted (record reading { poller = false }) (codes "Out of memory")
          (codes "Could not start\nreader")
      else record (blink_start (record reading { poller = true })) { view = view_popup }

  unfoldable pub handle_read : App Credential → SceneEvent → Handling Credential
  handle_read app (custom event) =
      if event == event_code poller_success
      then asks app (next_scene read_success)
      else if event == event_code poller_error
      then asks app (next_scene read_error)
      else ignored app
  handle_read app back = asks app (search_scene main_menu)
  handle_read app tick = ignored app

  unfoldable pub exit_read : App Credential → App Credential
  exit_read app = blink_stop (record app { poller = false; popup = blank_popup })

module _ {Credential : Type 0} (core : AppCore Credential) where
  -- none where the assertion that there is no emulator fails.
  unfoldable pub enter_emulating : RadioStart → App Credential → Option (App Credential)
  enter_emulating start app =
      let shown = popup_headed app (codes "Emulating") in
      if not (core.model.uid_is_detectable shown.credential)
      then some (popup_texted shown (codes "Invalid UID") (codes "Use 7 bytes\nstarting with 04"))
      else if not start.device_uid
      then some (popup_texted shown (codes "UID Error") (codes "Could not set UID"))
      else if not start.data_uid
      then some (popup_texted shown (codes "UID Error") (codes "Could not set UID"))
      else if shown.emulator
      then none
      else if not start.emulator_alloc
      then some (popup_texted shown (codes "Out of memory") (codes "Could not start\nemulation"))
      else if not start.listener_alloc
      then some (
          popup_texted (record shown { emulator = false; listener = false }) (codes "Out of memory")
            (codes "Could not start\nlistener"))
      else some (record (blink_start (record shown { emulator = true; listener = true })) {
        view = view_popup;
      })

  unfoldable pub handle_emulating : App Credential → SceneEvent → Handling Credential
  handle_emulating app (custom event) =
      if event == event_code emulate
      then ignored (popup_headed app (codes "Emulating"))
      else if event == event_code app_selected
      then record (ignored (popup_headed app (codes "App\nSelected"))) { consumed = true }
      else if event == event_code authenticated
      then record (ignored (popup_headed app (codes "Auth'd"))) { consumed = true }
      else if event == event_code file_requested
      then record (ignored (popup_headed app (codes "File\nRequested"))) { consumed = true }
      else ignored app
  handle_emulating app back =
      if core.model.dirty app.credential
      then asks app (next_scene mutation_save)
      else if app.emulate_from_blank
      then ignored (record app { emulate_from_blank = false })
      else ignored app
  handle_emulating app tick = ignored app

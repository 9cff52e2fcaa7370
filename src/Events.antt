-- ===== src/Events.antt =====
-- The custom events of dfc_i.h, the engine's events, and dfc_port_notify of port/dfc_port_flipper.c.
use dfc_flipper.Base.{ℕ, ◌≡◌, refl, ap, List, [], ◌∷◌, ◌++◌}

-- `enum DfcCustomEvent`, without the reserved range below 101 that the scenes use for indexes.
pub data CustomEvent : Type 0 where
  view_exit text_input_done poller_error poller_success : CustomEvent
  emulate app_selected authenticated file_requested : CustomEvent

-- `DfcEvent` of lib/core, as the cases of the switch name it.
pub data DfcEvent : Type 0 where
  event_application_selected event_authenticated event_file_requested : DfcEvent

-- What a callback does to the rest of the program, in order: a frame handed to the radio, or a
-- custom event handed to the view dispatcher.
pub data Effect : Type 0 where
  transmit : List ℕ → Effect
  custom_event : CustomEvent → Effect

unfoldable pub port_notify : DfcEvent → Effect
port_notify event_application_selected = custom_event app_selected
port_notify event_authenticated = custom_event authenticated
port_notify event_file_requested = custom_event file_requested

-- The engine's notifications during one command, in order.
unfoldable pub notify_all : List DfcEvent → List Effect
notify_all [] = []
notify_all (e ∷ es) = port_notify e ∷ notify_all es

-- The frames among the effects.
abbrev pub frames : List Effect → List (List ℕ)
frames [] = []
frames (transmit f ∷ es) = f ∷ frames es
frames (custom_event e ∷ es) = frames es

pub frames-append : (xs ys : List Effect) → frames (xs ++ ys) ≡ frames xs ++ frames ys
frames-append [] ys = refl
frames-append (transmit f ∷ xs) ys = ap (◌∷◌ f) (frames-append xs ys)
frames-append (custom_event e ∷ xs) ys = frames-append xs ys

pub frames-notify_all : (es : List DfcEvent) → frames (notify_all es) ≡ []
unfolding notify_all port_notify
frames-notify_all [] = refl
frames-notify_all (event_application_selected ∷ es) = frames-notify_all es
frames-notify_all (event_authenticated ∷ es) = frames-notify_all es
frames-notify_all (event_file_requested ∷ es) = frames-notify_all es

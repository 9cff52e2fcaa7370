-- ===== src/App/AboutScene.antt =====
-- The handlers of scenes/dfc_scene_about.c. `enter`, `handle` and `exit` are on_enter, on_event and on_exit.
use dfc_flipper.Base.{ℕ, Bool, List, [], ◌∷◌, ◌==◌, if◌then◌else◌}
use dfc_flipper.About.{build_text}
use dfc_flipper.App.Core.{AppCore}
use dfc_flipper.App.State.{
  App, Handling, SceneEvent, custom, back, tick, ignored, asks_answered, previous_scene,
  view_text_box,
}
use dfc_flipper.App.Text.{codes}

abbrev pub about_paragraphs : List (List ℕ)
about_paragraphs =
    codes
      "DFC is an independent, third-party implementation of the MIFARE DESFire native command protocol."
    ∷ codes "It is not developed, authorized, licensed, or endorsed by NXP Semiconductors."
    ∷ codes
        "\"DESFire\" is used here solely to describe protocol compatibility, not to claim affiliation."
    ∷ codes
        "No guarantee of compatibility or functionality is made. Users assume all risks associated with its use."
    ∷ codes
        "MIFARE and DESFire are trademarks of NXP B.V. This software is not associated with, sponsored by, or endorsed by NXP."
    ∷ []

module _ {Credential : Type 0} where
  unfoldable pub enter_about : App Credential → App Credential
  enter_about app = record app { text_box = build_text about_paragraphs; view = view_text_box }

  unfoldable pub exit_about : App Credential → App Credential
  exit_about app = record app { text_box = [] }

module _ {Credential : Type 0} (core : AppCore Credential) where
  -- `went` is what scene_manager_previous_scene answers.
  unfoldable pub handle_about : Bool → App Credential → SceneEvent → Handling Credential
  handle_about went app (custom event) =
      if event == core.button_left then asks_answered app previous_scene went else ignored app
  handle_about went app back = asks_answered app previous_scene went
  handle_about went app tick = ignored app

-- ===== src/App/Reading.antt =====
-- scenes/dfc_scene_read.c with dfc_reader.c below it: what the read scene opens once the card is read.
use dfc_flipper.Base.{ℕ, ◌≡◌, refl, ◌⊎◌, inl, inr, Bool, some, List, [], ◌∷◌}
use dfc_flipper.Reader.Model.{Core, SendBlock}
use dfc_flipper.App.Cards.{handle_read}
use dfc_flipper.App.State.{App, custom, event_code, next_scene, read_error, read_success}
use dfc_flipper.Events.{CustomEvent, poller_error, poller_success}
use dfc_flipper.Reader.Files.{state_machine}
use dfc_flipper.Reader.Steps.{stop}
use dfc_flipper.Reader.Reports.{state_machine-reports}
use dfc_flipper.Reader.Authentic.{IsAuthentic, IsProved-IsAuthentic}

module _ {Credential Session Card : Type 0} (core : Core Credential Session)
    (send_block : SendBlock Card) where
  -- Whatever the card answers, one event ends the reading, and on it the read scene opens one of two scenes:
  -- that of an error, or that of a card read. The latter opens only where the card has answered the selection
  -- of the credential's application with success, then the authentication with a whole block as its
  -- challenge, and then the reader's two numbers with a whole block that deciphers, under the application's
  -- key 0, to RndA rotated.
  pub state_machine-shown :
      (alloc_ok : Bool) (credential : Credential) (card : Card) (rnd_a : List ℕ)
      (app : App Credential)
      → (credential' : Credential) × (card' : Card) × (event : CustomEvent) × (state_machine core
            send_block alloc_ok credential card rnd_a
          ≡ some (credential', card', event ∷ [], stop))
        × (((handle_read app (custom (event_code event))).request ≡ some (next_scene read_error))
            ⊎ (((handle_read app (custom (event_code event))).request
                  ≡ some (next_scene read_success))
                × IsAuthentic core send_block credential card rnd_a))
  unfolding handle_read
  state_machine-shown alloc_ok credential card rnd_a app =
      let (credential', card', ending) =
        state_machine-reports core send_block alloc_ok credential card rnd_a in
      elim ending [
        | inl e ↦ (credential', card', poller_error, e, inl refl)
        | inr (e, p) ↦ (
          credential',
          card',
          poller_success,
          e,
          inr (refl, IsProved-IsAuthentic core send_block p),
        )
      ]

-- ===== src/Reader/Authentic.antt =====
-- The card of which dfc_reader.c reports success: it has let itself be selected, and has proved that it
-- holds the key.
use dfc_flipper.Base.{
  ℕ, ◌≡◌, refl, ap, ◌∙◌, subst, inl, inr, false, not, ◌||◌, some, List, [], ◌∷◌, arith, ltb, ◌==◌,
  Option-cases, if_rule, length, get_or, drop,
}
use dfc_flipper.Reader.Steps.{
  continue, Reader, select_application, exchange, authenticate, NfcCommand, stop,
}
use dfc_flipper.Reader.Model.{Core, SendBlock, Application}
use dfc_flipper.Reader.Reports.{IsProved, fresh}
use dfc_flipper.Reader.Proved.{
  HoldsKey, authenticate-attempts, exchange-answers, gives_up, authenticates,
}
use dfc_flipper.Storage.Reading.{not-false}

module _ {Credential Session Card : Type 0} (core : Core Credential Session)
    (send_block : SendBlock Card) where
  -- The card has answered the selection of the credential's application with success, and then proved that
  -- it holds the application's key 0.
  pub record IsAuthentic (credential : Credential) (card : Card) (rnd_a : List ℕ) : Type 0 where
    pub app : Application
    pub has_app : core.primary_application credential ≡ some app
    pub selected : Card
    pub rest : List ℕ
    pub selection :
        send_block card (core.select_application_frame app.aid)
        ≡ (selected, some (core.status_ok ∷ rest))
    pub proof : HoldsKey core send_block credential selected 0 app.auth_command rnd_a

  exchange-credential :
      (r : Reader Credential Session Card) (frame : List ℕ)
      → (exchange core send_block r frame).0.credential ≡ r.credential
  unfolding exchange
  exchange-credential r frame = elim (Option-cases (send_block r.card frame).1) [
    | inl e ↦ rw (exchange, e) refl
    | inr (rx, e) ↦ rw (exchange, e) refl
  ]

  select-credential :
      (r : Reader Credential Session Card) (aid : List ℕ)
      → (select_application core send_block r aid).0.credential ≡ r.credential
  unfolding select_application
  select-credential r aid =
      let (r', sent) = exchange core send_block r (core.select_application_frame aid) in
      let same = exchange-credential r (core.select_application_frame aid) in
      let P = λ (x : Reader Credential Session Card × NfcCommand). x.0.credential ≡ r.credential in
      if_rule P (not sent) (λ _. same)
        (λ _.
          if_rule P (ltb (length r'.rx_buffer) 1 || not (get_or r'.rx_buffer 0 0 == core.status_ok))
            (λ _. same) (λ _. same))

  status_first :
      (rx : List ℕ) (status : ℕ)
      → (ltb (length rx) 1 || not (get_or rx 0 0 == status)) ≡ false
      → rx ≡ status ∷ drop 1 rx
  status_first [] status h = absurd (ground arith)
  status_first (x ∷ rx) status h = ap (λ y. y ∷ rx) (ground (arith, h))

  select-answers :
      (r : Reader Credential Session Card) (aid : List ℕ)
      → (select_application core send_block r aid).1 ≡ continue
      → (rest : List ℕ) × (send_block r.card (core.select_application_frame aid)
          ≡ ((select_application core send_block r aid).0.card, some (core.status_ok ∷ rest)))
  unfolding select_application
  select-answers r aid =
      let frame = core.select_application_frame aid in
      let (r', sent) = exchange core send_block r frame in
      let P = λ (x : Reader Credential Session Card × NfcCommand).
        x.1 ≡ continue
        → (rest : List ℕ) × (send_block r.card frame ≡ (x.0.card, some (core.status_ok ∷ rest))) in
      if_rule P (not sent) (λ _ (h : stop ≡ continue). absurd cc)
        (λ s.
          if_rule P (ltb (length r'.rx_buffer) 1 || not (get_or r'.rx_buffer 0 0 == core.status_ok))
            (λ _ (h : stop ≡ continue). absurd cc)
            (λ e _. (
              drop 1 r'.rx_buffer,
              exchange-answers core send_block r frame (not-false sent s)
                  ∙ ap (λ (o : List ℕ). (r'.card, some o))
                      (status_first r'.rx_buffer core.status_ok e),
            )))

  authenticate-HoldsKey :
      (r : Reader Credential Session Card) (key_no cipher : ℕ) (rnd_a : List ℕ)
      → (authenticate core send_block r key_no cipher rnd_a).1 ≡ continue
      → HoldsKey core send_block r.credential r.card key_no cipher rnd_a
  authenticate-HoldsKey r key_no cipher rnd_a h =
      elim (authenticate-attempts core send_block r key_no cipher rnd_a) [
        | gives_up e ↦ absurd cc
        | authenticates p c e k ↦ p
      ]

  pub IsProved-IsAuthentic :
      {credential : Credential} {card : Card} {rnd_a : List ℕ}
      → IsProved core send_block credential (fresh core send_block credential card) rnd_a
      → IsAuthentic credential card rnd_a
  IsProved-IsAuthentic {credential} {card} {rnd_a} (app, e, s, a) =
      let start = fresh core send_block credential card in
      let r = (select_application core send_block start app.aid).0 in
      let (rest, selection) = select-answers start app.aid s in
      record {
        app = app;
        has_app = e;
        selected = r.card;
        rest = rest;
        selection = selection;
        proof =
            subst (λ c. HoldsKey core send_block c r.card 0 app.auth_command rnd_a)
              (select-credential start app.aid)
              (authenticate-HoldsKey r 0 app.auth_command rnd_a a);
      }

-- ===== src/IsoDep/Lossy/Talk.antt =====
-- Whole conversations over a link that loses blocks and answers: the reader of IsoDep/Pcd with
-- dfc_emulator_listener.c, its commands in one block each.
use dfc_flipper.Base.{
  ℕ, zero, suc, ◌≤◌, ◌≡◌, refl, Bool, true, false, not, Option, none, some, List, [], ◌∷◌,
  if◌then◌else◌, get_or, has, toggle, ◌+◌, sym, ap, ◌∙◌, inl, inr, arith,
}
use dfc_flipper.IsoDep.Receive.{receive}
use dfc_flipper.IsoDep.Lossy.{Fate, Dfc, Effect, advance_response, transact, nak_of}
use dfc_flipper.Engine.{Engine, Laws}
use dfc_flipper.IsoDep.State.{Dfc}
use dfc_flipper.IsoDep.Pcd.{and_then, collect, is_i_block, Request, i_block, behind}
use dfc_flipper.Events.{Effect, frames, transmit}
use dfc_flipper.IsoDep.Lossy.Acked.{insist, insist_lem, receive-ack_again}
use dfc_flipper.IsoDep.Pcd.Collected.{
  next_frame, next_frame-IsAnswering, collect_stop, collect_more,
}
use dfc_flipper.IsoDep.Send.{advance_response, more, i_frame, chunk_len}
use dfc_flipper.IsoDep.Pcd.Expected.{IsAnswering, sent, i_frame-is_i_block, sent-Pending}
use dfc_flipper.IsoDep.Ack.{ack_of, receive-ack_of}
use dfc_flipper.IsoDep.Frames.{info, chunk_cases}
use dfc_flipper.IsoDep.Nak.{nak_of}

-- A command, and what is lost on its way and on the way of each frame of the response, by the number of
-- frames that the reader still accepts.
pub record Attempt : Type 0 where
  pub command : List ℕ
  pub command_fates : List Fate
  pub frame_fates : ℕ → List Fate

abbrev pub request_of : Attempt → Request
request_of a = record { fields = []; last = a.command }

module _ {Emulator : Type 0} (core : Engine Emulator) (use_cid : Bool) (cid : ℕ) where
  -- `collect` with every R(ACK) sent until its frame arrives.
  unfoldable pub collect_over :
      (ℕ → List Fate) → ℕ → ℕ → Dfc Emulator → List (List ℕ) → Option (ℕ × Dfc Emulator × List ℕ)
  collect_over fates zero number s fs = none
  collect_over fates (suc fuel) number s [] = none
  collect_over fates (suc fuel) number s (f ∷ fs) =
      let (t, gs) = insist core (ack_of use_cid number cid) (fates fuel) s in
      let rest =
        behind core use_cid cid (info core f) (collect_over fates fuel (toggle number) t gs) in
      if not (is_i_block core use_cid cid number f)
      then none
      else if has (get_or f 0 0) 0x10
      then rest
      else some (toggle number, s, info core f)

  unfoldable pub exchange_over : ℕ → Dfc Emulator → Attempt → Option (ℕ × Dfc Emulator × List ℕ)
  exchange_over number s a =
      let block = i_block core use_cid cid number false a.command in
      let (t, fs) =
        transact core number block (nak_of use_cid number cid) block a.command_fates s in
      collect_over a.frame_fates (suc core.bytebuf_max) number t fs

  unfoldable pub converse_over :
      ℕ → Dfc Emulator → List Attempt → Option (ℕ × Dfc Emulator × List (List ℕ))
  converse_over number s [] = some (number, s, [])
  converse_over number s (a ∷ later) = elim (exchange_over number s a) [
    | none ↦ none
    | some (n, t, octets) ↦ and_then core use_cid cid octets (converse_over n t later)
  ]

module _ {Emulator : Type 0} (core : Engine Emulator) (laws : Laws core) where
  -- After the first frame of a response, or a later one.
  pub record IsAnswered (s : Dfc Emulator) (r : Dfc Emulator × List Effect) : Type 0 where
    pub under_way : Dfc Emulator
    pub answering : IsAnswering core under_way
    pub left : r.0 ≡ sent core under_way
    pub framed : frames r.1 ≡ i_frame core under_way ∷ []
    pub number : under_way.picc_block ≡ s.expected_pcd_block
    pub same_use : under_way.cid_valid ≡ s.cid_valid
    pub same_cid : under_way.cid ≡ s.cid

  receive-ack_next :
      {u : Dfc Emulator}
      → IsAnswering core u
      → more core u ≡ true
      → 60 ≤ chunk_len core u
      → receive core true (sent core u) (ack_of u.cid_valid u.picc_block u.cid) ≡ (
        sent core (next_frame core laws u),
        transmit (i_frame core (next_frame core laws u)) ∷ [],
      )
  unfolding next_frame advance_response
  receive-ack_next {u} i m big =
      let offset : (next_frame core laws u).response_offset ≡ u.response_offset + chunk_len core u =
        rw m in
      receive-ack_of core laws u.cid_valid refl (sent-Pending core laws i.pending)
        (ground (arith, offset))

  -- However often an R(ACK) or its frame is lost, the reader gets the next frame.
  insist-ack :
      {u : Dfc Emulator} (fates : List Fate)
      → IsAnswering core u
      → more core u ≡ true
      → 60 ≤ chunk_len core u
      → insist core (ack_of u.cid_valid u.picc_block u.cid) fates (sent core u)
        ≡ (sent core (next_frame core laws u), i_frame core (next_frame core laws u) ∷ [])
  unfolding next_frame advance_response
  insist-ack {u} fates i m big =
      let next = next_frame-IsAnswering core laws i in
      insist_lem core (ack_of u.cid_valid u.picc_block u.cid) (sent core u) fates
        (receive-ack_next i m big)
        (receive-ack_again core laws {t = sent core (next_frame core laws u)} u.cid_valid
          u.picc_block refl (sent-Pending core laws next.pending).valid i.pending.valid.picc_bit
          refl refl)

  collect_over_stop :
      (fates : ℕ → List Fate) (fuel : ℕ) (use_cid : Bool) (cid number : ℕ) (s : Dfc Emulator)
      (f : List ℕ)
      → is_i_block core use_cid cid number f ≡ true
      → has (get_or f 0 0) 0x10 ≡ false
      → collect_over core use_cid cid fates (suc fuel) number s (f ∷ [])
        ≡ some (toggle number, s, info core f)
  unfolding collect_over
  collect_over_stop fates fuel use_cid cid number s f e h = rw (e, h)

  collect_over_more :
      (fates : ℕ → List Fate) (fuel : ℕ) (use_cid : Bool) (cid number : ℕ) (s : Dfc Emulator)
      {t : Dfc Emulator} (f g : List ℕ)
      → is_i_block core use_cid cid number f ≡ true
      → has (get_or f 0 0) 0x10 ≡ true
      → insist core (ack_of use_cid number cid) (fates fuel) s ≡ (t, g ∷ [])
      → collect_over core use_cid cid fates (suc fuel) number s (f ∷ [])
        ≡ behind core use_cid cid
            (info core f)
            (collect_over core use_cid cid fates fuel (toggle number) t (g ∷ []))
  unfolding collect_over
  collect_over_more fates fuel use_cid cid number s f g e h r = rw (e, h, r)

  pub collect_over-collect :
      (fates : ℕ → List Fate) (fuel : ℕ) {u : Dfc Emulator}
      → IsAnswering core u
      → collect_over core u.cid_valid u.cid fates fuel u.picc_block
          (sent core u)
          (i_frame core u ∷ [])
        ≡ collect core u.cid_valid u.cid fuel u.picc_block (sent core u) (i_frame core u ∷ [])
  unfolding collect_over collect next_frame advance_response
  collect_over-collect fates zero i = refl
  collect_over-collect fates (suc fuel) {u} i =
      let (e, chained) = i_frame-is_i_block core laws i in
      let f = i_frame core u in
      elim (chunk_cases core laws i.pending) [
        | inr (m, _) ↦
            collect_over_stop fates fuel u.cid_valid u.cid u.picc_block (sent core u) f e
              (chained ∙ m)
            ∙ sym (
                collect_stop core laws fuel u.cid_valid u.cid u.picc_block (sent core u) f e
                  (chained ∙ m))
        | inl (m, _, big) ↦
            collect_over_more fates fuel u.cid_valid u.cid u.picc_block (sent core u) f _ e
              (chained ∙ m) (insist-ack (fates fuel) i m big)
            ∙ ap (behind core u.cid_valid u.cid (info core f))
                (collect_over-collect fates fuel (next_frame-IsAnswering core laws i))
            ∙ sym (
                collect_more core laws fuel u.cid_valid u.cid u.picc_block (sent core u) f _ e
                  (chained ∙ m) (receive-ack_next i m big))
      ]

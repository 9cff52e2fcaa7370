-- ===== src/IsoDep/Pcd/Collected.antt =====
-- A response of dfc_emulator_listener.c at the reader of IsoDep/Pcd: every frame is the one that it
-- expects, and the octets are those of the response.
use dfc_flipper.Base.{
  ℕ, zero, suc, ◌+◌, ◌-◌, ◌≤◌, ◌<◌, ◌≡◌, true, false, some, [], ◌∷◌, get_or, drop, has, toggle,
  Bool, arith, refl, ap, ◌∙◌, inl, inr, List, ◌++◌, sym, append-nil, toggle-toggle,
}
use dfc_flipper.IsoDep.Receive.{receive}
use dfc_flipper.ByteBuf.{contents}
use dfc_flipper.Engine.{Engine, Laws}
use dfc_flipper.IsoDep.State.{Dfc, iso_dep_frame_max}
use dfc_flipper.IsoDep.Pcd.{collect, is_i_block, number_after, behind}
use dfc_flipper.IsoDep.Frames.{Pending, chunk_cases, info}
use dfc_flipper.IsoDep.Send.{advance_response, i_frame, more, response_prefix, chunk_len}
use dfc_flipper.IsoDep.Delivery.{unsent-advance}
use dfc_flipper.IsoDep.Ack.{ack_of, toggle-Pending, unsent, receive-ack_of}
use dfc_flipper.Events.{transmit}
use dfc_flipper.IsoDep.Pcd.Expected.{
  sent, IsAnswering, i_frame-is_i_block, sent-Pending, Settled, next_count, number_after_stop,
}

module _ {Emulator : Type 0} (core : Engine Emulator) (laws : Laws core) where
  pub collect_stop :
      (fuel : ℕ) (use_cid : Bool) (cid number : ℕ) (s : Dfc Emulator) (f : List ℕ)
      → is_i_block core use_cid cid number f ≡ true
      → has (get_or f 0 0) 0x10 ≡ false
      → collect core use_cid cid (suc fuel) number s (f ∷ []) ≡ some (toggle number, s, info core f)
  unfolding collect
  collect_stop fuel use_cid cid number s f e h = rw (e, h)

  pub collect_more :
      (fuel : ℕ) (use_cid : Bool) (cid number : ℕ) (s : Dfc Emulator) {t : Dfc Emulator}
      (f g : List ℕ)
      → is_i_block core use_cid cid number f ≡ true
      → has (get_or f 0 0) 0x10 ≡ true
      → receive core true s (ack_of use_cid number cid) ≡ (t, transmit g ∷ [])
      → collect core use_cid cid (suc fuel) number s (f ∷ [])
        ≡ behind core use_cid cid
            (info core f)
            (collect core use_cid cid fuel (toggle number) t (g ∷ []))
  unfolding collect
  collect_more fuel use_cid cid number s f g e h r = rw (e, h, r)

  -- A response that the reader has received whole.
  pub record Receives (fuel : ℕ) (u : Dfc Emulator) : Type 0 where
    pub after_all : Dfc Emulator
    pub received :
        collect core u.cid_valid u.cid fuel u.picc_block (sent core u) (i_frame core u ∷ [])
        ≡ some
            (after_all.expected_pcd_block, after_all, drop u.response_offset (contents u.tx_buffer))
    pub settled : Settled core u after_all
    pub counted :
        after_all.expected_pcd_block
        ≡ number_after fuel
            (iso_dep_frame_max - response_prefix core u)
            u.picc_block
            (u.tx_buffer.size_bytes - u.response_offset)

  unsent_none :
      (u : Dfc Emulator) → more core u ≡ false → unsent core (advance_response core u) ≡ []
  unfolding advance_response
  unsent_none u m = rw m

  unsent_some :
      (u : Dfc Emulator)
      → more core u ≡ true
      → 1 ≤ chunk_len core u
      → unsent core (advance_response core u)
        ≡ drop (u.response_offset + chunk_len core u) (contents u.tx_buffer)
  unfolding advance_response
  unsent_some u m h = rw m (ground arith)

  whole :
      {u : Dfc Emulator}
      → Pending core u
      → more core u ≡ false
      → info core (i_frame core u) ≡ drop u.response_offset (contents u.tx_buffer)
  whole {u} q m =
      sym (append-nil (info core (i_frame core u)))
      ∙ ap (λ xs. info core (i_frame core u) ++ xs) (sym (unsent_none u m))
      ∙ unsent-advance core laws q

  info-behind :
      {u : Dfc Emulator}
      → Pending core u
      → more core u ≡ true
      → 1 ≤ chunk_len core u
      → info core (i_frame core u)
          ++ drop (u.response_offset + chunk_len core u) (contents u.tx_buffer)
        ≡ drop u.response_offset (contents u.tx_buffer)
  info-behind {u} q m h =
      ap (λ xs. info core (i_frame core u) ++ xs) (sym (unsent_some u m h))
      ∙ unsent-advance core laws q

  last_fits :
      {u : Dfc Emulator}
      → Pending core u
      → more core u ≡ false
      → u.response_offset + chunk_len core u ≡ u.tx_buffer.size_bytes
      → u.tx_buffer.size_bytes - u.response_offset ≤ iso_dep_frame_max - response_prefix core u
  last_fits {u} q m h = ground arith

  full_frame :
      {u : Dfc Emulator}
      → Pending core u
      → more core u ≡ true
      → chunk_len core u ≡ iso_dep_frame_max - response_prefix core u
  full_frame {u} q m = ground arith

  collect_last :
      (fuel : ℕ) {u : Dfc Emulator}
      → IsAnswering core u
      → more core u ≡ false
      → u.response_offset + chunk_len core u ≡ u.tx_buffer.size_bytes
      → Receives (suc fuel) u
  unfolding advance_response
  collect_last fuel {u} i m h =
      let (e, chained) = i_frame-is_i_block core laws i in
      record {
        after_all = sent core u;
        received =
            collect_stop fuel u.cid_valid u.cid u.picc_block (sent core u) (i_frame core u) e
              (chained ∙ m)
            ∙ ap (λ (octets : List ℕ). some (toggle u.picc_block, sent core u, octets))
                (whole i.pending m);
        settled = record {
          valid = (sent-Pending core laws i.pending).valid;
          emulator = refl;
          tx_buffer = refl;
          command = refl;
          cid_valid = refl;
          cid = refl;
          idle = rw m;
          alternates = sym (toggle-toggle u.picc_block i.pending.valid.picc_bit);
        };
        counted = sym (number_after_stop fuel _ u.picc_block _ (last_fits i.pending m h));
      }

  unfoldable pub next_frame : Dfc Emulator → Dfc Emulator
  next_frame u = record (sent core u) { picc_block = toggle u.picc_block }

  pub next_frame-IsAnswering :
      {u : Dfc Emulator} → IsAnswering core u → IsAnswering core (next_frame u)
  unfolding next_frame advance_response
  next_frame-IsAnswering i = record {
    pending = toggle-Pending core laws (sent-Pending core laws i.pending);
    number = i.number;
    number_bit = i.number_bit;
    framing = i.framing;
  }

  collect_next :
      (fuel : ℕ) {u : Dfc Emulator}
      → IsAnswering core u
      → more core u ≡ true
      → u.response_offset + chunk_len core u < u.tx_buffer.size_bytes
      → 60 ≤ chunk_len core u
      → Receives fuel (next_frame u)
      → Receives (suc fuel) u
  unfolding advance_response next_frame
  collect_next fuel {u} i m h big r =
      let (e, chained) = i_frame-is_i_block core laws i in
      let t = r.after_all in
      let offset : (next_frame u).response_offset ≡ u.response_offset + chunk_len core u = rw m in
      let acked =
        receive-ack_of core laws u.cid_valid refl (sent-Pending core laws i.pending)
          (ground (arith, offset)) in
      record {
        after_all = t;
        received =
            collect_more fuel u.cid_valid u.cid u.picc_block (sent core u) (i_frame core u) _ e
              (chained ∙ m) acked
            ∙ ap (behind core u.cid_valid u.cid (info core (i_frame core u))) r.received
            ∙ ap (λ (octets : List ℕ). some (t.expected_pcd_block, t, octets))
                (ap (λ n. info core (i_frame core u) ++ drop n (contents u.tx_buffer)) offset
                  ∙ info-behind i.pending m (omega arith));
        settled = record {
          valid = r.settled.valid;
          emulator = r.settled.emulator;
          tx_buffer = r.settled.tx_buffer;
          command = r.settled.command;
          cid_valid = r.settled.cid_valid;
          cid = r.settled.cid;
          idle = r.settled.idle;
          alternates = r.settled.alternates;
        };
        counted =
            r.counted
            ∙ next_count fuel (iso_dep_frame_max - response_prefix core u) u.picc_block
                u.tx_buffer.size_bytes u.response_offset _
                (offset ∙ ap (λ n. u.response_offset + n) (full_frame i.pending m))
                (omega (arith, h, full_frame i.pending m));
      }

  pub collect_lem :
      (fuel : ℕ) {u : Dfc Emulator}
      → IsAnswering core u
      → u.tx_buffer.size_bytes < u.response_offset + fuel
      → Receives fuel u
  unfolding next_frame advance_response
  collect_lem zero {u} i h = absurd (omega (arith, i.pending.valid.offset_bound))
  collect_lem (suc fuel) {u} i h = elim (chunk_cases core laws i.pending) [
    | inr (m, e) ↦ collect_last fuel i m e
    | inl (m, e, big) ↦
        collect_next fuel i m e big
          (collect_lem fuel (next_frame-IsAnswering i) (rw m (omega arith)))
  ]

-- ===== src/IsoDep/Delivery.antt =====
-- A response of dfc_emulator_listener.c in as many frames as it needs.
use dfc_flipper.Base.{
  ℕ, ◌≤◌, List, [], ◌∷◌, toggle, ◌==◌, suc, drop, ◌++◌, true, ◌≡◌, zero, false, arith, refl, ap,
  Bool-cases, inl, inr, ◌∙◌, ◌+◌, subst, ◌<◌, ap₂, ◌⊎◌, sym, drop_all, length-take,
}
use dfc_flipper.IsoDep.Invariant.{IsValid, advance_response-IsValid, begin_response-IsValid}
use dfc_flipper.Engine.{Engine, Laws}
use dfc_flipper.IsoDep.State.{Dfc}
use dfc_flipper.IsoDep.Send.{
  advance_response, i_frame, response_prefix, more, chunk_len, send_i_response, begin_response,
}
use dfc_flipper.IsoDep.Frames.{info, Pending, chunk_cases, info-i_frame, prefix_small}
use dfc_flipper.ByteBuf.{contents}
use dfc_flipper.Events.{frames, transmit, Effect}
use dfc_flipper.IsoDep.Bounds.{receive-IsSound}
use dfc_flipper.IsoDep.Ack.{
  deliver, acknowledged, payload, send_next_lem, unsent, rest_of, receive-ack_of, toggle-Pending,
  ack, list_split,
}

module _ {Emulator : Type 0} (core : Engine Emulator) (laws : Laws core) where
  acknowledged-Pending :
      {s : Dfc Emulator}
      → Pending core s
      → (s.response_offset == 0) ≡ false
      → Pending core (acknowledged core s)
  unfolding advance_response
  acknowledged-Pending {s} q h = record {
    valid =
        subst (λ (r : Dfc Emulator × List Effect). IsValid core r.0)
          (receive-ack_of core laws s.cid_valid refl q h)
          (receive-IsSound core laws true (ack core s) q.valid).valid;
    whole = q.whole;
    octet = q.octet;
  }

  -- One frame takes its part of the response, and leaves the rest.
  pub unsent-advance :
      {s : Dfc Emulator}
      → Pending core s
      → info core (i_frame core s) ++ unsent core (advance_response core s)
        ≡ drop s.response_offset (contents s.tx_buffer)
  unfolding advance_response
  unsent-advance {s} q =
      let cases = chunk_cases core laws q in
      ap₂ ◌++◌ (info-i_frame core laws q) (
        rest_of (more core s) s.response_offset (chunk_len core s) s.tx_buffer.size_bytes
          s.tx_buffer.octets cases)
      ∙ list_split s.tx_buffer.octets s.tx_buffer.size_bytes s.response_offset (chunk_len core s)
          (within cases)
    where
      within :
          ((more core s ≡ true)
              × (s.response_offset + chunk_len core s < s.tx_buffer.size_bytes)
              × (60 ≤ chunk_len core s))
            ⊎ ((more core s ≡ false)
                × (s.response_offset + chunk_len core s ≡ s.tx_buffer.size_bytes))
          → s.response_offset + chunk_len core s ≤ s.tx_buffer.size_bytes
      within (inl h) = omega (arith, h.1)
      within (inr h) = omega (arith, h.1)

  -- Acknowledgements that suffice for what is left: none for a response that is complete.
  abbrev Enough : ℕ → Dfc Emulator → Type 0
  Enough n s = (s.response_offset ≡ 0) ⊎ (s.tx_buffer.size_bytes ≤ s.response_offset + n)

  acknowledged-Enough :
      (n : ℕ) {s : Dfc Emulator}
      → Pending core s
      → (s.response_offset == 0) ≡ false
      → Enough (suc n) s
      → Enough n (acknowledged core s)
  unfolding advance_response
  acknowledged-Enough n {s} q e h =
      let t : Dfc Emulator = record s { picc_block = toggle s.picc_block } in
      elim (chunk_cases core laws (toggle-Pending core laws q)) [
        | inl (m, _, c) ↦ inr (rw m (ground arith))
        | inr (m, _) ↦ inl (rw m)
      ]

  deliver_lem :
      (n : ℕ) {s : Dfc Emulator}
      → Pending core s
      → Enough n s
      → payload core (deliver core n s) ≡ unsent core s
  unfolding deliver
  deliver_lem zero {s} q h = elim (Bool-cases (s.response_offset == 0)) [
    | inl e ↦ rw e
    | inr e ↦ rw e (
        sym (
          drop_all s.response_offset (contents s.tx_buffer)
            (ground (arith, h, length-take s.tx_buffer.size_bytes s.tx_buffer.octets))))
  ]
  deliver_lem (suc n) {s} q h = elim (Bool-cases (s.response_offset == 0)) [
    | inl e ↦ rw e
    | inr e ↦
        rw (e, receive-ack_of core laws s.cid_valid refl q e)
          (ap (λ xs. info core (i_frame core (record s { picc_block = toggle s.picc_block })) ++ xs)
              (deliver_lem n (acknowledged-Pending q e) (acknowledged-Enough n q e h))
            ∙ unsent-advance (toggle-Pending core laws q))
  ]

  pub begin_response-Pending :
      {s : Dfc Emulator} → Pending core s → Pending core (begin_response core s)
  unfolding begin_response
  begin_response-Pending q = record {
    valid = begin_response-IsValid core laws true q.valid q.whole;
    whole = q.whole;
    octet = q.octet;
  }

  pub advance_response-Pending :
      {s : Dfc Emulator} → Pending core s → Pending core (advance_response core s)
  unfolding advance_response
  advance_response-Pending q = record {
    valid = advance_response-IsValid core laws true q.valid;
    whole = q.whole;
    octet = q.octet;
  }

  pub send_i_lem :
      {s : Dfc Emulator}
      → Pending core s
      → send_i_response core true s ≡ (
        advance_response core (begin_response core s),
        transmit (i_frame core (begin_response core s)) ∷ [],
      )
  unfolding send_i_response
  send_i_lem {s} q = elim (Bool-cases (s.tx_buffer.size_bytes == 0)) [
    | inl e ↦ absurd (ground (arith, prefix_small core laws q, q.whole))
    | inr e ↦ rw e (send_next_lem core laws (begin_response-Pending q))
  ]

  same_size :
      (s : Dfc Emulator) → (advance_response core (begin_response core s)).tx_buffer ≡ s.tx_buffer
  unfolding advance_response begin_response
  same_size s = refl

  -- A response, sent in as many frames as it needs: the reader that answers every frame with R(ACK)
  -- receives frames whose information fields, joined in order, are the octets of the response behind
  -- its PCB and CID, all of them and each once. The response is in a valid state, its first octet is
  -- below 256 and its prefix is whole, and as many acknowledgements as it has octets are enough.
  pub send_i_response-delivers :
      {s : Dfc Emulator}
      → Pending core s
      → let (t, out) = send_i_response core true s in
        payload core (frames out ++ deliver core s.tx_buffer.size_bytes t)
        ≡ drop (response_prefix core s) (contents s.tx_buffer)
  unfolding begin_response
  send_i_response-delivers {s} q =
      let u : Dfc Emulator = begin_response core s in
      let p = begin_response-Pending q in
      rw (send_i_lem q) (
        ap (λ xs. info core (i_frame core u) ++ xs)
          (deliver_lem s.tx_buffer.size_bytes (advance_response-Pending p)
            (inr (rw same_size (omega arith))))
        ∙ unsent-advance p)

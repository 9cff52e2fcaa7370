-- ===== src/IsoDep/Pcd/Fields.antt =====
-- A command of the reader of IsoDep/Pcd, through dfc_emulator_listener.c to the engine's side.
use dfc_flipper.Base.{
  ℕ, zero, suc, ◌+◌, ◌≤◌, bit_or, ◌≡◌, sym, ap, subst, Bool, true, false, some, List, [], ◌∷◌, ◌++◌,
  append-nil, arith, length, All, bit_and, refl, ◌∙◌, inl, inr, append_assoc, leb, ◌==◌, Bool-cases,
  length-append, toggle,
}
use dfc_flipper.IsoDep.Receive.{receive, receive_numbered, receive_apdu}
use dfc_flipper.Engine.{Engine, Laws}
use dfc_flipper.IsoDep.Pcd.{send_fields, is_acked, i_block}
use dfc_flipper.IsoDep.Send.{send_control, send_frame}
use dfc_flipper.IsoDep.State.{Dfc, block_of, Block, prefix_len}
use dfc_flipper.IsoDep.Chain.{
  IsCollecting, collected, at_most, receive-link, linked, linked-IsCollecting, link_guards,
}
use dfc_flipper.IsoDep.Links.{
  join, IsFilled, link_pcb, toggles, link_rest, link-IsNext, link_facts, IsNext,
}
use dfc_flipper.Events.{frames, Effect}
use dfc_flipper.IsoDep.Apdu.{handle_apdu}
use dfc_flipper.IsoDep.Routing.{receive-receive_numbered}

length-nil : (xs : List ℕ) → (length xs == 0) ≡ true → xs ≡ []
length-nil [] h = refl
length-nil (x ∷ xs) h = absurd (ground arith)

module _ {Emulator : Type 0} (core : Engine Emulator) (laws : Laws core) where
  is_acked-send_control :
      (use_cid with_cid : Bool) (cid c n : ℕ)
      → n ≤ 1
      → is_acked core use_cid cid n (frames (send_control core true (bit_or 0xA2 n) with_cid c))
        ≡ true
  unfolding send_control send_frame
  is_acked-send_control use_cid true cid c zero h =
      rw laws.cid_mask_lem (ground (arith, laws.frame_fits))
  is_acked-send_control use_cid false cid c zero h = ground (arith, laws.frame_fits)
  is_acked-send_control use_cid true cid c (suc zero) h =
      rw laws.cid_mask_lem (ground (arith, laws.frame_fits))
  is_acked-send_control use_cid false cid c (suc zero) h = ground (arith, laws.frame_fits)
  is_acked-send_control use_cid with_cid cid c (suc (suc n)) h = absurd (omega arith)

  send_fields_step :
      (use_cid : Bool) (cid number : ℕ) (s : Dfc Emulator) {t : Dfc Emulator} (field : List ℕ)
      (fields : List (List ℕ)) (out : List Effect)
      → receive core true s (i_block core use_cid cid number true field) ≡ (t, out)
      → is_acked core use_cid cid number (frames out) ≡ true
      → send_fields core use_cid cid number s (field ∷ fields)
        ≡ send_fields core use_cid cid (toggle number) t fields
  unfolding send_fields
  send_fields_step use_cid cid number s field fields out r a = rw (r, a)

  -- The fields of a chain are collected, and every block is acknowledged with its number.
  pub send_fields_lem :
      {s : Dfc Emulator} (fields : List (List ℕ)) (coming : ℕ)
      → IsCollecting core laws s (length (join fields) + coming)
      → All IsFilled fields
      → (send_fields core s.cid_valid s.cid s.expected_pcd_block s fields
          ≡ some (toggles fields s.expected_pcd_block, collected core laws s fields))
        × IsCollecting core laws (collected core laws s fields) coming
  unfolding send_fields
  send_fields_lem {s} [] coming c f =
      let same : s ≡ collected core laws s [] =
        ap (λ (command : List ℕ). record s { command = command }) (sym (append-nil s.command)) in
      (
        ap (λ (t : Dfc Emulator). some (s.expected_pcd_block, t)) same,
        subst (λ t. IsCollecting core laws t coming) same (at_most core laws c (omega arith)),
      )
  send_fields_lem {s} (field ∷ fields) coming c f =
      let step : IsCollecting core laws s (length field + (length (join fields) + coming)) =
        at_most core laws c (omega (arith, length-append field (join fields))) in
      let n = link-IsNext core laws s.cid_valid true field refl c.valid.expected_bit f.0 in
      let (_, _, _, _, number, chained) =
        link_facts s.expected_pcd_block c.valid.expected_bit s.cid_valid true in
      let first =
        receive-link core laws true (link_pcb s.expected_pcd_block s.cid_valid true)
          (link_rest s.cid_valid s.cid field) _ field step n number chained (omega arith) in
      let (rest, e) =
        send_fields_lem {s = linked core laws s field} fields coming
          (linked-IsCollecting core laws (length (join fields) + coming) field step) f.1 in
      let regroup : collected core laws (linked core laws s field) fields
          ≡ collected core laws s (field ∷ fields) =
        ap
          (λ (command : List ℕ). record s {
            command = command;
            expected_pcd_block = toggles fields (toggle s.expected_pcd_block);
          })
          (append_assoc s.command field (join fields)) in
      (
        send_fields_step s.cid_valid s.cid s.expected_pcd_block s field fields _ first (
              rw number (
                is_acked-send_control s.cid_valid _ s.cid _ s.expected_pcd_block
                  c.valid.expected_bit))
            ∙ rest
            ∙ ap (λ (t : Dfc Emulator). some (toggles fields (toggle s.expected_pcd_block), t))
                regroup,
        subst (λ t. IsCollecting core laws t coming) regroup e,
      )

  without_command :
      (t : Dfc Emulator) (b : Block) (last : List ℕ)
      → t.command ≡ []
      → handle_apdu core true t b last
        ≡ handle_apdu core true (record t { command = [] }) b (t.command ++ last)
  without_command t b last e =
      ap (λ (octets : List ℕ). handle_apdu core true (record t { command = octets }) b last) e
      ∙ ap
          (λ (octets : List ℕ).
            handle_apdu core true (record t { command = [] }) b (octets ++ last))
          (sym e)

  pub receive_whole :
      {t : Dfc Emulator} (last : List ℕ)
      → IsCollecting core laws t (length last)
      → IsFilled last
      → let pcb = link_pcb t.expected_pcd_block t.cid_valid false in
        let rest = link_rest t.cid_valid t.cid last in
        receive core true t (pcb ∷ rest)
        ≡ handle_apdu core true
            (record t { command = [] })
            (block_of core pcb rest)
            (t.command ++ last)
  unfolding receive_numbered receive_apdu block_of
  receive_whole {t} last c g =
      let (idle, fits) = link_guards core laws last (length last) c (omega arith) in
      let n : IsNext core laws t (link_pcb t.expected_pcd_block t.cid_valid false)
          (link_rest t.cid_valid t.cid last) last =
        link-IsNext core laws t.cid_valid false last refl c.valid.expected_bit g in
      let (_, _, _, _, number, unchained) =
        link_facts t.expected_pcd_block c.valid.expected_bit t.cid_valid false in
      let pcb = link_pcb t.expected_pcd_block t.cid_valid false in
      let rest = link_rest t.cid_valid t.cid last in
      let numbered : (bit_and pcb 1 == t.expected_pcd_block) ≡ true = ground (arith, number) in
      let long : leb (length (pcb ∷ rest)) (prefix_len core pcb) ≡ false =
        ground (arith, n.filled) in
      receive-receive_numbered core true t pcb rest n.session
      ∙ elim (Bool-cases (length t.command == 0)) [
        | inr some_collected ↦ rw (numbered, idle, long, unchained, some_collected, n.carries, fits)
        | inl none_collected ↦
            rw (numbered, idle, long, unchained, none_collected, n.carries)
              (without_command t (block_of core pcb rest) last
                (length-nil t.command none_collected))
      ]

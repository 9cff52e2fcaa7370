-- ===== src/IsoDep/Chain.antt =====
-- A chained command, collected and handed on by dfc_emulator_listener.c.
use dfc_flipper.Base.{
  ℕ, Bool, ◌≤◌, List, bit_or, ◌∷◌, length, ◌++◌, toggle, true, bit_and, false, ◌≡◌, [], ◌==◌, has,
  arith, refl, ◌+◌, ltb, sub_size, leb, ap, ◌∙◌, toggle-le, All, length-append, sym, append-nil,
  subst, append_assoc,
}
use dfc_flipper.IsoDep.Invariant.{IsValid}
use dfc_flipper.Engine.{Engine, Laws}
use dfc_flipper.IsoDep.State.{Dfc, block_of, prefix_len}
use dfc_flipper.IsoDep.Routing.{receive-receive_numbered}
use dfc_flipper.IsoDep.Receive.{receive, receive_numbered, receive_apdu}
use dfc_flipper.Events.{Effect}
use dfc_flipper.IsoDep.Send.{send_control}
use dfc_flipper.IsoDep.Apdu.{handle_apdu}
use dfc_flipper.IsoDep.Links.{
  IsNext, join, send_links, IsFilled, toggles, next_pcb, next_rest, link-IsNext, link_facts,
}

module _ {Emulator : Type 0} (core : Engine Emulator) (laws : Laws core) where
  -- The state in which a chain goes on: valid, no response under way, room for what is to come.
  pub record IsCollecting (s : Dfc Emulator) (coming : ℕ) : Type 0 where
    pub valid : IsValid core s
    pub idle : s.response_offset ≡ 0
    pub room : length s.command + coming ≤ core.worker_max_buffer_size

  pub at_most : {s : Dfc Emulator} {m n : ℕ} → IsCollecting s m → n ≤ m → IsCollecting s n
  at_most c h = record { valid = c.valid; idle = c.idle; room = omega (arith, c.room) }

  abbrev pub linked : Dfc Emulator → List ℕ → Dfc Emulator
  linked s field = record s {
    command = s.command ++ field;
    expected_pcd_block = toggle s.expected_pcd_block;
  }

  pub link_guards :
      {s : Dfc Emulator} (field : List ℕ) (coming : ℕ)
      → IsCollecting s coming
      → length field ≤ coming
      → ((s.response_offset == 0) ≡ true)
        × (ltb (sub_size core.worker_max_buffer_size (length s.command)) (length field) ≡ false)
  link_guards {s} field coming c h =
      (ground (arith, c.idle), ground (arith, c.room, laws.command_fits, laws.bytebuf_small))

  -- A link is collected and acknowledged.
  pub receive-link :
      (radio_alloc : Bool) {s : Dfc Emulator} (pcb : ℕ) (rest : List ℕ) (coming : ℕ)
      (field : List ℕ)
      → IsCollecting s coming
      → IsNext core laws s pcb rest field
      → bit_and pcb 1 ≡ s.expected_pcd_block
      → has pcb 0x10 ≡ true
      → length field ≤ coming
      → let b = block_of core pcb rest in
        receive core radio_alloc s (pcb ∷ rest) ≡ (
          linked s field,
          send_control core radio_alloc (bit_or 0xA2 (bit_and pcb 1)) b.use_cid b.cid,
        )
  unfolding receive_numbered receive_apdu block_of
  receive-link radio_alloc {s} pcb rest coming field c n number chained h =
      let (idle, fits) = link_guards field coming c h in
      let numbered : (bit_and pcb 1 == s.expected_pcd_block) ≡ true = ground (arith, number) in
      let long : leb (length (pcb ∷ rest)) (prefix_len core pcb) ≡ false =
        ground (arith, n.filled) in
      receive-receive_numbered core radio_alloc s pcb rest n.session
      ∙ rw (numbered, idle, long, chained, n.carries, fits)

  pub linked-IsCollecting :
      {s : Dfc Emulator} (coming : ℕ) (field : List ℕ)
      → IsCollecting s (length field + coming)
      → IsCollecting (linked s field) coming
  linked-IsCollecting {s} coming field c = record {
    valid = record {
      buffer = c.valid.buffer;
      frame_bound = c.valid.frame_bound;
      expected_bit = toggle-le s.expected_pcd_block c.valid.expected_bit;
      picc_bit = c.valid.picc_bit;
      command_bound = omega (arith, c.room, length-append s.command field);
      offset_bound = c.valid.offset_bound;
    };
    idle = c.idle;
    room = omega (arith, c.room, length-append s.command field);
  }

  -- The state that a chain of links leaves.
  abbrev pub collected : Dfc Emulator → List (List ℕ) → Dfc Emulator
  collected s fields = record s {
    command = s.command ++ join fields;
    expected_pcd_block = toggles fields s.expected_pcd_block;
  }

  pub send_links_lem :
      (radio_alloc : Bool) {s : Dfc Emulator} (fields : List (List ℕ)) (coming : ℕ)
      → IsCollecting s (length (join fields) + coming)
      → All IsFilled fields
      → (send_links core radio_alloc s fields ≡ collected s fields)
        × IsCollecting (collected s fields) coming
  unfolding send_links
  send_links_lem radio_alloc {s} [] coming c f =
      let same : s ≡ collected s [] =
        ap (λ (command : List ℕ). record s { command = command }) (sym (append-nil s.command)) in
      (same, subst (λ t. IsCollecting t coming) same (at_most c (omega arith)))
  send_links_lem radio_alloc {s} (field ∷ fields) coming c f =
      let step : IsCollecting s (length field + (length (join fields) + coming)) =
        at_most c (omega (arith, length-append field (join fields))) in
      let n = link-IsNext core laws s.cid_valid true field refl c.valid.expected_bit f.0 in
      let (_, _, _, _, number, chained) =
        link_facts s.expected_pcd_block c.valid.expected_bit s.cid_valid true in
      let first =
        receive-link radio_alloc (next_pcb core radio_alloc s true)
          (next_rest core radio_alloc s field) _ field step n number chained (omega arith) in
      let (rest, e) =
        send_links_lem radio_alloc {s = linked s field} fields coming
          (linked-IsCollecting (length (join fields) + coming) field step) f.1 in
      let regroup : collected (linked s field) fields ≡ collected s (field ∷ fields) =
        ap
          (λ (command : List ℕ). record s {
            command = command;
            expected_pcd_block = toggles fields (toggle s.expected_pcd_block);
          })
          (append_assoc s.command field (join fields)) in
      (
        ap (λ (r : Dfc Emulator × List Effect). send_links core radio_alloc r.0 fields) first
            ∙ rest
            ∙ regroup,
        subst (λ t. IsCollecting t coming) regroup e,
      )

  receive-last :
      (radio_alloc : Bool) {t : Dfc Emulator} (pcb : ℕ) (rest field : List ℕ)
      → IsCollecting t (length field)
      → IsNext core laws t pcb rest field
      → bit_and pcb 1 ≡ t.expected_pcd_block
      → has pcb 0x10 ≡ false
      → 1 ≤ length t.command
      → receive core radio_alloc t (pcb ∷ rest)
        ≡ handle_apdu core radio_alloc
            (record t { command = [] })
            (block_of core pcb rest)
            (t.command ++ field)
  unfolding receive_numbered receive_apdu block_of
  receive-last radio_alloc {t} pcb rest field c n number unchained some_collected =
      let (idle, fits) = link_guards field (length field) c (omega arith) in
      let numbered : (bit_and pcb 1 == t.expected_pcd_block) ≡ true = ground (arith, number) in
      let long : leb (length (pcb ∷ rest)) (prefix_len core pcb) ≡ false =
        ground (arith, n.filled) in
      let collecting : (length t.command == 0) ≡ false = ground (arith, some_collected) in
      receive-receive_numbered core radio_alloc t pcb rest n.session
      ∙ rw (numbered, idle, long, unchained, collecting, n.carries, fits)

  -- A chained command reaches the engine whole. From a valid state with no response under way and
  -- nothing collected, after links with the fields given, none of them empty and all of them together
  -- with the last within the command buffer, nothing but the collected octets and the block number has
  -- changed; the last block then hands the engine's side the fields joined in order, and the buffer of
  -- collected octets is empty again.
  pub send_links-handle_apdu :
      (radio_alloc : Bool) {s : Dfc Emulator} (field : List ℕ) (fields : List (List ℕ))
      (last : List ℕ)
      → IsValid core s
      → s.response_offset ≡ 0
      → s.command ≡ []
      → All IsFilled (field ∷ fields)
      → IsFilled last
      → length (join (field ∷ fields)) + length last ≤ core.worker_max_buffer_size
      → let t = send_links core radio_alloc s (field ∷ fields) in
        let pcb = next_pcb core radio_alloc t false in
        let rest = next_rest core radio_alloc t last in
        (t ≡ record s {
          command = join (field ∷ fields);
          expected_pcd_block = toggles (field ∷ fields) s.expected_pcd_block;
        })
        × (receive core radio_alloc t (pcb ∷ rest)
            ≡ handle_apdu core radio_alloc
                (record t { command = [] })
                (block_of core pcb rest)
                (join (field ∷ fields) ++ last))
  send_links-handle_apdu radio_alloc {s} field fields last v idle vacant f g h =
      let (e, c) =
        send_links_lem radio_alloc {s = s} (field ∷ fields) (length last)
          (record { valid = v; idle = idle; room = omega (arith, ap length vacant) }) f in
      let whole : collected s (field ∷ fields) ≡ record s {
        command = join (field ∷ fields);
        expected_pcd_block = toggles (field ∷ fields) s.expected_pcd_block;
      } =
        ap
          (λ (start : List ℕ). record s {
            command = start ++ join (field ∷ fields);
            expected_pcd_block = toggles (field ∷ fields) s.expected_pcd_block;
          })
          vacant in
      (e ∙ whole, finish _ (e ∙ whole) (subst (λ t. IsCollecting t (length last)) (sym e) c))
    where
      finish :
          (t : Dfc Emulator)
          → t ≡ record s {
            command = join (field ∷ fields);
            expected_pcd_block = toggles (field ∷ fields) s.expected_pcd_block;
          }
          → IsCollecting t (length last)
          → let pcb = next_pcb core radio_alloc t false in
            let rest = next_rest core radio_alloc t last in
            receive core radio_alloc t (pcb ∷ rest)
            ≡ handle_apdu core radio_alloc
                (record t { command = [] })
                (block_of core pcb rest)
                (join (field ∷ fields) ++ last)
      finish t e c =
          let n = link-IsNext core laws t.cid_valid false last refl c.valid.expected_bit g in
          let (_, _, _, _, number, unchained) =
            link_facts t.expected_pcd_block c.valid.expected_bit t.cid_valid false in
          let command : t.command ≡ join (field ∷ fields) =
            ap (λ (u : Dfc Emulator). u.command) e in
          receive-last radio_alloc _ _ last c n number unchained
            (omega (arith, ap length command, length-append field (join fields), f.0))
          ∙ ap
              (λ (octets : List ℕ).
                handle_apdu core radio_alloc (record t { command = [] })
                  (block_of core (next_pcb core radio_alloc t false)
                    (next_rest core radio_alloc t last))
                  (octets ++ last))
              command

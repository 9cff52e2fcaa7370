-- ===== src/IsoDep/Pcd/Commands.antt =====
-- A whole command of the reader of IsoDep/Pcd at dfc_emulator_listener.c, however many blocks it comes
-- in.
use dfc_flipper.Base.{
  ℕ, suc, ◌+◌, ◌≤◌, ◌≡◌, ap, Bool, true, false, some, List, [], ◌∷◌, length, All, has, refl, ◌++◌,
  sym, ◌∙◌, subst, arith,
}
use dfc_flipper.ByteBuf.{ByteBuf, append_to, reset}
use dfc_flipper.IsoDep.Receive.{receive}
use dfc_flipper.Engine.{Engine, Laws}
use dfc_flipper.IsoDep.Send.{send_i_response}
use dfc_flipper.IsoDep.State.{Dfc, prefix_len, block_of}
use dfc_flipper.IsoDep.Links.{link_pcb, link_rest, IsFilled, join, toggles, link-IsNext, link_facts}
use dfc_flipper.IsoDep.Respond.{response_to, handle_bare-response_to}
use dfc_flipper.IsoDep.Pcd.{response, Request, exchange, send_fields, i_block, collect, peer_of}
use dfc_flipper.IsoDep.Framed.{append_to-take, block_of-IsBlock, with_prefix-Framed}
use dfc_flipper.Events.{frames, Effect}
use dfc_flipper.IsoDep.Pcd.Exchanged.{IsReady, IsAnsweredBy, collect-send_i_response}
use dfc_flipper.IsoDep.Apdu.{handle_apdu, with_prefix}
use dfc_flipper.IsoDep.Chain.{IsCollecting, collected}
use dfc_flipper.IsoDep.Handling.{response_to-Framed}
use dfc_flipper.IsoDep.Pcd.Fields.{receive_whole, send_fields_lem}
use dfc_flipper.IsoDep.Answering.{frames-response_to}

module _ {Emulator : Type 0} (core : Engine Emulator) where
  -- A command within the command buffer, with no empty block.
  pub record IsFitting (c : Request) : Type 0 where
    pub filled : All IsFilled c.fields
    pub last_filled : IsFilled c.last
    pub fits : length (join c.fields) + length c.last ≤ core.worker_max_buffer_size

module _ {Emulator : Type 0} (core : Engine Emulator) (laws : Laws core) where
  -- The engine gets the framing of the last block, whatever follows it there.
  response_to-framing :
      (use_cid : Bool) (cid n : ℕ) (emulator : Emulator) (tx : ByteBuf) (last apdu : List ℕ)
      → has (link_pcb n use_cid false) core.cid_mask ≡ use_cid
      → let pcb = link_pcb n use_cid false in
        response_to core
          (prefix_len core pcb)
          emulator
          (append_to core.bytebuf_max
            (reset tx)
            (some (pcb ∷ link_rest use_cid cid last))
            (prefix_len core pcb))
          apdu
        ≡ response core use_cid cid n
            (record { emulator = emulator; tx_buffer = tx; number = n })
            apdu
  response_to-framing true cid n emulator tx last apdu e = rw e (
      ap (λ b. response_to core 2 emulator b apdu)
        (append_to-take core.bytebuf_max (reset tx) (link_pcb n true false ∷ cid ∷ last) 2))
  response_to-framing false cid n emulator tx last apdu e = rw e (
      ap (λ b. response_to core 1 emulator b apdu)
        (append_to-take core.bytebuf_max (reset tx) (link_pcb n false false ∷ last) 1))

  pub exchange_step :
      (use_cid : Bool) (cid number n : ℕ) (s t : Dfc Emulator) (c : Request)
      → send_fields core use_cid cid number s c.fields ≡ some (n, t)
      → exchange core use_cid cid number s c ≡ (
          let (u, out) = receive core true t (i_block core use_cid cid n false c.last) in
          collect core use_cid cid (suc core.bytebuf_max) n u (frames out))
  unfolding exchange
  exchange_step use_cid cid number n s t c e = rw (e, exchange)

  emptied : {s : Dfc Emulator} → IsReady core s → IsReady core (record s { command = [] })
  emptied i = record {
    valid = record {
      buffer = i.valid.buffer;
      frame_bound = i.valid.frame_bound;
      expected_bit = i.valid.expected_bit;
      picc_bit = i.valid.picc_bit;
      command_bound = omega arith;
      offset_bound = i.valid.offset_bound;
    };
    idle = i.idle;
    vacant = refl;
  }

  renumbered :
      {s : Dfc Emulator} (n : ℕ)
      → IsReady core s
      → n ≤ 1
      → IsReady core (record s { expected_pcd_block = n })
  renumbered n i h = record {
    valid = record {
      buffer = i.valid.buffer;
      frame_bound = i.valid.frame_bound;
      expected_bit = h;
      picc_bit = i.valid.picc_bit;
      command_bound = i.valid.command_bound;
      offset_bound = i.valid.offset_bound;
    };
    idle = i.idle;
    vacant = i.vacant;
  }

  -- The last block of a command, at a listener that has collected the rest of it.
  last_block :
      (s : Dfc Emulator) (command last : List ℕ)
      → IsReady core s
      → IsFilled last
      → IsCollecting core laws (record s { command = command }) (length last)
      → let (u, out) =
          receive core true
            (record s { command = command })
            (i_block core s.cid_valid s.cid s.expected_pcd_block false last) in
        IsAnsweredBy core
          (record s { command = [] })
          (collect core s.cid_valid s.cid
            (suc core.bytebuf_max)
            s.expected_pcd_block
            u
            (frames out))
          (response core s.cid_valid s.cid s.expected_pcd_block (peer_of s) (command ++ last))
  unfolding handle_apdu with_prefix block_of
  last_block s command last i g c =
      let pcb = link_pcb s.expected_pcd_block s.cid_valid false in
      let rest = link_rest s.cid_valid s.cid last in
      let b = block_of core pcb rest in
      let start = with_prefix core (record s { command = [] }) b in
      let r = response_to core b.offset s.emulator start.tx_buffer (command ++ last) in
      let n = link-IsNext core laws {s = s} s.cid_valid false last refl i.valid.expected_bit g in
      let w = block_of-IsBlock core pcb rest n.session.long_enough in
      let f =
        response_to-Framed core laws b.offset pcb w.prefixed s.emulator (command ++ last)
          (with_prefix-Framed core laws (record s { command = [] }) w i.valid.buffer) in
      let s₀ : Dfc Emulator = record s { command = [] } in
      let (_, _, _, with_cid, _, _) =
        link_facts s.expected_pcd_block i.valid.expected_bit s.cid_valid false in
      let handled =
        receive_whole core laws {t = record s { command = command }} last c g
        ∙ handle_bare-response_to core (send_i_response core true) b.offset start
            (command ++ last) in
      let a =
        collect-send_i_response core laws s₀ r (emptied i)
          (frames-response_to core b.offset s.emulator start.tx_buffer (command ++ last)) f in
      let take_in = collect core s.cid_valid s.cid (suc core.bytebuf_max) s.expected_pcd_block in
      subst
        (λ q.
          IsAnsweredBy core s₀
            (let (u, out) =
                receive core true (record s { command = command })
                  (i_block core s.cid_valid s.cid s.expected_pcd_block false last) in
              take_in u (frames out))
            q)
        (response_to-framing s.cid_valid s.cid s.expected_pcd_block s.emulator s.tx_buffer last
          (command ++ last) (rw laws.cid_mask_lem with_cid))
        (subst
          (λ (p : Dfc Emulator × List Effect). IsAnsweredBy core s₀ (take_in p.0 (frames p.1)) r)
          (sym handled) a)

  -- A command answered, whatever number of blocks it came in.
  pub exchange-response :
      {s : Dfc Emulator} (c : Request)
      → IsReady core s
      → IsFitting core c
      → let n = toggles c.fields s.expected_pcd_block in
        IsAnsweredBy core
          (record s { command = []; expected_pcd_block = n })
          (exchange core s.cid_valid s.cid s.expected_pcd_block s c)
          (response core s.cid_valid s.cid n (peer_of s) (join c.fields ++ c.last))
  exchange-response {s} c i f =
      let n = toggles c.fields s.expected_pcd_block in
      let room : length s.command + (length (join c.fields) + length c.last)
          ≤ core.worker_max_buffer_size =
        omega (arith, f.fits, ap length i.vacant) in
      let (e, gathered) =
        send_fields_lem core laws {s = s} c.fields (length c.last)
          (record { valid = i.valid; idle = i.idle; room = room }) f.filled in
      let a =
        last_block (record s { expected_pcd_block = n }) (s.command ++ join c.fields) c.last
          (renumbered n i gathered.valid.expected_bit) f.last_filled gathered in
      subst
        (λ q.
          IsAnsweredBy core (record s { command = []; expected_pcd_block = n }) q
            (response core s.cid_valid s.cid n (peer_of s) (join c.fields ++ c.last)))
        (sym (exchange_step s.cid_valid s.cid s.expected_pcd_block n s _ c e))
        (subst
          (λ (octets : List ℕ).
            IsAnsweredBy core (record s { command = []; expected_pcd_block = n })
              (let (u, out) =
                  receive core true (collected core laws s c.fields)
                    (i_block core s.cid_valid s.cid n false c.last) in
                collect core s.cid_valid s.cid (suc core.bytebuf_max) n u (frames out))
              (response core s.cid_valid s.cid n (peer_of s) (octets ++ c.last)))
          (ap (λ (octets : List ℕ). octets ++ join c.fields) i.vacant) a)

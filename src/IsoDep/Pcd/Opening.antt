-- ===== src/IsoDep/Pcd/Opening.antt =====
-- The first command of an activation at dfc_emulator_listener.c: its first block fixes the CID.
use dfc_flipper.ByteBuf.Refine
use dfc_flipper.Base.{
  ℕ, ◌≤◌, ◌≡◌, Bool, true, false, xor, List, [], arith, ◌==◌, has, suc, ltb, length, refl, ap, ◌∙◌,
  Option, none, some, ◌∷◌, if◌then◌else◌, All, toggle,
}
use dfc_flipper.IsoDep.Pcd.{
  i_block, converse, exchange, send_fields, Request, and_then, collect, is_acked, Peer, answers,
}
use dfc_flipper.IsoDep.Receive.{receive, receive_block, receive_i}
use dfc_flipper.Engine.{Engine, Laws}
use dfc_flipper.IsoDep.State.{Dfc, block_of}
use dfc_flipper.IsoDep.Links.{link_facts, link_pcb}
use dfc_flipper.IsoDep.Routing.{i_block_routing}
use dfc_flipper.ByteBuf.{ByteBuf}
use dfc_flipper.Events.{Effect, frames}
use dfc_flipper.IsoDep.Pcd.Conversation.{IsBetween, converse-answers}
use dfc_flipper.IsoDep.Session.{started, started-IsValid}
use dfc_flipper.IsoDep.Pcd.Commands.{IsFitting}

module _ {Emulator : Type 0} (core : Engine Emulator) (laws : Laws core) (cid : ℕ)
    (s : Dfc Emulator) (unanswered : s.last_response_valid ≡ false) (vacant : s.command ≡ [])
    (unfixed : s.cid_valid ≡ false) where
  abbrev adopted : Dfc Emulator
  adopted = record s { cid_valid = true; cid = cid }

  receive-adopted :
      (n : ℕ) (chained : Bool) (field : List ℕ)
      → n ≤ 1
      → receive core true s (i_block core true cid n chained field)
        ≡ receive core true adopted (i_block core true cid n chained field)
  unfolding receive receive_block receive_i block_of xor
  receive-adopted n chained field h =
      let (small, i_kind, no_nad, with_cid, _, _) = link_facts n h true chained in
      let (a, b, c) = i_block_routing (link_pcb n true chained) small i_kind in
      let mask : has (link_pcb n true chained) core.cid_mask ≡ true =
        rw laws.cid_mask_lem with_cid in
      let nad : has (link_pcb n true chained) core.nad_mask ≡ false = rw laws.nad_mask_lem no_nad in
      let same : (cid == cid) ≡ true = ground arith in
      let short : ltb (suc (suc (length field))) 2 ≡ false = ground arith in
      rw (mask, short, a, b, c, i_kind, nad, unanswered, vacant, unfixed, same)

  exchange-adopted :
      (n : ℕ) (fields : List (List ℕ)) (last : List ℕ)
      → n ≤ 1
      → exchange core true cid n s (record { fields = fields; last = last })
        ≡ exchange core true cid n adopted (record { fields = fields; last = last })
  unfolding exchange send_fields
  exchange-adopted n [] last h =
      ap
        (λ (p : Dfc Emulator × List Effect).
          collect core true cid (suc core.bytebuf_max) n p.0 (frames p.1))
        (receive-adopted n false last h)
  exchange-adopted n (field ∷ fields) last h =
      ap
        (λ (p : Dfc Emulator × List Effect).
          let r : Option (ℕ × Dfc Emulator) =
            if is_acked core true cid n (frames p.1)
            then send_fields core true cid (toggle n) p.0 fields
            else none in
          elim r [
            | none ↦ none
            | some (m, t) ↦
                let (u, out) = receive core true t (i_block core true cid m false last) in
                collect core true cid (suc core.bytebuf_max) m u (frames out)
          ])
        (receive-adopted n true field h)

  pub converse-adopted :
      (n : ℕ) (c : Request) (cs : List Request)
      → n ≤ 1
      → converse core true cid n s (c ∷ cs) ≡ converse core true cid n adopted (c ∷ cs)
  unfolding converse
  converse-adopted n c cs h =
      ap
        (λ (r : Option (ℕ × Dfc Emulator × List ℕ)). elim r [
          | none ↦ none
          | some (m, t, octets) ↦ and_then core true cid octets (converse core true cid m t cs)
        ])
        (exchange-adopted n c.fields c.last h)

module _ {Emulator : Type 0} (core : Engine Emulator) (laws : Laws core) where
  -- The CID that a reader without one leaves in the listener is never read.
  abbrev pub own_cid : Bool → ℕ → ℕ
  own_cid true cid = cid
  own_cid false cid = 0

  started-IsBetween :
      (use_cid : Bool) (cid : ℕ) (emulator : Emulator) {tx : ByteBuf}
      → Refine.IsValid core.bytebuf_max tx
      → IsBetween core use_cid cid
          (record { emulator = emulator; tx_buffer = tx; number = 0 })
          (record (started core emulator tx) { cid_valid = use_cid; cid = cid })
  started-IsBetween use_cid cid emulator {tx} v =
      let w = started-IsValid core emulator v in
      record {
        ready = record {
          valid = record {
            buffer = w.buffer;
            frame_bound = w.frame_bound;
            expected_bit = w.expected_bit;
            picc_bit = w.picc_bit;
            command_bound = w.command_bound;
            offset_bound = w.offset_bound;
          };
          idle = refl;
          vacant = refl;
        };
        peer = refl;
        same_use = refl;
        same_cid = refl;
        alternates = refl;
      }

  -- An activation from its start. A reader with any CID or with none, that speaks first to a listener
  -- whose emulation has just started with a valid response buffer, has the CID taken over by its first
  -- block and receives the response to every command of any list that is not empty, as in a session
  -- under way: the octets that the engine's side answers to the commands joined, in order. No command
  -- is longer than the command buffer and no block is empty; the radio's buffer can be allocated
  -- throughout.
  pub converse-started :
      (use_cid : Bool) (given : ℕ) (emulator : Emulator) {tx : ByteBuf} (c : Request)
      (cs : List Request)
      → Refine.IsValid core.bytebuf_max tx
      → All (IsFitting core) (c ∷ cs)
      → let cid = own_cid use_cid given in
        let p : Peer Emulator = record { emulator = emulator; tx_buffer = tx; number = 0 } in
        let (q, responses) = answers core use_cid cid p (c ∷ cs) in
        (t : Dfc Emulator) × (converse core use_cid cid 0 (started core emulator tx) (c ∷ cs)
          ≡ some (q.number, t, responses))
        × IsBetween core use_cid cid q t
  converse-started true given emulator {tx} c cs v f =
      let s = started core emulator tx in
      let (t, e, b) =
        converse-answers core laws true given (c ∷ cs)
          {s = record s { cid_valid = true; cid = given }} (started-IsBetween true given emulator v)
          f in
      (t, converse-adopted core laws given s refl refl refl 0 c cs (omega arith) ∙ e, b)
  converse-started false given emulator {tx} c cs v f =
      converse-answers core laws false 0 (c ∷ cs) {s = started core emulator tx}
        (started-IsBetween false 0 emulator v) f

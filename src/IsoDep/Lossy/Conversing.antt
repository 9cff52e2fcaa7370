-- ===== src/IsoDep/Lossy/Conversing.antt =====
-- A conversation over a link that loses blocks and answers ends as it does over a link that loses
-- nothing, with dfc_emulator_listener.c at the other end.
use dfc_flipper.Base.{
  ℕ, ◌≡◌, refl, sym, ap, ◌∙◌, subst, true, false, List, [], ◌∷◌, ◌++◌, drop, bit_and, ==_iff,
  toggle, Bool, some, map, All, suc,
}
use dfc_flipper.IsoDep.Receive.{receive}
use dfc_flipper.IsoDep.Send.{send_i_response, advance_response, begin_response}
use dfc_flipper.Engine.{Engine, Laws}
use dfc_flipper.IsoDep.State.{block_of, Dfc, prefix_len}
use dfc_flipper.IsoDep.Respond.{Response, engine_at}
use dfc_flipper.IsoDep.Pcd.Exchanged.{IsReady, engine_at-Pending}
use dfc_flipper.Events.{Effect, frames, frames-append}
use dfc_flipper.IsoDep.Links.{IsFilled, link_pcb, link_rest, link-IsNext, link_facts}
use dfc_flipper.IsoDep.Framed.{Framed, block_of-IsBlock}
use dfc_flipper.IsoDep.Lossy.Talk.{
  IsAnswered, exchange_over, Attempt, request_of, converse_over, collect_over, collect_over-collect,
}
use dfc_flipper.IsoDep.Replay.{IsCommand, receive-handle_apdu}
use dfc_flipper.IsoDep.Apdu.{after}
use dfc_flipper.IsoDep.Delivery.{send_i_lem, begin_response-Pending}
use dfc_flipper.IsoDep.Pcd.{
  send_fields, i_block, exchange, Peer, and_then, answers, collect, answer,
}
use dfc_flipper.IsoDep.Handling.{handle_apdu_rule}
use dfc_flipper.IsoDep.Lossy.{transact-receive, prefix_len, Fate}
use dfc_flipper.IsoDep.Pcd.Conversation.{IsBetween, session_answer}
use dfc_flipper.IsoDep.Pcd.Commands.{IsFitting, exchange_step}

module _ {Emulator : Type 0} (core : Engine Emulator) (laws : Laws core) where
  send_i_response-IsAnswered :
      {s : Dfc Emulator} (r : Response Emulator)
      → IsReady core s
      → Framed core (link_pcb s.expected_pcd_block s.cid_valid false) r.tx_buffer
      → IsAnswered core laws s (send_i_response core true (engine_at s r.emulator r.tx_buffer))
  unfolding advance_response begin_response
  send_i_response-IsAnswered {s} r i f =
      let pcb = link_pcb s.expected_pcd_block s.cid_valid false in
      let (small, _, _, _, _, _) =
        link_facts s.expected_pcd_block i.valid.expected_bit s.cid_valid false in
      let q = engine_at-Pending core laws s pcb r i small f in
      let u : Dfc Emulator = begin_response core (engine_at s r.emulator r.tx_buffer) in
      let e = send_i_lem core laws q in
      record {
        under_way = u;
        answering = record {
          pending = begin_response-Pending core laws q;
          number = s.expected_pcd_block;
          number_bit = i.valid.expected_bit;
          framing = f.first;
        };
        left = ap (λ (p : Dfc Emulator × List Effect). p.0) e;
        framed = ap (λ (p : Dfc Emulator × List Effect). frames p.1) e;
        number = refl;
        same_use = refl;
        same_cid = refl;
      }

  after-IsAnswered :
      {s : Dfc Emulator} (es : List Effect) (r : Dfc Emulator × List Effect)
      → frames es ≡ []
      → IsAnswered core laws s r
      → IsAnswered core laws s (after es r)
  after-IsAnswered es r silent a = record {
    under_way = a.under_way;
    answering = a.answering;
    left = a.left;
    framed = frames-append es r.1 ∙ ap (λ fs. fs ++ frames r.1) silent ∙ a.framed;
    number = a.number;
    same_use = a.same_use;
    same_cid = a.same_cid;
  }

  -- A command in one block of the reader, at a listener between two commands.
  block-IsCommand :
      {s : Dfc Emulator} (command : List ℕ)
      → IsReady core s
      → IsFilled command
      → IsCommand core s
          (link_pcb s.expected_pcd_block s.cid_valid false)
          (link_rest s.cid_valid s.cid command)
  block-IsCommand {s} command i g =
      let pcb = link_pcb s.expected_pcd_block s.cid_valid false in
      let n = link-IsNext core laws {s = s} s.cid_valid false command refl i.valid.expected_bit g in
      let (_, _, _, _, number, chained) =
        link_facts s.expected_pcd_block i.valid.expected_bit s.cid_valid false in
      record {
        session = n.session;
        numbered = (==_iff (bit_and pcb 1) s.expected_pcd_block).1 number;
        unchained = chained;
        filled = n.filled;
        collected = i.vacant;
        idle = i.idle;
      }

  receive-IsAnswered :
      {s : Dfc Emulator} (command : List ℕ)
      → IsReady core s
      → IsFilled command
      → IsAnswered core laws s
          (receive core true s (i_block core s.cid_valid s.cid s.expected_pcd_block false command))
  unfolding block_of
  receive-IsAnswered {s} command i g =
      let pcb = link_pcb s.expected_pcd_block s.cid_valid false in
      let rest = link_rest s.cid_valid s.cid command in
      let c = block-IsCommand command i g in
      subst (λ (p : Dfc Emulator × List Effect). IsAnswered core laws s p)
        (sym (receive-handle_apdu core laws true pcb rest c))
        (handle_apdu_rule core laws true s (block_of core pcb rest)
          (block_of-IsBlock core pcb rest c.session.long_enough) (IsAnswered core laws s)
          (record {
            after_events = after-IsAnswered;
            respond = λ emulator tx f.
                send_i_response-IsAnswered
                  (record { emulator = emulator; tx_buffer = tx; events = [] }) i f;
          })
          (drop (prefix_len core pcb) (pcb ∷ rest)) i.valid)

  answered-collect :
      (fates : ℕ → List Fate) (fuel : ℕ) {s : Dfc Emulator} {r : Dfc Emulator × List Effect}
      → IsAnswered core laws s r
      → collect_over core s.cid_valid s.cid fates fuel s.expected_pcd_block r.0 (frames r.1)
        ≡ collect core s.cid_valid s.cid fuel s.expected_pcd_block r.0 (frames r.1)
  answered-collect fates fuel a =
      rw (a.left, a.framed, ← a.same_use, ← a.same_cid, ← a.number)
        (collect_over-collect core laws fates fuel a.answering)

  -- A command over the link, and over a link that loses nothing.
  exchange_over-exchange :
      {s : Dfc Emulator} (a : Attempt)
      → IsReady core s
      → s.picc_block ≡ toggle s.expected_pcd_block
      → IsFilled a.command
      → exchange_over core s.cid_valid s.cid s.expected_pcd_block s a
        ≡ exchange core s.cid_valid s.cid s.expected_pcd_block s (request_of a)
  unfolding exchange_over send_fields
  exchange_over-exchange {s} a i p g =
      let pcb = link_pcb s.expected_pcd_block s.cid_valid false in
      let rest = link_rest s.cid_valid s.cid a.command in
      let block = pcb ∷ rest in
      let e =
        transact-receive core laws pcb rest a.command_fates i.valid (block-IsCommand a.command i g)
          p in
      let take_over =
        collect_over core s.cid_valid s.cid a.frame_fates (suc core.bytebuf_max)
          s.expected_pcd_block in
      ap (λ (q : Dfc Emulator × List (List ℕ)). take_over q.0 q.1) e
      ∙ answered-collect a.frame_fates (suc core.bytebuf_max) (receive-IsAnswered a.command i g)
      ∙ sym (
          exchange_step core laws s.cid_valid s.cid s.expected_pcd_block s.expected_pcd_block s s
            (request_of a) refl)

module _ {Emulator : Type 0} (core : Engine Emulator) (s : Dfc Emulator) (a : Attempt) where
  -- The link's losses make no difference to a command.
  abbrev IsSame : Bool → ℕ → ℕ → Type 0
  IsSame use_cid cid number =
      exchange_over core use_cid cid number s a ≡ exchange core use_cid cid number s (request_of a)

module _ {Emulator : Type 0} (core : Engine Emulator) (laws : Laws core) (use_cid : Bool)
    (cid : ℕ) where
  converse_over_step :
      (number n : ℕ) (s t : Dfc Emulator) (a : Attempt) (later : List Attempt) (octets : List ℕ)
      → exchange_over core use_cid cid number s a ≡ some (n, t, octets)
      → converse_over core use_cid cid number s (a ∷ later)
        ≡ and_then core use_cid cid octets (converse_over core use_cid cid n t later)
  unfolding converse_over
  converse_over_step number n s t a later octets e = rw (e, converse_over)

  session_exchange :
      {s : Dfc Emulator} {p : Peer Emulator} (a : Attempt)
      → IsBetween core use_cid cid p s
      → IsFilled a.command
      → exchange_over core use_cid cid p.number s a
        ≡ exchange core use_cid cid p.number s (request_of a)
  session_exchange {s} {p} a b g =
      subst (λ (q : Peer Emulator). IsSame core s a use_cid cid q.number) b.peer
        (subst (λ n. IsSame core s a use_cid n s.expected_pcd_block) b.same_cid
          (subst (λ u. IsSame core s a u s.cid s.expected_pcd_block) b.same_use
            (exchange_over-exchange core laws a b.ready b.alternates g)))

  -- A conversation over a link that loses blocks and answers, with the reader of `converse-answers`, its
  -- commands in one block each. Whenever no answer comes, the reader sends R(NAK) for a command and R(ACK)
  -- again for a frame of a response. However often either side's blocks are lost, before every command and
  -- before every frame, each list of losses finite, it never gives up: it receives in order what the engine's
  -- side answers to the commands, each once and each response whole, and leaves the listener between two
  -- commands, with the emulator, the response buffer and the block number that those answers leave. The
  -- commands are within the command buffer and not empty, the listener is between two commands of a
  -- session, and the radio's buffer can be allocated throughout.
  pub converse_over-answers :
      (attempts : List Attempt) {s : Dfc Emulator} {p : Peer Emulator}
      → IsBetween core use_cid cid p s
      → All (λ a. IsFitting core (request_of a)) attempts
      → let (q, responses) = answers core use_cid cid p (map request_of attempts) in
        (t : Dfc Emulator) × (converse_over core use_cid cid p.number s attempts
          ≡ some (q.number, t, responses))
        × IsBetween core use_cid cid q t
  unfolding converse_over answers
  converse_over-answers [] {s} b f = (s, refl, b)
  converse_over-answers (a ∷ later) {s} {p} b f =
      let c = request_of a in
      let (t, e, b') = session_answer core laws use_cid cid c b f.0 in
      let (u, e', b'') = converse_over-answers later b' f.1 in
      (
        u,
        converse_over_step p.number _ s t a later _ (session_exchange a b f.0.last_filled ∙ e)
            ∙ ap (and_then core use_cid cid (answer core use_cid cid p c).1) e',
        b'',
      )

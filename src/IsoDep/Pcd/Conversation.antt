-- ===== src/IsoDep/Pcd/Conversation.antt =====
-- Whole conversations of the reader of IsoDep/Pcd with dfc_emulator_listener.c.
use dfc_flipper.Base.{ℕ, ◌≡◌, ap, Bool, some, List, [], ◌∷◌, All, refl, ◌∙◌, subst, arith, toggle}
use dfc_flipper.ByteBuf.{ByteBuf}
use dfc_flipper.Engine.{Engine, Laws}
use dfc_flipper.IsoDep.State.{Dfc}
use dfc_flipper.IsoDep.Pcd.{Request, exchange, peer_of, Peer, converse, answer, answers, and_then}
use dfc_flipper.IsoDep.Pcd.Exchanged.{IsReady}
use dfc_flipper.IsoDep.Pcd.Commands.{IsFitting, exchange-response}

module _ {Emulator : Type 0} (core : Engine Emulator) (use_cid : Bool) (cid : ℕ) where
  -- The listener between two commands of a session, with `p` for its engine's side.
  pub record IsBetween (p : Peer Emulator) (t : Dfc Emulator) : Type 0 where
    pub ready : IsReady core t
    pub peer : peer_of t ≡ p
    pub same_use : t.cid_valid ≡ use_cid
    pub same_cid : t.cid ≡ cid
    pub alternates : t.picc_block ≡ toggle t.expected_pcd_block

module _ {Emulator : Type 0} (core : Engine Emulator) (s : Dfc Emulator) (c : Request) where
  -- The command is answered as the engine's side answers it.
  abbrev pub IsExchanged : Bool → ℕ → Peer Emulator → Type 0
  IsExchanged use_cid cid p =
      let (q, octets) = answer core use_cid cid p c in
      (t : Dfc Emulator) × (exchange core use_cid cid p.number s c ≡ some (q.number, t, octets))
      × IsBetween core use_cid cid q t

peer_eq :
    {Emulator : Type 0} (t : Dfc Emulator) {emulator : Emulator} {tx : ByteBuf} {n : ℕ}
    → t.emulator ≡ emulator
    → t.tx_buffer ≡ tx
    → t.expected_pcd_block ≡ n
    → peer_of t ≡ record { emulator = emulator; tx_buffer = tx; number = n }
peer_eq t a b c = ground (arith, a, b, c)

module _ {Emulator : Type 0} (core : Engine Emulator) (laws : Laws core) where
  exchange-answer :
      {s : Dfc Emulator} (c : Request)
      → IsReady core s
      → IsFitting core c
      → IsExchanged core s c s.cid_valid s.cid (peer_of s)
  unfolding answer
  exchange-answer {s} c i f =
      let a = exchange-response core laws c i f in
      (
        a.next,
        a.returned
            ∙ ap (λ n. some (n, a.next, (answer core s.cid_valid s.cid (peer_of s) c).1)) a.number,
        record {
          ready = a.ready;
          peer = peer_eq a.next a.emulator a.tx_buffer a.number;
          same_use = a.cid_valid;
          same_cid = a.cid;
          alternates = a.alternates;
        },
      )

  pub session_answer :
      (use_cid : Bool) (cid : ℕ) {s : Dfc Emulator} {p : Peer Emulator} (c : Request)
      → IsBetween core use_cid cid p s
      → IsFitting core c
      → IsExchanged core s c use_cid cid p
  session_answer use_cid cid {s} {p} c b f =
      subst (λ q. IsExchanged core s c use_cid cid q) b.peer
        (subst (λ n. IsExchanged core s c use_cid n (peer_of s)) b.same_cid
          (subst (λ u. IsExchanged core s c u s.cid (peer_of s)) b.same_use
            (exchange-answer c b.ready f)))

module _ {Emulator : Type 0} (core : Engine Emulator) (laws : Laws core) (use_cid : Bool)
    (cid : ℕ) where
  pub converse_step :
      (number n : ℕ) (s t : Dfc Emulator) (c : Request) (cs : List Request) (octets : List ℕ)
      → exchange core use_cid cid number s c ≡ some (n, t, octets)
      → converse core use_cid cid number s (c ∷ cs)
        ≡ and_then core use_cid cid octets (converse core use_cid cid n t cs)
  unfolding converse
  converse_step number n s t c cs octets e = rw (e, converse)

  -- A conversation. The reader keeps its own block number, cuts its commands into chained blocks as it
  -- likes, checks that every block is acknowledged and that every frame of a response is the next one,
  -- and gives up otherwise. From a listener between two commands of a session it never gives up: for
  -- commands within the command buffer, with no empty block, it receives in order what the engine's side
  -- answers to the commands joined, each response whole, and leaves the listener between two commands,
  -- with the emulator, the response buffer and the block number that those answers leave. The radio's
  -- buffer can be allocated throughout.
  pub converse-answers :
      (cs : List Request) {s : Dfc Emulator} {p : Peer Emulator}
      → IsBetween core use_cid cid p s
      → All (IsFitting core) cs
      → let (q, responses) = answers core use_cid cid p cs in
        (t : Dfc Emulator) × (converse core use_cid cid p.number s cs
          ≡ some (q.number, t, responses))
        × IsBetween core use_cid cid q t
  unfolding converse answers
  converse-answers [] {s} b f = (s, refl, b)
  converse-answers (c ∷ cs) {s} {p} b f =
      let (t, e, b') = session_answer core laws use_cid cid c b f.0 in
      let (u, e', b'') = converse-answers cs b' f.1 in
      (
        u,
        converse_step p.number _ s t c cs _ e
            ∙ ap (and_then core use_cid cid (answer core use_cid cid p c).1) e',
        b'',
      )

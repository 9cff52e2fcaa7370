-- ===== src/IsoDep/Pcd.antt =====
-- A reader of ISO/IEC 14443-4 at the other end of dfc_emulator_listener.c: it keeps its own block
-- number, checks every answer, and gives up at one that it does not expect. And what its commands are
-- answered with, as a function of the engine's side alone.
pub mod Expected
pub mod Collected
pub mod Fields
pub mod Exchanged
pub mod Commands
pub mod Conversation
pub mod Opening
use dfc_flipper.Base.{
  ℕ, zero, suc, ◌-◌, bit_and, bit_or, Bool, true, false, not, ◌&&◌, xor, Option, none, some, List,
  [], ◌∷◌, ◌++◌, leb, ◌==◌, if◌then◌else◌, length, get_or, drop, has, toggle,
}
use dfc_flipper.Engine.{Engine}
use dfc_flipper.ByteBuf.{ByteBuf, contents, append_to, reset}
use dfc_flipper.IsoDep.Receive.{receive}
use dfc_flipper.IsoDep.State.{Dfc, iso_dep_frame_max}
use dfc_flipper.IsoDep.Links.{link_pcb, toggles, join, link_rest}
use dfc_flipper.IsoDep.Respond.{Response, response_to}
use dfc_flipper.IsoDep.Ack.{ack_of}
use dfc_flipper.Events.{frames}
use dfc_flipper.IsoDep.Frames.{info}

-- A command, cut into the fields of chained blocks and the last block.
pub record Request : Type 0 where
  pub fields : List (List ℕ)
  pub last : List ℕ

-- What the engine's side is between two commands, with the number of the next block.
pub record Peer (Emulator : Type 0) : Type 0 where
  pub emulator : Emulator
  pub tx_buffer : ByteBuf
  pub number : ℕ

abbrev pub peer_of : {Emulator : Type 0} → Dfc Emulator → Peer Emulator
peer_of s = record { emulator = s.emulator; tx_buffer = s.tx_buffer; number = s.expected_pcd_block }

-- The block number after a response of `n` octets in frames that carry at most `room` of them.
unfoldable pub number_after : ℕ → ℕ → ℕ → ℕ → ℕ
number_after zero room number n = toggle number
number_after (suc fuel) room number n =
    let rest = number_after fuel room (toggle number) (n - room) in
    if leb n room then toggle number else rest

module _ {Emulator : Type 0} (core : Engine Emulator) (use_cid : Bool) (cid : ℕ) where
  abbrev pub i_block : ℕ → Bool → List ℕ → List ℕ
  i_block number chained field = link_pcb number use_cid chained ∷ link_rest use_cid cid field

  -- Whether the answer to a chained block is R(ACK) with its number.
  abbrev pub is_acked : ℕ → List (List ℕ) → Bool
  is_acked number [] = false
  is_acked number (f ∷ fs) = bit_and (get_or f 0 0) 0xF7 == bit_or 0xA2 number

  -- Whether a frame is an I-block with that number, with a CID just when the reader uses one.
  abbrev pub is_i_block : ℕ → List ℕ → Bool
  is_i_block number f =
      let pcb = get_or f 0 0 in
      bit_and pcb 0xE2 == 0x02
      && (bit_and pcb 1 == number && not (xor (has pcb core.cid_mask) use_cid))

  unfoldable pub send_fields : ℕ → Dfc Emulator → List (List ℕ) → Option (ℕ × Dfc Emulator)
  send_fields number s [] = some (number, s)
  send_fields number s (field ∷ fields) =
      let (t, out) = receive core true s (i_block number true field) in
      let rest = send_fields (toggle number) t fields in
      if is_acked number (frames out) then rest else none

  -- The octets of a response, with the octets of a frame before them.
  abbrev pub behind :
      List ℕ → Option (ℕ × Dfc Emulator × List ℕ) → Option (ℕ × Dfc Emulator × List ℕ)
  behind octets none = none
  behind octets (some (number, s, more)) = some (number, s, octets ++ more)

  -- A response from its first frame on: every frame that announces another is acknowledged.
  unfoldable pub collect : ℕ → ℕ → Dfc Emulator → List (List ℕ) → Option (ℕ × Dfc Emulator × List ℕ)
  collect zero number s fs = none
  collect (suc fuel) number s [] = none
  collect (suc fuel) number s (f ∷ fs) =
      let (t, out) = receive core true s (ack_of use_cid number cid) in
      let rest = behind (info core f) (collect fuel (toggle number) t (frames out)) in
      if not (is_i_block number f)
      then none
      else if has (get_or f 0 0) 0x10
      then rest
      else some (toggle number, s, info core f)

  unfoldable pub exchange : ℕ → Dfc Emulator → Request → Option (ℕ × Dfc Emulator × List ℕ)
  exchange number s c = elim (send_fields number s c.fields) [
    | none ↦ none
    | some (n, t) ↦
        let (u, out) = receive core true t (i_block n false c.last) in
        collect (suc core.bytebuf_max) n u (frames out)
  ]

  abbrev pub and_then :
      List ℕ → Option (ℕ × Dfc Emulator × List (List ℕ)) → Option (ℕ × Dfc Emulator × List (List ℕ))
  and_then octets none = none
  and_then octets (some (number, s, responses)) = some (number, s, octets ∷ responses)

  -- Commands one after the other: the reader's number, the listener, and the responses.
  unfoldable pub converse :
      ℕ → Dfc Emulator → List Request → Option (ℕ × Dfc Emulator × List (List ℕ))
  converse number s [] = some (number, s, [])
  converse number s (c ∷ cs) = elim (exchange number s c) [
    | none ↦ none
    | some (n, t, octets) ↦ and_then octets (converse n t cs)
  ]

  -- What the engine's side answers to a command whose last block has the number `number`.
  abbrev pub response : ℕ → Peer Emulator → List ℕ → Response Emulator
  response number p command =
      let framing = link_pcb number use_cid false ∷ link_rest use_cid cid [] in
      response_to core (length framing) p.emulator
        (append_to core.bytebuf_max (reset p.tx_buffer) (some framing) (length framing)) command

  abbrev pub framing_len : ℕ
  framing_len = if use_cid then 2 else 1

  -- One command answered: the response without its framing.
  unfoldable pub answer : Peer Emulator → Request → Peer Emulator × List ℕ
  answer p c =
      let n = toggles c.fields p.number in
      let r = response n p (join c.fields ++ c.last) in
      let octets = drop framing_len (contents r.tx_buffer) in
      (
        record {
          emulator = r.emulator;
          tx_buffer = r.tx_buffer;
          number =
              number_after (suc core.bytebuf_max) (iso_dep_frame_max - framing_len) n
                (r.tx_buffer.size_bytes - framing_len);
        },
        octets,
      )

  unfoldable pub answers : Peer Emulator → List Request → Peer Emulator × List (List ℕ)
  answers p [] = (p, [])
  answers p (c ∷ cs) =
      let (q, octets) = answer p c in let (r, responses) = answers q cs in (r, octets ∷ responses)

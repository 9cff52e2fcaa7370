-- ===== src/IsoDep/Framed.antt =====
-- The response buffer while a command is handled: it always begins with the PCB and CID that the
-- listener put there, and holds them whole.
use dfc_flipper.Base.{
  ℕ, suc, ◌+◌, ◌≤◌, ◌≡◌, refl, sym, ap, ◌∙◌, subst, some, List, [], ◌∷◌, ◌++◌, inl, inr, arith,
  if◌then◌else◌, ltb, leb, Bool-cases, Option-cases, length, take, get_or, length-append,
  length-take, take_all, get_or-take, append-nil,
}
use dfc_flipper.ByteBuf.{ByteBuf, append_to, append_byte, reset, contents}
use dfc_flipper.ByteBuf.Refine.{
  IsValid, length-contents, append_to_refines, append_byte-append_to, reset-IsValid,
}
use dfc_flipper.Engine.{Engine, Laws, Extends}
use dfc_flipper.IsoDep.State.{Dfc, Block, prefix_len, block_of}
use dfc_flipper.IsoDep.Apdu.{with_prefix, rewrap}

module _ {Emulator : Type 0} (core : Engine Emulator) where
  pub record Framed (pcb : ℕ) (tx : ByteBuf) : Type 0 where
    pub valid : IsValid core.bytebuf_max tx
    pub first : get_or tx.octets 0 0 ≡ pcb
    pub whole : prefix_len core pcb ≤ tx.size_bytes

get_or-append : (xs ys : List ℕ) (n : ℕ) → suc n ≤ length xs → get_or (xs ++ ys) 0 0 ≡ get_or xs 0 0
get_or-append [] ys n h = absurd (omega arith)
get_or-append (x ∷ xs) ys n h = refl

module _ {Emulator : Type 0} (core : Engine Emulator) where
  open core use {bytebuf_max}

  prefix_pos : (pcb : ℕ) → 1 ≤ prefix_len core pcb
  prefix_pos pcb = ground arith

  -- A buffer whose contents extend a framed one's is framed.
  extended_prefix :
      {pcb : ℕ} {before after : ByteBuf} (written : List ℕ)
      → Framed core pcb before
      → IsValid bytebuf_max after
      → contents after ≡ contents before ++ written
      → Framed core pcb after
  extended_prefix {pcb} {before} {after} written f v e = record {
    valid = v;
    first =
        sym (get_or-take after.size_bytes after.octets 0 0 (omega (arith, grows, prefix_pos pcb)))
        ∙ ap (λ xs. get_or xs 0 0) e
        ∙ get_or-append (contents before) written 0 (omega (arith, old, prefix_pos pcb))
        ∙ get_or-take before.size_bytes before.octets 0 0 (omega (arith, prefix_pos pcb))
        ∙ f.first;
    whole = omega (arith, grows);
  }
    where
      old : length (contents before) ≡ before.size_bytes
      old = length-contents bytebuf_max before f.valid

      grows : before.size_bytes ≤ after.size_bytes
      grows = omega (
        arith,
        old,
        length-contents bytebuf_max after v,
        ap length e,
        length-append (contents before) written,
      )

  pub Extends-Framed :
      {pcb : ℕ} {before after : ByteBuf}
      → Framed core pcb before
      → Extends bytebuf_max before after
      → Framed core pcb after
  Extends-Framed f x = extended_prefix x.written f x.valid x.appended

  pub append_byte-Framed :
      {pcb : ℕ} {tx : ByteBuf} (byte : ℕ)
      → Framed core pcb tx
      → Framed core pcb (append_byte bytebuf_max tx byte)
  append_byte-Framed {pcb} {tx} byte f =
      rw (append_byte-append_to bytebuf_max tx byte f.valid)
        (elim (Bool-cases (leb (tx.size_bytes + 1) bytebuf_max)) [
          | inl fits ↦ extended_prefix (byte ∷ []) f appended.0 (rw fits at appended.1)
          | inr full ↦
              extended_prefix [] f appended.0 ((rw full at appended.1) ∙ sym (append-nil _))
        ])
    where
      appended :
          IsValid bytebuf_max (append_to bytebuf_max tx (some (byte ∷ [])) 1)
          × (contents (append_to bytebuf_max tx (some (byte ∷ [])) 1) ≡ (
              if leb (tx.size_bytes + 1) bytebuf_max
              then contents tx ++ byte ∷ []
              else contents tx))
      appended = append_to_refines bytebuf_max tx (byte ∷ []) f.valid

  -- A block that the callback takes apart: its prefix is there.
  pub record IsBlock (b : Block) : Type 0 where
    pub head : get_or b.rx_data 0 0 ≡ b.pcb
    pub prefixed : b.offset ≡ prefix_len core b.pcb
    pub long_enough : b.offset ≤ length b.rx_data

  pub block_of-IsBlock :
      (pcb : ℕ) (rest : List ℕ)
      → prefix_len core pcb ≤ length (pcb ∷ rest)
      → IsBlock (block_of core pcb rest)
  unfolding block_of
  block_of-IsBlock pcb rest h = record { head = refl; prefixed = refl; long_enough = h }

take-take : (n : ℕ) (xs : List ℕ) → take n (take n xs) ≡ take n xs
take-take n xs = take_all n (take n xs) (omega (arith, length-take n xs))

pub append_to-take :
    (m : ℕ) (b : ByteBuf) (src : List ℕ) (n : ℕ)
    → append_to m b (some src) n ≡ append_to m b (some (take n src)) n
unfolding append_to
append_to-take m b src n = rw take-take

framed_start : (n : ℕ) (xs : List ℕ) → 1 ≤ n → get_or (take n xs) 0 0 ≡ get_or xs 0 0
framed_start n xs h = get_or-take n xs 0 0 (omega arith)

module _ {Emulator : Type 0} (core : Engine Emulator) (laws : Laws core) where
  open core use {bytebuf_max}

  -- Octets that begin like a framed buffer, written to an empty one, make a framed one.
  fresh_prefix :
      (pcb : ℕ) (tx : ByteBuf) (src : List ℕ)
      → IsValid bytebuf_max tx
      → length src ≤ bytebuf_max
      → prefix_len core pcb ≤ length src
      → get_or src 0 0 ≡ pcb
      → Framed core pcb (append_to bytebuf_max (reset tx) (some src) (length src))
  unfolding reset
  fresh_prefix pcb tx src v fits long head = record {
    valid = fresh.0;
    first =
        sym
          (get_or-take after.size_bytes after.octets 0 0 (omega (arith, size, prefix_pos core pcb)))
        ∙ ap (λ xs. get_or xs 0 0) content
        ∙ head;
    whole = omega (arith, size);
  }
    where
      after : ByteBuf
      after = append_to bytebuf_max (reset tx) (some src) (length src)

      fresh :
          IsValid bytebuf_max after
          × (contents after ≡ (
              if leb (0 + length src) bytebuf_max
              then contents (reset tx) ++ src
              else contents (reset tx)))
      fresh = append_to_refines bytebuf_max (reset tx) src (reset-IsValid bytebuf_max v)

      content : contents after ≡ src
      content = ground (arith, fresh.1)

      size : after.size_bytes ≡ length src
      size = omega (arith, length-contents bytebuf_max after fresh.0, ap length content)

  pub with_prefix-Framed :
      (s : Dfc Emulator) {b : Block}
      → IsBlock core b
      → IsValid bytebuf_max s.tx_buffer
      → Framed core b.pcb (with_prefix core s b).tx_buffer
  unfolding with_prefix
  with_prefix-Framed s {b} w v = rw append_to-take (
      subst
        (λ n.
          Framed core b.pcb
            (append_to bytebuf_max (reset s.tx_buffer) (some (take b.offset b.rx_data)) n))
        size
        (fresh_prefix b.pcb s.tx_buffer (take b.offset b.rx_data) v
          (omega (arith, size, laws.frame_fits, prefix_small)) (omega (arith, size, w.prefixed))
          (framed_start b.offset b.rx_data (omega (arith, w.prefixed, prefix_pos core b.pcb))
            ∙ w.head)))
    where
      size : length (take b.offset b.rx_data) ≡ b.offset
      size = omega (arith, length-take b.offset b.rx_data, w.long_enough)

      prefix_small : b.offset ≤ 2
      prefix_small = rw w.prefixed (ground arith)

  pub rewrap-Framed :
      (offset pcb : ℕ) {tx : ByteBuf}
      → offset ≡ prefix_len core pcb
      → Framed core pcb tx
      → Framed core pcb (rewrap core offset tx)
  unfolding rewrap
  rewrap-Framed offset pcb {tx} o f = elim (Bool-cases (ltb offset tx.size_bytes)) [
    | inr e ↦ rw e f
    | inl e ↦
        rw e
          (elim (Option-cases (
            core.wrap_native_response_as_iso7816 (contents tx) offset
              core.worker_max_buffer_size)) [
                | inl q ↦ rw q f
                | inr (out, q) ↦ rw q (wrapped out q)
              ])
  ]
    where
      wrapped :
          (out : List ℕ)
          → core.wrap_native_response_as_iso7816 (contents tx) offset core.worker_max_buffer_size
            ≡ some out
          → Framed core pcb (append_to bytebuf_max (reset tx) (some out) (length out))
      wrapped out q =
          let (written, e) = laws.wrap_keeps_prefix (contents tx) offset _ out q in
          let size = length-contents bytebuf_max tx f.valid in
          let taken = length-take offset (contents tx) in
          fresh_prefix pcb tx out f.valid
            (omega (arith, laws.wrap_bounded (contents tx) offset _ out q, laws.command_fits))
            (omega (
              arith,
              o,
              ap length e,
              length-append (take offset (contents tx)) written,
              taken,
              size,
            ))
            (ap (λ xs. get_or xs 0 0) e
              ∙ get_or-append (take offset (contents tx)) written 0
                  (omega (arith, o, taken, size, prefix_pos core pcb))
              ∙ framed_start offset (contents tx) (omega (arith, o, prefix_pos core pcb))
              ∙ get_or-take tx.size_bytes tx.octets 0 0 (omega (arith, prefix_pos core pcb))
              ∙ f.first)

-- ===== src/ByteBuf/Refine.antt =====
-- The buffer of port/dfc_bytebuf_flipper.c refines a string of at most DFC_BYTEBUF_MAX octets.
use dfc_flipper.Base.{
  ℕ, zero, suc, ◌+◌, ◌≤◌, ◌<◌, ◌≡◌, refl, ap, ◌∙◌, Bool, none, some, List, [], ◌∷◌, ◌++◌, inl, inr,
  arith, if◌then◌else◌, ltb, leb, Bool-cases, length, take, drop, get_or, set, length-append,
  length-take, length-drop, length-replicate, take_all, get_or-take, get_or_past,
}
use dfc_flipper.ByteBuf.{
  ByteBuf, overwrite, alloc, append_to, append_byte, reset, get_byte, contents,
}

pub record IsValid (bytebuf_max : ℕ) (b : ByteBuf) : Type 0 where
  pub array : length b.octets ≡ bytebuf_max
  pub in_use : b.size_bytes ≤ bytebuf_max

pub length-contents : (m : ℕ) (b : ByteBuf) → IsValid m b → length (contents b) ≡ b.size_bytes
length-contents m b v = omega (arith, length-take b.size_bytes b.octets)

length-overwrite :
    (xs : List ℕ) (at : ℕ) (ys : List ℕ)
    → at + length ys ≤ length xs
    → length (overwrite xs at ys (length ys)) ≡ length xs
length-overwrite xs at ys h = omega (
  arith,
  length-append (take at xs) (take (length ys) ys ++ drop (at + length ys) xs),
  length-append (take (length ys) ys) (drop (at + length ys) xs),
  length-take at xs,
  length-take (length ys) ys,
  length-drop (at + length ys) xs,
)

take_within : (n : ℕ) (xs ys : List ℕ) → n ≤ length xs → take n (xs ++ ys) ≡ take n xs
take_within zero xs ys h = refl
take_within (suc n) [] ys h = absurd (omega arith)
take_within (suc n) (x ∷ xs) ys h = ap (◌∷◌ x) (take_within n xs ys (omega arith))

take-append_add :
    (xs ys : List ℕ) (k n : ℕ) → k ≡ length xs → take (k + n) (xs ++ ys) ≡ xs ++ take n ys
take-append_add [] ys k n h = ap (λ j. take j ys) (omega arith)
take-append_add (x ∷ xs) ys zero n h = absurd (omega arith)
take-append_add (x ∷ xs) ys (suc k) n h =
    ap (λ j. take j (x ∷ xs ++ ys)) (suc_add k n)
    ∙ ap (◌∷◌ x) (take-append_add xs ys k n (omega arith))
  where
    suc_add : (a b : ℕ) → suc a + b ≡ suc (a + b)
    suc_add a b = omega arith

-- The copy appends its octets to those in use.
contents-overwrite :
    (xs : List ℕ) (at : ℕ) (ys : List ℕ)
    → at + length ys ≤ length xs
    → take (at + length ys) (overwrite xs at ys (length ys)) ≡ take at xs ++ ys
contents-overwrite xs at ys h =
    take-append_add (take at xs) _ at (length ys) (omega (arith, length-take at xs))
    ∙ ap (◌++◌ (take at xs)) (
        rw (take_all (length ys) ys (omega arith)) (
          take_within (length ys) ys (drop (at + length ys) xs) (omega arith)
          ∙ take_all (length ys) ys (omega arith)))

module _ (m : ℕ) where
  -- In a valid buffer `dfc_bytebuf_append_bytes` of a whole string appends it to the contents where it
  -- fits in the capacity, and leaves the contents as they are where it does not; the buffer stays
  -- valid.
  pub append_to_refines :
      (b : ByteBuf) (ys : List ℕ)
      → IsValid m b
      → IsValid m (append_to m b (some ys) (length ys))
        × (contents (append_to m b (some ys) (length ys))
            ≡ (if leb (b.size_bytes + length ys) m then contents b ++ ys else contents b))
  unfolding append_to
  append_to_refines b ys v = elim (Bool-cases (leb (b.size_bytes + length ys) m)) [
    | inl fits ↦ (
      ground (arith, length-overwrite b.octets b.size_bytes ys),
      ground (arith, contents-overwrite b.octets b.size_bytes ys),
    )
    | inr over ↦ (ground arith, ground arith)
  ]

set-overwrite : (xs : List ℕ) (at v : ℕ) → at < length xs → set xs at v ≡ overwrite xs at (v ∷ []) 1
set-overwrite [] at v h = absurd (omega arith)
set-overwrite (x ∷ xs) zero v h = refl
set-overwrite (x ∷ xs) (suc at) v h =
    ap (◌∷◌ x) (set-overwrite xs at v (omega arith))
    ∙ ap (λ k. x ∷ take at xs ++ (v ∷ drop k (x ∷ xs))) (suc_one at)
  where
    suc_one : (n : ℕ) → suc (n + 1) ≡ suc n + 1
    suc_one n = omega arith

module _ (m : ℕ) where
  -- On a valid buffer `dfc_bytebuf_append_byte` is `dfc_bytebuf_append_bytes` of one octet.
  pub append_byte-append_to :
      (b : ByteBuf) (byte : ℕ)
      → IsValid m b
      → append_byte m b byte ≡ append_to m b (some (byte ∷ [])) 1
  unfolding append_byte append_to
  append_byte-append_to b byte v = ground (arith, set-overwrite b.octets b.size_bytes byte)

  -- `dfc_bytebuf_alloc` and `dfc_bytebuf_reset` give valid empty buffers.
  pub alloc-IsValid :
      (malloc_ok : Bool) (max_size : ℕ) {b : ByteBuf}
      → alloc m malloc_ok max_size ≡ some b
      → IsValid m b × (contents b ≡ []) × (max_size ≤ m)
  unfolding alloc
  alloc-IsValid ok max_size e = ground (arith, length-replicate {A = ℕ} m 0)

  pub reset-IsValid : {b : ByteBuf} → IsValid m b → IsValid m (reset b)
  unfolding reset
  reset-IsValid v = ground arith

-- `dfc_bytebuf_get_byte` reads the octets in use and answers 0 past them and for NULL.
pub get_byte_refines :
    (b : ByteBuf) (index : ℕ)
    → (get_byte (some b) index ≡ get_or (contents b) index 0) × (get_byte none index ≡ 0)
unfolding get_byte
get_byte_refines b index = (
  elim (Bool-cases (ltb index b.size_bytes)) [
    | inl e ↦ ground (arith, get_or-take b.size_bytes b.octets index 0)
    | inr e ↦
        ground (
          arith,
          get_or_past (take b.size_bytes b.octets) index 0,
          length-take b.size_bytes b.octets,
        )
  ],
  refl,
)

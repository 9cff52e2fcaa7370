-- ===== src/About/Width.antt =====
-- The lines of the about text fit the text box.
use dfc_flipper.Base.{
  ℕ, zero, suc, ◌+◌, ◌-◌, ◌≤◌, ◌≡◌, refl, ap, ◌∙◌, inl, inr, Bool, true, false, ◌&&◌, List, [], ◌∷◌,
  ◌++◌, append_assoc, arith, ltb, leb, ◌==◌, if◌then◌else◌, Bool-cases, length, replicate, All,
  length-append,
}
use dfc_flipper.About.{lay_out, space, line_width, line, text_length}

-- Whether no line is wider than 24 characters, from column `k` on.
abbrev pub within : ℕ → List ℕ → Bool
within k [] = leb k line_width
within k (c ∷ cs) = elim (c == 0x0A) [
  | true ↦ leb k line_width && within 0 cs
  | false ↦ within (k + 1) cs
]

-- A word of the line's width at most, without a newline.
pub record IsWord (w : List ℕ) : Type 0 where
  pub plain : All (λ c. (c == 0x0A) ≡ false) w
  pub short : length w ≤ line_width

abbrev IsPlain : List ℕ → Type 0
IsPlain w = All (λ c. (c == 0x0A) ≡ false) w

within-plain : (w ys : List ℕ) (k : ℕ) → IsPlain w → within k (w ++ ys) ≡ within (k + length w) ys
within-plain [] ys k p = ap (λ n. within n ys) (omega arith)
within-plain (c ∷ cs) ys k p =
    rw (p.0, within) (within-plain cs ys (k + 1) p.1 ∙ ap (λ n. within n ys) (omega arith))

IsPlain-append : (v w : List ℕ) → IsPlain v → IsPlain w → IsPlain (v ++ w)
IsPlain-append [] w p q = q
IsPlain-append (c ∷ cs) w p q = (p.0, IsPlain-append cs w p.1 q)

IsPlain-spaces : (n : ℕ) → IsPlain (replicate n space)
IsPlain-spaces zero = tt
IsPlain-spaces (suc n) = (refl, IsPlain-spaces n)

lay_out-IsPlain :
    (b e i : ℕ) (words : List (List ℕ)) → All IsWord words → IsPlain (lay_out b e i words)
unfolding lay_out
lay_out-IsPlain b e i [] p = tt
lay_out-IsPlain b e i (w ∷ []) p = p.0.plain
lay_out-IsPlain b e i (w ∷ v ∷ ws) p =
    let gap = b + (if ltb i e then 1 else 0) in
    IsPlain-append w (replicate gap space ++ lay_out b e (i + 1) (v ∷ ws)) p.0.plain (
      IsPlain-append (replicate gap space) (lay_out b e (i + 1) (v ∷ ws)) (IsPlain-spaces gap)
        (lay_out-IsPlain b e (i + 1) (v ∷ ws) p.1))

within-laid :
    (b e : ℕ) (words : List (List ℕ)) (ys : List ℕ)
    → All IsWord words
    → length (lay_out b e 0 words ++ 0x0A ∷ []) ≤ line_width + 1
    → within 0 ((lay_out b e 0 words ++ 0x0A ∷ []) ++ ys) ≡ within 0 ys
within-laid b e words ys p h =
    let laid = lay_out b e 0 words in
    let short : leb (0 + length laid) line_width ≡ true =
      ground (arith, h, length-append laid (0x0A ∷ [])) in
    ap (within 0) (append_assoc laid (0x0A ∷ []) ys)
    ∙ within-plain laid (0x0A ∷ ys) 0 (lay_out-IsPlain b e 0 words p)
    ∙ ap (λ s. s && within 0 ys) short

pub within-line :
    (words : List (List ℕ)) (justify : Bool) (ys : List ℕ)
    → All IsWord words
    → length (line words justify) ≤ line_width + 1
    → within 0 (line words justify ++ ys) ≡ within 0 ys
unfolding line
within-line words justify ys p =
    let gaps = length words - 1 in
    elim (Bool-cases (justify && (ltb 0 gaps && ltb (text_length words + gaps) line_width))) [
      | inl c ↦ rw (c, line) (within-laid _ _ words ys p)
      | inr c ↦ rw (c, line) (within-laid _ _ words ys p)
    ]

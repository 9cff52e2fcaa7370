-- ===== src/About/Lines.antt =====
-- The width of a line that `dfc_about_append_line` appends.
use dfc_flipper.Base.{
  ℕ, zero, suc, ◌+◌, ◌-◌, ◌*◌, min, ◌≡◌, refl, ap, List, [], ◌∷◌, arith, ltb, if◌then◌else◌, length,
  length-append, ◌/◌, ◌%◌, ◌≤◌, Bool, ◌&&◌, ◌++◌, replicate, length-replicate, ◌<◌, inl, inr,
  Bool-cases,
}
use native.Mathlib.Nat.{div-add-mod', mod-lt}
use dfc_flipper.About.{line, lay_out, text_length, line_width, space}

-- A gap has `b` spaces, and one more where its index is below `e`.
abbrev gap_sum : ℕ → ℕ → ℕ → ℕ → ℕ
gap_sum b e i zero = 0
gap_sum b e i (suc n) = b + (if ltb i e then 1 else 0) + gap_sum b e (i + 1) n

gap_sum_lem : (b e i n : ℕ) → gap_sum b e i n ≡ n * b + min (e - i) n
gap_sum_lem b e i zero = omega arith
gap_sum_lem b e i (suc n) = ground (arith, gap_sum_lem b e (i + 1) n)

length-lay_out :
    (b e i : ℕ) (words : List (List ℕ))
    → length (lay_out b e i words) ≡ text_length words + gap_sum b e i (length words - 1)
unfolding lay_out text_length
length-lay_out b e i [] = refl
length-lay_out b e i (w ∷ []) = omega arith
length-lay_out b e i (w ∷ v ∷ ws) =
    let gap = replicate (b + (if ltb i e then 1 else 0)) space in
    let rest = lay_out b e (i + 1) (v ∷ ws) in
    let total = length-append w (gap ++ rest) in
    let inner = length-append gap rest in
    let blanks = length-replicate (b + (if ltb i e then 1 else 0)) space in
    let rest_length = length-lay_out b e (i + 1) (v ∷ ws) in
    let shape : length (lay_out b e i (w ∷ v ∷ ws)) ≡ length (w ++ (gap ++ rest)) = refl in
    let gaps : length (w ∷ v ∷ ws) - 1 ≡ suc (length (v ∷ ws) - 1) = omega arith in
    let unrolled = ap (gap_sum b e i) gaps in
    omega (arith, total, inner, blanks, rest_length, shape, unrolled)

length-lay_out_justified :
    (words : List (List ℕ))
    → 1 < length words
    → text_length words + (length words - 1) < line_width
    → length (
        lay_out
          ((line_width - text_length words) / (length words - 1))
          ((line_width - text_length words) % (length words - 1))
          0
          words)
      ≡ line_width
length-lay_out_justified words g h =
    let gaps = length words - 1 in
    let spaces = line_width - text_length words in
    let whole = div-add-mod' spaces gaps in
    let below = mod-lt spaces {m = gaps} (omega arith) in
    let wide = length-lay_out (spaces / gaps) (spaces % gaps) 0 words in
    let sum = gap_sum_lem (spaces / gaps) (spaces % gaps) 0 gaps in
    omega (arith, whole, below, wide, sum)

length-lay_out_single :
    (words : List (List ℕ))
    → length (lay_out (if ltb 0 (length words - 1) then 1 else 0) 0 0 words)
      ≡ text_length words + (length words - 1)
length-lay_out_single words =
    let gaps = length words - 1 in
    let single = if ltb 0 gaps then 1 else 0 in
    let natural = length-lay_out single 0 0 words in
    let sum = gap_sum_lem single 0 0 gaps in
    let product : gaps * single ≡ gaps = ground arith in omega (arith, natural, sum, product)

-- A line whose words and single spaces fit in 24 characters has 24 where it is justified and has two
-- words at least, and just those otherwise, and a newline after them.
pub length-line :
    (words : List (List ℕ)) (justify : Bool)
    → text_length words + (length words - 1) ≤ line_width
    → length (line words justify)
      ≡ (if justify && ltb 1 (length words)
          then line_width
          else text_length words + (length words - 1))
        + 1
unfolding line
length-line words justify h =
    let gaps = length words - 1 in
    let spaces = line_width - text_length words in
    let wide_line = lay_out (spaces / gaps) (spaces % gaps) 0 words in
    let single_line = lay_out (if ltb 0 gaps then 1 else 0) 0 0 words in
    let single = length-lay_out_single words in
    elim (Bool-cases (justify && (ltb 0 gaps && ltb (text_length words + gaps) line_width))) [
      | inl c ↦
          let wide = length-lay_out_justified words (ground (arith, c)) (ground (arith, c)) in
          rw (c, line) (ground (arith, c, wide, length-append wide_line (0x0A ∷ [])))
      | inr c ↦ rw (c, line) (ground (arith, c, h, single, length-append single_line (0x0A ∷ [])))
    ]

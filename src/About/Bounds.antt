-- ===== src/About/Bounds.antt =====
-- The loop of `dfc_about_append_paragraph`: each round takes a word, and its arrays are long enough.
use dfc_flipper.Base.{
  ℕ, zero, suc, ◌+◌, ◌-◌, ◌≤◌, ◌<◌, ◌≡◌, ◌⊎◌, inl, inr, false, ◌&&◌, List, [], ◌∷◌, ◌++◌, arith,
  ltb, ◌==◌, if◌then◌else◌, Bool-cases, if_rule, length, take, drop, All, length-append,
  length-take, length-drop, refl,
}
use dfc_flipper.About.{
  text_length, Wrapping, wrap_from, word_len, add_word, skip_spaces, line_width, space,
}

length-skip_spaces : (cs : List ℕ) → length (skip_spaces cs) ≤ length cs
unfolding skip_spaces
length-skip_spaces [] = omega arith
length-skip_spaces (c ∷ cs) =
    let shorter = length-skip_spaces cs in
    elim (Bool-cases (c == space)) [
      | inl e ↦ rw e (omega (arith, shorter))
      | inr e ↦ rw e (omega arith)
    ]

-- What stands after spaces, if anything, is a word.
word_len-skip_spaces : (cs : List ℕ) → 0 < length (skip_spaces cs) → 0 < word_len (skip_spaces cs)
unfolding skip_spaces word_len
word_len-skip_spaces [] h = h
word_len-skip_spaces (c ∷ cs) h = ground (arith, word_len-skip_spaces cs)

word_len_le : (cs : List ℕ) → word_len cs ≤ length cs
unfolding word_len
word_len_le [] = omega arith
word_len_le (c ∷ cs) = ground (arith, word_len_le cs)

-- The round takes a word and shortens the rest.
pub round_shortens :
    (cursor : List ℕ)
    → (length (skip_spaces cursor) == 0) ≡ false
    → (0 < length (take (word_len (skip_spaces cursor)) (skip_spaces cursor)))
      × (length (drop (word_len (skip_spaces cursor)) (skip_spaces cursor)) < length cursor)
round_shortens cursor e =
    let start = skip_spaces cursor in
    let filled : 0 < length start = ground (arith, e) in
    let some_word = word_len-skip_spaces cursor filled in
    let within = word_len_le start in
    let shorter = length-skip_spaces cursor in
    (
      omega (arith, length-take (word_len start) start, some_word, within),
      omega (arith, length-drop (word_len start) start, some_word, within, shorter),
    )

text_length-append :
    (xs ys : List (List ℕ)) → text_length (xs ++ ys) ≡ text_length xs + text_length ys
unfolding text_length
text_length-append [] ys = omega arith
text_length-append (x ∷ xs) ys = omega (arith, text_length-append xs ys)

All-append :
    (xs : List (List ℕ)) (y : List ℕ)
    → All (λ w. 0 < length w) xs
    → 0 < length y
    → All (λ w. 0 < length w) (xs ++ y ∷ [])
All-append [] y h k = (k, tt)
All-append (x ∷ xs) y h k = (h.0, All-append xs y h.1 k)

length_le_text : (ws : List (List ℕ)) → All (λ w. 0 < length w) ws → length ws ≤ text_length ws
unfolding text_length
length_le_text [] h = omega arith
length_le_text (w ∷ ws) h = omega (arith, h.0, length_le_text ws h.1)

text_length_none : (ws : List (List ℕ)) → length ws ≡ 0 → text_length ws ≡ 0
unfolding text_length
text_length_none [] h = refl
text_length_none (w ∷ ws) h = absurd (omega (arith, h))

-- The words of the line are not empty, `line_length` counts them with single spaces, and two words or
-- more fit in the line.
pub record IsFit (s : Wrapping) : Type 0 where
  pub words : All (λ w. 0 < length w) s.words
  pub counted : s.line_length ≡ text_length s.words + (length s.words - 1)
  pub fits : (length s.words ≤ 1) ⊎ (s.line_length ≤ line_width)

pub add_word-IsFit :
    (s : Wrapping) (word : List ℕ) → IsFit s → 0 < length word → IsFit (add_word s word)
unfolding add_word text_length
add_word-IsFit s word f h =
    let next_length =
      if length s.words == 0 then length word else s.line_length + 1 + length word in
    let grown = length-append s.words (word ∷ []) in
    let lengthened = text_length-append s.words (word ∷ []) in
    let counted = f.counted in
    let none_yet = text_length_none s.words in
    if_rule IsFit (ltb 0 (length s.words) && ltb line_width next_length)
      (λ _. record { words = (h, tt); counted = omega arith; fits = inl (omega arith) })
      (λ e.
        let room : (length (s.words ++ word ∷ []) ≤ 1) ⊎ (next_length ≤ line_width) =
          elim (Bool-cases (ltb 0 (length s.words))) [
            | inl p ↦ inr (ground (arith, e, p))
            | inr p ↦ inl (ground (arith, p, grown))
          ] in
        record {
          words = All-append s.words word f.words h;
          counted = ground (arith, grown, lengthened, counted, none_yet);
          fits = room;
        })

wrap_from-IsFit :
    (rounds : ℕ) (s : Wrapping) (cursor : List ℕ) → IsFit s → IsFit (wrap_from rounds s cursor)
unfolding wrap_from
wrap_from-IsFit zero s cursor f = f
wrap_from-IsFit (suc rounds) s cursor f =
    let start = skip_spaces cursor in
    if_rule IsFit (length start == 0) (λ _. f)
      (λ e.
        wrap_from-IsFit rounds (add_word s (take (word_len start) start))
          (drop (word_len start) start)
          (add_word-IsFit s (take (word_len start) start) f (round_shortens cursor e).0))

-- After any number of rounds the line has at most 12 words, so that the arrays of 24 entries are never
-- written past their half.
pub wrap_from-bounded :
    (rounds : ℕ) (text : List ℕ)
    → length (wrap_from rounds (record { output = []; words = []; line_length = 0 }) text).words
      ≤ 12
unfolding text_length
wrap_from-bounded rounds text =
    let start : Wrapping = record { output = []; words = []; line_length = 0 } in
    let f =
      wrap_from-IsFit rounds start text
        (record { words = tt; counted = omega arith; fits = inl (omega arith) }) in
    let few = length_le_text (wrap_from rounds start text).words f.words in
    elim f.fits [ inl p ↦ omega (arith, p) | inr p ↦ omega (arith, p, few, f.counted) ]

-- ===== src/About/Words.antt =====
-- The loop of `dfc_about_append_paragraph` against a splitter of texts.
use dfc_flipper.Base.{
  ℕ, ◌≡◌, refl, inl, inr, Bool, true, false, not, List, [], ◌∷◌, arith, ◌==◌, if◌then◌else◌,
  Bool-cases, if_rule, take, drop, zero, suc, ◌<◌, sym, ap, ◌∙◌, length, All,
}
use dfc_flipper.About.{skip_spaces, space, word_len, Wrapping, add_word, wrap_from}
use dfc_flipper.About.Bounds.{round_shortens}

-- A character in front of a text whose words are given; `joins` says whether it stands before a word.
abbrev glue : ℕ → (joins : Bool) → List (List ℕ) → List (List ℕ)
glue c true (w ∷ ws) = (c ∷ w) ∷ ws
glue c true [] = (c ∷ []) ∷ []
glue c false ws = (c ∷ []) ∷ ws

abbrev starts_word : List ℕ → Bool
starts_word [] = false
starts_word (c ∷ cs) = not (c == space)

-- The words of a text, between spaces.
abbrev pub split_words : List ℕ → List (List ℕ)
split_words [] = []
split_words (c ∷ cs) =
    let rest = split_words cs in if c == space then rest else glue c (starts_word cs) rest

abbrev pub take_words : Wrapping → List (List ℕ) → Wrapping
take_words s [] = s
take_words s (w ∷ ws) = take_words (add_word s w) ws

split_words-skip : (cs : List ℕ) → split_words (skip_spaces cs) ≡ split_words cs
unfolding skip_spaces
split_words-skip [] = refl
split_words-skip (c ∷ cs) =
    if_rule (λ r. split_words r ≡ split_words (c ∷ cs)) (c == space)
      (λ e. rw e (split_words-skip cs)) (λ _. refl)

word_len-none : (cs : List ℕ) → starts_word cs ≡ false → word_len cs ≡ 0
unfolding word_len
word_len-none [] h = refl
word_len-none (c ∷ cs) h = ground (arith, h)

starts_word-skip :
    (cs : List ℕ) → (length (skip_spaces cs) == 0) ≡ false → starts_word (skip_spaces cs) ≡ true
unfolding skip_spaces
starts_word-skip [] h = absurd (ground (arith, h))
starts_word-skip (c ∷ cs) h = elim (Bool-cases (c == space)) [
  | inl e ↦ rw (e, skip_spaces) (starts_word-skip cs (ground (arith, h, e)))
  | inr e ↦ rw (e, skip_spaces) (rw e refl)
]

-- The first word of a text that starts with one.
split_words-first :
    (cs : List ℕ)
    → starts_word cs ≡ true
    → split_words cs ≡ take (word_len cs) cs ∷ split_words (drop (word_len cs) cs)
unfolding word_len
split_words-first [] h = cc
split_words-first (c ∷ cs) h =
    let visible : (c == space) ≡ false = ground (arith, h) in
    elim (Bool-cases (starts_word cs)) [
      | inl e ↦ rw (visible, word_len) (rw e (rw (split_words-first cs e) refl))
      | inr e ↦ rw (visible, word_len) (rw e (rw (word_len-none cs e) refl))
    ]

split_words-nil : (cs : List ℕ) → length cs ≡ 0 → split_words cs ≡ []
split_words-nil [] h = refl
split_words-nil (c ∷ cs) h = absurd (omega (arith, h))

-- Enough rounds of the loop take the words of the text one by one.
pub wrap_from-take_words :
    (rounds : ℕ) (s : Wrapping) (cursor : List ℕ)
    → length cursor < rounds
    → wrap_from rounds s cursor ≡ take_words s (split_words cursor)
unfolding wrap_from
wrap_from-take_words zero s cursor h = absurd (omega arith)
wrap_from-take_words (suc rounds) s cursor h =
    let start = skip_spaces cursor in
    let word = take (word_len start) start in
    let after = drop (word_len start) start in
    if_rule (λ r. r ≡ take_words s (split_words cursor)) (length start == 0)
      (λ e.
        ap (take_words s)
          (sym (split_words-nil start (ground (arith, e))) ∙ split_words-skip cursor))
      (λ e.
        let shorter = (round_shortens cursor e).1 in
        wrap_from-take_words rounds (add_word s word) after (omega arith)
        ∙ ap (take_words s)
            (sym (split_words-first start (starts_word-skip cursor e)) ∙ split_words-skip cursor))

glue-filled :
    (c : ℕ) (joins : Bool) (ws : List (List ℕ))
    → All (λ w. 0 < length w) ws
    → All (λ w. 0 < length w) (glue c joins ws)
glue-filled c true [] h = (omega arith, tt)
glue-filled c true (w ∷ ws) h = (omega arith, h.1)
glue-filled c false ws h = (omega arith, h)

pub split_words-filled : (cs : List ℕ) → All (λ w. 0 < length w) (split_words cs)
split_words-filled [] = tt
split_words-filled (c ∷ cs) =
    if_rule (λ ws. All (λ w. 0 < length w) ws) (c == space) (λ _. split_words-filled cs)
      (λ _. glue-filled c (starts_word cs) (split_words cs) (split_words-filled cs))

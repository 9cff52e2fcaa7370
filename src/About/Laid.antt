-- ===== src/About/Laid.antt =====
-- The about text as a whole: its lines fit the text box.
use dfc_flipper.Base.{
  ℕ, suc, ◌+◌, ◌-◌, ◌≤◌, ◌<◌, ◌≡◌, refl, sym, ap, ◌∙◌, subst, inl, inr, Bool, true, false, ◌&&◌,
  List, [], ◌∷◌, ◌++◌, append-nil, append_assoc, arith, ltb, ◌==◌, if◌then◌else◌, if_rule, length,
  All, leb, Bool-cases,
}
use dfc_flipper.About.{
  add_word, build_text, paragraph, Wrapping, text_length, line_width, line, wrap_from,
}
use dfc_flipper.About.Width.{IsWord, within, within-line}
use dfc_flipper.About.Words.{take_words, split_words, wrap_from-take_words, split_words-filled}
use dfc_flipper.About.Bounds.{IsFit, add_word-IsFit}
use dfc_flipper.About.Lines.{length-line}

-- What the loop keeps: the lines that it has appended fit, and the line that it collects has words and will
-- fit.
record IsTidy (s : Wrapping) : Type 0 where
  ended : (ys : List ℕ) → within 0 (s.output ++ ys) ≡ within 0 ys
  words : All IsWord s.words
  fit : IsFit s

single-fits :
    (ws : List (List ℕ))
    → All IsWord ws
    → length ws ≤ 1
    → text_length ws + (length ws - 1) ≤ line_width
unfolding text_length
single-fits [] p h = omega arith
single-fits (w ∷ []) p h = omega (arith, p.0.short)
single-fits (w ∷ v ∷ ws) p h = absurd (omega (arith, h))

IsTidy-fits : (s : Wrapping) → IsTidy s → text_length s.words + (length s.words - 1) ≤ line_width
IsTidy-fits s t = elim t.fit.fits [
  | inl p ↦ single-fits s.words t.words p
  | inr p ↦ omega (arith, p, t.fit.counted)
]

line-ended :
    (s : Wrapping) (justify : Bool) (ys : List ℕ)
    → IsTidy s
    → within 0 ((s.output ++ line s.words justify) ++ ys) ≡ within 0 ys
line-ended s justify ys t =
    let fits = IsTidy-fits s t in
    let wide = length-line s.words justify fits in
    let short : length (line s.words justify) ≤ line_width + 1 = ground (arith, wide, fits) in
    ap (within 0) (append_assoc s.output (line s.words justify) ys)
    ∙ t.ended (line s.words justify ++ ys)
    ∙ within-line s.words justify ys t.words short

All-snoc : (ws : List (List ℕ)) (w : List ℕ) → All IsWord ws → IsWord w → All IsWord (ws ++ w ∷ [])
All-snoc [] w p q = (q, tt)
All-snoc (v ∷ ws) w p q = (p.0, All-snoc ws w p.1 q)

add_word-ended :
    (s : Wrapping) (word ys : List ℕ)
    → IsTidy s
    → within 0 ((add_word s word).output ++ ys) ≡ within 0 ys
unfolding add_word
add_word-ended s word ys t =
    let next_length =
      if length s.words == 0 then length word else s.line_length + 1 + length word in
    if_rule (λ (r : Wrapping). within 0 (r.output ++ ys) ≡ within 0 ys)
      (ltb 0 (length s.words) && ltb line_width next_length) (λ _. line-ended s true ys t)
      (λ _. t.ended ys)

add_word-words :
    (s : Wrapping) (word : List ℕ) → IsTidy s → IsWord word → All IsWord (add_word s word).words
unfolding add_word
add_word-words s word t w =
    let next_length =
      if length s.words == 0 then length word else s.line_length + 1 + length word in
    if_rule (λ (r : Wrapping). All IsWord r.words)
      (ltb 0 (length s.words) && ltb line_width next_length) (λ _. (w, tt))
      (λ _. All-snoc s.words word t.words w)

take_words-IsTidy :
    (s : Wrapping) (ws : List (List ℕ))
    → IsTidy s
    → All IsWord ws
    → All (λ w. 0 < length w) ws
    → IsTidy (take_words s ws)
take_words-IsTidy s [] t p q = t
take_words-IsTidy s (w ∷ ws) t p q =
    take_words-IsTidy (add_word s w) ws
      (record {
        ended = λ ys. add_word-ended s w ys t;
        words = add_word-words s w t p.0;
        fit = add_word-IsFit s w t.fit q.0;
      })
      p.1 q.1

start-IsTidy : IsTidy (record { output = []; words = []; line_length = 0 })
unfolding text_length
start-IsTidy = record {
  ended = λ ys. refl;
  words = tt;
  fit = record { words = tt; counted = omega arith; fits = inl (omega arith) };
}

paragraph-ended :
    (text ys : List ℕ)
    → All IsWord (split_words text)
    → within 0 (paragraph text ++ ys) ≡ within 0 ys
unfolding paragraph
paragraph-ended text ys p =
    let start : Wrapping = record { output = []; words = []; line_length = 0 } in
    let s = wrap_from (suc (length text)) start text in
    let tidy : IsTidy s =
      subst IsTidy (sym (wrap_from-take_words (suc (length text)) start text (omega arith)))
        (take_words-IsTidy start (split_words text) start-IsTidy p (split_words-filled text)) in
    if_rule (λ o. within 0 (o ++ ys) ≡ within 0 ys) (ltb 0 (length s.words))
      (λ _. line-ended s false ys tidy) (λ _. tidy.ended ys)

-- The same test of a word as `IsWord`, and of all words of the paragraphs.
abbrev is_plain : List ℕ → Bool
is_plain [] = true
is_plain (c ∷ cs) = let rest = is_plain cs in if c == 0x0A then false else rest

abbrev are_words : List (List ℕ) → Bool
are_words [] = true
are_words (w ∷ ws) = (is_plain w && leb (length w) line_width) && are_words ws

abbrev pub have_words : List (List ℕ) → Bool
have_words [] = true
have_words (p ∷ ps) = are_words (split_words p) && have_words ps

is_plain-All : (w : List ℕ) → is_plain w ≡ true → All (λ c. (c == 0x0A) ≡ false) w
is_plain-All [] h = tt
is_plain-All (c ∷ cs) h = elim (Bool-cases (c == 0x0A)) [
  | inl e ↦ absurd (ground (arith, h, e))
  | inr e ↦ (e, is_plain-All cs (ground (arith, h, e)))
]

are_words-All : (ws : List (List ℕ)) → are_words ws ≡ true → All IsWord ws
are_words-All [] h = tt
are_words-All (w ∷ ws) h = (
  record { plain = is_plain-All w (ground (arith, h)); short = ground (arith, h) },
  are_words-All ws (ground (arith, h)),
)

-- No line of the text is wider than the 24 characters of the text box, where no word of a paragraph is and
-- no word has a newline.
pub build_text-within :
    (paragraphs : List (List ℕ))
    → have_words paragraphs ≡ true
    → within 0 (build_text paragraphs) ≡ true
unfolding build_text
build_text-within [] h = refl
build_text-within (p ∷ []) h =
    let words = are_words-All (split_words p) (ground (arith, h)) in
    ap (within 0) (sym (append-nil (paragraph p))) ∙ paragraph-ended p [] words
build_text-within (p ∷ q ∷ ps) h =
    let words = are_words-All (split_words p) (ground (arith, h)) in
    paragraph-ended p (0x0A ∷ build_text (q ∷ ps)) words
    ∙ build_text-within (q ∷ ps) (ground (arith, h))

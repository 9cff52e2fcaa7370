-- ===== src/About/Kept.antt =====
-- What the about text keeps of its paragraphs: every character but the spaces, in order.
use dfc_flipper.Base.{
  ℕ, zero, suc, ◌+◌, ◌-◌, ◌≡◌, refl, sym, ap, ◌∙◌, inl, inr, Bool, true, ◌&&◌, ◌||◌, List, [], ◌∷◌,
  ◌++◌, append-nil, append_assoc, ltb, ◌==◌, if◌then◌else◌, Bool-cases, if_rule, length, replicate,
  ◌<◌, false, arith, take, drop, take-append-drop,
}
use dfc_flipper.About.{
  lay_out, line, space, add_word, Wrapping, skip_spaces, line_width, text_length, build_text,
  wrap_from, paragraph, word_len,
}
use dfc_flipper.About.Bounds.{round_shortens}

-- The characters that are neither a space nor a newline.
abbrev pub letters : List ℕ → List ℕ
letters [] = []
letters (c ∷ cs) = let rest = letters cs in if c == space || c == 0x0A then rest else c ∷ rest

abbrev pub letters_all : List (List ℕ) → List ℕ
letters_all [] = []
letters_all (t ∷ ts) = letters t ++ letters_all ts

letters-append : (xs ys : List ℕ) → letters (xs ++ ys) ≡ letters xs ++ letters ys
letters-append [] ys = refl
letters-append (c ∷ cs) ys = elim (Bool-cases (c == space || c == 0x0A)) [
  | inl e ↦ rw e (letters-append cs ys)
  | inr e ↦ rw e (ap (◌∷◌ c) (letters-append cs ys))
]

letters_all-append :
    (xs ys : List (List ℕ)) → letters_all (xs ++ ys) ≡ letters_all xs ++ letters_all ys
letters_all-append [] ys = refl
letters_all-append (x ∷ xs) ys =
    ap (λ r. letters x ++ r) (letters_all-append xs ys)
    ∙ sym (append_assoc (letters x) (letters_all xs) (letters_all ys))

letters-spaces : (n : ℕ) → letters (replicate n space) ≡ []
letters-spaces zero = refl
letters-spaces (suc n) = letters-spaces n

letters-skip : (cs : List ℕ) → letters (skip_spaces cs) ≡ letters cs
unfolding skip_spaces
letters-skip [] = refl
letters-skip (c ∷ cs) =
    if_rule (λ r. letters r ≡ letters (c ∷ cs)) (c == space) (λ e. rw e (letters-skip cs))
      (λ _. refl)

letters-lay_out :
    (b e i : ℕ) (words : List (List ℕ)) → letters (lay_out b e i words) ≡ letters_all words
unfolding lay_out
letters-lay_out b e i [] = refl
letters-lay_out b e i (w ∷ []) = sym (append-nil (letters w))
letters-lay_out b e i (w ∷ v ∷ ws) =
    let n = b + (if ltb i e then 1 else 0) in
    let rest = lay_out b e (i + 1) (v ∷ ws) in
    letters-append w (replicate n space ++ rest)
    ∙ ap (λ r. letters w ++ r)
        (letters-append (replicate n space) rest
          ∙ ap (λ r. r ++ letters rest) (letters-spaces n)
          ∙ letters-lay_out b e (i + 1) (v ∷ ws))

letters-laid :
    (b e : ℕ) (words : List (List ℕ))
    → letters (lay_out b e 0 words ++ 0x0A ∷ []) ≡ letters_all words
letters-laid b e words =
    letters-append (lay_out b e 0 words) (0x0A ∷ [])
    ∙ append-nil (letters (lay_out b e 0 words))
    ∙ letters-lay_out b e 0 words

letters-line :
    (words : List (List ℕ)) (justify : Bool) → letters (line words justify) ≡ letters_all words
unfolding line
letters-line words justify =
    let gaps = length words - 1 in
    elim (Bool-cases (justify && (ltb 0 gaps && ltb (text_length words + gaps) line_width))) [
      | inl c ↦ rw (c, line) (letters-laid _ _ words)
      | inr c ↦ rw (c, line) (letters-laid _ _ words)
    ]

-- The letters that the loop has taken.
abbrev seen : Wrapping → List ℕ
seen s = letters s.output ++ letters_all s.words

seen-add_word : (s : Wrapping) (word : List ℕ) → seen (add_word s word) ≡ seen s ++ letters word
unfolding add_word
seen-add_word s word =
    let next_length =
      if length s.words == 0 then length word else s.line_length + 1 + length word in
    let single = append-nil (letters word) in
    if_rule (λ (r : Wrapping). seen r ≡ seen s ++ letters word)
      (ltb 0 (length s.words) && ltb line_width next_length)
      (λ _.
        ap (λ r. r ++ (letters word ++ [])) (letters-append s.output (line s.words true))
        ∙ ap (λ r. (letters s.output ++ r) ++ (letters word ++ [])) (letters-line s.words true)
        ∙ ap (λ r. seen s ++ r) single)
      (λ _.
        ap (λ r. letters s.output ++ r) (letters_all-append s.words (word ∷ []))
        ∙ sym (append_assoc (letters s.output) (letters_all s.words) (letters word ++ []))
        ∙ ap (λ r. seen s ++ r) single)

letters-nil : (cs : List ℕ) → length cs ≡ 0 → letters cs ≡ []
letters-nil [] h = refl
letters-nil (c ∷ cs) h = absurd (omega (arith, h))

letters_all-none : (ws : List (List ℕ)) → length ws ≡ 0 → letters_all ws ≡ []
letters_all-none [] h = refl
letters_all-none (w ∷ ws) h = absurd (omega (arith, h))

-- A number of rounds above the length of the text is enough to take all of it.
seen-wrap_from :
    (rounds : ℕ) (s : Wrapping) (cursor : List ℕ)
    → length cursor < rounds
    → seen (wrap_from rounds s cursor) ≡ seen s ++ letters cursor
unfolding wrap_from
seen-wrap_from zero s cursor h = absurd (omega arith)
seen-wrap_from (suc rounds) s cursor h =
    let start = skip_spaces cursor in
    let word = take (word_len start) start in
    let after = drop (word_len start) start in
    if_rule (λ (r : Wrapping). seen r ≡ seen s ++ letters cursor) (length start == 0)
      (λ e.
        sym (append-nil (seen s))
        ∙ ap (λ r. seen s ++ r) (sym (letters-nil start (ground (arith, e))) ∙ letters-skip cursor))
      (λ e.
        let shorter = (round_shortens cursor e).1 in
        seen-wrap_from rounds (add_word s word) after (omega arith)
        ∙ ap (λ r. r ++ letters after) (seen-add_word s word)
        ∙ append_assoc (seen s) (letters word) (letters after)
        ∙ ap (λ r. seen s ++ r)
            (sym (letters-append word after)
              ∙ ap letters (take-append-drop (word_len start) start)
              ∙ letters-skip cursor))

letters-paragraph : (text : List ℕ) → letters (paragraph text) ≡ letters text
unfolding paragraph
letters-paragraph text =
    let s =
      wrap_from (suc (length text)) (record { output = []; words = []; line_length = 0 }) text in
    let taken =
      seen-wrap_from (suc (length text)) (record { output = []; words = []; line_length = 0 }) text
        (omega arith) in
    elim (Bool-cases (ltb 0 (length s.words))) [
      | inl c ↦
          rw (c, paragraph)
            (letters-append s.output (line s.words false)
              ∙ ap (λ r. letters s.output ++ r) (letters-line s.words false)
              ∙ taken)
      | inr c ↦
          rw (c, paragraph)
            (sym (append-nil (letters s.output))
              ∙ ap (λ r. letters s.output ++ r) (sym (letters_all-none s.words (ground (arith, c))))
              ∙ taken)
    ]

-- Laying out the paragraphs takes every word: the text has, in order, just the characters of the
-- paragraphs that are neither spaces nor newlines.
pub letters-build_text :
    (paragraphs : List (List ℕ)) → letters (build_text paragraphs) ≡ letters_all paragraphs
unfolding build_text
letters-build_text [] = refl
letters-build_text (p ∷ []) = letters-paragraph p ∙ sym (append-nil (letters p))
letters-build_text (p ∷ q ∷ ps) =
    letters-append (paragraph p) (0x0A ∷ build_text (q ∷ ps))
    ∙ ap (λ r. r ++ letters (build_text (q ∷ ps))) (letters-paragraph p)
    ∙ ap (λ r. letters p ++ r) (letters-build_text (q ∷ ps))

-- ===== src/About/Tests.antt =====
-- Lines of the about scene, and each theorem at some.
use dfc_flipper.Base.{ℕ, ◌≤◌, ◌≡◌, refl, List, [], ◌∷◌, length, arith}
use dfc_flipper.About.Kept.{letters, letters_all, letters-build_text}
use dfc_flipper.About.{
  text_length, paragraph, wrap_from, add_word, build_text, line, skip_spaces, word_len, lay_out,
}
use dfc_flipper.About.Bounds.{wrap_from-bounded}
use dfc_flipper.About.Words.{split_words, take_words, wrap_from-take_words}

-- "ab" and "cd"
abbrev two_words : List (List ℕ)
two_words = (0x61 ∷ 0x62 ∷ []) ∷ (0x63 ∷ 0x64 ∷ []) ∷ []

-- "ab  cd "
abbrev spaced : List ℕ
spaced = 0x61 ∷ 0x62 ∷ 0x20 ∷ 0x20 ∷ 0x63 ∷ 0x64 ∷ 0x20 ∷ []

wrapped : paragraph spaced ≡ 0x61 ∷ 0x62 ∷ 0x20 ∷ 0x63 ∷ 0x64 ∷ 0x0A ∷ []
unfolding paragraph wrap_from add_word skip_spaces word_len line lay_out text_length
wrapped = refl

wrap_from-bounded_example :
    length (wrap_from 2 (record { output = []; words = []; line_length = 0 }) spaced).words ≤ 12
wrap_from-bounded_example = wrap_from-bounded 2 spaced

letters-build_text_example :
    letters (build_text (spaced ∷ spaced ∷ [])) ≡ letters_all (spaced ∷ spaced ∷ [])
letters-build_text_example = letters-build_text (spaced ∷ spaced ∷ [])

wrap_from-take_words_example :
    wrap_from 8 (record { output = []; words = []; line_length = 0 }) spaced
    ≡ take_words (record { output = []; words = []; line_length = 0 }) (split_words spaced)
wrap_from-take_words_example =
    wrap_from-take_words 8 (record { output = []; words = []; line_length = 0 }) spaced
      (omega arith)

two_words_split : split_words spaced ≡ two_words
two_words_split = refl

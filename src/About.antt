-- ===== src/About.antt =====
-- scenes/dfc_scene_about.c: the text of the about scene, in lines of at most 24 characters.
pub mod Lines
pub mod Kept
mod Tests
pub mod Bounds
pub mod Words
pub mod Width
pub mod Laid
use dfc_flipper.Base.{
  ℕ, zero, suc, ◌+◌, ◌-◌, ◌/◌, ◌%◌, Bool, true, false, ◌&&◌, List, [], ◌∷◌, ◌++◌, ltb, ◌==◌,
  if◌then◌else◌, length, take, drop, replicate,
}

abbrev pub space : ℕ
space = 0x20

abbrev pub line_width : ℕ
line_width = 24

-- `dfc_word_len`
unfoldable pub word_len : List ℕ → ℕ
word_len [] = 0
word_len (c ∷ cs) = let rest = word_len cs in if c == space then 0 else suc rest

-- while(*cursor == ' ') cursor++;
unfoldable pub skip_spaces : List ℕ → List ℕ
skip_spaces [] = []
skip_spaces (c ∷ cs) = let rest = skip_spaces cs in if c == space then rest else c ∷ cs

-- The characters of the words of a line: `text_length`.
unfoldable pub text_length : List (List ℕ) → ℕ
text_length [] = 0
text_length (w ∷ ws) = length w + text_length ws

-- The second loop of `dfc_about_append_line`: the words from index `i` on, and after all but the last
-- `base_spaces` spaces, and one more after the first `extra_spaces` words.
unfoldable pub lay_out : ℕ → ℕ → ℕ → List (List ℕ) → List ℕ
lay_out base_spaces extra_spaces i [] = []
lay_out base_spaces extra_spaces i (w ∷ []) = w
lay_out base_spaces extra_spaces i (w ∷ v ∷ ws) =
    w
    ++ (replicate (base_spaces + (if ltb i extra_spaces then 1 else 0)) space
        ++ lay_out base_spaces extra_spaces (i + 1) (v ∷ ws))

-- `dfc_about_append_line`: what it appends. The words are given as texts.
unfoldable pub line : List (List ℕ) → Bool → List ℕ
line words justify =
    let gaps = length words - 1 in
    let spaces = line_width - text_length words in
    (if justify && (ltb 0 gaps && ltb (text_length words + gaps) line_width)
      then lay_out (spaces / gaps) (spaces % gaps) 0 words
      else lay_out (if ltb 0 gaps then 1 else 0) 0 0 words)
    ++ 0x0A ∷ []

-- The state of the loop of `dfc_about_append_paragraph`; `words` and `lengths` are the first
-- `line_word_count` entries of the arrays.
pub record Wrapping : Type 0 where
  pub output : List ℕ
  pub words : List (List ℕ)
  pub line_length : ℕ

-- One round, for the next word.
unfoldable pub add_word : Wrapping → List ℕ → Wrapping
add_word s word =
    let next_length =
      if length s.words == 0 then length word else s.line_length + 1 + length word in
    if ltb 0 (length s.words) && ltb line_width next_length
    then record {
      output = s.output ++ line s.words true;
      words = word ∷ [];
      line_length = length word;
    }
    else record s { words = s.words ++ word ∷ []; line_length = next_length }

-- The loop: `rounds` bounds it, and one more than the paragraph has characters is enough.
unfoldable pub wrap_from : ℕ → Wrapping → List ℕ → Wrapping
wrap_from zero s cursor = s
wrap_from (suc rounds) s cursor =
    let start = skip_spaces cursor in
    let word = take (word_len start) start in
    let rest = wrap_from rounds (add_word s word) (drop (word_len start) start) in
    if length start == 0 then s else rest

-- `dfc_about_append_paragraph`: what it appends.
unfoldable pub paragraph : List ℕ → List ℕ
paragraph text =
    let s =
      wrap_from (suc (length text)) (record { output = []; words = []; line_length = 0 }) text in
    if ltb 0 (length s.words) then s.output ++ line s.words false else s.output

-- `dfc_about_build_text`, for the paragraphs in order.
unfoldable pub build_text : List (List ℕ) → List ℕ
build_text [] = []
build_text (p ∷ []) = paragraph p
build_text (p ∷ q ∷ ps) = paragraph p ++ (0x0A ∷ build_text (q ∷ ps))

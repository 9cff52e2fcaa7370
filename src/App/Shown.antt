-- ===== src/App/Shown.antt =====
-- The numbers that scenes/dfc_scene_info.c and dfc_scene_read_success.c show, read back.
use dfc_flipper.Base.{
  ℕ, zero, suc, ◌+◌, ◌-◌, ◌*◌, ◌/◌, ◌%◌, ◌^◌, ◌<◌, ◌≡◌, refl, ap, ap₂, ◌∙◌, List, [], ◌∷◌, arith,
  ltb, if◌then◌else◌, if_rule, All, inl, inr, true, ◌&&◌, ◌++◌, leb, Bool-cases, drop, Option, none,
  some, append_assoc, ◌==◌, Option-cases, length,
}
use native.Mathlib.Nat.{pow-suc}
use dfc_flipper.App.Core.{AppCore}
use dfc_flipper.Reader.Model.{Application}
use dfc_flipper.App.Text.{decimal_from, decimal, hex_digit, hex_octet, codes}
use dfc_flipper.App.Reports.{
  hex_octets, counts_text, enter_info, info_aid, aid_text, enter_read_success, uid_text,
}
use dfc_flipper.App.State.{Element, string_element, App}

-- A hexadecimal digit in upper case.
abbrev hex_value : ℕ → ℕ
hex_value c = if ltb c 58 then c - 48 else c - 55

-- Two digits for each octet.
abbrev pub read_hex : List ℕ → List ℕ
read_hex [] = []
read_hex (a ∷ []) = []
read_hex (a ∷ b ∷ cs) = (hex_value a * 16 + hex_value b) ∷ read_hex cs

-- The number that the decimal digits at the front go on to from `n`, and what stands after them.
abbrev read_number : ℕ → List ℕ → ℕ × List ℕ
read_number n [] = (n, [])
read_number n (c ∷ cs) =
    let rest = read_number (n * 10 + (c - 48)) cs in
    if leb 48 c && ltb c 58 then rest else (n, c ∷ cs)

-- A number, a text of nine characters, and another number.
abbrev pub read_counts : List ℕ → ℕ × ℕ
read_counts cs = let (apps, rest) = read_number 0 cs in (apps, (read_number 0 (drop 9 rest)).0)

hex_value-hex_digit : (n : ℕ) → n < 16 → hex_value (hex_digit n) ≡ n
hex_value-hex_digit n h = ground arith

-- What the scenes show of a UID of octets reads back as that UID.
pub read_hex-hex_octets : (uid : List ℕ) → All (λ x. x < 256) uid → read_hex (hex_octets uid) ≡ uid
unfolding hex_octets hex_octet
read_hex-hex_octets [] h = refl
read_hex-hex_octets (x ∷ xs) h =
    let high = hex_value-hex_digit (x / 16) (omega (arith, h.0)) in
    let low = hex_value-hex_digit (x % 16) (omega arith) in
    ap₂ ◌∷◌ (omega (arith, high, low)) (read_hex-hex_octets xs h.1)

read_number-digit :
    (n d : ℕ) (cs : List ℕ) → d < 10 → read_number n ((48 + d) ∷ cs) ≡ read_number (n * 10 + d) cs
read_number-digit n d cs h =
    let digit : (leb 48 (48 + d) && ltb (48 + d) 58) ≡ true = ground arith in
    let value : n * 10 + (48 + d - 48) ≡ n * 10 + d = omega arith in
    rw digit (ap (λ k. read_number k cs) value)

read_number-decimal_from :
    (rounds n : ℕ) (out : List ℕ)
    → n < 10 ^ rounds
    → read_number 0 (decimal_from rounds n out) ≡ read_number n out
unfolding decimal_from
read_number-decimal_from zero n out h = ap (λ k. read_number k out) (omega arith)
read_number-decimal_from (suc rounds) n out h =
    if_rule (λ o. read_number 0 o ≡ read_number n out) (ltb n 10)
      (λ e.
        read_number-digit 0 n out (ground (arith, e)) ∙ ap (λ k. read_number k out) (omega arith))
      (λ e.
        read_number-decimal_from rounds (n / 10) ((48 + n % 10) ∷ out)
          (omega (arith, pow-suc 10 rounds))
        ∙ read_number-digit (n / 10) (n % 10) out (omega arith)
        ∙ ap (λ k. read_number k out) (omega arith))

decimal_from-append :
    (rounds n : ℕ) (out rest : List ℕ)
    → decimal_from rounds n out ++ rest ≡ decimal_from rounds n (out ++ rest)
unfolding decimal_from
decimal_from-append zero n out rest = refl
decimal_from-append (suc rounds) n out rest = elim (Bool-cases (ltb n 10)) [
  | inl e ↦ rw e refl
  | inr e ↦ rw e (decimal_from-append rounds (n / 10) ((48 + n % 10) ∷ out) rest)
]

read_number-decimal :
    (n : ℕ) (rest : List ℕ) → n < 2 ^ 32 → read_number 0 (decimal n ++ rest) ≡ read_number n rest
unfolding decimal
read_number-decimal n rest h =
    ap (read_number 0) (decimal_from-append 10 n [] rest)
    ∙ read_number-decimal_from 10 n rest (omega arith)

read_counts-counts_text :
    (apps files : ℕ) (tail : List ℕ)
    → apps < 2 ^ 32
    → files < 2 ^ 32
    → read_counts (counts_text apps files ++ tail) ≡ (apps, files)
unfolding counts_text
read_counts-counts_text apps files tail h k =
    let after_apps = codes " app(s), " ++ (decimal files ++ (codes " file(s)" ++ tail)) in
    let joined : counts_text apps files ++ tail ≡ decimal apps ++ after_apps =
      append_assoc (decimal apps) _ tail
      ∙ ap (λ (xs : List ℕ). decimal apps ++ (codes " app(s), " ++ xs))
          (append_assoc (decimal files) (codes " file(s)") tail) in
    let first = read_number-decimal apps after_apps h in
    let second = read_number-decimal files (codes " file(s)" ++ tail) k in
    ap read_counts joined
    ∙ ap (λ (r : ℕ × List ℕ). (r.0, (read_number 0 (drop 9 r.1)).0)) first
    ∙ ap (λ (r : ℕ × List ℕ). (apps, r.0)) second

-- The text of the element at an index, where it is a string.
abbrev pub text_at : ℕ → List Element → List ℕ
text_at zero (string_element text ∷ rest) = text
text_at (suc n) (e ∷ rest) = text_at n rest
text_at _ _ = []

-- Three octets behind "AID: ", or another text.
abbrev pub read_aid : List ℕ → Option (List ℕ)
read_aid text = if length (drop 5 text) == 6 then some (read_hex (drop 5 text)) else none

abbrev pub aid_of : Option Application → Option (List ℕ)
aid_of none = none
aid_of (some app) = some app.aid

read_hex-aid_text :
    (aid : List ℕ)
    → length aid ≡ 3
    → All (λ x. x < 256) aid
    → (length (aid_text aid) ≡ 6) × (read_hex (aid_text aid) ≡ aid)
unfolding aid_text hex_octet hex_octets
read_hex-aid_text [] h o = absurd (omega (arith, h))
read_hex-aid_text (a ∷ []) h o = absurd (omega (arith, h))
read_hex-aid_text (a ∷ b ∷ []) h o = absurd (omega (arith, h))
read_hex-aid_text (a ∷ b ∷ c ∷ []) h o = (refl, read_hex-hex_octets (a ∷ b ∷ c ∷ []) o)
read_hex-aid_text (a ∷ b ∷ c ∷ d ∷ rest) h o = absurd (omega (arith, h))

module _ {Credential : Type 0} (core : AppCore Credential) where
  info_aid-read_aid :
      (credential : Credential)
      → ((a : Application)
          → core.primary_application credential ≡ some a
          → (length a.aid ≡ 3) × All (λ x. x < 256) a.aid)
      → read_aid (info_aid core credential) ≡ aid_of (core.primary_application credential)
  unfolding info_aid
  info_aid-read_aid credential h = elim (Option-cases (core.primary_application credential)) [
    | inl e ↦ rw (e, info_aid) refl
    | inr (a, e) ↦
        let (three, octets) = h a e in
        let (six, same) = read_hex-aid_text a.aid three octets in rw (e, info_aid) (rw (six, same))
  ]

  -- What the info scene shows of the credential, read back from the texts on its widget, is the credential's
  -- UID, the AID of its application, or none where it has no application, and its numbers of applications
  -- and of files; and the scene of a card read shows the UID too. The widget is empty before, the UID and the
  -- AID are octets, three for an AID, and the numbers fit in 32 bits.
  pub enter_info-shows :
      (app : App Credential)
      → app.widget ≡ []
      → All (λ x. x < 256) (core.uid app.credential)
      → ((a : Application)
          → core.primary_application app.credential ≡ some a
          → (length a.aid ≡ 3) × All (λ x. x < 256) a.aid)
      → core.num_apps app.credential < 2 ^ 32
      → core.num_files app.credential < 2 ^ 32
      → let info = (enter_info core app).widget in
        let read = (enter_read_success core app).widget in
        (read_hex (drop 5 (text_at 1 info)) ≡ core.uid app.credential)
        × (read_aid (text_at 2 info) ≡ aid_of (core.primary_application app.credential))
        × (read_counts (text_at 3 info)
            ≡ (core.num_apps app.credential, core.num_files app.credential))
        × (read_hex (drop 5 (text_at 3 read)) ≡ core.uid app.credential)
  unfolding enter_info enter_read_success uid_text
  enter_info-shows app e octets aids few_apps few_files =
      let uid = read_hex-hex_octets (core.uid app.credential) octets in
      rw e (
        uid,
        info_aid-read_aid app.credential aids,
        read_counts-counts_text (core.num_apps app.credential) (core.num_files app.credential) _
            few_apps few_files,
        uid,
      )

-- ===== src/App/Text.antt =====
-- Texts as the lists of their octets, and the conversions of printf that the scenes use.
use dfc_flipper.Base.{ℕ, zero, suc, ◌+◌, ◌/◌, ◌%◌, List, [], ◌∷◌, ltb, if◌then◌else◌}
use Prim.Native.Char.{code}
use Prim.Native.String.{String}

abbrev pub codes : String → List ℕ
codes String.[] = []
codes (String.◌∷◌ c s) = code c ∷ codes s

-- `%X` of a number below 16.
abbrev pub hex_digit : ℕ → ℕ
hex_digit n = if ltb n 10 then 48 + n else 55 + n

-- `%02X` of an octet.
unfoldable pub hex_octet : ℕ → List ℕ
hex_octet n = hex_digit (n / 16) ∷ hex_digit (n % 16) ∷ []

-- `%zu`, from the last digit to the first; ten rounds are enough for 32 bits.
unfoldable pub decimal_from : ℕ → ℕ → List ℕ → List ℕ
decimal_from zero n out = out
decimal_from (suc rounds) n out =
    let rest = decimal_from rounds (n / 10) ((48 + n % 10) ∷ out) in
    if ltb n 10 then (48 + n) ∷ out else rest

unfoldable pub decimal : ℕ → List ℕ
decimal n = decimal_from 10 n []

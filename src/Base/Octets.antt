-- ===== src/Base/Octets.antt =====
-- Octets and 32-bit sizes. An octet is a number below 256 where a statement says so; `size_t` is
-- 32 bits wide on the device, so a difference of sizes wraps.
use Prim.Native.Nat.{ℕ, zero, suc, ◌+◌, ◌-◌, ◌%◌, ◌^◌, ◌≤◌, ◌<◌, bit_and, bit_xor}
use mathlib.Core.Path.{◌≡◌, refl}
use mathlib.Core.Bool.{Bool, true, false, not}
use native.Mathlib.Omega.{arith}
use dfc_flipper.Base.Compare.{◌==◌, if◌then◌else◌}

-- `(x & mask) != 0`
abbrev pub has : ℕ → ℕ → Bool
has x mask = not (bit_and x mask == 0)

-- `b ^ 1`
abbrev pub toggle : ℕ → ℕ
toggle b = bit_xor b 1

-- `a - b` on `size_t`
abbrev pub sub_size : ℕ → ℕ → ℕ
sub_size a b = (a + 2 ^ 32 - b) % 2 ^ 32

-- Whether every one of the first `bound` numbers passes a test.
unfoldable pub passes_under : (ℕ → Bool) → ℕ → Bool
passes_under test zero = true
passes_under test (suc bound) = if test bound then passes_under test bound else false

pub passes_under-at :
    (test : ℕ → Bool) (bound : ℕ) {x : ℕ}
    → x < bound
    → passes_under test bound ≡ true
    → test x ≡ true
unfolding passes_under
passes_under-at test zero small ok = absurd (omega (arith, small))
passes_under-at test (suc bound) {x} small ok =
    ground (arith, small, ok, passes_under-at test bound {x = x})

pub toggle-le : (b : ℕ) → b ≤ 1 → toggle b ≤ 1
toggle-le zero h = omega arith
toggle-le (suc zero) h = omega arith
toggle-le (suc (suc b)) h = absurd (omega arith)

-- The block number alternates between 0 and 1.
pub toggle-toggle : (b : ℕ) → b ≤ 1 → toggle (toggle b) ≡ b
toggle-toggle zero h = refl
toggle-toggle (suc zero) h = refl
toggle-toggle (suc (suc b)) h = absurd (omega arith)

pub toggle_ne : (b : ℕ) → b ≤ 1 → toggle b ≡ b → ⊥
toggle_ne zero h e = omega arith
toggle_ne (suc zero) h e = omega arith
toggle_ne (suc (suc b)) h e = absurd (omega arith)

-- ===== src/Base/Words.antt =====
-- Go's `int64` and 64-bit `int`: a value is its bit pattern, a number below 2 ^ 64, and arithmetic
-- wraps. Orders are signed: a pattern is shifted by 2 ^ 63 before it is compared.
use Prim.Native.Nat.{ℕ, ◌%◌, ◌+◌, ◌-◌, ◌<◌, ◌≤◌}
use mathlib.Core.Bool.{Bool, true}
use mathlib.Core.Path.{◌≡◌}
use native.Mathlib.Omega.{arith}
use nix_packages.Base.Tests.{if◌then◌else◌, leb, ltb}

abbrev pub word : ℕ
word = 18446744073709551616

abbrev pub half_word : ℕ
half_word = 9223372036854775808

-- The pattern of -1.
abbrev pub minus_one : ℕ
minus_one = 18446744073709551615

unfoldable pub add64 : ℕ → ℕ → ℕ
add64 a b = (a + b) % word

unfoldable pub sub64 : ℕ → ℕ → ℕ
sub64 a b = (a + word - b) % word

-- The order of the integers that the patterns stand for.
abbrev pub signed_key : ℕ → ℕ
signed_key a = (a + half_word) % word

unfoldable pub le64 : ℕ → ℕ → Bool
le64 a b = leb (signed_key a) (signed_key b)

unfoldable pub lt64 : ℕ → ℕ → Bool
lt64 a b = ltb (signed_key a) (signed_key b)

unfoldable pub max64 : ℕ → ℕ → ℕ
max64 a b = if lt64 a b then b else a

unfoldable pub min64 : ℕ → ℕ → ℕ
min64 a b = if lt64 b a then b else a

-- Taking away and adding back is exact, whatever wraps in between.
pub add64-sub64 : (a b : ℕ) → a < word → b < word → add64 (sub64 a b) b ≡ a
unfolding add64 sub64
add64-sub64 a b ha hb = omega arith

pub add64-lt : (a b : ℕ) → add64 a b < word
unfolding add64
add64-lt a b = omega arith

pub sub64-lt : (a b : ℕ) → sub64 a b < word
unfolding sub64
sub64-lt a b = omega arith

-- On patterns of numbers that are not negative the order is that of ℕ.
pub le64-nonneg : (a b : ℕ) → a < half_word → b < half_word → le64 a b ≡ leb a b
unfolding le64
le64-nonneg a b ha hb = ground arith

-- Room that a request fits in does not become negative when the request is taken away.
pub sub64_fits :
    (a b : ℕ) → a < half_word → b < half_word → le64 b a ≡ true → (sub64 a b ≡ a - b) × (b ≤ a)
unfolding le64 sub64
sub64_fits a b ha hb h = ground arith

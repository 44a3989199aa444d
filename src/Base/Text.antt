-- ===== src/Base/Text.antt =====
-- Text: whole texts compared by `==`, maps from text as association lists, and the parts of Go's
-- `strconv` that the modelled code uses, over the code points of a text.
use Prim.Native.Char.{code}
use Prim.Native.Nat.{suc, zero, ℕ, ◌%◌, ◌*◌, ◌+◌, ◌-◌, ◌/◌}
use Prim.Native.String.{String}
use mathlib.Core.Bool.{Bool, false, not, true, ◌&&◌, ◌||◌}
use mathlib.Core.List.{List, [], ◌∷◌}
use mathlib.Core.Option.{Option, none, some}
use text.Mathlib.Text.{◌==◌}
use nix_packages.Base.Lists.{is_empty}
use nix_packages.Base.Tests.{eqb, if◌then◌else◌, leb, ltb}
use nix_packages.Base.Words.{half_word, word}
pub use Prim.Native.String.{◌++◌ as ◌<>◌}

-- The code points of a text.
abbrev pub codes : String → List ℕ
codes String.[] = []
codes (String.◌∷◌ c s) = code c ∷ codes s

-- slices.Contains on texts.
unfoldable pub contains : List String → String → Bool
contains [] a = false
contains (x ∷ xs) a = a == x || contains xs a

-- A `map[string]V`, nil and empty alike. The first entry of a key counts.
abbrev pub Dict {ℓ} : Type ℓ → Type ℓ
Dict V = List (String × V)

module _ {ℓ} {V : Type ℓ} where
  unfoldable pub lookup : String → Dict V → Option V
  lookup key [] = none
  lookup key (e ∷ rest) = let later = lookup key rest in if e.0 == key then some e.1 else later

  -- `m[key] = value`: a present key keeps its place.
  unfoldable pub insert : String → V → Dict V → Dict V
  insert key value [] = (key, value) ∷ []
  insert key value (e ∷ rest) =
      let later = insert key value rest in if e.0 == key then (key, value) ∷ rest else e ∷ later

  unfoldable pub has_key : String → Dict V → Bool
  has_key k m = elim (lookup k m) [ some v ↦ true | none ↦ false ]

-- `m[k]` of a `map[string]string`: a missing key reads as the empty text.
unfoldable pub text_at : String → Dict String → String
text_at k m = elim (lookup k m) [ some v ↦ v | none ↦ "" ]

unfoldable pub is_digit : ℕ → Bool
is_digit c = leb b'0' c && leb c b'9'

-- The digits at the front, and what follows them.
unfoldable pub span_digits : List ℕ → List ℕ × List ℕ
unfolding is_digit
span_digits [] = ([], [])
span_digits (c ∷ s) =
    let rest = span_digits s in if is_digit c then (c ∷ rest.0, rest.1) else ([], c ∷ s)

unfoldable pub digits_value : ℕ → List ℕ → ℕ
digits_value acc [] = acc
digits_value acc (c ∷ s) = digits_value (acc * 10 + (c - b'0')) s

-- A sequence of decimal digits that is not empty, and no more.
unfoldable pub unsigned_value : List ℕ → Option ℕ
unfolding span_digits digits_value
unsigned_value s =
    let (ds, rest) = span_digits s in
    if is_empty ds || not (is_empty rest) then none else some (digits_value 0 ds)

unfoldable pub in_range : Bool → Option ℕ → Option ℕ
in_range negative none = none
in_range true (some n) = if leb n half_word then some ((word - n) % word) else none
in_range false (some n) = if ltb n half_word then some n else none

-- strconv.Atoi: an optional sign, decimal digits, and a value that an int holds.
unfoldable pub atoi_codes : List ℕ → Option ℕ
unfolding unsigned_value in_range
atoi_codes [] = none
atoi_codes (c ∷ s) =
    if eqb c b'-'
    then in_range true (unsigned_value s)
    else if eqb c b'+'
    then in_range false (unsigned_value s)
    else in_range false (unsigned_value (c ∷ s))

unfoldable pub atoi : String → Option ℕ
unfolding atoi_codes
atoi s = atoi_codes (codes s)

digit_text : ℕ → String
digit_text n =
    if eqb n 0
    then "0"
    else if eqb n 1
    then "1"
    else if eqb n 2
    then "2"
    else if eqb n 3
    then "3"
    else if eqb n 4
    then "4"
    else if eqb n 5
    then "5"
    else if eqb n 6
    then "6"
    else if eqb n 7
    then "7"
    else if eqb n 8
    then "8"
    else "9"

-- Decimal digits; the first argument bounds how many, and 20 hold any 64-bit value.
decimal : ℕ → ℕ → String
unfolding digit_text
decimal zero n = ""
decimal (suc k) n =
    let front = decimal k (n / 10) in
    if ltb n 10 then digit_text n else (front <> digit_text (n % 10))

-- The verb %d of an int64.
unfoldable pub show_int64 : ℕ → String
unfolding decimal
show_int64 n = if ltb n half_word then decimal 20 n else ("-" <> decimal 20 (word - n))

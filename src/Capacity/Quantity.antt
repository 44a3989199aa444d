-- ===== src/Capacity/Quantity.antt =====
-- capacity.go: the text of a Kubernetes quantity. `quantityPattern` is read by hand over the code
-- points: no two of its alternatives match one text.
pub mod Range
use Prim.Native.Nat.{ℕ}
use Prim.Native.String.{String}
use mathlib.Core.Bool.{Bool, false, not, ◌&&◌, ◌||◌}
use mathlib.Core.List.{List, [], ◌++◌, ◌∷◌}
use mathlib.Core.Option.{Option, none, some}
use nix_packages.Base.{
  Floats, Result, atoi_codes, codes, eqb, err, if◌then◌else◌, is_empty, ok, span_digits,
}

pub record Quantity : Type 0 where
  pub mantissa : List ℕ
  -- The constant that `quantitySuffixes` has for the suffix, as the source spells it.
  pub suffix : String
  pub exponent : List ℕ

-- [numkMGTPE], or none.
unfoldable pub decimal_suffix : ℕ → Option String
decimal_suffix c =
    if eqb c b'n'
    then some "1e-9"
    else if eqb c b'u'
    then some "1e-6"
    else if eqb c b'm'
    then some "1e-3"
    else if eqb c b'k'
    then some "1e3"
    else if eqb c b'M'
    then some "1e6"
    else if eqb c b'G'
    then some "1e9"
    else if eqb c b'T'
    then some "1e12"
    else if eqb c b'P'
    then some "1e15"
    else if eqb c b'E'
    then some "1e18"
    else none

-- The K of Ki and so on.
unfoldable pub binary_suffix : ℕ → Option String
binary_suffix c =
    if eqb c b'K'
    then some "1 << 10"
    else if eqb c b'M'
    then some "1 << 20"
    else if eqb c b'G'
    then some "1 << 30"
    else if eqb c b'T'
    then some "1 << 40"
    else if eqb c b'P'
    then some "1 << 50"
    else if eqb c b'E'
    then some "1 << 60"
    else none

-- What follows the leading digits: a point, its digits, and the rest.
mantissa_after : List ℕ → List ℕ → Option (List ℕ × List ℕ)
mantissa_after [] [] = none
mantissa_after [] (c ∷ r) =
    let (fraction, rest) = span_digits r in
    if eqb c b'.' && not (is_empty fraction) then some (c ∷ fraction, rest) else none
mantissa_after (d ∷ ds) [] = some (d ∷ ds, [])
mantissa_after (d ∷ ds) (c ∷ r) =
    let (fraction, rest) = span_digits r in
    if eqb c b'.' then some ((d ∷ ds) ++ (c ∷ fraction), rest) else some (d ∷ ds, c ∷ r)

-- [0-9]+(\.[0-9]*)? or \.[0-9]+ at the front, with what follows.
unfoldable pub mantissa_parts : List ℕ → Option (List ℕ × List ℕ)
unfolding mantissa_after span_digits
mantissa_parts s = mantissa_after (span_digits s).0 (span_digits s).1

-- [+-]?[0-9]+ and no more: the digits of an exponent.
is_exponent : List ℕ → Bool
unfolding span_digits
is_exponent [] = false
is_exponent (c ∷ r) =
    let (ds, rest) = span_digits (if eqb c b'+' || eqb c b'-' then r else c ∷ r) in
    not (is_empty ds) && is_empty rest

suffix_only : List ℕ → Option String → Option Quantity
suffix_only mantissa none = none
suffix_only mantissa (some s) = some (record { mantissa = mantissa; suffix = s; exponent = [] })

-- The suffix or the exponent, up to the end of the text.
quantity_tail : List ℕ → List ℕ → Option Quantity
unfolding is_exponent suffix_only decimal_suffix binary_suffix
quantity_tail mantissa [] = some (record { mantissa = mantissa; suffix = "1"; exponent = [] })
quantity_tail mantissa (c ∷ []) = suffix_only mantissa (decimal_suffix c)
quantity_tail mantissa (c ∷ d ∷ r) =
    if (eqb c b'e' || eqb c b'E') && is_exponent (d ∷ r)
    then some (record { mantissa = mantissa; suffix = "1"; exponent = d ∷ r })
    else if eqb d b'i' && is_empty r
    then suffix_only mantissa (binary_suffix c)
    else none

-- `quantityPattern.FindStringSubmatch`.
unfoldable pub match_quantity : List ℕ → Option Quantity
unfolding quantity_tail
match_quantity s = elim (mantissa_parts s) [ none ↦ none | some p ↦ quantity_tail p.0 p.1 ]

-- What the capacity checks fail with.
pub data CapacityError : Type 0 where
  unsupported_quantity : String → CapacityError
  allocatable_resources : String → CapacityError → CapacityError
  at_pod : String → String → CapacityError → CapacityError
  unreadable_pod_count : String → CapacityError
  no_pod_slots : CapacityError
  cannot_hold : String → CapacityError
  pdb_blocks : String → CapacityError
  read_failed : String → CapacityError

module _ ⦃F : Floats⦄ where
  open F use {Float, parse_float, literal, fmul, fsub, pow10, ceil_int64}

  -- int64(math.Ceil(value*scale - 1e-9))
  pub round_up : Float → Float → ℕ
  round_up value scale = ceil_int64 (fsub (fmul value scale) (literal "1e-9"))

  pub scaled : String → Float → Float → List ℕ → Result CapacityError ℕ
  unfolding round_up
  scaled text scale value [] = ok (round_up value scale)
  scaled text scale value (c ∷ e) = elim (atoi_codes (c ∷ e)) [
    | none ↦ err (unsupported_quantity text)
    | some exponent ↦ ok (round_up (fmul value (pow10 exponent)) scale)
  ]

  pub read_quantity : String → Float → Option Quantity → Result CapacityError ℕ
  unfolding scaled
  read_quantity text scale none = err (unsupported_quantity text)
  read_quantity text scale (some q) = elim (parse_float q.mantissa) [
    | none ↦ err (unsupported_quantity text)
    | some value ↦ scaled text scale (fmul value (literal q.suffix)) q.exponent
  ]

  unfoldable pub parse_quantity : String → Float → Result CapacityError ℕ
  unfolding read_quantity match_quantity
  parse_quantity text scale = read_quantity text scale (match_quantity (codes text))

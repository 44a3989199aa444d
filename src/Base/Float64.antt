-- ===== src/Base/Float64.antt =====
-- Go's float64, which the code uses to read quantities and to compare shares: a type and its
-- operations, of which nothing is assumed here. `int64` values are patterns (Base.Words).
use Prim.Native.Nat.{ℕ}
use Prim.Native.String.{String}
use mathlib.Core.Bool.{Bool}
use mathlib.Core.List.{List}
use mathlib.Core.Option.{Option}

pub record Floats : Type 1 where
  pub Float : Type 0
  -- A constant of the source, as it is spelled there.
  pub literal : String → Float
  -- strconv.ParseFloat(text, 64), over the code points; `none` is its error.
  pub parse_float : List ℕ → Option Float
  pub flt : Float → Float → Bool
  pub fle : Float → Float → Bool
  pub fadd : Float → Float → Float
  pub fsub : Float → Float → Float
  pub fmul : Float → Float → Float
  pub fdiv : Float → Float → Float
  -- float64(n), int64(math.Ceil(x)) and math.Pow10(n).
  pub of_int64 : ℕ → Float
  pub ceil_int64 : Float → ℕ
  pub pow10 : ℕ → Float

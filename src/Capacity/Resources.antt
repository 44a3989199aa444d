-- ===== src/Capacity/Resources.antt =====
-- capacity.go: CPU in millicores and memory in bytes, as int64 patterns (Base.Words).
pub mod Range
use Prim.Native.Nat.{ℕ, ◌+◌, ◌-◌, ◌/◌, ◌<◌}
use Prim.Native.String.{String}
use mathlib.Core.Bool.{Bool, ◌&&◌}
use mathlib.Core.Option.{none, some}
use mathlib.Core.Path.{◌≡◌}
use native.Mathlib.Omega.{arith}
use nix_packages.Base.{
  Dict, Floats, Result, add64, add64-lt, add64-sub64, half_word, if◌then◌else◌, le64, lookup, ltb,
  max64, ok, show_int64, sub64, sub64-lt, word, ◌<>◌, ◌>>=◌,
}
use nix_packages.Capacity.Quantity.{CapacityError, parse_quantity}

pub record Resources : Type 0 where
  pub cpu : ℕ
  pub memory : ℕ

abbrev pub no_resources : Resources
no_resources = record { cpu = 0; memory = 0 }

unfoldable pub plus : Resources → Resources → Resources
plus r other = record { cpu = add64 r.cpu other.cpu; memory = add64 r.memory other.memory }

unfoldable pub minus : Resources → Resources → Resources
minus r other = record { cpu = sub64 r.cpu other.cpu; memory = sub64 r.memory other.memory }

unfoldable pub fits : Resources → Resources → Bool
fits r room = le64 r.cpu room.cpu && le64 r.memory room.memory

-- resources{max(a.cpu, b.cpu), max(a.memory, b.memory)}
unfoldable pub larger : Resources → Resources → Resources
larger a b = record { cpu = max64 a.cpu b.cpu; memory = max64 a.memory b.memory }

-- r.memory>>20: an arithmetic shift keeps the sign.
unfoldable pub mebibytes : ℕ → ℕ
mebibytes n = if ltb n half_word then n / 1048576 else (word - (word - n + 1048575) / 1048576)

unfoldable pub resources_text : Resources → String
unfolding mebibytes
resources_text r =
    (("cpu=" <> show_int64 r.cpu) <> "m memory=") <> (show_int64 (mebibytes r.memory) <> "Mi")

-- Both parts hold a 64-bit pattern.
abbrev pub IsWord : Resources → Type 0
IsWord r = (r.cpu < word) × (r.memory < word)

-- Taking a request away and giving it back is exact, whatever wraps in between.
pub plus-minus : (r other : Resources) → IsWord r → IsWord other → plus (minus r other) other ≡ r
unfolding plus minus
plus-minus r other h k =
    ground (arith, add64-sub64 r.cpu other.cpu, add64-sub64 r.memory other.memory)

pub minus-IsWord : (r other : Resources) → IsWord (minus r other)
unfolding minus
minus-IsWord r other = (sub64-lt r.cpu other.cpu, sub64-lt r.memory other.memory)

pub plus-IsWord : (r other : Resources) → IsWord (plus r other)
unfolding plus
plus-IsWord r other = (add64-lt r.cpu other.cpu, add64-lt r.memory other.memory)

module _ ⦃F : Floats⦄ where
  open F use {Float, literal}

  -- A missing entry is zero.
  pub read_entry : String → Dict String → Float → Result CapacityError ℕ
  read_entry key list scale = elim (lookup key list) [
    | none ↦ ok 0
    | some text ↦ parse_quantity text scale
  ]

  unfoldable pub read_resources : Dict String → Result CapacityError Resources
  unfolding read_entry
  read_resources list = do
    cpu ← read_entry "cpu" list (literal "1000")
    memory ← read_entry "memory" list (literal "1")
    ok (record { cpu = cpu; memory = memory })

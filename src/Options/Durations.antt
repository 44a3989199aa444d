-- ===== src/Options/Durations.antt =====
-- options.go: the patterns of the command line's values, and parseDuration. A pattern is read over
-- the code points; a Duration is its 64-bit pattern, in nanoseconds.
use Prim.Native.Nat.{ℕ, ◌%◌, ◌*◌}
use Prim.Native.String.{String}
use mathlib.Core.Bool.{Bool, false, not, true, ◌&&◌, ◌||◌}
use mathlib.Core.List.{List, [], ◌∷◌}
use nix_packages.Base.{
  Result, all, codes, digits_value, eqb, err, if◌then◌else◌, is_empty, leb, ltb, ok, span_digits,
  word,
}

-- What ParseArgs fails with; `help`, `version_asked` and `usage` are ErrHelp, ErrVersion and ErrUsage.
pub data OptionsError : Type 0 where
  unsupported_action : String → OptionsError
  requires_value : String → OptionsError
  unsupported_context : String → OptionsError
  unsupported_fence_duration : String → OptionsError
  ssh_timeout_not_whole : OptionsError
  slots_not_positive : OptionsError
  help : OptionsError
  version_asked : OptionsError
  usage : OptionsError
  unknown_option : String → OptionsError
  second_host : OptionsError
  unsupported_duration : String → OptionsError
  unsafe_ssh_user : String → OptionsError
  resume_with_on : OptionsError
  needed_without_reboot : OptionsError
  needed_with_resume : OptionsError
  resume_with_skip_drain : OptionsError

abbrev is_alphanumeric : ℕ → Bool
is_alphanumeric c =
    (leb b'0' c && leb c b'9') || (leb b'A' c && leb c b'Z') || (leb b'a' c && leb c b'z')

-- [A-Za-z0-9._-]
abbrev name_character : ℕ → Bool
name_character c = is_alphanumeric c || eqb c b'.' || eqb c b'_' || eqb c b'-'

-- [A-Za-z0-9._@:/-]
abbrev context_character : ℕ → Bool
context_character c = name_character c || eqb c b'@' || eqb c b':' || eqb c b'/'

unfoldable pub safe_name : String → Bool
safe_name text = not (is_empty (codes text)) && all name_character (codes text)

is_context : List ℕ → Bool
is_context [] = false
is_context (c ∷ s) = is_alphanumeric c && all context_character s

unfoldable pub valid_context : String → Bool
unfolding is_context
valid_context name = is_context (codes name)

-- [smh]?$
unfoldable pub is_unit : List ℕ → Bool
is_unit [] = true
is_unit (c ∷ []) = eqb c b's' || eqb c b'm' || eqb c b'h'
is_unit (c ∷ d ∷ rest) = false

-- Digits without a leading zero: one that starts with 1 to 9, or 0 alone.
unfoldable pub plain_number : List ℕ → Bool
plain_number [] = false
plain_number (c ∷ []) = true
plain_number (c ∷ d ∷ rest) = not (eqb c b'0')

unfoldable pub matches_fence_duration : String → Bool
matches_fence_duration text =
    plain_number (span_digits (codes text)).0 && is_unit (span_digits (codes text)).1

unfoldable pub positive_integer : String → Bool
positive_integer text =
    let (ds, rest) = span_digits (codes text) in
    plain_number ds && not (eqb (digits_value 0 ds) 0) && is_empty rest

unfoldable pub digits_only : String → Bool
digits_only text = let (ds, rest) = span_digits (codes text) in not (is_empty ds) && is_empty rest

-- Nanoseconds of a unit, of a second where none is written.
unfoldable pub unit_nanoseconds : List ℕ → ℕ
unit_nanoseconds [] = 1000000000
unit_nanoseconds (c ∷ rest) =
    if eqb c b'm' then 60000000000 else if eqb c b'h' then 3600000000000 else 1000000000

-- 1<<31
abbrev pub largest_count : ℕ
largest_count = 2147483648

unfoldable pub read_duration : String → List ℕ × List ℕ → Result OptionsError ℕ
read_duration text (ds, rest) =
    if is_empty ds || not (is_unit rest)
    then err (unsupported_duration text)
    else if ltb largest_count (digits_value 0 ds)
    then err (unsupported_duration text)
    else ok ((digits_value 0 ds * unit_nanoseconds rest) % word)

unfoldable pub parse_duration : String → Result OptionsError ℕ
unfolding read_duration
parse_duration text = read_duration text (span_digits (codes text))

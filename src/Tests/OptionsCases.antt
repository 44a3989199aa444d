-- ===== src/Tests/OptionsCases.antt =====
-- Command lines of the node tool.
use Prim.Native.Nat.{ℕ}
use Prim.Native.String.{String}
use mathlib.Core.Bool.{Bool, true}
use mathlib.Core.List.{List, [], ◌∷◌}
use mathlib.Core.Path.{refl, ◌≡◌}
use nix_packages.Base.{all, digits_value, is_digit, lt64, ok, span_digits}
use nix_packages.Options.{
  Options, check_combinations, check_durations, default_options, fill_in, parse_args, parse_loop,
  set_flag, set_value, takes_value, validate, with_unit,
}
use nix_packages.Options.Durations.{
  digits_only, is_unit, parse_duration, read_duration, safe_name, unit_nanoseconds,
}
use nix_packages.Options.Units.{with_unit-keeps}
use nix_packages.Options.Valid.{IsValid, parse_args-IsValid}
use nix_packages.Tests.Cluster.{whole_floats}

run_opened : Bool
unfolding parse_args parse_loop takes_value set_value set_flag default_options validate fill_in
    check_durations with_unit parse_duration read_duration span_digits digits_value is_digit
    digits_only is_unit unit_nanoseconds check_combinations safe_name all
run_opened = true

abbrev command_line : List String
command_line = "server1" ∷ "--node" ∷ "alpha" ∷ "--needed" ∷ "--drain-timeout" ∷ "300" ∷ []

abbrev read_options : Options
read_options = record (default_options "" "" "reboot") {
  host = "server1";
  node = "alpha";
  ssh_target = "root@server1";
  needed = true;
  drain_timeout = "300s";
  drain_timeout_set = true;
}

parse_run : parse_args "" "" "reboot" command_line ≡ ok read_options
unfolding run_opened
parse_run = refl

-- More hours than an int64 of nanoseconds holds: the product wraps to a negative Duration.
hours_wrapped : (d : ℕ) × (parse_duration "2562048h" ≡ ok d) × (lt64 d 0 ≡ true)
unfolding run_opened lt64
hours_wrapped = (9223372800000000000, refl, refl)

parse_args-IsValid_example : IsValid "reboot" read_options
parse_args-IsValid_example = parse_args-IsValid "" "" "reboot" command_line read_options parse_run

with_unit-keeps_example : (d : ℕ) × (parse_duration "300" ≡ ok d) × (parse_duration "300s" ≡ ok d)
with_unit-keeps_example = with_unit-keeps "300" "300s" (unfold run_opened in refl)

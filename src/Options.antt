-- ===== src/Options.antt =====
-- options.go: the command line of the node tool. The two environment variables are arguments.
pub mod Durations
pub mod Units
pub mod Numbers
pub mod Kept
pub mod Valid
use Prim.Native.Nat.{ℕ, ◌-◌}
use Prim.Native.String.{String}
use mathlib.Core.Bool.{Bool, false, not, true, ◌&&◌, ◌||◌}
use mathlib.Core.List.{List, [], ◌∷◌}
use mathlib.Core.Option.{Option, none, some}
use text.Mathlib.Text.{◌==◌}
use nix_packages.Base.{
  Result, atoi, codes, eqb, err, half_word, if◌then◌else◌, lt64, ok, ◌<>◌, ◌>>=◌,
}
use nix_packages.Options.Durations.{
  OptionsError, digits_only, help, matches_fence_duration, needed_with_resume,
  needed_without_reboot, parse_duration, positive_integer, requires_value, resume_with_on,
  resume_with_skip_drain, safe_name, second_host, slots_not_positive, ssh_timeout_not_whole,
  unknown_option, unsafe_ssh_user, unsupported_action, unsupported_context,
  unsupported_fence_duration, usage, valid_context, version_asked,
}

-- The fields that ParseArgs sets, an int as its 64-bit pattern.
pub record Options : Type 0 where
  pub action : String
  pub host : String
  pub node : String
  pub ssh_target : String
  pub context : String
  pub skip_drain : Bool
  pub force_drain : Bool
  pub bypass_pdb : Bool
  pub leave_cordoned : Bool
  pub resume_maintenance : Bool
  pub check_only : Bool
  pub needed : Bool
  pub leave_cordoned_requested : Bool
  pub drain_timeout : String
  pub ready_timeout : String
  pub fence_timeout : String
  pub settle_timeout : String
  pub drain_timeout_set : Bool
  pub ssh_timeout_seconds : ℕ
  pub require_longhorn_backup_target : Bool
  pub min_free_pod_slots : ℕ
  pub network_audit_script : String
  pub node_ssh_user : String

-- The variables K8S_NODE_NETWORK_AUDIT_SCRIPT and K8S_NODE_SSH_USER.
unfoldable pub default_options : String → String → String → Options
default_options script ssh_user action = record {
  action = action;
  host = "";
  node = "";
  ssh_target = "";
  context = "";
  skip_drain = false;
  force_drain = false;
  bypass_pdb = false;
  leave_cordoned = false;
  resume_maintenance = false;
  check_only = false;
  needed = false;
  leave_cordoned_requested = false;
  drain_timeout = "10m";
  ready_timeout = "10m";
  fence_timeout = "10m";
  settle_timeout = "90m";
  drain_timeout_set = false;
  ssh_timeout_seconds = 900;
  require_longhorn_backup_target = false;
  min_free_pod_slots = 20;
  network_audit_script = script;
  node_ssh_user = if ssh_user == "" then "root" else ssh_user;
}

unfoldable pub takes_value : String → Bool
takes_value arg =
    arg == "--node"
    || arg == "--ssh-target"
    || arg == "--context"
    || arg == "--drain-timeout"
    || arg == "--ready-timeout"
    || arg == "--fence-timeout"
    || arg == "--settle-timeout"
    || arg == "--ssh-timeout"
    || arg == "--min-free-pod-slots"

pub set_ssh_timeout : Options → Option ℕ → Result OptionsError Options
set_ssh_timeout o none = err ssh_timeout_not_whole
set_ssh_timeout o (some n) =
    if lt64 n 0 then err ssh_timeout_not_whole else ok (record o { ssh_timeout_seconds = n })

-- strconv.Atoi of a positive integer, its error dropped: out of range it gives the largest int.
pub slots_of : String → ℕ
slots_of text = elim (atoi text) [ none ↦ half_word - 1 | some n ↦ n ]

-- An option with its value. It is called where takesValue holds.
unfoldable pub set_value : String → String → Options → Result OptionsError Options
unfolding set_ssh_timeout slots_of
set_value arg v o =
    if arg == "--node"
    then ok (record o { node = v })
    else if arg == "--ssh-target"
    then ok (record o { ssh_target = v })
    else if arg == "--context"
    then (if valid_context v then ok (record o { context = v }) else err (unsupported_context v))
    else if arg == "--drain-timeout"
    then ok (record o { drain_timeout = v; drain_timeout_set = true })
    else if arg == "--ready-timeout"
    then ok (record o { ready_timeout = v })
    else if arg == "--fence-timeout"
    then (if matches_fence_duration v
        then ok (record o { fence_timeout = v })
        else err (unsupported_fence_duration v))
    else if arg == "--settle-timeout"
    then ok (record o { settle_timeout = v })
    else if arg == "--ssh-timeout"
    then set_ssh_timeout o (atoi v)
    else if positive_integer v
    then ok (record o { min_free_pod_slots = slots_of v })
    else err slots_not_positive

-- strings.HasPrefix(arg, "-")
pub starts_with_dash : List ℕ → Bool
starts_with_dash [] = false
starts_with_dash (c ∷ s) = eqb c b'-'

pub set_host : String → Options → Result OptionsError Options
unfolding starts_with_dash
set_host arg o =
    if starts_with_dash (codes arg)
    then err (unknown_option arg)
    else if not (o.host == "")
    then err second_host
    else ok (record o { host = arg })

-- An argument that takes no value.
unfoldable pub set_flag : String → Options → Result OptionsError Options
unfolding set_host
set_flag arg o =
    if arg == "--skip-drain"
    then ok (record o { skip_drain = true })
    else if arg == "--force-drain"
    then ok (record o { force_drain = true })
    else if arg == "--bypass-pdb"
    then ok (record o { bypass_pdb = true })
    else if arg == "--leave-cordoned"
    then ok (record o { leave_cordoned = true; leave_cordoned_requested = true })
    else if arg == "--resume-maintenance"
    then ok (record o { resume_maintenance = true })
    else if arg == "--check-only"
    then ok (record o { check_only = true })
    else if arg == "--needed"
    then ok (record o { needed = true })
    else if arg == "--require-longhorn-backup-target"
    then ok (record o { require_longhorn_backup_target = true })
    else if arg == "-h" || arg == "--help"
    then err help
    else if arg == "--version"
    then err version_asked
    else set_host arg o

-- The loop over the arguments.
unfoldable pub parse_loop : List String → Options → Result OptionsError Options
parse_loop [] o = ok o
parse_loop (arg ∷ []) o = if takes_value arg then err (requires_value arg) else set_flag arg o
parse_loop (arg ∷ v ∷ rest) o =
    if takes_value arg
    then (set_value arg v o >>= parse_loop rest)
    else (set_flag arg o >>= parse_loop (v ∷ rest))

-- What is left out of the command line follows from the host and the action.
unfoldable pub fill_in : Options → Options
fill_in o = record o {
  node = if o.node == "" then o.host else o.node;
  ssh_target = if o.ssh_target == "" then "root@" <> o.host else o.ssh_target;
  leave_cordoned = if o.action == "off" then true else o.leave_cordoned;
}

-- A bare number of seconds gets its unit.
unfoldable pub with_unit : String → Result OptionsError String
with_unit text = parse_duration text >>= λ d. ok (if digits_only text then text <> "s" else text)

unfoldable pub check_durations : Options → Result OptionsError Options
check_durations o = do
  drain ← with_unit o.drain_timeout
  readiness ← with_unit o.ready_timeout
  fence ← with_unit o.fence_timeout
  settled ← with_unit o.settle_timeout
  ok (record o {
    drain_timeout = drain;
    ready_timeout = readiness;
    fence_timeout = fence;
    settle_timeout = settled;
  })

unfoldable pub check_combinations : Options → Result OptionsError Options
check_combinations o =
    if not (safe_name o.node_ssh_user)
    then err (unsafe_ssh_user o.node_ssh_user)
    else if o.resume_maintenance && o.action == "on"
    then err resume_with_on
    else if o.needed && not (o.action == "reboot")
    then err needed_without_reboot
    else if o.needed && o.resume_maintenance
    then err needed_with_resume
    else if o.resume_maintenance && o.skip_drain
    then err resume_with_skip_drain
    else ok o

unfoldable pub validate : Options → Result OptionsError Options
validate o =
    if o.host == "" then err usage else (check_durations (fill_in o) >>= check_combinations)

unfoldable pub parse_args : String → String → String → List String → Result OptionsError Options
parse_args script ssh_user action args =
    if action == "reboot" || action == "off" || action == "on"
    then (parse_loop args (default_options script ssh_user action) >>= validate)
    else err (unsupported_action action)

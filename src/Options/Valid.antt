-- ===== src/Options/Valid.antt =====
-- About the options that ParseArgs returns.
use Prim.Native.Nat.{ℕ, ◌<◌}
use Prim.Native.String.{String}
use mathlib.Core.Bool.{Bool, false, not, true, ◌&&◌, ◌||◌}
use mathlib.Core.List.{List}
use mathlib.Core.Logic.{inl, inr, ◌≢◌, ◌⊎◌}
use mathlib.Core.Path.{refl, subst, sym, ◌≡◌}
use native.Mathlib.Omega.{arith}
use text.Mathlib.Text.{◌==◌}
use text.Mathlib.TextEquality.{eq_iff}
use nix_packages.Base.{Bool-cases, Result, eq_of_ok, err, half_word, if◌then◌else◌, ok, ok_of_bind}
use nix_packages.Options.{
  Options, check_combinations, check_durations, default_options, fill_in, parse_args, parse_loop,
  validate, with_unit,
}
use nix_packages.Options.Durations.{OptionsError, parse_duration, safe_name, usage}
use nix_packages.Options.Kept.{IsKept, parse_loop-IsKept}
use nix_packages.Options.Units.{with_unit-keeps}

-- A duration that parseDuration reads.
abbrev pub Reads : String → Type 0
Reads text = (d : ℕ) × (parse_duration text ≡ ok d)

-- Options that the operation can run with.
pub record IsValid (action : String) (o : Options) : Type 0 where
  pub same_action : o.action ≡ action
  pub known_action : (action ≡ "reboot") ⊎ (action ≡ "off") ⊎ (action ≡ "on")
  pub has_host : o.host ≢ ""
  pub has_node : o.node ≢ ""
  pub drain_reads : Reads o.drain_timeout
  pub readiness_reads : Reads o.ready_timeout
  pub fence_reads : Reads o.fence_timeout
  pub settle_reads : Reads o.settle_timeout
  pub positive_slots : (0 < o.min_free_pod_slots) × (o.min_free_pod_slots < half_word)
  pub whole_timeout : o.ssh_timeout_seconds < half_word
  pub safe_user : safe_name o.node_ssh_user ≡ true
  pub off_cordons : action ≡ "off" → o.leave_cordoned ≡ true
  pub resume_not_on : o.resume_maintenance ≡ true → action ≢ "on"
  pub needed_reboots : o.needed ≡ true → action ≡ "reboot"
  pub needed_not_resumed : o.needed ≡ true → o.resume_maintenance ≡ false
  pub resume_drains : o.resume_maintenance ≡ true → o.skip_drain ≡ false

if_err :
    (b : Bool) (e : OptionsError) {x : Result OptionsError Options} (o : Options)
    → (if b then err e else x) ≡ ok o
    → (b ≡ false) × (x ≡ ok o)
if_err true e o h = cc
if_err false e o h = (refl, h)

check_combinations-ok :
    (o o' : Options)
    → check_combinations o ≡ ok o'
    → (o ≡ o')
      × (not (safe_name o.node_ssh_user) ≡ false)
      × (o.resume_maintenance && o.action == "on" ≡ false)
      × (o.needed && not (o.action == "reboot") ≡ false)
      × (o.needed && o.resume_maintenance ≡ false)
      × (o.resume_maintenance && o.skip_drain ≡ false)
unfolding check_combinations
check_combinations-ok o o' h =
    let (a, h0) = if_err (not (safe_name o.node_ssh_user)) _ o' h in
    let (b, h1) = if_err (o.resume_maintenance && o.action == "on") _ o' h0 in
    let (c, h2) = if_err (o.needed && not (o.action == "reboot")) _ o' h1 in
    let (d, h3) = if_err (o.needed && o.resume_maintenance) _ o' h2 in
    let (e, h4) = if_err (o.resume_maintenance && o.skip_drain) _ o' h3 in
    (eq_of_ok h4, a, b, c, d, e)

abbrev with_durations : Options → String → String → String → String → Options
with_durations o drain readiness fence settled = record o {
  drain_timeout = drain;
  ready_timeout = readiness;
  fence_timeout = fence;
  settle_timeout = settled;
}

-- The durations, each of which reads.
record Durations (o o' : Options) : Type 0 where
  drain : String
  readiness : String
  fence : String
  settled : String
  same : with_durations o drain readiness fence settled ≡ o'
  drain_reads : Reads drain
  readiness_reads : Reads readiness
  fence_reads : Reads fence
  settle_reads : Reads settled

with_unit-Reads : (text text' : String) → with_unit text ≡ ok text' → Reads text'
with_unit-Reads text text' h = let (d, q, r) = with_unit-keeps text text' h in (d, r)

check_durations-Durations : (o o' : Options) → check_durations o ≡ ok o' → Durations o o'
unfolding check_durations
check_durations-Durations o o' h =
    let (drain, a, h0) = ok_of_bind (with_unit o.drain_timeout) _ h in
    let (readiness, b, h1) = ok_of_bind (with_unit o.ready_timeout) _ h0 in
    let (fence, c, h2) = ok_of_bind (with_unit o.fence_timeout) _ h1 in
    let (settled, d, h3) = ok_of_bind (with_unit o.settle_timeout) _ h2 in
    record {
      drain = drain;
      readiness = readiness;
      fence = fence;
      settled = settled;
      same = eq_of_ok h3;
      drain_reads = with_unit-Reads o.drain_timeout drain a;
      readiness_reads = with_unit-Reads o.ready_timeout readiness b;
      fence_reads = with_unit-Reads o.fence_timeout fence c;
      settle_reads = with_unit-Reads o.settle_timeout settled d;
    }

validate-IsValid :
    (action : String) (o o' : Options)
    → (action ≡ "reboot") ⊎ (action ≡ "off") ⊎ (action ≡ "on")
    → IsKept action o
    → validate o ≡ ok o'
    → IsValid action o'
unfolding validate fill_in
validate-IsValid action o o' known kept h =
    let (host, h0) = if_err (o.host == "") usage o' h in
    let (p, q, h1) = ok_of_bind (check_durations (fill_in o)) _ h0 in
    let d = check_durations-Durations (fill_in o) p q in
    let r = with_durations (fill_in o) d.drain d.readiness d.fence d.settled in
    let c =
      check_combinations-ok r o' (subst (λ x. check_combinations x ≡ ok o') (sym d.same) h1) in
    subst (IsValid action) c.0 (record {
      same_action = kept.same_action;
      known_action = known;
      has_host = λ e. ground (arith, host, eq_iff o.host "");
      has_node = λ e. ground (arith, host, eq_iff o.host "", eq_iff o.node "");
      drain_reads = d.drain_reads;
      readiness_reads = d.readiness_reads;
      fence_reads = d.fence_reads;
      settle_reads = d.settle_reads;
      positive_slots = (kept.positive_slots, kept.slots_fit);
      whole_timeout = kept.whole_timeout;
      safe_user = ground (arith, c.1);
      off_cordons = λ e. ground (arith, kept.same_action, eq_iff o.action "off");
      resume_not_on = λ e f. ground (arith, c.2, kept.same_action, eq_iff o.action "on");
      needed_reboots = λ e. ground (arith, c.3, kept.same_action, eq_iff o.action "reboot");
      needed_not_resumed = λ e. ground (arith, c.4);
      resume_drains = λ e. ground (arith, c.5);
    })

known_actions :
    (action : String)
    → (action == "reboot" || action == "off" || action == "on") ≡ true
    → (action ≡ "reboot") ⊎ (action ≡ "off") ⊎ (action ≡ "on")
known_actions action h =
    ground (arith, eq_iff action "reboot", eq_iff action "off", eq_iff action "on")

-- Whatever the arguments, the options that `ParseArgs` returns are valid: a known action, a host, a
-- node, four durations that read, a positive number of slots, a timeout that is not negative, a
-- safe user name, and no combination that the maintenance refuses.
pub parse_args-IsValid :
    (script ssh_user action : String) (args : List String) (o : Options)
    → parse_args script ssh_user action args ≡ ok o
    → IsValid action o
unfolding parse_args default_options
parse_args-IsValid script ssh_user action args o h =
    elim (Bool-cases (action == "reboot" || action == "off" || action == "on")) [
      | inl e ↦
          let (p, q, v) =
            ok_of_bind (parse_loop args (default_options script ssh_user action)) _ (rw e at h) in
          validate-IsValid action p o (known_actions action e)
            (parse_loop-IsKept action args (default_options script ssh_user action) p
              (record {
                same_action = refl;
                positive_slots = omega arith;
                slots_fit = omega arith;
                whole_timeout = omega arith;
              })
              q)
            v
      | inr e ↦ let q = rw e at h in cc
    ]

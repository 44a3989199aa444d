-- ===== src/Operation/Machine.antt =====
-- operation.go: the state of one run (Operation, fenceState), the ways in which it fails, and the
-- functions on the state that every step is built from. `Notes` are the fields that waits set,
-- `Ledger` those that go with a change or a logged fact: the two are the fields of one Go struct. What a step
-- changed before it failed stays changed.
-- Commands that change the cluster or the host.
use Prim.Native.Nat.{ℕ}
use Prim.Native.String.{String}
use mathlib.Core.Bool.{Bool, false, true}
use mathlib.Core.List.{List, ◌∷◌}
use mathlib.Core.Option.{Option}
use nix_packages.Base.{Result, err, if◌then◌else◌, ok}
use nix_packages.Capacity.Quantity.{CapacityError}
use nix_packages.Kube.{Workload}
use nix_packages.Operation.Json.{Fields}

pub data Command : Type 0 where
  cordon uncordon remove_baseline stop_agent reboot_host power_off_host : Command
  drain promote annotate_baseline patch_rebuild_limit : String → Command
  detach_storage : Bool → Command

-- A command that ended with a status, or a fact that a read found.
pub data Event : Type 0 where
  ran : Command → ℕ → Event
  agent_seen cordon_seen : Bool → Event

pub data Reason : Type 0 where
  node_unreadable remote_privilege node_unready network_audit no_internal_ip : Reason
  flannel_mismatch flannel_missing unsafe_name unsafe_address no_audit_helper : Reason
  survivor_unready fence_metadata fence_status_invalid fence_nodes fence_preflight_failed : Reason
  fence_servers fence_mode agent_stop agent_running baseline_write baseline_cleanup : Reason
  baseline_time fence_return own_agent replica_floor rebuild_limit volumes_unhealthy : Reason
  backup_target replica_spread volumes_at_risk volumes_attached attachments_left : Reason
  storage_active databases_at_risk databases_unhealthy no_candidate no_plugin : Reason
  promotion ready_floor_missed cannot_place unsettled bad_pods not_cordoned : Reason
  other_pods cordoned_already cordon_failed drain_failed uncordon_failed : Reason
  boot_unreadable reboot_unstarted reboot_unknown same_boot power_off_failed : Reason
  ssh_stays ssh_missing unsupported : Reason

pub data Failure : Type 0 where
  interrupted out_of_fuel : Failure
  refused : Reason → Failure
  capacity : CapacityError → Failure
  -- "…; NODE remains cordoned", "…; NODE was uncordoned" and "…; could not uncordon NODE, which
  -- remains cordoned".
  kept_cordon was_uncordoned could_not_uncordon : Failure → Failure

-- strings.Contains(err.Error(), "remains cordoned")
unfoldable pub names_cordon : Failure → Bool
names_cordon (kept_cordon f) = true
names_cordon (could_not_uncordon f) = true
names_cordon (was_uncordoned f) = names_cordon f
names_cordon interrupted = false
names_cordon out_of_fuel = false
names_cordon (refused r) = false
names_cordon (capacity e) = false

-- fenceState, but hasAgent. A status is the report's fields, none for nil.
pub record FenceState : Type 0 where
  pub previous_mode : String
  pub status : Option Fields
  pub status_exit : ℕ
  pub agent_stopped : Bool
  pub baseline : Option ℕ

-- `moment` counts the reads and commands so far, `time` is the clock in nanoseconds.
pub record Notes : Type 0 where
  pub moment : ℕ
  pub time : ℕ
  pub fence : FenceState
  pub workloads : List Workload
  pub boot_id : String

-- `trace` has the newest event first; `has_agent` is fenceState's field.
pub record Ledger : Type 0 where
  pub trace : List Event
  pub cordoned : Bool
  pub releasable : Bool
  pub rebuild_limit_original : String
  pub has_agent : Bool

pub record State : Type 0 where
  pub notes : Notes
  pub ledger : Ledger

-- A step on a state: it ends with a value or a failure, and with the state as it left it.
abbrev pub Stateful : Type 0 → Type 0 → Type 0
Stateful S A = S → Result Failure A × S

abbrev pub Gate : Type 0 → Type 0
Gate A = Stateful Notes A

abbrev pub Action : Type 0 → Type 0
Action A = Stateful State A

unfoldable pub bind_at :
    {S : Type 0} {A B : Type 0} → Result Failure A × S → (A → Stateful S B) → Result Failure B × S
bind_at (ok a, s) f = f a s
bind_at (err e, s) f = (err e, s)

infixl 5 ◌>>=◌ ◌>>◌
unfoldable pub ◌>>=◌ :
    {S : Type 0} {A B : Type 0} → Stateful S A → (A → Stateful S B) → Stateful S B
unfolding bind_at
m >>= f = λ s. bind_at (m s) f

abbrev pub ◌>>◌ : {S : Type 0} {A B : Type 0} → Stateful S A → Stateful S B → Stateful S B
m >> k = m >>= λ _. k

unfoldable pub pure : {S A : Type 0} → A → Stateful S A
pure a = λ s. (ok a, s)

unfoldable pub fail : {S A : Type 0} → Failure → Stateful S A
fail e = λ s. (err e, s)

abbrev pub refuse : {S A : Type 0} → Reason → Stateful S A
refuse r = fail (refused r)

-- `if test { return err }`
unfoldable pub refuse_if : {S : Type 0} → Bool → Reason → Stateful S (Unit {0})
refuse_if test r = λ s. (if test then err (refused r) else ok tt, s)

unfoldable pub gets : {S A : Type 0} → (S → A) → Stateful S A
gets f = λ s. (ok (f s), s)

unfoldable pub modify : {S : Type 0} → (S → S) → Stateful S (Unit {0})
modify f = λ s. (ok tt, f s)

-- A read error, with the capacity checks' errors kept.
unfoldable pub lift : {S A : Type 0} → Result CapacityError A → Stateful S A
lift (ok a) = pure a
lift (err e) = fail (capacity e)

-- A gate reads, and sets notes only.
unfoldable pub observe_at :
    {A : Type 0} → Ledger → Result Failure A × Notes → Result Failure A × State
observe_at l (r, n) = (r, record { notes = n; ledger = l })

unfoldable pub observe : {A : Type 0} → Gate A → Action A
unfolding observe_at
observe g = λ s. observe_at s.ledger (g s.notes)

unfoldable pub logged : Event → Ledger → Ledger
logged e l = record l { trace = e ∷ l.trace }

unfoldable pub set_ledger : (Ledger → Ledger) → State → State
set_ledger f s = record s { ledger = f s.ledger }

unfoldable pub set_fence : (FenceState → FenceState) → State → State
set_fence f s = record s { notes = record s.notes { fence = f s.notes.fence } }

-- ===== src/Operation/RunLaws.antt =====
-- Invariants of a whole run's trace.
-- Reads, and the detach script in its form that reconciles nothing.
use Prim.Native.Nat.{ℕ}
use mathlib.Core.Bool.{Bool, false, not, true}
use mathlib.Core.Path.{ap, refl, ◌∙◌, ◌≡◌}
use native.Mathlib.Omega.{arith}
use text.Mathlib.Text.{◌==◌}
use nix_packages.Base.{Floats, all}
use nix_packages.Operation.ChangeRuns.{Allowed, Prepares}
use nix_packages.Operation.Changes.{clear_limit, record_limit}
use nix_packages.Operation.Fence.{found_agent}
use nix_packages.Operation.Lifecycle.{new_state, run_operation}
use nix_packages.Operation.Machine.{
  Command, Event, Ledger, agent_seen, annotate_baseline, cordon_seen, detach_storage, drain, logged,
  patch_rebuild_limit, power_off_host, promote, ran, reboot_host, remove_baseline, stop_agent,
  uncordon,
}
use nix_packages.Operation.RunSteps.{Permits, run-Steps}
use nix_packages.Operation.Steps.{
  Step, Steps-keep, after_restore, flagged, happened, patched, recorded, restored, told,
}
use nix_packages.Operation.World.{World}
use nix_packages.Options.{Options}

abbrev pub harmless : Event → Bool
harmless (agent_seen b) = true
harmless (cordon_seen b) = true
harmless (ran (detach_storage b) n) = not b
harmless (ran (patch_rebuild_limit v) n) = false
harmless (ran (drain t) n) = false
harmless (ran (promote t) n) = false
harmless (ran (annotate_baseline t) n) = false
harmless (ran Command.cordon n) = false
harmless (ran uncordon n) = false
harmless (ran remove_baseline n) = false
harmless (ran stop_agent n) = false
harmless (ran reboot_host n) = false
harmless (ran power_off_host n) = false

-- A check is permitted as little as the reads and the detach script are.
pub check-Permits :
    {o : Options} (p : Event → Bool) → o.check_only ≡ true → Allowed p o → Permits p o
check-Permits p h k = record {
  allowed = k;
  prepares = λ live. absurd (cc);
  lifts = λ live. absurd (cc);
  finishes = λ live. absurd (cc);
  finishes_on = λ live. absurd (cc);
  reboots = λ live. absurd (cc);
  powers_off = λ live. absurd (cc);
}

harmless-Allowed : {o : Options} → o.check_only ≡ true → Allowed harmless o
harmless-Allowed h = record { told_agent = λ b. refl; told_cordon = λ b. refl; detach = λ n. rw h }

abbrev Untouched : Ledger → Type 0
Untouched l = (all harmless l.trace ≡ true) × (l.rebuild_limit_original ≡ "")

Step-Untouched :
    {o : Options}
    → o.check_only ≡ true
    → (l m : Ledger) → Step harmless o l m
    → Untouched l
    → Untouched m
unfolding all logged found_agent record_limit
Step-Untouched h l m (happened e a b c) k = rw c (ground (arith, k.0, k.1))
Step-Untouched h l m (told b a c) k = rw c (ground (arith, k.0, k.1))
Step-Untouched h l m (flagged a b c) k = (rw a k.0, b ∙ k.1)
Step-Untouched h l m (recorded a b) k = absurd (cc)
Step-Untouched h l m (patched n a b c) k = absurd (cc)
Step-Untouched h l m (restored n a b) k =
    let e : (l.rebuild_limit_original == "") ≡ true = ap (λ x. x == "") k.1 in absurd (cc)

module _ ⦃F : Floats⦄ (w : World) (o : Options) (time : ℕ) where
  -- A run with --check-only gives no command that changes the cluster or the host, whatever the
  -- answers are and however it ends: apart from what it read, its trace holds only the detach
  -- script told to reconcile no session.
  pub check_only-Harmless :
      o.check_only ≡ true → all harmless (run_operation w o (new_state time)).1.ledger.trace ≡ true
  unfolding new_state all
  check_only-Harmless h =
      (Steps-keep Untouched (Step-Untouched h)
        (run-Steps w (check-Permits harmless h (harmless-Allowed h)) (new_state time))
        (refl, refl)).0

-- Any event but an uncordon.
abbrev pub keeps_cordon : Event → Bool
keeps_cordon (ran uncordon n) = false
keeps_cordon (agent_seen b) = true
keeps_cordon (cordon_seen b) = true
keeps_cordon (ran (detach_storage b) n) = true
keeps_cordon (ran (patch_rebuild_limit v) n) = true
keeps_cordon (ran (drain t) n) = true
keeps_cordon (ran (promote t) n) = true
keeps_cordon (ran (annotate_baseline t) n) = true
keeps_cordon (ran Command.cordon n) = true
keeps_cordon (ran remove_baseline n) = true
keeps_cordon (ran stop_agent n) = true
keeps_cordon (ran reboot_host n) = true
keeps_cordon (ran power_off_host n) = true

keeps_cordon-Prepares : Prepares keeps_cordon
keeps_cordon-Prepares Command.cordon n h = refl
keeps_cordon-Prepares (drain t) n h = refl
keeps_cordon-Prepares (promote t) n h = refl
keeps_cordon-Prepares stop_agent n h = refl
keeps_cordon-Prepares (annotate_baseline t) n h = refl
keeps_cordon-Prepares remove_baseline n h = refl
keeps_cordon-Prepares uncordon n h = h
keeps_cordon-Prepares reboot_host n h = refl
keeps_cordon-Prepares power_off_host n h = refl
keeps_cordon-Prepares (patch_rebuild_limit v) n h = refl
keeps_cordon-Prepares (detach_storage b) n h = refl

kept-Permits :
    {o : Options}
    → o.leave_cordoned_requested ≡ true
    → o.leave_cordoned ≡ true
    → (o.action == "on") ≡ false
    → Permits keeps_cordon o
kept-Permits a b c = record {
  allowed = record { told_agent = λ b. refl; told_cordon = λ b. refl; detach = λ n. refl };
  prepares = λ live. keeps_cordon-Prepares;
  lifts = λ live e. absurd (cc);
  finishes = λ live e. absurd (cc);
  finishes_on = λ live e. absurd (cc);
  reboots = λ live n. refl;
  powers_off = λ live n. refl;
}

Step-kept :
    {o : Options} (l m : Ledger)
    → Step keeps_cordon o l m
    → all keeps_cordon l.trace ≡ true
    → all keeps_cordon m.trace ≡ true
unfolding all logged found_agent record_limit after_restore clear_limit
Step-kept l m (happened e a b c) k = rw c (ground (arith, k))
Step-kept l m (told b a c) k = rw c k
Step-kept l m (flagged a b c) k = rw a k
Step-kept l m (recorded a b) k = rw b k
Step-kept l m (patched n a b c) k = rw c k
Step-kept l m (restored n a b) k = rw b (ground (arith, k))

module _ ⦃F : Floats⦄ (w : World) (o : Options) (time : ℕ) where
  -- With --leave-cordoned, a reboot or an off run never lifts the cordon, however it ends: its
  -- trace holds no uncordon command.
  pub run-KeepsCordon :
      o.leave_cordoned_requested ≡ true
      → o.leave_cordoned ≡ true
      → (o.action == "on") ≡ false
      → all keeps_cordon (run_operation w o (new_state time)).1.ledger.trace ≡ true
  unfolding new_state all
  run-KeepsCordon a b c =
      Steps-keep (λ l. all keeps_cordon l.trace ≡ true) Step-kept
        (run-Steps w (kept-Permits a b c) (new_state time)) refl

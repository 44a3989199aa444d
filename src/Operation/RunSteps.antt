-- ===== src/Operation/RunSteps.antt =====
-- The steps of reboot, powerOff, checkOnly and Run.
-- What a run may do, command by command, under its options.
use Prim.Native.Nat.{ℕ}
use mathlib.Core.Bool.{Bool, false, true, ◌||◌}
use mathlib.Core.Path.{ap, refl, subst, sym, ◌∙◌, ◌≡◌}
use text.Mathlib.Text.{◌==◌}
use nix_packages.Base.{Floats, Result, eqb, err, if◌then◌else◌, minus_one, ok}
use nix_packages.Operation.ChangeRuns.{Allowed, Prepares, Runs-restore, Runs-stop_fence_agent}
use nix_packages.Operation.Changes.{restore_rebuild_limit}
use nix_packages.Operation.CheckRuns.{Runs-check_on_gates, Runs-check_only_off, Runs-skips}
use nix_packages.Operation.Fence.{stop_fence_agent}
use nix_packages.Operation.LifeRuns.{Runs-power_on, Runs-prepare_or_release, Runs-return_to_service}
use nix_packages.Operation.Lifecycle.{
  check_only_run, cleaned, exit_of, finish_reboot, once, power_off, power_off_host_step, power_on,
  reboot, reboot_host_step, run, run_action, run_checked, run_operation,
}
use nix_packages.Operation.Machine.{
  Event, Failure, Ledger, State, power_off_host, ran, reboot_host, refuse, uncordon, unsupported,
  ◌>>◌,
}
use nix_packages.Operation.Prepare.{prepare_or_release}
use nix_packages.Operation.Runs.{
  Runs-bind, Runs-fail, Runs-if, Runs-observe, Runs-pure, Runs-refuse_if, Runs-run_command,
  Runs-test, Runs-then, Steps-of,
}
use nix_packages.Operation.Steps.{
  Runs, Step, Steps, Steps-trans, flagged, happened, here, more, patched, recorded, restored, runs,
  told,
}
use nix_packages.Operation.World.{World}
use nix_packages.Options.{Options}

pub record Permits (p : Event → Bool) (o : Options) : Type 0 where
  pub allowed : Allowed p o
  pub prepares : o.check_only ≡ false → Prepares p
  pub lifts :
      o.check_only ≡ false
      → o.leave_cordoned_requested ≡ false
      → (n : ℕ) → p (ran uncordon n) ≡ true
  pub finishes :
      o.check_only ≡ false → o.leave_cordoned ≡ false → (n : ℕ) → p (ran uncordon n) ≡ true
  pub finishes_on :
      o.check_only ≡ false → (o.action == "on") ≡ true → (n : ℕ) → p (ran uncordon n) ≡ true
  pub reboots : o.check_only ≡ false → (n : ℕ) → p (ran reboot_host n) ≡ true
  pub powers_off : o.check_only ≡ false → (n : ℕ) → p (ran power_off_host n) ≡ true

Step-once : {p : Event → Bool} {o : Options} {l m : Ledger} → Step p (once o) l m → Step p o l m
unfolding once
Step-once (happened e a b c) = happened e a b c
Step-once (told b a c) = told b a c
Step-once (flagged a b c) = flagged a b c
Step-once (recorded a b) = recorded a b
Step-once (patched n a b c) = patched n a b c
Step-once (restored n a b) = restored n a b

Steps-once : {p : Event → Bool} {o : Options} {l m : Ledger} → Steps p (once o) l m → Steps p o l m
Steps-once (here e) = here e
Steps-once (more a b) = more (Steps-once a) (Step-once b)

Allowed-once : {p : Event → Bool} {o : Options} → Allowed p o → Allowed p (once o)
unfolding once
Allowed-once k = record {
  told_agent = k.told_agent;
  told_cordon = k.told_cordon;
  detach = k.detach;
}

module _ {p : Event → Bool} {o : Options} ⦃F : Floats⦄ (w : World) (k : Permits p o) where
  Runs-check_only : Runs p o (check_only_run w o)
  unfolding check_only_run
  Runs-check_only =
      Runs-if (o.action == "on")
        (runs λ s. Steps-once (Steps-of (Runs-check_on_gates w (Allowed-once k.allowed)) s))
        (Runs-check_only_off w k.allowed)

  module _ (live : o.check_only ≡ false) where
    Runs-reboot_host : Runs p o (reboot_host_step w o)
    unfolding reboot_host_step
    Runs-reboot_host =
        Runs-bind (Runs-then (Runs-observe _) (Runs-run_command w _ (λ n. refl) (k.reboots live)))
          λ n.
            Runs-if (eqb n minus_one) (Runs-fail _)
              (Runs-if (eqb n 0 || eqb n 255) (Runs-pure tt) (Runs-fail _))

    Runs-power_off_host : Runs p o (power_off_host_step w o)
    unfolding power_off_host_step
    Runs-power_off_host =
        Runs-bind (Runs-run_command w _ (λ n. refl) (k.powers_off live)) λ n. Runs-refuse_if _ _

    -- prepareNodeForDisruption and stopFenceAgent, the start of reboot and of powerOff.
    Runs-start : Runs p o (prepare_or_release w o >> stop_fence_agent w o)
    Runs-start =
        Runs-then (Runs-prepare_or_release w k.allowed (k.prepares live) (k.lifts live))
          (Runs-stop_fence_agent w (k.prepares live) k.allowed)

    Runs-finish_reboot : Runs p o (finish_reboot w o)
    unfolding finish_reboot
    Runs-finish_reboot =
        Runs-test o.leave_cordoned (λ e. Runs-pure tt)
          (λ e. Runs-return_to_service w k.allowed (k.finishes live e))

    Runs-reboot : Runs p o (reboot w o)
    unfolding reboot
    Runs-reboot =
        Runs-then
          (Runs-then
            (Runs-then
              (Runs-then (Runs-then (Runs-then Runs-start Runs-reboot_host) (Runs-observe _))
                (Runs-observe _))
              (Runs-observe _))
            (Runs-observe _))
          Runs-finish_reboot

    Runs-power_off : Runs p o (power_off w o)
    unfolding power_off
    Runs-power_off = Runs-then (Runs-then Runs-start Runs-power_off_host) (Runs-observe _)

    Runs-on : Runs p o (if o.action == "on" then power_on w o else refuse unsupported)
    Runs-on =
        Runs-test (o.action == "on")
          (λ e. Runs-power_on w k.allowed (k.finishes_on live e) (k.prepares live))
          (λ e. Runs-fail _)

    Runs-action : Runs p o (run_action w o)
    unfolding run_action
    Runs-action =
        Runs-if (o.action == "reboot") Runs-reboot
          (Runs-if (o.action == "off") Runs-power_off Runs-on)

  Runs-checked : Runs p o (run_checked w o)
  unfolding run_checked
  Runs-checked = Runs-test o.check_only (λ e. Runs-check_only) Runs-action

  pub Runs-run : Runs p o (run w o)
  unfolding run
  Runs-run =
      Runs-bind (Runs-skips w k.allowed) λ skipped. Runs-if skipped (Runs-pure tt) Runs-checked

module _ ⦃F : Floats⦄ (w : World) (o : Options) where
  cleaned-state : (n : ℕ) (r : Result Failure (Unit {0}) × State) → (cleaned w o n r).1 ≡ r.1
  unfolding cleaned
  cleaned-state n (ok u, s) = refl
  cleaned-state n (err e, s) = refl

  exit-state : (r : Result Failure (Unit {0}) × State) → (exit_of w o r).1 ≡ r.1
  unfolding exit_of
  exit-state (ok u, s) = refl
  exit-state (err e, s) = refl

  -- Run leaves the state that its cleanup leaves.
  pub run_state :
      (s : State) → (run_operation w o s).1 ≡ (restore_rebuild_limit w o (run w o s).1).1
  unfolding run_operation
  run_state s =
      cleaned-state (exit_of w o (run w o s)).0
        (restore_rebuild_limit w o (exit_of w o (run w o s)).1)
      ∙ ap (λ s'. (restore_rebuild_limit w o s').1) (exit-state (run w o s))

-- Run with its cleanup makes permitted steps only.
pub run-Steps :
    {p : Event → Bool} {o : Options} ⦃F : Floats⦄ (w : World)
    → Permits p o
    → (s : State) → Steps p o s.ledger (run_operation w o s).1.ledger
run-Steps {p} {o} w k s =
    subst (λ (t : State). Steps p o s.ledger t.ledger) (sym (run_state w o s))
      (Steps-trans (Steps-of (Runs-run w k) s) (Steps-of (Runs-restore w) (run w o s).1))

-- ===== src/Operation/PowerGuard.antt =====
-- The guard of the power actions, for Run as a whole.
use Prim.Native.Nat.{ℕ}
use mathlib.Core.Bool.{false, true}
use mathlib.Core.Logic.{inl, inr}
use mathlib.Core.Path.{refl, subst, sym, ◌≡◌}
use nix_packages.Base.{Bool-cases, Floats}
use nix_packages.Operation.ChangeRuns.{Allowed, Runs-restore}
use nix_packages.Operation.CheckRuns.{Runs-skips}
use nix_packages.Operation.Guarded.{
  Guarded, Keeps, Keeps-Runs, Keeps-action, Keeps-bind, Keeps-if, Step-Guarded, is_guarded, kept,
  no_power,
}
use nix_packages.Operation.Lifecycle.{new_state, run, run_checked, run_operation}
use nix_packages.Operation.Machine.{State}
use nix_packages.Operation.RunLaws.{check-Permits}
use nix_packages.Operation.RunSteps.{run-Steps, run_state}
use nix_packages.Operation.Runs.{Runs-pure, Steps-of}
use nix_packages.Operation.Steps.{Steps-keep}
use nix_packages.Operation.World.{World}
use nix_packages.Options.{Options}

module _ (o : Options) ⦃F : Floats⦄ (w : World) where
  quiet-Allowed : Allowed no_power o
  quiet-Allowed = record { told_agent = λ b. refl; told_cordon = λ b. refl; detach = λ n. refl }

  Keeps-live : o.check_only ≡ false → Keeps (Guarded o) (run w o)
  unfolding run run_checked
  Keeps-live live =
      Keeps-bind (Keeps-Runs no_power o Step-Guarded (Runs-skips w quiet-Allowed)) λ skipped.
        Keeps-if skipped (λ e. Keeps-Runs no_power o Step-Guarded (Runs-pure tt))
          (λ e. Keeps-if o.check_only (λ e. absurd (cc)) (λ e. Keeps-action o w live))

  live-Guarded :
      o.check_only ≡ false
      → (s : State) → Guarded o s.ledger
      → Guarded o (run_operation w o s).1.ledger
  live-Guarded live s h =
      subst (λ (t : State). Guarded o t.ledger) (sym (run_state w o s))
        (Steps-keep (Guarded o) Step-Guarded (Steps-of (Runs-restore w) (run w o s).1)
          (kept (Keeps-live live) s h))

  -- Each reboot or power-off command of a run comes after all of these in the trace: a cordon that
  -- succeeded or was found, the detach script that reconciles sessions ending with status 0, the
  -- self-fence agent stopped with status 0 or a read that found none, and, unless --skip-drain or
  -- --resume-maintenance is given, a drain that ended with status 0. This holds whatever the
  -- cluster and the host answer, at every interrupt, and however the run ends.
  pub run-GuardsPower :
      (time : ℕ) → is_guarded o (run_operation w o (new_state time)).1.ledger.trace ≡ true
  unfolding new_state is_guarded
  run-GuardsPower time = elim (Bool-cases o.check_only) [
    | inl e ↦
        Steps-keep (Guarded o) Step-Guarded
          (run-Steps w (check-Permits no_power e quiet-Allowed) (new_state time)) refl
    | inr e ↦ live-Guarded e (new_state time) refl
  ]

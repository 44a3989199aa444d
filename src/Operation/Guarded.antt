-- ===== src/Operation/Guarded.antt =====
-- Power actions over a whole run: each one stands on a trace that was prepared for it.
use Prim.Native.Nat.{ℕ}
use mathlib.Core.Bool.{Bool, false, not, true, ◌&&◌, ◌||◌}
use mathlib.Core.List.{List, [], ◌∷◌}
use mathlib.Core.Logic.{inl, inr}
use mathlib.Core.Path.{ap, refl, ◌∙◌, ◌≡◌}
use native.Mathlib.Omega.{arith}
use text.Mathlib.Text.{◌==◌}
use nix_packages.Base.{Bool-cases, Floats, Result, any, eqb, err, if◌then◌else◌, minus_one, ok}
use nix_packages.Operation.ChangeRuns.{Allowed, Prepares, Runs-stop_fence_agent}
use nix_packages.Operation.Changes.{clear_limit, ran_command, record_limit, run_command}
use nix_packages.Operation.Fence.{found_agent, stop_fence_agent}
use nix_packages.Operation.LifeRuns.{Runs-power_on, Runs-prepare_or_release, Runs-return_to_service}
use nix_packages.Operation.Lifecycle.{
  finish_reboot, power_off, power_off_host_step, reboot, reboot_host_step, run_action,
}
use nix_packages.Operation.Machine.{
  Action, Command, Event, Failure, Gate, Ledger, State, annotate_baseline, bind_at, detach_storage,
  drain, fail, logged, observe, observe_at, patch_rebuild_limit, power_off_host, promote, pure, ran,
  reboot_host, refuse_if, remove_baseline, stop_agent, uncordon, ◌>>=◌, ◌>>◌,
}
use nix_packages.Operation.PowerLaws.{is_prepared}
use nix_packages.Operation.Prepare.{prepare_or_release}
use nix_packages.Operation.Runs.{Runs-if, Runs-pure, Runs-then, Steps-of}
use nix_packages.Operation.StartMarks.{start_ok-Prepared}
use nix_packages.Operation.Steps.{
  Runs, Step, Steps-keep, after_restore, flagged, happened, is_plain, patched, recorded, restored,
  told,
}
use nix_packages.Operation.World.{World}
use nix_packages.Options.{Options}

abbrev pub is_power : Event → Bool
is_power (ran reboot_host n) = true
is_power (ran power_off_host n) = true
is_power e = false

-- Every power action of the trace has what is_prepared asks for before it.
unfoldable pub is_guarded : Options → List Event → Bool
is_guarded o [] = true
is_guarded o (e ∷ t) = (not (is_power e) || is_prepared o t) && is_guarded o t

abbrev pub no_power : Event → Bool
no_power e = not (is_power e)

abbrev pub Guarded : Options → Ledger → Type 0
Guarded o l = is_guarded o l.trace ≡ true

pub Step-Guarded : {o : Options} (l m : Ledger) → Step no_power o l m → Guarded o l → Guarded o m
unfolding is_guarded logged found_agent record_limit after_restore clear_limit
Step-Guarded l m (happened e a b c) k = rw c (ground (arith, k, b))
Step-Guarded l m (told b a c) k = rw c k
Step-Guarded {o} l m (flagged a b c) k = ap (is_guarded o) a ∙ k
Step-Guarded l m (recorded a b) k = rw b k
Step-Guarded l m (patched n a b c) k = rw c k
Step-Guarded l m (restored n a b) k = rw b (ground (arith, k))

-- An action keeps a property of the ledger, whether it fails or not.
pub data Keeps {A : Type 0} (I : Ledger → Type 0) (m : State → Result Failure A × State)
    : Type 0 where
  keeps : ((s : State) → I s.ledger → I (m s).1.ledger) → Keeps I m

pub kept :
    {A : Type 0} {I : Ledger → Type 0} {m : Action A}
    → Keeps I m
    → (s : State) → I s.ledger
    → I (m s).1.ledger
kept (keeps h) = h

module _ (I : Ledger → Type 0) where
  kept_at :
      {A B : Type 0} (r : Result Failure A × State) (f : A → Action B)
      → I r.1.ledger
      → ((a : A) (s : State) → r ≡ (ok a, s) → I s.ledger → I (f a s).1.ledger)
      → I (bind_at r f).1.ledger
  unfolding bind_at
  kept_at (ok a, s) f h k = k a s refl h
  kept_at (err e, s) f h k = h

module _ {I : Ledger → Type 0} where
  -- The rest may use that the first part succeeded.
  Keeps-after :
      {A B : Type 0} {m : Action A} (f : A → Action B)
      → Keeps I m
      → ((a : A) (s s0 : State) → m s0 ≡ (ok a, s) → I s.ledger → I (f a s).1.ledger)
      → Keeps I (m >>= f)
  unfolding ◌>>=◌
  Keeps-after {A} {B} {m} f h k = keeps λ s i. kept_at I (m s) f (kept h s i) (λ a s1 e. k a s1 s e)

  pub Keeps-bind :
      {A B : Type 0} {m : Action A} {f : A → Action B}
      → Keeps I m
      → ((a : A) → Keeps I (f a))
      → Keeps I (m >>= f)
  Keeps-bind {A} {B} {m} {f} h k = Keeps-after f h (λ a s s0 e i. kept (k a) s i)

  pub Keeps-Runs :
      {A : Type 0} {m : Action A} (p : Event → Bool) (o : Options)
      → ((l l' : Ledger) → Step p o l l' → I l → I l')
      → Runs p o m
      → Keeps I m
  Keeps-Runs p o stepped h = keeps λ s i. Steps-keep I stepped (Steps-of h s) i

  Keeps-observe : {A : Type 0} (g : Gate A) → Keeps I (observe g)
  unfolding observe observe_at
  Keeps-observe g = keeps λ s i. i

  pub Keeps-if :
      {A : Type 0} {x y : Action A} (b : Bool)
      → (b ≡ true → Keeps I x)
      → (b ≡ false → Keeps I y)
      → Keeps I (if b then x else y)
  Keeps-if true h k = h refl
  Keeps-if false h k = k refl

-- A prepared trace stays so, and power actions on it are guarded.
abbrev Ready : Options → Ledger → Type 0
Ready o l = (is_prepared o l.trace ≡ true) × Guarded o l

power_command-Keeps :
    (w : World) (o : Options) (c : Command)
    → ((n : ℕ) → is_plain (ran c n) ≡ true)
    → Keeps (Ready o) (run_command w o c)
unfolding run_command ran_command logged is_prepared any is_guarded
power_command-Keeps w o c plain = keeps λ s i. elim (Bool-cases (w.interrupted_at s.notes.moment)) [
  | inl e ↦ rw e i
  | inr e ↦ rw e (ground (arith, i.0, i.1))
]

module _ (o : Options) ⦃F : Floats⦄ (w : World) (live : o.check_only ≡ false) where
  k : Allowed no_power o
  k = record { told_agent = λ b. refl; told_cordon = λ b. refl; detach = λ n. refl }

  prepares : Prepares no_power
  prepares Command.cordon n h = refl
  prepares (drain t) n h = refl
  prepares (promote t) n h = refl
  prepares stop_agent n h = refl
  prepares (annotate_baseline t) n h = refl
  prepares remove_baseline n h = refl
  prepares uncordon n h = refl
  prepares reboot_host n h = h
  prepares power_off_host n h = h
  prepares (patch_rebuild_limit v) n h = refl
  prepares (detach_storage b) n h = refl

  Keeps-quiet : {A : Type 0} {m : Action A} → Runs no_power o m → Keeps (Guarded o) m
  Keeps-quiet h = Keeps-Runs no_power o Step-Guarded h

  Keeps-start : Keeps (Guarded o) (prepare_or_release w o >> stop_fence_agent w o)
  Keeps-start = Keeps-quiet (
      Runs-then (Runs-prepare_or_release w k prepares (λ e n. refl))
        (Runs-stop_fence_agent w prepares k))

  module _ (power : Action (Unit {0})) (keeps_ready : Keeps (Ready o) power) where
    Keeps-power : Keeps (Guarded o) (prepare_or_release w o >> stop_fence_agent w o >> power)
    Keeps-power =
        Keeps-after (λ u. power) Keeps-start
          λ a s s0 e i. (kept keeps_ready s (start_ok-Prepared o w live s0 s a e, i)).1

  Keeps-reboot_host : Keeps (Ready o) (reboot_host_step w o)
  unfolding reboot_host_step pure fail
  Keeps-reboot_host =
      Keeps-bind (Keeps-bind (Keeps-observe _) λ u. power_command-Keeps w o reboot_host (λ n. refl))
        λ n.
          Keeps-if (eqb n minus_one) (λ e. keeps λ s i. i)
            (λ e. Keeps-if (eqb n 0 || eqb n 255) (λ e. keeps λ s i. i) (λ e. keeps λ s i. i))

  Keeps-power_off_host : Keeps (Ready o) (power_off_host_step w o)
  unfolding power_off_host_step refuse_if
  Keeps-power_off_host =
      Keeps-bind (power_command-Keeps w o power_off_host (λ n. refl)) λ n. keeps λ s i. i

  Keeps-finish : Keeps (Guarded o) (finish_reboot w o)
  unfolding finish_reboot
  Keeps-finish =
      Keeps-quiet (Runs-if o.leave_cordoned (Runs-pure tt) (Runs-return_to_service w k (λ n. refl)))

  Keeps-reboot : Keeps (Guarded o) (reboot w o)
  unfolding reboot
  Keeps-reboot =
      Keeps-bind
        (Keeps-bind
          (Keeps-bind
            (Keeps-bind
              (Keeps-bind (Keeps-power (reboot_host_step w o) Keeps-reboot_host)
                (λ u. Keeps-observe _))
              (λ u. Keeps-observe _))
            (λ u. Keeps-observe _))
          (λ u. Keeps-observe _))
        (λ u. Keeps-finish)

  Keeps-power_off : Keeps (Guarded o) (power_off w o)
  unfolding power_off
  Keeps-power_off =
      Keeps-bind (Keeps-power (power_off_host_step w o) Keeps-power_off_host) λ u. Keeps-observe _

  pub Keeps-action : Keeps (Guarded o) (run_action w o)
  unfolding run_action fail
  Keeps-action =
      Keeps-if (o.action == "reboot") (λ e. Keeps-reboot)
        (λ e.
          Keeps-if (o.action == "off") (λ e. Keeps-power_off)
            (λ e.
              Keeps-if (o.action == "on")
                (λ e. Keeps-quiet (Runs-power_on w k (λ n. refl) prepares)) (λ e. keeps λ s i. i)))

-- ===== src/Operation/LifeRuns.antt =====
-- The steps of a whole run, from those of its parts. The commands that only some runs may give are
-- allowed each under the options that it is given under.
use Prim.Native.Nat.{ℕ}
use mathlib.Core.Bool.{Bool, false, not, true, ◌||◌}
use mathlib.Core.Logic.{inl, inr}
use mathlib.Core.Path.{refl, ◌≡◌}
use nix_packages.Base.{Bool-cases, Floats, Result, err, if◌then◌else◌, ok, ||-false}
use nix_packages.Operation.ChangeRuns.{
  Allowed, Prepares, Runs-baseline, Runs-initialize, Runs-longhorn_health, Runs-node_is_cordoned,
  Runs-storage_detach, Runs-switchover,
}
use nix_packages.Operation.Changes.{switch_cnpg_primaries_off_node, uncordon_node}
use nix_packages.Operation.CheckRuns.{
  Runs-check_node_access, Runs-preflight_health, Runs-refuse_if_cordoned, Runs-returned_agent,
  Runs-settle_cluster, Runs-start_resumed,
}
use nix_packages.Operation.Fence.{wait_for_returned_fence_agent}
use nix_packages.Operation.Lifecycle.{establish_on_baseline, power_on, settle_cluster}
use nix_packages.Operation.Machine.{
  Command, Event, Failure, Ledger, State, drain, modify, observe, ran, set_ledger, uncordon, ◌>>=◌,
  ◌>>◌,
}
use nix_packages.Operation.Prepare.{
  capacity_gates, cordon_node, drain_node, lift_cordon, own_cordon_flags, past_release, pdb_gate,
  preflight_health, prepare_node_for_disruption, prepare_or_release, refuse_if_cordoned,
  release_cordon, released_at, set_workloads, start_fresh, start_resumed,
}
use nix_packages.Operation.Runs.{
  Runs-bind, Runs-fail, Runs-gets, Runs-if, Runs-keeping_cordon, Runs-modify, Runs-observe,
  Runs-pure, Runs-run_command, Runs-run_or, Runs-then, Steps-of,
}
use nix_packages.Operation.Steps.{Runs, Steps, Steps-trans, flagged, here, runs}
use nix_packages.Operation.WorkloadGates.{collect_displaced_workloads}
use nix_packages.Operation.World.{World}
use nix_packages.Options.{Options}

module _ {p : Event → Bool} {o : Options} ⦃F : Floats⦄ (w : World) (k : Allowed p o) where
  module _ (prepares : Prepares p) where
    Runs-cordon_node : Runs p o (cordon_node w o)
    unfolding cordon_node
    Runs-cordon_node =
        Runs-then (Runs-run_or w _ _ (λ n. refl) (λ n. prepares Command.cordon n refl))
          (Runs-modify own_cordon_flags λ l. unfold own_cordon_flags in flagged refl refl refl)

    pub Runs-drain_node : Runs p o (drain_node w o)
    unfolding drain_node
    Runs-drain_node = Runs-if o.skip_drain (Runs-pure tt) (
        Runs-bind (Runs-observe _) λ t.
          Runs-then
            (Runs-then (Runs-run_or w _ _ (λ n. refl) (λ n. prepares (drain t) n refl))
              (Runs-observe _))
            (Runs-observe _))

    -- The part of a fresh start after the cordon.
    pub Runs-past_release : Runs p o (modify (set_ledger past_release))
    Runs-past_release = Runs-modify past_release λ l. unfold past_release in flagged refl refl refl

    before_cordon : Runs p o (
        refuse_if_cordoned w o
        >> preflight_health w o
        >> observe (capacity_gates w o)
        >> switch_cnpg_primaries_off_node w o
        >> observe (pdb_gate w o false)
        >> observe (collect_displaced_workloads w o >>= λ xs. modify (set_workloads xs)))
    before_cordon =
        Runs-then
          (Runs-then
            (Runs-then
              (Runs-then (Runs-then (Runs-refuse_if_cordoned w k) (Runs-preflight_health w k))
                (Runs-observe _))
              (Runs-switchover w prepares))
            (Runs-observe _))
          (Runs-observe _)

    Runs-start_fresh : Runs p o (start_fresh w o)
    unfolding start_fresh
    Runs-start_fresh =
        Runs-then
          (Runs-then
            (Runs-then (Runs-then (Runs-then before_cordon Runs-cordon_node) Runs-drain_node)
              Runs-past_release)
            (Runs-storage_detach w k))
          (Runs-observe _)

    -- What follows the access checks of a start.
    pub Runs-after_access :
        Runs p o (if o.resume_maintenance then start_resumed w o else start_fresh w o)
    Runs-after_access = Runs-if o.resume_maintenance (Runs-start_resumed w k) Runs-start_fresh

    pub Runs-prepare : Runs p o (prepare_node_for_disruption w o)
    unfolding prepare_node_for_disruption
    Runs-prepare = Runs-then (Runs-check_node_access w k) Runs-after_access

    module _
        (lifts : o.leave_cordoned_requested ≡ false → (n : ℕ) → p (ran uncordon n) ≡ true) where
      Runs-lift_cordon :
          o.leave_cordoned_requested ≡ false → (f : Failure) → Runs p o (lift_cordon w o f)
      unfolding lift_cordon
      Runs-lift_cordon e f = Runs-bind (Runs-run_command w _ (λ n. refl) (lifts e)) λ n. Runs-fail _

      release-Steps :
          (f : Failure) (s : State) → Steps p o s.ledger (release_cordon w o f s).1.ledger
      unfolding release_cordon
      release-Steps f s = elim (Bool-cases (w.interrupted_at s.notes.moment)) [
        | inl e ↦ rw (e, release_cordon) (here refl)
        | inr e ↦ elim (Bool-cases (not s.ledger.releasable || o.leave_cordoned_requested)) [
          | inl q ↦ rw (e, q, release_cordon) (here refl)
          | inr q ↦ rw (e, q, release_cordon) (Steps-of (Runs-lift_cordon ((||-false _ _ q).1) f) s)
        ]
      ]

      released_at-Steps :
          (l : Ledger) (r : Result Failure (Unit {0}) × State)
          → Steps p o l r.1.ledger
          → Steps p o l (released_at w o r).1.ledger
      unfolding released_at
      released_at-Steps l (ok u, s) h = h
      released_at-Steps l (err f, s) h = Steps-trans h (release-Steps f s)

      pub Runs-prepare_or_release : Runs p o (prepare_or_release w o)
      unfolding prepare_or_release
      Runs-prepare_or_release = runs λ s.
          released_at-Steps s.ledger (prepare_node_for_disruption w o s) (Steps-of Runs-prepare s)

    pub Runs-on_baseline : Runs p o (establish_on_baseline w o)
    unfolding establish_on_baseline
    Runs-on_baseline =
        Runs-bind (Runs-gets _)
          λ has. Runs-if has (Runs-keeping_cordon (Runs-baseline w prepares)) (Runs-pure tt)

  module _ (finishes : (n : ℕ) → p (ran uncordon n) ≡ true) where
    Runs-uncordon : Runs p o (uncordon_node w o)
    unfolding uncordon_node
    Runs-uncordon = Runs-run_or w _ _ (λ n. refl) finishes

    pub Runs-return_to_service :
        Runs p o (wait_for_returned_fence_agent w o >> uncordon_node w o >> settle_cluster w o)
    Runs-return_to_service =
        Runs-then (Runs-then (Runs-returned_agent w k) Runs-uncordon) (Runs-settle_cluster w k)

    pub Runs-power_on : Prepares p → Runs p o (power_on w o)
    unfolding power_on
    Runs-power_on prepares =
        Runs-then
          (Runs-then
            (Runs-then
              (Runs-then
                (Runs-then
                  (Runs-then
                    (Runs-then
                      (Runs-then
                        (Runs-then
                          (Runs-then
                            (Runs-then
                              (Runs-then
                                (Runs-then (Runs-then (Runs-observe _) (Runs-observe _))
                                  (Runs-initialize w k))
                                (Runs-observe _))
                              (Runs-node_is_cordoned w k))
                            (Runs-observe _))
                          (Runs-observe _))
                        (Runs-observe _))
                      (Runs-on_baseline prepares))
                    (Runs-returned_agent w k))
                  Runs-uncordon)
                (Runs-observe _))
              (Runs-longhorn_health w))
            (Runs-observe _))
          (Runs-observe _)

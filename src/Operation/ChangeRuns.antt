-- ===== src/Operation/ChangeRuns.antt =====
-- The steps of the actions that stand between the gates: the rebuild limit, the detach, the
-- promotions and the fence agent.
-- The events that a run may have before its power action.
use Prim.Native.Nat.{ℕ}
use Prim.Native.String.{String}
use mathlib.Core.Bool.{Bool, false, not, true, ◌&&◌}
use mathlib.Core.List.{List, [], ◌∷◌}
use mathlib.Core.Logic.{inl, inr}
use mathlib.Core.Option.{Option, none, some}
use mathlib.Core.Path.{refl, subst, sym, ◌≡◌}
use native.Mathlib.Omega.{arith}
use text.Mathlib.Text.{◌==◌}
use text.Mathlib.TextEquality.{eq_iff}
use nix_packages.Base.{Bool-cases, Floats, eqb}
use nix_packages.Operation.Changes.{
  admit_rebuilds, clear_limit, promote_all, raise_rebuild_limit, ran_command, read_cordon,
  record_limit, restore_rebuild_limit, run_always, run_command, run_or,
  switch_cnpg_primaries_off_node, switch_planned, verify_node_is_cordoned, wait_for_longhorn_health,
  wait_for_node_storage_detach,
}
use nix_packages.Operation.Fence.{
  after_stop, establish_baseline, found_agent, initialize_fence_gate, stop_fence_agent,
  stop_running_agent, verify_fence_preflight,
}
use nix_packages.Operation.Machine.{
  Command, Event, State, agent_seen, annotate_baseline, bind_at, cordon_seen, detach_storage, drain,
  fail, gets, modify, patch_rebuild_limit, power_off_host, promote, pure, ran, reboot_host,
  refuse_if, remove_baseline, set_ledger, stop_agent, uncordon, ◌>>=◌,
}
use nix_packages.Operation.Runs.{
  Runs-bind, Runs-gets, Runs-if, Runs-keeping_cordon, Runs-modify, Runs-note, Runs-observe,
  Runs-pure, Runs-refuse_if, Runs-run_or, Runs-then,
}
use nix_packages.Operation.Steps.{
  Runs, after_restore, here, more, patched, recorded, restored, runs, told,
}
use nix_packages.Operation.Switchovers.{Switchover}
use nix_packages.Operation.World.{World}
use nix_packages.Options.{Options}

pub record Allowed (p : Event → Bool) (o : Options) : Type 0 where
  pub told_agent : (b : Bool) → p (agent_seen b) ≡ true
  pub told_cordon : (b : Bool) → p (cordon_seen b) ≡ true
  pub detach : (n : ℕ) → p (ran (detach_storage (not o.check_only)) n) ≡ true

-- What is allowed besides in a run that is no check.
abbrev pub is_preparation : Command → Bool
is_preparation Command.cordon = true
is_preparation (drain t) = true
is_preparation (promote t) = true
is_preparation stop_agent = true
is_preparation (annotate_baseline t) = true
is_preparation remove_baseline = true
is_preparation uncordon = false
is_preparation reboot_host = false
is_preparation power_off_host = false
is_preparation (patch_rebuild_limit v) = false
is_preparation (detach_storage b) = false

abbrev pub Prepares : (Event → Bool) → Type 0
Prepares p = (c : Command) (n : ℕ) → is_preparation c ≡ true → p (ran c n) ≡ true

abbrev pub restore_status : World → State → ℕ
restore_status w s =
    w.command_status s.notes.moment (patch_rebuild_limit s.ledger.rebuild_limit_original)

module _ {p : Event → Bool} {o : Options} (w : World) where
  pub Runs-restore : Runs p o (restore_rebuild_limit w o)
  unfolding restore_rebuild_limit ◌>>=◌ bind_at gets run_always ran_command modify set_ledger
      clear_limit fail pure after_restore
  Runs-restore = runs λ s. elim (Bool-cases (s.ledger.rebuild_limit_original == "")) [
    | inl e ↦ rw e (here refl)
    | inr e ↦ elim (Bool-cases (eqb (restore_status w s) 0)) [
      | inl z ↦ rw (e, z) (more (here refl) (restored (restore_status w s) e (rw z)))
      | inr z ↦ rw (e, z) (more (here refl) (restored (restore_status w s) e (rw z)))
    ]
  ]

  raise-Steps : o.check_only ≡ false → Runs p o (raise_rebuild_limit w o "0")
  unfolding raise_rebuild_limit ◌>>=◌ bind_at run_or run_command ran_command modify set_ledger
      record_limit refuse_if
  raise-Steps live = runs λ s. elim (Bool-cases (w.interrupted_at s.notes.moment)) [
    | inl e ↦ rw e (more (here refl) (recorded live refl))
    | inr e ↦ rw e (
        more (more (here refl) (recorded live refl))
          (patched (w.command_status s.notes.moment (patch_rebuild_limit "2")) live refl refl))
  ]

  admitted-Steps :
      (limit : String)
      → limit ≡ "0"
      → o.check_only ≡ false
      → Runs p o (raise_rebuild_limit w o limit)
  admitted-Steps limit e live =
      subst (λ v. Runs p o (raise_rebuild_limit w o v)) (sym e) (raise-Steps live)

  pub Runs-admit : (limit : String) (degraded : Bool) → Runs p o (admit_rebuilds w o limit degraded)
  unfolding admit_rebuilds
  Runs-admit limit degraded = elim (Bool-cases (degraded && limit == "0" && not o.check_only)) [
    | inl e ↦
        rw (e, admit_rebuilds)
          (admitted-Steps limit (ground (arith, eq_iff limit "0")) (ground arith))
    | inr e ↦ rw (e, admit_rebuilds) (Runs-pure tt)
  ]

  pub Runs-longhorn_health : Runs p o (wait_for_longhorn_health w o)
  unfolding wait_for_longhorn_health
  Runs-longhorn_health = Runs-bind (Runs-observe _) λ served.
      Runs-if served
        (Runs-bind (Runs-observe _) λ found.
          Runs-then
            (Runs-then (Runs-then (Runs-admit found.0 found.2) (Runs-observe _)) Runs-restore)
            (Runs-observe _))
        (Runs-pure tt)

  module _ (k : Allowed p o) where
    pub Runs-storage_detach : Runs p o (wait_for_node_storage_detach w o)
    unfolding wait_for_node_storage_detach
    Runs-storage_detach = Runs-then (Runs-observe _) (Runs-run_or w _ _ (λ n. refl) k.detach)

    pub Runs-read_cordon : ⦃F : Floats⦄ → Runs p o (read_cordon w o)
    unfolding read_cordon
    Runs-read_cordon =
        Runs-bind (Runs-observe _)
          λ b. Runs-then (Runs-note (cordon_seen b) refl (k.told_cordon b)) (Runs-pure b)

    pub Runs-node_is_cordoned : ⦃F : Floats⦄ → Runs p o (verify_node_is_cordoned w o)
    unfolding verify_node_is_cordoned
    Runs-node_is_cordoned = Runs-bind Runs-read_cordon λ b. Runs-refuse_if _ _

    module _ ⦃F : Floats⦄ where
      pub Runs-initialize : Runs p o (initialize_fence_gate w o)
      unfolding initialize_fence_gate
      Runs-initialize = Runs-bind (Runs-observe _) λ has.
          Runs-then (Runs-modify (found_agent has) λ l. told has (k.told_agent has) refl)
            (Runs-pure has)

      pub Runs-fence_preflight : Runs p o (verify_fence_preflight w o)
      unfolding verify_fence_preflight
      Runs-fence_preflight =
          Runs-bind Runs-initialize λ has. Runs-if has (Runs-observe _) (Runs-pure tt)

  module _ (prepares : Prepares p) where
    pub Runs-promote_all : (plan : List Switchover) → Runs p o (promote_all w o plan)
    unfolding promote_all
    Runs-promote_all [] = Runs-pure tt
    Runs-promote_all (s ∷ rest) =
        Runs-then (Runs-run_or w _ _ (λ n. refl) (λ n. prepares (promote s.candidate) n refl))
          (Runs-promote_all rest)

    module _ ⦃F : Floats⦄ where
      Runs-switch_planned : (plan : List Switchover) → Runs p o (switch_planned w o plan)
      unfolding switch_planned
      Runs-switch_planned [] = Runs-pure tt
      Runs-switch_planned (s ∷ rest) =
          Runs-then
            (Runs-then (Runs-then (Runs-refuse_if _ _) (Runs-promote_all (s ∷ rest)))
              (Runs-observe _))
            (Runs-observe _)

      pub Runs-switchover : Runs p o (switch_cnpg_primaries_off_node w o)
      unfolding switch_cnpg_primaries_off_node
      Runs-switchover = Runs-bind (Runs-observe _) Runs-switch_planned

      pub Runs-baseline : Runs p o (establish_baseline w o)
      unfolding establish_baseline
      Runs-baseline =
          Runs-then
            (Runs-run_or w _ _ (λ n. refl) (λ n. prepares (annotate_baseline o.node) n refl))
            (Runs-bind (Runs-observe _) λ t.
              Runs-then (Runs-run_or w _ _ (λ n. refl) (λ n. prepares remove_baseline n refl))
                (Runs-then (Runs-refuse_if _ _) (Runs-observe _)))

      pub Runs-after_stop : (t : Option ℕ) → Runs p o (after_stop w o t)
      unfolding after_stop
      Runs-after_stop none = Runs-keeping_cordon Runs-baseline
      Runs-after_stop (some t) = Runs-pure tt

      module _ (k : Allowed p o) where
        Runs-stop_running : Runs p o (stop_running_agent w o)
        unfolding stop_running_agent
        Runs-stop_running = Runs-bind (Runs-observe _) λ deadline.
            Runs-then (Runs-fence_preflight k) (
              Runs-then
                (Runs-keeping_cordon
                  (Runs-run_or w _ _ (λ n. refl) (λ n. prepares stop_agent n refl)))
                (Runs-then (Runs-observe _) (Runs-bind (Runs-observe _) Runs-after_stop)))

        pub Runs-stop_fence_agent : Runs p o (stop_fence_agent w o)
        unfolding stop_fence_agent
        Runs-stop_fence_agent =
            Runs-bind (Runs-gets _) λ has. Runs-if has Runs-stop_running (Runs-pure tt)

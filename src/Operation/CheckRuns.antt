-- ===== src/Operation/CheckRuns.antt =====
-- The steps of the gates that a check and a run share, and of the start of resumed maintenance.
use mathlib.Core.Bool.{Bool, false, not}
use mathlib.Core.Path.{refl}
use text.Mathlib.Text.{◌==◌}
use nix_packages.Base.{Floats}
use nix_packages.Operation.ChangeRuns.{
  Allowed, Runs-fence_preflight, Runs-initialize, Runs-longhorn_health, Runs-node_is_cordoned,
  Runs-read_cordon, Runs-storage_detach,
}
use nix_packages.Operation.Fence.{check_own_agent, wait_for_returned_fence_agent}
use nix_packages.Operation.Lifecycle.{
  check_fresh, check_on_gates, check_only_off, settle_cluster, skips_run,
}
use nix_packages.Operation.Machine.{Event}
use nix_packages.Operation.Prepare.{
  check_node_access, cordon_held_flag, preflight_health, refuse_if_cordoned, start_resumed,
  verify_resumed_maintenance_state,
}
use nix_packages.Operation.Runs.{
  Runs-bind, Runs-gets, Runs-if, Runs-modify, Runs-observe, Runs-pure, Runs-refuse_if, Runs-then,
}
use nix_packages.Operation.Steps.{Runs, flagged}
use nix_packages.Operation.World.{World}
use nix_packages.Options.{Options}

module _ {p : Event → Bool} {o : Options} ⦃F : Floats⦄ (w : World) (k : Allowed p o) where
  pub Runs-check_node_access : Runs p o (check_node_access w o)
  unfolding check_node_access
  Runs-check_node_access =
      Runs-then (Runs-then (Runs-then (Runs-observe _) (Runs-observe _)) (Runs-fence_preflight w k))
        (Runs-observe _)

  pub Runs-preflight_health : Runs p o (preflight_health w o)
  unfolding preflight_health
  Runs-preflight_health =
      Runs-then (Runs-then (Runs-then (Runs-longhorn_health w) (Runs-observe _)) (Runs-observe _))
        (Runs-observe _)

  pub Runs-resumed : Runs p o (verify_resumed_maintenance_state w o)
  unfolding verify_resumed_maintenance_state
  Runs-resumed =
      Runs-then
        (Runs-then
          (Runs-then
            (Runs-then
              (Runs-then (Runs-node_is_cordoned w k) (
                Runs-modify cordon_held_flag
                  λ l. unfold cordon_held_flag in flagged refl refl refl))
              (Runs-observe _))
            (Runs-storage_detach w k))
          (Runs-observe _))
        (Runs-observe _)

  pub Runs-refuse_if_cordoned : Runs p o (refuse_if_cordoned w o)
  unfolding refuse_if_cordoned
  Runs-refuse_if_cordoned = Runs-bind (Runs-read_cordon w k) λ b. Runs-refuse_if _ _

  Runs-check_fresh : Runs p o (check_fresh w o)
  unfolding check_fresh
  Runs-check_fresh =
      Runs-then (Runs-then Runs-refuse_if_cordoned Runs-preflight_health) (Runs-observe _)

  pub Runs-check_only_off : Runs p o (check_only_off w o)
  unfolding check_only_off
  Runs-check_only_off =
      Runs-then Runs-check_node_access (Runs-if o.resume_maintenance Runs-resumed Runs-check_fresh)

  Runs-own_agent : Runs p o (check_own_agent w o)
  unfolding check_own_agent
  Runs-own_agent = Runs-bind (Runs-gets _) λ has. Runs-if has (Runs-observe _) (Runs-pure tt)

  pub Runs-check_on_gates : Runs p o (check_on_gates w o)
  unfolding check_on_gates
  Runs-check_on_gates =
      Runs-then
        (Runs-then
          (Runs-then
            (Runs-then (Runs-then (Runs-observe _) (Runs-node_is_cordoned w k)) (Runs-observe _))
            (Runs-initialize w k))
          (Runs-observe _))
        Runs-own_agent

  pub Runs-start_resumed : Runs p o (start_resumed w o)
  unfolding start_resumed
  Runs-start_resumed = Runs-then Runs-resumed (Runs-observe _)

  pub Runs-returned_agent : Runs p o (wait_for_returned_fence_agent w o)
  unfolding wait_for_returned_fence_agent
  Runs-returned_agent = Runs-bind (Runs-gets _) λ has. Runs-if has (Runs-observe _) (Runs-pure tt)

  pub Runs-settle_cluster : Runs p o (settle_cluster w o)
  unfolding settle_cluster
  Runs-settle_cluster =
      Runs-then
        (Runs-then
          (Runs-then (Runs-observe _)
            (Runs-if (o.action == "off") (Runs-observe _) (Runs-longhorn_health w)))
          (Runs-observe _))
        (Runs-observe _)

  pub Runs-skips : Runs p o (skips_run w o)
  unfolding skips_run
  Runs-skips =
      Runs-if o.needed
        (Runs-bind (Runs-observe _) λ needed.
          Runs-if needed (Runs-pure false)
            (Runs-bind (Runs-read_cordon w k) λ b. Runs-pure (not b)))
        (Runs-pure false)

-- ===== src/Operation/Prepare.antt =====
-- operation.go: the steps before a power action: access, preflight, resumed maintenance,
-- prepareNodeForDisruption, and releaseCordon.
use mathlib.Core.Bool.{Bool, false, not, true, ◌&&◌, ◌||◌}
use mathlib.Core.List.{List, []}
use nix_packages.Base.{Floats, Result, eqb, err, if◌then◌else◌, ok}
use nix_packages.Capacity.Budgets.{check_pdb_eviction_blockers, check_stable_node_pod_slots}
use nix_packages.Capacity.Check.{check_displaced_pods_fit}
use nix_packages.Kube.{Workload}
use nix_packages.Operation.Changes.{
  read_cordon, run_command, run_or, switch_cnpg_primaries_off_node, verify_node_is_cordoned,
  wait_for_longhorn_health, wait_for_node_storage_detach,
}
use nix_packages.Operation.DatabaseGates.{
  plan_cnpg_switchovers, wait_for_cnpg_health, wait_for_cnpg_survivability,
}
use nix_packages.Operation.DrainTimeout.{drain_timeout_of}
use nix_packages.Operation.Fence.{verify_fence_preflight}
use nix_packages.Operation.Host.{verify_remote_privilege}
use nix_packages.Operation.Machine.{
  Action, Failure, Gate, Ledger, Notes, State, cordon, cordon_failed, cordoned_already,
  could_not_uncordon, drain, drain_failed, fail, kept_cordon, modify, names_cordon, node_unreadable,
  observe, pure, refuse_if, set_ledger, uncordon, was_uncordoned, ◌>>=◌, ◌>>◌,
}
use nix_packages.Operation.Network.{verify_all_node_network_paths}
use nix_packages.Operation.ReadyFloorGate.{wait_for_displaced_workload_survivability}
use nix_packages.Operation.StorageGates.{
  check_longhorn_replica_spread, wait_for_longhorn_survivability,
}
use nix_packages.Operation.WorkloadGates.{
  collect_displaced_workloads, collect_target_pinned_pending_workloads,
  verify_node_has_only_maintenance_pods, wait_for_no_bad_pods,
}
use nix_packages.Operation.World.{World, ask, get_node_object, probe}
use nix_packages.Options.{Options}

unfoldable pub cordon_held_flag : Ledger → Ledger
cordon_held_flag l = record l { cordoned = true }

unfoldable pub own_cordon_flags : Ledger → Ledger
own_cordon_flags l = record l { cordoned = true; releasable = true }

unfoldable pub past_release : Ledger → Ledger
past_release l = record l { releasable = false }

unfoldable pub set_workloads : List Workload → Notes → Notes
set_workloads xs n = record n { workloads = xs }

-- The error that a kept cordon is named in.
unfoldable pub named_kept : Ledger → Failure → Failure
named_kept l f = if l.cordoned && not (names_cordon f) then kept_cordon f else f

module _ ⦃F : Floats⦄ (w : World) (o : Options) where
  unfoldable pub check_node_exists : Gate (Unit {0})
  check_node_exists =
      probe w get_node_object >>= λ status. refuse_if (not (eqb status 0)) node_unreadable

  unfoldable pub check_node_access : Action (Unit {0})
  check_node_access =
      observe check_node_exists
      >> observe (verify_remote_privilege w o)
      >> verify_fence_preflight w o
      >> observe (verify_all_node_network_paths w o "")

  unfoldable pub preflight_health : Action (Unit {0})
  preflight_health =
      wait_for_longhorn_health w o
      >> observe (check_longhorn_replica_spread w o)
      >> observe (wait_for_cnpg_health w o)
      >> observe (wait_for_no_bad_pods w o)

  unfoldable pub survivability_gates : Gate (Unit {0})
  survivability_gates = wait_for_longhorn_survivability w o >> wait_for_cnpg_survivability w o

  unfoldable pub verify_resumed_maintenance_state : Action (Unit {0})
  verify_resumed_maintenance_state =
      verify_node_is_cordoned w o
      >> modify (set_ledger cordon_held_flag)
      >> observe (verify_node_has_only_maintenance_pods w o)
      >> wait_for_node_storage_detach w o
      >> observe survivability_gates
      >> observe (wait_for_no_bad_pods w o)

  unfoldable pub refuse_if_cordoned : Action (Unit {0})
  refuse_if_cordoned = read_cordon w o >>= λ cordoned. refuse_if cordoned cordoned_already

  -- checkPDBEvictionBlockers, checkStableNodePodSlots and checkDisplacedPodsFit on one moment's
  -- cluster each. The cache of LimitRanges is empty: the run reads them once.
  unfoldable pub pdb_gate : Bool → Gate (Unit {0})
  pdb_gate ignore_primaries =
      ask w
        (λ r. check_pdb_eviction_blockers o.node ignore_primaries r.budgets r.cluster.get_all_pods)

  unfoldable pub slots_gate : Gate (Unit {0})
  slots_gate = ask w (λ r.
      check_stable_node_pod_slots o.node o.min_free_pod_slots r.cluster.get_nodes
        r.cluster.get_all_pods)

  unfoldable pub fit_gate : Gate (Unit {0})
  fit_gate =
      if o.skip_drain
      then pure tt
      else (ask w (λ r. check_displaced_pods_fit w.to_lower r.cluster o.node []) >>= λ fit. pure tt)

  -- planCNPGSwitchovers up to checkDisplacedPodsFit, the same in a check and in a run.
  unfoldable pub capacity_gates : Gate (Unit {0})
  capacity_gates = plan_cnpg_switchovers w o >>= λ plan. pdb_gate true >> slots_gate >> fit_gate

  unfoldable pub cordon_node : Action (Unit {0})
  cordon_node = run_or w o cordon cordon_failed >> modify (set_ledger own_cordon_flags)

  unfoldable pub drain_node : Action (Unit {0})
  drain_node =
      if o.skip_drain
      then pure tt
      else (observe (drain_timeout_of w o) >>= λ timeout.
          run_or w o (drain timeout) drain_failed
          >> observe (wait_for_displaced_workload_survivability w o)
          >> observe (wait_for_no_bad_pods w o))

  unfoldable pub start_resumed : Action (Unit {0})
  start_resumed =
      verify_resumed_maintenance_state
      >> observe (collect_target_pinned_pending_workloads w o >>= λ xs. modify (set_workloads xs))

  unfoldable pub start_fresh : Action (Unit {0})
  start_fresh =
      refuse_if_cordoned
      >> preflight_health
      >> observe capacity_gates
      >> switch_cnpg_primaries_off_node w o
      >> observe (pdb_gate false)
      >> observe (collect_displaced_workloads w o >>= λ xs. modify (set_workloads xs))
      >> cordon_node
      >> drain_node
      >> modify (set_ledger past_release)
      >> wait_for_node_storage_detach w o
      >> observe survivability_gates

  unfoldable pub prepare_node_for_disruption : Action (Unit {0})
  prepare_node_for_disruption =
      check_node_access >> (if o.resume_maintenance then start_resumed else start_fresh)

  unfoldable pub lift_cordon : Failure → Action (Unit {0})
  lift_cordon f = run_command w o uncordon >>= λ status.
      fail (if eqb status 0 then was_uncordoned f else could_not_uncordon f)

  -- releaseCordon, which always ends with an error.
  unfoldable pub release_cordon : Failure → Action (Unit {0})
  release_cordon f = λ s.
      if w.interrupted_at s.notes.moment
      then (err f, s)
      else if not s.ledger.releasable || o.leave_cordoned_requested
      then (err (named_kept s.ledger f), s)
      else lift_cordon f s

  -- `if err := o.prepareNodeForDisruption(); err != nil { return o.releaseCordon(err) }`
  unfoldable pub released_at : Result Failure (Unit {0}) × State → Result Failure (Unit {0}) × State
  released_at (ok u, s) = (ok u, s)
  released_at (err f, s) = release_cordon f s

  unfoldable pub prepare_or_release : Action (Unit {0})
  prepare_or_release = λ s. released_at (prepare_node_for_disruption s)

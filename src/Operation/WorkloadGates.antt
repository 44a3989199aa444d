-- ===== src/Operation/WorkloadGates.antt =====
-- workloads.go: the controllers that a drain displaces, and the waits for them.
-- badPodReasons
use Prim.Native.String.{String}
use mathlib.Core.Bool.{Bool, false, not, true, ◌&&◌, ◌||◌}
use mathlib.Core.List.{List, [], ◌++◌, ◌∷◌}
use mathlib.Core.Option.{Option, none, some}
use text.Mathlib.Text.{◌==◌}
use nix_packages.Base.{Dict, Floats, any, contains, eqb, if◌then◌else◌, is_empty, keep}
use nix_packages.Capacity.Displaced.{unique_workloads, workload_for_pod}
use nix_packages.Kube.{
  ContainerStatus, Controller, Pod, Workload, active, first_owner, has_owner, is_instance_manager,
  ref,
}
use nix_packages.Operation.Machine.{
  Gate, bad_pods, gets, other_pods, pure, refuse_if, refused, unsettled, ◌>>=◌,
}
use nix_packages.Operation.World.{
  World, ask, deadline_after, duration_of, probe, rollout_status, wait_pods, wait_until_empty,
}
use nix_packages.Options.{Options}
use nix_packages.Placement.Selectors.{requires_target_node}

abbrev pub bad_pod_reasons : List String
bad_pod_reasons =
    "CrashLoopBackOff" ∷ "ImagePullBackOff" ∷ "ErrImagePull" ∷ "CreateContainerConfigError"
    ∷ "CreateContainerError" ∷ []

unfoldable pub is_stuck_container : ContainerStatus → Bool
is_stuck_container s = elim s.waiting [
  | none ↦ false
  | some reason ↦ contains bad_pod_reasons reason
]

unfoldable pub is_unhealthy : Pod → Bool
is_unhealthy p =
    not (has_owner p.metadata "Job" || p.status.phase == "Succeeded")
    && (p.status.phase == "Failed" || any is_stuck_container p.status.container_statuses)

unfoldable pub unhealthy_pods : List Pod → List Pod
unhealthy_pods = keep is_unhealthy

-- What verifyNodeHasOnlyMaintenancePods does not allow on the node.
unfoldable pub not_maintenance : Pod → Bool
not_maintenance p =
    active p
    && not ((first_owner p.metadata).kind == "DaemonSet")
    && not (p.metadata.namespace == "longhorn-system" && is_instance_manager p)

abbrev named_pod : Pod → Bool
named_pod p = not (p.metadata.namespace == "" || p.metadata.name == "")

module _ ⦃F : Floats⦄ (w : World) (o : Options) where
  -- The Pod's controller, by one read of the cluster.
  unfoldable pub owner_of : Pod → Gate (Option Workload)
  owner_of p = ask w (λ r. workload_for_pod w.to_lower r.cluster p)

  unfoldable pub displaced_owners : List Pod → Gate (List Workload)
  displaced_owners [] = pure []
  displaced_owners (p ∷ ps) =
      let rest = displaced_owners ps in
      if not (named_pod p) || is_instance_manager p
      then rest
      else (owner_of p >>= λ found.
          rest >>= λ others. pure (elim found [ none ↦ others | some x ↦ x ∷ others ]))

  unfoldable pub collect_displaced_workloads : Gate (List Workload)
  collect_displaced_workloads = ask w (λ r. r.node_pods) >>= λ pods.
      displaced_owners pods >>= λ found. pure (unique_workloads found)

  -- placement.go: workloadRequiresTargetNode. A controller confirmed absent is portable.
  unfoldable pub workload_requires_target_node : Workload → Gate Bool
  workload_requires_target_node x =
      ask w (λ r. r.cluster.find_controller x.namespace (ref x)) >>= λ found. elim found [
        | none ↦ pure false
        | some c ↦ ask w (λ r. r.cluster.get_nodes) >>= λ nodes.
            pure (requires_target_node o.node c.spec.template.spec nodes)
      ]

  unfoldable pub pinned_only : Option Workload → Gate (List Workload)
  pinned_only none = pure []
  pinned_only (some x) =
      workload_requires_target_node x >>= λ pinned. pure (if pinned then x ∷ [] else [])

  unfoldable pub pinned_from : List Pod → Gate (List Workload)
  pinned_from [] = pure []
  pinned_from (p ∷ ps) =
      let rest = pinned_from ps in
      if named_pod p
      then (owner_of p >>= λ found.
          pinned_only found >>= λ first. rest >>= λ others. pure (first ++ others))
      else rest

  unfoldable pub collect_target_pinned_pending_workloads : Gate (List Workload)
  collect_target_pinned_pending_workloads = ask w (λ r. r.pending_pods) >>= λ pods.
      pinned_from pods >>= λ found. pure (unique_workloads found)

  -- The match labels of `kubectl wait --selector`, empty without a selector.
  unfoldable pub wait_labels : Controller → Dict String
  wait_labels c = elim c.spec.selector [ none ↦ [] | some s ↦ s.match_labels ]

  -- One controller of waitForWorkloads: whether it settled.
  unfoldable pub settle_workload : Workload → Gate Bool
  settle_workload x =
      if x.kind == "deployment" || x.kind == "statefulset"
      then (probe w (rollout_status x o.settle_timeout) >>= λ status. pure (eqb status 0))
      else if x.kind == "replicaset"
      then (ask w (λ r. r.cluster.get_replica_set x.namespace x.name) >>= λ rs.
          probe w (wait_pods x.namespace (wait_labels rs) o.settle_timeout) >>= λ status.
          pure (eqb status 0))
      else pure true

  unfoldable pub settle_workloads : Bool → List Workload → Gate Bool
  settle_workloads failed [] = pure failed
  settle_workloads failed (x ∷ xs) =
      settle_workload x >>= λ settles. settle_workloads (failed || not settles) xs

  unfoldable pub wait_for_workloads : Gate (Unit {0})
  wait_for_workloads = gets (λ n. n.workloads) >>= λ xs.
      settle_workloads false xs >>= λ failed. refuse_if failed unsettled

  unfoldable pub bad_pods_now : Gate (List Pod)
  bad_pods_now = ask w (λ r. r.cluster.get_all_pods) >>= λ pods. pure (unhealthy_pods pods)

  unfoldable pub wait_for_no_bad_pods : Gate (Unit {0})
  wait_for_no_bad_pods = deadline_after w (duration_of o.settle_timeout) >>= λ deadline.
      wait_until_empty w (refused bad_pods) deadline bad_pods_now

  unfoldable pub node_is_cordoned : Gate Bool
  node_is_cordoned = ask w (λ r. r.node) >>= λ n. pure n.spec.unschedulable

  unfoldable pub verify_node_has_only_maintenance_pods : Gate (Unit {0})
  verify_node_has_only_maintenance_pods = ask w (λ r. r.node_pods) >>= λ pods.
      refuse_if (not (is_empty (keep not_maintenance pods))) other_pods

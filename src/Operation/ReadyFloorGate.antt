-- ===== src/Operation/ReadyFloorGate.antt =====
-- workloads.go: the availability gate of a displaced controller after the drain
-- (unschedulableReplicas, waitForControllerReadyFloor, waitForDisplacedWorkloadSurvivability). The
-- reads of one round of unschedulableReplicas see one moment's cluster.
-- What is known of the ReplicaSets' Deployments: by name, none for one that could not be read.
use Prim.Native.Nat.{ℕ, ◌+◌}
use Prim.Native.String.{String}
use mathlib.Core.Bool.{Bool, false, not, true, ◌&&◌}
use mathlib.Core.List.{List, [], ◌++◌, ◌∷◌}
use mathlib.Core.Option.{Option, none, some}
use text.Mathlib.Text.{◌==◌}
use nix_packages.Base.{
  Floats, Result, any, contains, err, if◌then◌else◌, is_empty, keep, le64, leb, length, lookup,
  lt64, ok, sub64,
}
use nix_packages.Capacity.Displaced.{ready_minimum}
use nix_packages.Capacity.Quantity.{CapacityError}
use nix_packages.Kube.{Condition, Controller, Pod, Workload, active, first_owner, ref}
use nix_packages.Operation.Clusters.{minimum_ready}
use nix_packages.Operation.Machine.{
  Gate, cannot_place, gets, pure, ready_floor_missed, refuse_if, refused, ◌>>=◌, ◌>>◌,
}
use nix_packages.Operation.WorkloadGates.{workload_requires_target_node}
use nix_packages.Operation.World.{
  Reads, Verdict, World, ask, deadline_after, duration_of, not_yet, poll_until, settled,
  unschedulable_grace,
}
use nix_packages.Options.{Options}
use nix_packages.Placement.Selectors.{selector_matches}
use nix_packages.Placement.Spread.{is_none}

unfoldable pub deployment_of : Option Controller → Option String
deployment_of none = none
deployment_of (some rs) =
    let owner = first_owner rs.metadata in
    some (if owner.kind == "Deployment" then owner.name else "")

-- Whether a Pod is the controller's, and whether that is known: `none` is `continue`.
unfoldable pub counted_as :
    (String → String → Bool)
    → (String → String → Result CapacityError (Option Controller))
    → Workload
    → Pod
    → Result CapacityError (Option Bool)
counted_as equal_fold find_replica_set x p =
    let owner = first_owner p.metadata in
    if x.kind == "deployment" && owner.kind == "ReplicaSet"
    then elim (find_replica_set x.namespace owner.name) [
      | err e ↦ err e
      | ok found ↦ ok (elim (deployment_of found) [
        | none ↦ some false
        | some name ↦ if name == x.name then some true else none
      ])
    ]
    else ok (if equal_fold owner.kind x.kind && owner.name == x.name then some true else none)

unfoldable pub is_unschedulable : Condition → Bool
is_unschedulable c = c.type == "PodScheduled" && c.status == "False" && c.reason == "Unschedulable"

-- A Pending Pod that the scheduler cannot place, and that no node is nominated for.
unfoldable pub cannot_schedule : Pod → Bool
cannot_schedule p =
    p.status.phase == "Pending"
    && p.status.nominated_node_name == ""
    && any is_unschedulable p.status.conditions

unfoldable pub replica_id : Pod → String
replica_id p = if p.metadata.uid == "" then p.metadata.name else p.metadata.uid

-- `reasons` by its keys, and `replicas`.
unfoldable pub add_replica : Pod → Option Bool → List String × ℕ → List String × ℕ
add_replica p none found = found
add_replica p (some known) found = (
  if known && cannot_schedule p && not (contains found.0 (replica_id p))
      then found.0 ++ replica_id p ∷ []
      else found.0,
  found.1 + 1,
)

unfoldable pub since_of : String → List (String × ℕ) → Option ℕ
since_of = lookup

-- unschedulableSince after the round: the ids still unschedulable, with when each was first seen.
unfoldable pub seen_since : ℕ → List (String × ℕ) → List String → List (String × ℕ)
seen_since now known [] = []
seen_since now known (id ∷ ids) =
    (id, elim (since_of id known) [ none ↦ now | some t ↦ t ]) ∷ seen_since now known ids

-- The ids known before whose grace is over.
unfoldable pub stuck_ids : ℕ → List (String × ℕ) → List String → List String
stuck_ids now known =
    keep
      (λ id. elim (since_of id known) [ none ↦ false | some t ↦ leb (t + unschedulable_grace) now ])

unfoldable pub ready_replicas_of : Option Controller → ℕ
ready_replicas_of found = elim found [ none ↦ 0 | some c ↦ c.ready_replicas ]

module _ ⦃F : Floats⦄ (w : World) (o : Options) where
  unfoldable pub count_replicas :
      Reads
      → Workload
      → Controller
      → List String × ℕ
      → List Pod
      → Result CapacityError (List String × ℕ)
  count_replicas r x c found [] = ok found
  count_replicas r x c found (p ∷ ps) =
      if active p
        && is_none p.metadata.deletion_timestamp
        && selector_matches p.metadata.labels c.spec.selector
      then elim (counted_as w.equal_fold r.cluster.find_replica_set x p) [
        | err e ↦ err e
        | ok counted ↦ count_replicas r x c (add_replica p counted found) ps
      ]
      else count_replicas r x c found ps

  unfoldable pub unschedulable_replicas :
      Workload → Controller → Reads → Result CapacityError (List String × ℕ)
  unschedulable_replicas x c r = elim c.spec.selector [
    | none ↦ ok ([], 0)
    | some s ↦ elim (r.cluster.get_pods x.namespace) [
      | err e ↦ err e
      | ok pods ↦ count_replicas r x c ([], 0) pods
    ]
  ]

  -- The part of a round after the deadline test: what was seen, or failure once the replicas that
  -- are not stuck are too few.
  unfoldable pub watch_unschedulable :
      Workload → ℕ → Option Controller → List (String × ℕ) → Gate (List (String × ℕ))
  watch_unschedulable x minimum_ready none known = pure known
  watch_unschedulable x minimum_ready (some c) known =
      ask w (unschedulable_replicas x c) >>= λ found. gets (λ n. n.time) >>= λ now.
      let stuck = stuck_ids now known found.0 in
      refuse_if (not (is_empty stuck) && lt64 (sub64 found.1 (length stuck)) minimum_ready)
        cannot_place
      >> pure (seen_since now known found.0)

  unfoldable pub ready_floor_round :
      Workload → ℕ → List (String × ℕ) → Gate (Verdict (Unit {0}) (List (String × ℕ)))
  ready_floor_round x minimum_ready known =
      ask w (λ r. r.cluster.find_controller x.namespace (ref x)) >>= λ found. pure (
        if le64 minimum_ready (ready_replicas_of found)
        then settled tt
        else not_yet (refused ready_floor_missed) (watch_unschedulable x minimum_ready found known))

  unfoldable pub wait_for_controller_ready_floor : Workload → ℕ → Gate (Unit {0})
  wait_for_controller_ready_floor x minimum_ready =
      deadline_after w (duration_of o.settle_timeout) >>= λ deadline.
      poll_until w (ready_floor_round x minimum_ready) deadline []

  -- One controller of the gate. A pinned one is deferred.
  unfoldable pub check_workload : Workload → Gate (Unit {0})
  check_workload x = workload_requires_target_node w o x >>= λ pinned. elim pinned [
    | true ↦ pure tt
    | false ↦ ask w (λ r. ready_minimum r.cluster o.node x) >>= λ m. elim m.gated [
      | false ↦ pure tt
      | true ↦ wait_for_controller_ready_floor x m.minimum
    ]
  ]

  unfoldable pub check_workloads : List Workload → Gate (Unit {0})
  check_workloads [] = pure tt
  check_workloads (x ∷ xs) = check_workload x >> check_workloads xs

  unfoldable pub wait_for_displaced_workload_survivability : Gate (Unit {0})
  wait_for_displaced_workload_survivability = gets (λ n. n.workloads) >>= check_workloads

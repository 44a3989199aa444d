-- ===== src/Capacity/Displaced.antt =====
-- capacity.go: displacedPodsToPlace, with workloadForPod, uniqueWorkloads and readyMinimum of
-- workloads.go and deploymentReadyFloor of placement.go: which of the target's Pods the
-- availability gate needs elsewhere.
-- strings.ToLower, for the ASCII letters of a kind, is an argument: text has no such function here.
pub mod Select
pub mod Order
pub mod Leaves
use Prim.Native.Nat.{ℕ}
use Prim.Native.String.{String}
use mathlib.Core.Bool.{Bool, false, not, true, ◌&&◌, ◌||◌}
use mathlib.Core.List.{List, [], ◌∷◌}
use mathlib.Core.Option.{Option, none, some}
use text.Mathlib.Text.{◌==◌}
use nix_packages.Base.{
  Floats, Result, codes, eqb, if◌then◌else◌, insert_by, lt64, ltb, ok, sort_by, sub64, ◌>>=◌,
}
use nix_packages.Capacity.Quantity.{CapacityError}
use nix_packages.Capacity.Replacement.Templates.{Cluster}
use nix_packages.Kube.{Controller, Pod, Workload, desired_replicas, first_owner, ref, workload_text}
use nix_packages.Placement.Floor.{ready_floor}

module _ (to_lower : String → String) (k : Cluster) where
  from_replica_set : String → String → Option Controller → Workload
  from_replica_set namespace name none = record {
    namespace = namespace;
    kind = "replicaset";
    name = name;
  }
  from_replica_set namespace name (some rs) =
      let owner = first_owner rs.metadata in
      if owner.kind == "Deployment" && not (owner.name == "")
      then record { namespace = namespace; kind = "deployment"; name = owner.name }
      else record { namespace = namespace; kind = "replicaset"; name = name }

  -- The controller that recreates a Pod, a ReplicaSet resolved to its Deployment.
  unfoldable pub workload_for_pod : Pod → Result CapacityError (Option Workload)
  unfolding from_replica_set
  workload_for_pod p =
      let owner = first_owner p.metadata in
      let namespace = p.metadata.namespace in
      if owner.kind == "DaemonSet"
        || owner.kind == "Job"
        || owner.kind == "Node"
        || owner.kind == ""
      then ok none
      else if owner.kind == "StatefulSet"
      then ok (some (record { namespace = namespace; kind = "statefulset"; name = owner.name }))
      else if owner.kind == "ReplicaSet"
      then (k.find_replica_set namespace owner.name >>= λ rs.
          ok (some (from_replica_set namespace owner.name rs)))
      else ok
          (some (record { namespace = namespace; kind = to_lower owner.kind; name = owner.name }))

-- Texts are compared by their code points, as Go compares valid UTF-8 by its bytes.
unfoldable pub codes_before : List ℕ → List ℕ → Bool
codes_before [] [] = false
codes_before [] (d ∷ ds) = true
codes_before (c ∷ cs) [] = false
codes_before (c ∷ cs) (d ∷ ds) = if eqb c d then codes_before cs ds else ltb c d

abbrev pub same_workload : Workload → Workload → Bool
same_workload v w = v.namespace == w.namespace && v.kind == w.kind && v.name == w.name

-- Each workload that differs from the one before.
unfoldable pub drop_repeats : Option Workload → List Workload → List Workload
drop_repeats previous [] = []
drop_repeats none (w ∷ ws) = w ∷ drop_repeats (some w) ws
drop_repeats (some v) (w ∷ ws) =
    let rest = drop_repeats (some w) ws in if same_workload w v then rest else w ∷ rest

unfoldable pub unique_workloads : List Workload → List Workload
unfolding sort_by insert_by drop_repeats codes_before
unique_workloads workloads =
    drop_repeats none
      (sort_by (λ v w. codes_before (codes (workload_text v)) (codes (workload_text w))) workloads)

-- minimum, desired and gated of readyMinimum.
pub record ReadyMinimum : Type 0 where
  pub minimum : ℕ
  pub desired : ℕ
  pub gated : Bool

module _ ⦃F : Floats⦄ (k : Cluster) (target : String) where
  unfoldable pub controller_replicas : Workload → Result CapacityError ℕ
  controller_replicas w = k.find_controller w.namespace (ref w) >>= λ c.
      ok (elim c [ none ↦ 1 | some d ↦ desired_replicas d ])

  floor_of : Workload → Option Controller → Result CapacityError (Option ℕ)
  floor_of w none = ok none
  floor_of w (some d) = do
    nodes ← k.get_nodes
    pods ← k.get_pods w.namespace
    ok (some (ready_floor target w.namespace d nodes pods))

  -- `none` where the Deployment is confirmed absent.
  unfoldable pub deployment_ready_floor : Workload → Result CapacityError (Option ℕ)
  unfolding floor_of
  deployment_ready_floor w = k.find_controller w.namespace (ref w) >>= floor_of w

  gate : ℕ → ℕ → ReadyMinimum
  gate minimum desired = record { minimum = minimum; desired = desired; gated = true }

  unfoldable pub ready_minimum : Workload → Result CapacityError ReadyMinimum
  unfolding gate
  ready_minimum w =
      if not (w.kind == "deployment" || w.kind == "replicaset" || w.kind == "statefulset")
      then ok (record { minimum = 0; desired = 0; gated = false })
      else (controller_replicas w >>= λ desired.
          if w.kind == "deployment"
          then (deployment_ready_floor w >>= λ floor.
              ok (gate (elim floor [ none ↦ desired | some n ↦ n ]) desired))
          else if w.kind == "replicaset"
          then ok (gate desired desired)
          else ok (gate (if lt64 1 desired then sub64 desired 1 else 1) desired))

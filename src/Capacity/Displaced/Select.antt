-- ===== src/Capacity/Displaced/Select.antt =====
-- capacity.go: displacedPodsToPlace. It splits the Pods that a drain moves into those that the
-- availability gate needs elsewhere and the others.
use Prim.Native.Nat.{ℕ}
use Prim.Native.String.{String}
use mathlib.Core.Bool.{Bool, false, not, true, ◌&&◌, ◌||◌}
use mathlib.Core.List.{List, [], map, reverse, ◌++◌, ◌∷◌}
use mathlib.Core.Option.{Option, none, some}
use text.Mathlib.Text.{◌==◌}
use nix_packages.Base.{
  Dict, Floats, Result, drop, if◌then◌else◌, insert_by, keep, length, lt64, max64, min64, ok,
  sort_by, sub64, take, wrap_error, ◌>>=◌,
}
use nix_packages.Capacity.Admission.{DisplacedPod, may_run_elsewhere}
use nix_packages.Capacity.Displaced.{
  ReadyMinimum, ready_minimum, same_workload, unique_workloads, workload_for_pod,
}
use nix_packages.Capacity.Place.{largest_first}
use nix_packages.Capacity.Quantity.{CapacityError, at_pod}
use nix_packages.Capacity.Replacement.Defaults.{LimitRange}
use nix_packages.Capacity.Replacement.Templates.{
  Cluster, StatefulSet, pod_ordinal, replacement_requests,
}
use nix_packages.Kube.{
  Controller, Node, Pod, Workload, active, has_owner, is_instance_manager, is_mirror, pod_ready,
  ref,
}
use nix_packages.Placement.Selectors.{requires_target_node}
use nix_packages.Placement.Taints.{tolerates_cordon}

abbrev pub Groups : Type 0
Groups = List (Workload × List Pod)

-- `byWorkload[w] = append(…)`, a new workload at the end of `order`.
unfoldable pub add_pod : Workload → Pod → Groups → Groups
add_pod w p [] = (w, p ∷ []) ∷ []
add_pod w p ((v, ps) ∷ rest) =
    if same_workload v w then (v, ps ++ p ∷ []) ∷ rest else (v, ps) ∷ add_pod w p rest

unfoldable pub pods_of : Workload → Groups → List Pod
pods_of w [] = []
pods_of w ((v, ps) ∷ rest) = if same_workload v w then ps else pods_of w rest

-- The Pods needed elsewhere, the others, and the cache of LimitRanges.
pub record Selection : Type 0 where
  pub needed : List DisplacedPod
  pub others : List DisplacedPod
  pub cache : Dict (List LimitRange)

-- The Pods that the loop over the target's Pods goes on with.
unfoldable pub leaves_target : String → Pod → Bool
leaves_target target p = not (
    not (p.spec.node_name == target)
    || not (active p)
    || has_owner p.metadata "DaemonSet"
    || is_mirror p
    || is_instance_manager p)

-- Ready replicas that the gate misses without the target's Pods, within 0 and their number.
unfoldable pub need_of : ReadyMinimum → ℕ → List Pod → ℕ
need_of m ready_replicas on_target =
    if not m.gated
    then 0
    else min64
        (max64 (sub64 m.minimum (sub64 ready_replicas (length (keep pod_ready on_target)))) 0)
        (length on_target)

module _ ⦃F : Floats⦄ (to_lower : String → String) (k : Cluster) (target : String) where
  unfoldable pub add_workload : Option Workload → Pod → Groups → Groups
  add_workload none p groups = groups
  add_workload (some w) p groups = add_pod w p groups

  unfoldable pub collect : List Pod → Groups → Result CapacityError Groups
  unfolding add_workload
  collect [] groups = ok groups
  collect (p ∷ ps) groups =
      if not (leaves_target target p)
      then collect ps groups
      else (workload_for_pod to_lower k p >>= λ w. collect ps (add_workload w p groups))

  -- The Pods with their replacements' requests.
  unfoldable pub with_requests :
      List Pod
      → Dict (List LimitRange)
      → Result CapacityError (List DisplacedPod × Dict (List LimitRange))
  with_requests [] cache = ok ([], cache)
  with_requests (p ∷ ps) cache =
      wrap_error (at_pod p.metadata.namespace p.metadata.name) (replacement_requests k p cache)
      >>= λ r.
          with_requests ps r.1 >>= λ rest. ok (record { pod = p; requests = r.0 } ∷ rest.0, rest.1)

  -- Some remaining node may run the one and none the other.
  unfoldable pub runs_first : List Node → List Pod → DisplacedPod → DisplacedPod → Bool
  runs_first nodes pods a b =
      may_run_elsewhere target nodes pods a.pod && not (may_run_elsewhere target nodes pods b.pod)

  -- Smallest first, those that some remaining node may run before the rest.
  unfoldable pub by_need : List Node → List Pod → List DisplacedPod → List DisplacedPod
  unfolding sort_by insert_by
  by_need nodes pods displaced = sort_by (runs_first nodes pods) (reverse (largest_first displaced))

  -- An ordered StatefulSet, or one that is gone, takes its lowest ordinals first.
  unfoldable pub in_order : Option StatefulSet → List DisplacedPod → List DisplacedPod
  unfolding sort_by insert_by
  in_order sts displaced =
      if elim sts [ none ↦ true | some s ↦ not (s.pod_management_policy == "Parallel") ]
      then sort_by (λ a b. lt64 (pod_ordinal a.pod) (pod_ordinal b.pod)) displaced
      else displaced

  unfoldable pub ordered_for :
      Workload → List DisplacedPod → Result CapacityError (List DisplacedPod)
  ordered_for w displaced =
      if w.kind == "statefulset"
      then (k.find_stateful_set w.namespace (ref w) >>= λ sts. ok (in_order sts displaced))
      else ok displaced

  -- The Pods can run only on the target, or may land back on it: they wait for it.
  unfoldable pub waits_for_target : List Node → ReadyMinimum → Option Controller → Bool
  waits_for_target nodes m none = false
  waits_for_target nodes m (some c) =
      m.gated
      && (requires_target_node target c.spec.template.spec nodes
          || tolerates_cordon c.spec.template.spec)

  ready_of : Option Controller → ℕ
  ready_of none = 0
  ready_of (some c) = c.ready_replicas

  -- One round of the loop over the workloads.
  unfoldable pub select_workload :
      List Node → List Pod → Groups → Workload → Selection → Result CapacityError Selection
  unfolding ready_of
  select_workload nodes pods groups w s = ready_minimum k target w >>= λ m.
      (if m.gated then k.find_controller w.namespace (ref w) else ok none) >>= λ c.
      if waits_for_target nodes m c
      then ok s
      else (with_requests (pods_of w groups) s.cache >>= λ sized.
          ordered_for w (by_need nodes pods sized.0) >>= λ displaced.
          let need = need_of m (ready_of c) (pods_of w groups) in
          ok (record {
            needed = s.needed ++ take need displaced;
            others = s.others ++ drop need displaced;
            cache = sized.1;
          }))

  unfoldable pub select_all :
      List Node → List Pod → Groups → List Workload → Selection → Result CapacityError Selection
  select_all nodes pods groups [] s = ok s
  select_all nodes pods groups (w ∷ ws) s =
      select_workload nodes pods groups w s >>= select_all nodes pods groups ws

  unfoldable pub displaced_pods_to_place :
      List Node → List Pod → Dict (List LimitRange) → Result CapacityError Selection
  unfolding select_all
  displaced_pods_to_place nodes pods cache = do
    groups ← collect pods []
    select_all nodes pods groups (unique_workloads (map (λ g. g.0) groups))
        (record { needed = []; others = []; cache = cache })

-- ===== src/Tests/PlacementCases.antt =====
-- Selectors, taints and the floor on concrete objects.
use Prim.Native.Nat.{ℕ}
use Prim.Native.String.{String}
use mathlib.Core.Bool.{false, true}
use mathlib.Core.List.{List, [], ◌∷◌}
use mathlib.Core.Logic.{◌↔◌}
use mathlib.Core.Option.{none, some}
use mathlib.Core.Path.{refl, ◌≡◌}
use native.Mathlib.Omega.{arith}
use nix_packages.Base.{Has, add64, all, any, find?, le64, lt64, min64, sub64}
use nix_packages.Kube.{
  Controller, Node, NodeSelectorTerm, PodSpec, Taint, desired_replicas, node_is_ready,
}
use nix_packages.Placement.Floor.{
  Domain, least_count, minimum_of, pick_domain, place_one, ready_floor, replay, within_skew,
}
use nix_packages.Placement.Floor.Bounds.{ready_floor_bounds}
use nix_packages.Placement.Floor.Skew.{Replayed, replay_skew}
use nix_packages.Placement.SelectorLaws.{
  Carries, Pinned, TermHolds, labels_match_iff, pod_matches_node_iff, requires_target_node_iff,
}
use nix_packages.Placement.Selectors.{
  labels_match, node_selector_matches, pod_matches_node, required_node_affinity_matches,
  requires_target_node, terms_match,
}
use nix_packages.Placement.TaintLaws.{Blocks, Tolerated, node_admits_iff}
use nix_packages.Placement.Taints.{node_admits, taint_admits, tolerates_taint}
use nix_packages.Tests.Cluster.{meta, node_named, plain_spec, web_labels, whole_floats}

labels_match_iff_example :
    (labels_match (("tier", "front") ∷ web_labels) web_labels ≡ true)
    ↔ Carries (("tier", "front") ∷ web_labels) web_labels
labels_match_iff_example = labels_match_iff (("tier", "front") ∷ web_labels) web_labels

abbrev cluster : List Node
cluster = node_named "alpha" [] ∷ node_named "target" [] ∷ []

requires_target_node_iff_example :
    (requires_target_node "target" (plain_spec "") cluster ≡ true)
    ↔ Pinned "target" (plain_spec "") cluster
requires_target_node_iff_example = requires_target_node_iff "target" (plain_spec "") cluster

-- alpha may run the Pods too.
not_pinned : requires_target_node "target" (plain_spec "") cluster ≡ false
unfolding requires_target_node find? pod_matches_node node_selector_matches
    required_node_affinity_matches terms_match any all node_is_ready
not_pinned = refl

abbrev dedicated : Taint
dedicated = record { key = "dedicated"; value = "db"; effect = "NoSchedule" }

node_admits_iff_example :
    ((node_admits (plain_spec "") (node_named "alpha" (dedicated ∷ [])) ≡ true)
      → (t : Taint) → Has t (dedicated ∷ [])
      → Blocks t
      → Tolerated (plain_spec "") t)
    × ((node_admits (plain_spec "") (node_named "alpha" (dedicated ∷ [])) ≡ false)
        → (t : Taint) × Has t (dedicated ∷ []) × Blocks t × (¬ Tolerated (plain_spec "") t))
node_admits_iff_example = node_admits_iff (plain_spec "") (node_named "alpha" (dedicated ∷ []))

dedicated_refused : node_admits (plain_spec "") (node_named "alpha" (dedicated ∷ [])) ≡ false
unfolding node_admits taint_admits tolerates_taint all any
dedicated_refused = refl

abbrev in_zone : NodeSelectorTerm
in_zone = record {
  match_expressions = record { key = "zone"; operator = "In"; values = "a" ∷ [] } ∷ [];
  match_fields = [];
}

abbrev zoned : PodSpec
zoned = record (plain_spec "") {
  affinity = some (record {
    node_affinity = some (record { required = some (in_zone ∷ []) });
    pod_anti_affinity = none;
  });
}

pod_matches_node_iff_example : (pod_matches_node zoned (node_named "alpha" []) ≡ true) ↔ (
    Carries (node_named "alpha" []).metadata.labels []
    × ((u : NodeSelectorTerm) × Has u (in_zone ∷ []) × TermHolds (node_named "alpha" []) u))
pod_matches_node_iff_example = pod_matches_node_iff zoned (node_named "alpha" []) in_zone [] refl

abbrev domain_with : String → ℕ → Domain
domain_with name count = record { name = name; hostname = name; count = count; is_open = true }

abbrev domains : List Domain
domains = domain_with "alpha" 2 ∷ domain_with "beta" 0 ∷ []

replay_skew_example : Replayed 1 3 domains 0 (replay 3 1 domains 0)
replay_skew_example = replay_skew 3 1 domains 0 (omega arith) (omega arith)

replayed_counts : (replay 3 1 domains 0).1 ≡ 3
unfolding replay place_one pick_domain within_skew minimum_of least_count min64 le64 lt64 add64
    sub64
replayed_counts = refl

abbrev web : Controller
web = record {
  metadata = meta "web" [];
  spec = record {
    replicas = some 3;
    selector = some (record { match_labels = web_labels; match_expressions = [] });
    template = record { metadata = meta "web" web_labels; spec = plain_spec "" };
  };
  ready_replicas = 3;
}

ready_floor_bounds_example :
    (le64 (ready_floor "target" "default" web cluster []) (desired_replicas web) ≡ true)
    × (le64 1 (desired_replicas web) ≡ true
        → le64 1 (ready_floor "target" "default" web cluster []) ≡ true)
ready_floor_bounds_example = ready_floor_bounds "target" "default" web cluster []

-- ===== src/Tests/CheckCases.antt =====
-- The whole fit check, on one Pod that moves from the target to another node.
use Prim.Native.String.{String}
use mathlib.Core.Bool.{Bool, true}
use mathlib.Core.List.{[], ◌∷◌}
use mathlib.Core.Option.{none, some}
use mathlib.Core.Path.{refl, ◌≡◌}
use native.Mathlib.Omega.{arith}
use nix_packages.Base.{
  All, add64, all, any, atoi, atoi_codes, contains, digits_value, drop_last, err, find?, has_key,
  insert, insert_by, keep, le64, lookup, lt64, max64, min64, ok, show_int64, sort_by, span_digits,
  sub64, text_at,
}
use nix_packages.Capacity.Admission.{
  DisplacedPod, admits, claimed, clash, hostname_anti_affinity, may_run_elsewhere, repels,
}
use nix_packages.Capacity.Check.{
  Fit, charge, charge_all, charge_node, check_displaced_pods_fit, fit_of, fit_verdict, open_node,
  place_both, remaining_nodes,
}
use nix_packages.Capacity.Check.Sound.{Holds, check_displaced_pods_fit_sound}
use nix_packages.Capacity.Displaced.{
  codes_before, controller_replicas, deployment_ready_floor, drop_repeats, ready_minimum,
  unique_workloads, workload_for_pod,
}
use nix_packages.Capacity.Displaced.Leaves.{LeavesTarget, displaced_pods_to_place-LeavesTarget}
use nix_packages.Capacity.Displaced.Select.{
  Selection, add_pod, by_need, collect, displaced_pods_to_place, in_order, leaves_target, need_of,
  ordered_for, pods_of, runs_first, select_all, select_workload, waits_for_target, with_requests,
}
use nix_packages.Capacity.Pack.Needed.{
  after_pack, only_spread, place_needed, placeable, reset, respread, searched,
}
use nix_packages.Capacity.Pack.Search.{
  candidates, candidates_from, eligible_masks, interchangeable, lowest_index, options, pack,
  same_mask, search_order, tighter, total_demand, total_room, try, try_each,
}
use nix_packages.Capacity.Place.{
  best_node, consider, free_share, larger_request, largest_first, miss_line, place, place_in_order,
  pod_key, put, settle, take_back,
}
use nix_packages.Capacity.Quantity.{
  binary_suffix, decimal_suffix, mantissa_parts, match_quantity, parse_quantity, read_failed,
}
use nix_packages.Capacity.Replacement.{
  beside, container_request, largest_by_name, name_set, pod_level_request, raise_to_peaks, sum_of,
  template_requests,
}
use nix_packages.Capacity.Replacement.Defaults.{
  apply_defaults, apply_name, lacks_size, largest_limit, largest_value, ranges_of,
  relies_on_default, with_limit_range_defaults,
}
use nix_packages.Capacity.Replacement.Templates.{
  Cluster, from_template, pod_ordinal, recreation_template, replacement_requests, revision_of,
}
use nix_packages.Capacity.Requests.{
  held_by_name, held_requests, init_requests, pod_level_held, pod_requests, raised, request_of,
  requested_by_name, resident_requests, resize_infeasible, sum_requests,
}
use nix_packages.Capacity.Resources.{
  fits, larger, mebibytes, minus, plus, read_resources, resources_text,
}
use nix_packages.Kube.{
  Container, Controller, Node, Pod, PodSpec, active, desired_replicas, first_owner, has_owner,
  is_instance_manager, is_mirror, node_is_ready, pod_ready, ref, workload_text,
}
use nix_packages.Placement.Floor.{
  domains_of, eligible_node, hostname_set, keeps_full_count, least_count, minimum_of,
  per_node_floor, pick_domain, place_one, ready_floor, replay, running_replicas, spread_case,
  spread_floor, within_skew,
}
use nix_packages.Placement.Selectors.{
  field_requirement, label_requirement, labels_match, node_affinity_term_matches,
  node_selector_matches, pinned_at, pod_matches_node, required_node_affinity_matches,
  requirement_matches, requires_target_node, selector_matches, terms_match,
}
use nix_packages.Placement.Spread.{hostname_spread, one_per_node, simple_selector}
use nix_packages.Placement.Taints.{
  live_pod, node_admits, taint_admits, tolerates, tolerates_cordon, tolerates_taint,
}
use nix_packages.Tests.Cluster.{
  meta, node_named, plain_spec, pod_named, ready, web_labels, whole_floats,
}

run_opened : Bool
unfolding any all keep find? drop_last insert_by sort_by contains lookup insert has_key text_at
    span_digits digits_value atoi_codes atoi show_int64 add64 sub64 le64 lt64 max64 min64
    hostname_anti_affinity repels clash claimed admits may_run_elsewhere fit_verdict open_node
    remaining_nodes charge_node charge charge_all place_both fit_of check_displaced_pods_fit
    workload_for_pod codes_before drop_repeats unique_workloads controller_replicas
    deployment_ready_floor ready_minimum add_pod pods_of leaves_target need_of collect with_requests
    runs_first by_need in_order ordered_for waits_for_target select_workload select_all
    displaced_pods_to_place reset placeable only_spread respread after_pack searched place_needed
    same_mask options interchangeable eligible_masks candidates_from tighter candidates lowest_index
    try_each try total_demand total_room search_order pack larger_request largest_first pod_key
    miss_line put take_back free_share consider best_node settle place_in_order place decimal_suffix
    binary_suffix mantissa_parts match_quantity parse_quantity container_request pod_level_request
    largest_by_name name_set sum_of beside raise_to_peaks template_requests lacks_size
    relies_on_default largest_limit largest_value apply_name apply_defaults ranges_of
    with_limit_range_defaults pod_ordinal revision_of recreation_template from_template
    replacement_requests raised request_of sum_requests init_requests held_requests pod_requests
    requested_by_name held_by_name resize_infeasible pod_level_held resident_requests plus minus
    fits larger mebibytes resources_text read_resources desired_replicas ref workload_text has_owner
    first_owner node_is_ready active pod_ready is_mirror is_instance_manager least_count minimum_of
    within_skew pick_domain place_one replay hostname_set eligible_node per_node_floor
    running_replicas domains_of spread_floor keeps_full_count spread_case ready_floor labels_match
    node_selector_matches requirement_matches label_requirement field_requirement
    node_affinity_term_matches terms_match required_node_affinity_matches pod_matches_node pinned_at
    requires_target_node selector_matches simple_selector one_per_node hostname_spread tolerates
    tolerates_taint taint_admits node_admits live_pod tolerates_cordon
run_opened = true

abbrev sized : Container
sized = record {
  name = "web";
  resources = record { requests = ("cpu", "1") ∷ ("memory", "100") ∷ []; limits = [] };
  restart_policy = "";
}

abbrev sized_spec : String → PodSpec
sized_spec node_name = record (plain_spec node_name) { containers = sized ∷ [] }

abbrev large_node : String → Node
large_node name = record (node_named name []) {
  status = record {
    conditions = ready ∷ [];
    addresses = [];
    allocatable = ("cpu", "4") ∷ ("memory", "1000") ∷ [];
  };
}

abbrev moved_pod : Pod
moved_pod = record (pod_named "web-1" "target") {
  spec = sized_spec "target";
  status = record (pod_named "web-1" "target").status { conditions = ready ∷ [] };
}

abbrev web_set : Controller
web_set = record {
  metadata = record (meta "web" web_labels) { owner_references = [] };
  spec = record {
    replicas = some 1;
    selector = none;
    template = record { metadata = meta "web" web_labels; spec = sized_spec "" };
  };
  ready_replicas = 1;
}

abbrev one_set : Cluster
one_set = record {
  find_controller = λ namespace name. ok (some web_set);
  find_replica_set = λ namespace name. ok (some web_set);
  find_stateful_set = λ namespace name. ok none;
  get_replica_set = λ namespace name. ok web_set;
  get_stateful_set = λ namespace name. err (read_failed "statefulset");
  get_revision = λ namespace name. err (read_failed "controllerrevision");
  get_limit_ranges = λ namespace. ok [];
  get_nodes = ok (large_node "target" ∷ large_node "alpha" ∷ []);
  get_pods = λ namespace. ok (moved_pod ∷ []);
  get_all_pods = ok (moved_pod ∷ []);
}

abbrev moved_fit : Fit
moved_fit = record {
  before = record { cpu = 4000; memory = 1000 } ∷ [];
  after =
      record {
        node = large_node "alpha";
        allocatable = record { cpu = 4000; memory = 1000 };
        free = record { cpu = 3000; memory = 900 };
        placed = moved_pod ∷ [];
      }
      ∷ [];
  unplaced = [];
  unsure = [];
  unplaced_others = [];
}

check_run : check_displaced_pods_fit (λ s. s) one_set "target" [] ≡ ok moved_fit
unfolding run_opened
check_run = refl

check_displaced_pods_fit_sound_example : Holds (λ s. s) one_set "target" [] moved_fit
check_displaced_pods_fit_sound_example =
    check_displaced_pods_fit_sound (λ s. s) one_set "target" (λ x. omega arith) [] moved_fit
      check_run refl

abbrev moved_selection : Selection
moved_selection = record {
  needed = record { pod = moved_pod; requests = record { cpu = 1000; memory = 100 } } ∷ [];
  others = [];
  cache = [];
}

selection_run :
    displaced_pods_to_place
      (λ s. s)
      one_set
      "target"
      (large_node "target" ∷ large_node "alpha" ∷ [])
      (moved_pod ∷ [])
      []
    ≡ ok moved_selection
unfolding run_opened
selection_run = refl

displaced_pods_to_place-LeavesTarget_example :
    All (λ (d : DisplacedPod). LeavesTarget "target" (moved_pod ∷ []) d.pod) moved_selection.needed
    × All
        (λ (d : DisplacedPod). LeavesTarget "target" (moved_pod ∷ []) d.pod)
        moved_selection.others
displaced_pods_to_place-LeavesTarget_example =
    displaced_pods_to_place-LeavesTarget (λ s. s) one_set "target"
      (large_node "target" ∷ large_node "alpha" ∷ []) (moved_pod ∷ []) [] moved_selection
      selection_run

-- ===== src/Tests/CapacityCases.antt =====
-- Placing and searching on concrete rooms.
use Prim.Native.Nat.{◌+◌, ◌≤◌}
use Prim.Native.String.{String}
use mathlib.Core.Bool.{Bool, false, true}
use mathlib.Core.List.{List, Perm, [], ◌∷◌}
use mathlib.Core.Logic.{inl, inr, ◌↔◌}
use mathlib.Core.Option.{none, some}
use mathlib.Core.Path.{ap, refl, sym, ◌∙◌, ◌≡◌}
use native.Mathlib.Omega.{arith}
use nix_packages.Base.{
  add64, all, any, atoi, atoi_codes, contains, digits_value, drop_last, err, has_key, in_range,
  insert, is_digit, is_empty, keep, le64, length, lookup, lt64, max64, ok, selects_later,
  selects_none, selects_this, span_digits, sub64, text_at, unsigned_value,
}
use nix_packages.Capacity.Admission.{admits, claimed, clash, hostname_anti_affinity, repels}
use nix_packages.Capacity.Budgets.{
  DisruptionBudget, check_pdb_eviction_blockers, check_stable_node_pod_slots,
}
use nix_packages.Capacity.Budgets.Blockers.{Blocker, check_pdb_iff}
use nix_packages.Capacity.Budgets.Slots.{check_stable_node_pod_slots_iff}
use nix_packages.Capacity.Pack.Alike.{Arranged, pack_exhaustive}
use nix_packages.Capacity.Pack.Needed.{
  after_pack, only_spread, place_needed, placeable, reset, respread, searched,
}
use nix_packages.Capacity.Pack.NeededLaws.{AllPlaced, place_needed_sound}
use nix_packages.Capacity.Pack.Placements.{Fills}
use nix_packages.Capacity.Pack.Search.{
  candidates, candidates_from, eligible_masks, interchangeable, lowest_index, options, pack,
  pack_budget, same_mask, search_order, tighter, total_demand, total_room, try, try_each,
}
use nix_packages.Capacity.Pack.Sound.{pack_sound}
use nix_packages.Capacity.Place.{
  best_node, consider, free_share, largest_first, place, pod_key, put, settle, take_back,
}
use nix_packages.Capacity.Place.Order.{Descending, largest_first-Descending}
use nix_packages.Capacity.Place.Spreads.{Spreads, place-Spreads}
use nix_packages.Capacity.Quantity.{pdb_blocks}
use nix_packages.Capacity.Resources.{fits, minus, no_resources, plus}
use nix_packages.Kube.{Node, Pod, active, has_owner, is_instance_manager, is_mirror}
use nix_packages.Placement.Selectors.{
  node_selector_matches, pod_matches_node, required_node_affinity_matches, terms_match,
}
use nix_packages.Placement.Taints.{live_pod, node_admits}
use nix_packages.Tests.Cluster.{
  meta, node_named, pod_named, ready, three_pods, too_large, two_nodes, web_labels, whole_floats,
}

-- Opens what a run of the placement computes with.
run_opened : Bool
unfolding pack try try_each lowest_index interchangeable total_demand total_room search_order plus
    minus fits le64 lt64 add64 sub64 max64 eligible_masks options largest_first candidates
    candidates_from admits claimed put take_back drop_last any all keep lookup insert
    pod_matches_node node_selector_matches required_node_affinity_matches terms_match node_admits
    free_share repels clash same_mask tighter hostname_anti_affinity pod_key place best_node
    consider settle place_needed reset placeable only_spread respread searched after_pack contains
    live_pod active
run_opened = true

found_three : (pack [] two_nodes three_pods pack_budget).found ≡ true
unfolding run_opened
found_three = refl

-- A budget of one step leaves the search unsettled.
gave_up : (pack [] two_nodes three_pods 1).settled ≡ false
unfolding run_opened
gave_up = refl

pack_sound_example :
    ((pack [] two_nodes three_pods pack_budget).found ≡ true
      → Fills [] two_nodes
          (search_order [] two_nodes three_pods)
          (pack [] two_nodes three_pods pack_budget).room)
    × ((pack [] two_nodes three_pods pack_budget).found ≡ false
        → (pack [] two_nodes three_pods pack_budget).room ≡ two_nodes)
pack_sound_example = pack_sound [] two_nodes three_pods pack_budget (omega arith) (omega arith)

too_large-fits :
    fits (total_demand [] no_resources too_large) (total_room [] no_resources two_nodes) ≡ true
unfolding run_opened
too_large-fits = refl

too_large_missed : (pack [] two_nodes too_large pack_budget).found ≡ false
unfolding run_opened
too_large_missed = refl

too_large_settled : (pack [] two_nodes too_large pack_budget).settled ≡ true
unfolding run_opened
too_large_settled = refl

pack_exhaustive_example :
    Perm (search_order [] two_nodes too_large) too_large
    × ¬ Arranged [] two_nodes none two_nodes (search_order [] two_nodes too_large)
unfolding pod_key
pack_exhaustive_example =
    pack_exhaustive [] two_nodes too_large pack_budget ((refl, tt), (tt, tt)) (omega arith)
      (omega arith) too_large-fits too_large_missed too_large_settled

place-Spreads_example :
    Spreads []
      (largest_first too_large)
      (record { room = two_nodes; no_room = []; barred = [] })
      (place two_nodes too_large [])
    × Perm (largest_first too_large) too_large
place-Spreads_example = place-Spreads [] two_nodes too_large

all_reported : (place_needed [] two_nodes three_pods pack_budget).unplaced ≡ []
unfolding run_opened
all_reported = refl

all_sure : (place_needed [] two_nodes three_pods pack_budget).unsure ≡ []
unfolding run_opened
all_sure = refl

place_needed_sound_example :
    AllPlaced [] two_nodes three_pods (place_needed [] two_nodes three_pods pack_budget).room
place_needed_sound_example =
    place_needed_sound [] two_nodes three_pods pack_budget (omega arith) (omega arith)
      (refl, (refl, tt)) all_reported all_sure

largest_first-Descending_example :
    Descending (largest_first three_pods) × Perm (largest_first three_pods) three_pods
largest_first-Descending_example = largest_first-Descending three_pods (omega arith)

abbrev exhausted_budget : DisruptionBudget
exhausted_budget = record {
  metadata = meta "web" [];
  selector = some (record { match_labels = web_labels; match_expressions = [] });
  disruptions_allowed = 0;
}

check_pdb_iff_example :
    (¬ Blocker "target" true (exhausted_budget ∷ []) (pod_named "web-1" "target" ∷ [])
      → check_pdb_eviction_blockers "target" true
          (ok (exhausted_budget ∷ []))
          (ok (pod_named "web-1" "target" ∷ []))
        ≡ ok tt)
    × (Blocker "target" true (exhausted_budget ∷ []) (pod_named "web-1" "target" ∷ [])
        → check_pdb_eviction_blockers "target" true
            (ok (exhausted_budget ∷ []))
            (ok (pod_named "web-1" "target" ∷ []))
          ≡ err (pdb_blocks "target"))
check_pdb_iff_example =
    check_pdb_iff "target" true (pod_named "web-1" "target" ∷ []) (exhausted_budget ∷ [])

abbrev slotted_node : String → Node
slotted_node name = record (node_named name []) {
  status = record { conditions = ready ∷ []; addresses = []; allocatable = ("pods", "30") ∷ [] };
}

abbrev slotted_nodes : List Node
slotted_nodes = slotted_node "alpha" ∷ slotted_node "target" ∷ []

abbrev one_pod : List Pod
one_pod = pod_named "web-1" "target" ∷ []

-- One Pod moves to a node with 30 slots and none taken; 20 are to stay free.
check_stable_node_pod_slots_iff_example :
    (check_stable_node_pod_slots "target" 20 (ok slotted_nodes) (ok one_pod) ≡ ok tt) ↔ (
      (is_empty (slotted_node "alpha" ∷ []) ≡ false)
      × (length {A = Pod} [] + length one_pod + 20 ≤ 30))
unfolding any text_at atoi atoi_codes unsigned_value in_range span_digits digits_value is_digit
    lookup active has_owner is_mirror is_instance_manager has_key
check_stable_node_pod_slots_iff_example =
    check_stable_node_pod_slots_iff "target" 20 slotted_nodes (slotted_node "alpha" ∷ []) one_pod []
      one_pod 30 (selects_this (refl, refl, refl) (selects_later (λ h. cc (h.0)) selects_none))
      (30, 0, refl, refl, refl)
      (selects_later
        (λ (a, n, m, e). elim m [
          | inl q ↦ absurd (cc (sym (ap (λ (n : Node). n.metadata.name) q) ∙ e))
          | inr k ↦ absurd k
        ])
        selects_none)
      (selects_this (refl, refl, refl, refl, refl) selects_none) (omega arith) (omega arith)
      (omega arith) (omega arith)

-- ===== src/Capacity/Pack/Search.antt =====
-- capacity.go: pack, the depth-first search on a budget of steps.
use Prim.Native.Nat.{suc, ℕ}
use Prim.Native.String.{String}
use mathlib.Core.Bool.{Bool, false, not, true, ◌&&◌, ◌||◌}
use mathlib.Core.List.{List, [], map, ◌∷◌}
use mathlib.Core.Option.{Option, none, some}
use text.Mathlib.Text.{◌==◌}
use nix_packages.Base.{
  Dict, Floats, all, eqb, if◌then◌else◌, insert, insert_by, is_empty, keep, leb, length, lookup,
  ltb, max64, sort_by,
}
use nix_packages.Capacity.Admission.{DisplacedPod, RoomyNode, admits, hostname_anti_affinity}
use nix_packages.Capacity.Place.{free_share, largest_first, pod_key, put, take_back, update_at}
use nix_packages.Capacity.Resources.{Resources, fits, no_resources, plus}
use nix_packages.Kube.{Pod}
use nix_packages.Placement.Selectors.{agrees}

abbrev pub pack_budget : ℕ
pack_budget = 200000

-- maps.Equal
abbrev pub same_labels : Dict String → Dict String → Bool
same_labels a b = eqb (length a) (length b) && all (agrees b) a

-- slices.Equal on []bool
unfoldable pub same_mask : List Bool → List Bool → Bool
same_mask [] [] = true
same_mask [] (b ∷ bs) = false
same_mask (a ∷ as') [] = false
same_mask (true ∷ as') (true ∷ bs) = same_mask as' bs
same_mask (true ∷ as') (false ∷ bs) = false
same_mask (false ∷ as') (true ∷ bs) = false
same_mask (false ∷ as') (false ∷ bs) = same_mask as' bs

-- `eligible[key(d)]`, nil where it is missing.
abbrev pub mask_of : Dict (List Bool) → DisplacedPod → List Bool
mask_of eligible d = elim (lookup (pod_key d) eligible) [ none ↦ [] | some mask ↦ mask ]

unfoldable pub options : Dict (List Bool) → DisplacedPod → ℕ
options eligible d = length (keep (λ allowed. allowed) (mask_of eligible d))

unfoldable pub interchangeable : Dict (List Bool) → DisplacedPod → DisplacedPod → Bool
interchangeable eligible a b =
    a.pod.metadata.namespace == b.pod.metadata.namespace
    && same_labels a.pod.metadata.labels b.pod.metadata.labels
    && is_empty (hostname_anti_affinity a.pod.spec)
    && is_empty (hostname_anti_affinity b.pod.spec)
    && (eqb a.requests.cpu b.requests.cpu && eqb a.requests.memory b.requests.memory)
    && same_mask (mask_of eligible a) (mask_of eligible b)

-- What a search leaves: whether it found a placement, the room, and the steps taken so far.
pub record Searched : Type 0 where
  pub found : Bool
  pub room : List RoomyNode
  pub steps : ℕ

-- The result of `pack`, with the room as it leaves it.
pub record Packed : Type 0 where
  pub found : Bool
  pub settled : Bool
  pub room : List RoomyNode

module _ ⦃F : Floats⦄ (pods : List Pod) where
  open F use {flt}

  -- The mask of each Pod, in the order of the list.
  unfoldable pub eligible_masks :
      List RoomyNode → Dict (List Bool) → List DisplacedPod → Dict (List Bool)
  eligible_masks room eligible [] = eligible
  eligible_masks room eligible (d ∷ ds) =
      eligible_masks room (insert (pod_key d) (map (λ r. admits r d pods) room) eligible) ds

  -- The rooms from index `lowest` on that the Pod fits and that admit it, with their indices.
  unfoldable pub candidates_from : DisplacedPod → ℕ → ℕ → List RoomyNode → List (ℕ × RoomyNode)
  candidates_from d lowest i [] = []
  candidates_from d lowest i (r ∷ rs) =
      let rest = candidates_from d lowest (suc i) rs in
      if leb lowest i && (fits d.requests r.free && admits r d pods) then (i, r) ∷ rest else rest

  unfoldable pub tighter : ℕ × RoomyNode → ℕ × RoomyNode → Bool
  tighter a b = flt (free_share a.1) (free_share b.1)

  -- The indices to try, tightest node first.
  unfoldable pub candidates : DisplacedPod → ℕ → List RoomyNode → List ℕ
  unfolding tighter sort_by insert_by
  candidates d lowest room = map (λ p. p.0) (sort_by tighter (candidates_from d lowest 0 room))

  module _ (eligible : Dict (List Bool)) (budget : ℕ) where
    -- The Pod before and the index it was put on: an interchangeable Pod goes no lower.
    unfoldable pub lowest_index : Option (DisplacedPod × ℕ) → DisplacedPod → ℕ
    lowest_index none d = 0
    lowest_index (some p) d = if interchangeable eligible p.0 d then p.1 else 0

    -- The loop over the candidates of a Pod; `go` is the search for the Pods after it.
    unfoldable pub try_each :
        (ℕ → List RoomyNode → ℕ → Searched) → DisplacedPod → List ℕ → List RoomyNode → ℕ → Searched
    try_each go d [] room steps = record { found = false; room = room; steps = steps }
    try_each go d (j ∷ js) room steps =
        let deeper = go j (update_at j (put d) room) (suc steps) in
        let next = try_each go d js (update_at j (take_back d) deeper.room) deeper.steps in
        if ltb budget (suc steps)
        then record { found = false; room = room; steps = suc steps }
        else if deeper.found
        then deeper
        else next

    unfoldable pub try :
        List DisplacedPod → Option (DisplacedPod × ℕ) → List RoomyNode → ℕ → Searched
    try [] previous room steps = record { found = true; room = room; steps = steps }
    try (d ∷ ds) previous room steps =
        try_each (λ j room' steps'. try ds (some (d, j)) room' steps') d
          (candidates d (lowest_index previous d) room) room steps

  unfoldable pub total_demand : Resources → List DisplacedPod → Resources
  total_demand demand [] = demand
  total_demand demand (d ∷ ds) = total_demand (plus demand d.requests) ds

  unfoldable pub total_room : Resources → List RoomyNode → Resources
  total_room total [] = total
  total_room total (r ∷ rs) =
      total_room (plus total (record { cpu = max64 r.free.cpu 0; memory = max64 r.free.memory 0 }))
        rs

  -- The order of the search: the Pods with the fewest nodes first, then the largest.
  unfoldable pub search_order : List RoomyNode → List DisplacedPod → List DisplacedPod
  unfolding sort_by insert_by
  search_order room displaced =
      let sorted = largest_first displaced in
      let eligible = eligible_masks room [] sorted in
      sort_by (λ a b. ltb (options eligible a) (options eligible b)) sorted

  unfoldable pub pack : List RoomyNode → List DisplacedPod → ℕ → Packed
  unfolding total_demand total_room
  pack room displaced budget =
      let eligible = eligible_masks room [] (largest_first displaced) in
      let s = try eligible budget (search_order room displaced) none room 0 in
      if not (fits (total_demand no_resources displaced) (total_room no_resources room))
      then record { found = false; settled = true; room = room }
      else record { found = s.found; settled = s.found || leb s.steps budget; room = s.room }

-- ===== src/Capacity/Pack/Alike.antt =====
-- About the Pods that the search takes for interchangeable, and the placements that it looks for.
use Prim.Native.Nat.{ℕ, ◌≤◌}
use mathlib.Core.Bool.{Bool, false, true}
use mathlib.Core.List.{List, Perm, [], map, ◌∷◌}
use mathlib.Core.Logic.{inl, inr, ◌⊎◌}
use mathlib.Core.Option.{Option, none, some}
use mathlib.Core.Path.{ap, refl, subst, sym, ◌∙◌, ◌≡◌}
use native.Mathlib.Omega.{arith}
use text.Mathlib.Text.{◌==◌}
use text.Mathlib.TextEquality.{eq_iff}
use text.Mathlib.TextPositions.{eq_refl}
use nix_packages.Base.{
  All, All-at, All-tabulate, Bool-cases, Dict, Floats, Has, all, eq_of_some, eqb, insert, is_empty,
  length, lookup, lookup-insert_other, lookup-insert_same, sort_by-All,
}
use nix_packages.Capacity.Admission.{DisplacedPod, RoomyNode, admits, hostname_anti_affinity}
use nix_packages.Capacity.Pack.Complete.{OrderedFill, filled, pack_complete, pack_masks, put_on}
use nix_packages.Capacity.Pack.Keys.{DistinctKeys, one_of_key, same_mask-eq}
use nix_packages.Capacity.Pack.Placements.{MayGo, RequestsAreWords, RoomIsWord}
use nix_packages.Capacity.Pack.Search.{
  eligible_masks, interchangeable, lowest_index, mask_of, pack, same_mask, search_order,
  total_demand, total_room,
}
use nix_packages.Capacity.Pack.Sound.{search_order-perm}
use nix_packages.Capacity.Place.{larger_request, largest_first, pod_key, put, update_at}
use nix_packages.Capacity.Resources.{fits, no_resources}
use nix_packages.Kube.{Pod}
use nix_packages.Placement.SelectorLaws.{Carries, labels_match_iff}
use nix_packages.Placement.Selectors.{agrees, labels_match}

module _ ⦃F : Floats⦄ (pods : List Pod) (start : List RoomyNode) where
  abbrev pub may_run_on : DisplacedPod → List Bool
  may_run_on d = map (λ r. admits r d pods) start

  -- Pods of one namespace with the same labels and the same request, none of which keeps others of
  -- its kind off its node, that the same nodes admit at the start.
  abbrev pub Alike : DisplacedPod → DisplacedPod → Type 0
  Alike a b =
      ((a.pod.metadata.namespace == b.pod.metadata.namespace) ≡ true)
      × (eqb (length a.pod.metadata.labels) (length b.pod.metadata.labels) ≡ true)
      × Carries b.pod.metadata.labels a.pod.metadata.labels
      × (is_empty (hostname_anti_affinity a.pod.spec) ≡ true)
      × (is_empty (hostname_anti_affinity b.pod.spec) ≡ true)
      × (eqb a.requests.cpu b.requests.cpu ≡ true)
      × (eqb a.requests.memory b.requests.memory ≡ true)
      × (may_run_on a ≡ may_run_on b)

  -- The Pods one after another, each on a node that admits it and has room for it then. A Pod that
  -- is alike to the one just before it stands on the same node or on one later in the list.
  pub data Arranged : Option (DisplacedPod × ℕ) → List RoomyNode → List DisplacedPod → Type 0 where
    arranged :
        {previous : Option (DisplacedPod × ℕ)} {room : List RoomyNode} → Arranged previous room []
    then_put :
        {previous : Option (DisplacedPod × ℕ)} {room : List RoomyNode} {d : DisplacedPod}
        {ds : List DisplacedPod} (j : ℕ)
        → MayGo pods room d j
        → ((before : DisplacedPod) (i : ℕ) → previous ≡ some (before, i) → Alike before d → i ≤ j)
        → Arranged (some (d, j)) (update_at j (put d) room) ds
        → Arranged previous room (d ∷ ds)

  eligible_masks-lookup :
      (d : DisplacedPod) (masks : Dict (List Bool)) (ds : List DisplacedPod)
      → ((b : DisplacedPod) → Has b ds → pod_key b ≡ pod_key d → b ≡ d)
      → Has d ds ⊎ (lookup (pod_key d) masks ≡ some (may_run_on d))
      → lookup (pod_key d) (eligible_masks pods start masks ds) ≡ some (may_run_on d)
  unfolding eligible_masks
  eligible_masks-lookup d masks [] u (inl m) = absurd m
  eligible_masks-lookup d masks [] u (inr e) = e
  eligible_masks-lookup d masks (b ∷ bs) u h =
      let next = insert (pod_key b) (may_run_on b) masks in
      eligible_masks-lookup d next bs (λ c m. u c (inr m))
        (elim (Bool-cases (pod_key b == pod_key d)) [
          | inl e ↦
              let key : pod_key b ≡ pod_key d = ground (arith, e, eq_iff (pod_key b) (pod_key d)) in
              let same : b ≡ d = u b (inl refl) key in
              inr (
                subst (λ k. lookup k next ≡ some (may_run_on d)) key
                  (lookup-insert_same (pod_key b) (may_run_on b) masks
                    ∙ ap (λ c. some (may_run_on c)) same))
          | inr e ↦
              let other = lookup-insert_other (pod_key b) (pod_key d) (may_run_on b) masks e in
              elim h [
                | inr known ↦ inr (other ∙ known)
                | inl m ↦ elim m [
                  | inr later ↦ inl later
                  | inl same ↦
                      let z : (pod_key b == pod_key d) ≡ true =
                        subst (λ c. (pod_key b == pod_key c) ≡ true) (sym same)
                          (eq_refl (pod_key b)) in
                      absurd (cc (e, z))
                ]
              ]
        ])

  abbrev Known : Dict (List Bool) → DisplacedPod → Type 0
  Known eligible d = mask_of eligible d ≡ may_run_on d

  Known-mask :
      (eligible : Dict (List Bool)) (d : DisplacedPod)
      → lookup (pod_key d) eligible ≡ some (may_run_on d)
      → Known eligible d
  Known-mask eligible d e =
      ap (λ (found : Option (List Bool)). elim found [ none ↦ [] | some mask ↦ mask ]) e

  module _ (eligible : Dict (List Bool)) (budget : ℕ) where
    interchangeable-Alike :
        (a b : DisplacedPod)
        → Known eligible a
        → Known eligible b
        → interchangeable eligible a b ≡ true
        → Alike a b
    unfolding interchangeable
    interchangeable-Alike a b p q h =
        let mask : same_mask (mask_of eligible a) (mask_of eligible b) ≡ true = ground (arith, h) in
        let labels : all (agrees b.pod.metadata.labels) a.pod.metadata.labels ≡ true =
          ground (arith, h) in
        (
          ground (arith, h),
          ground (arith, h),
          (labels_match_iff b.pod.metadata.labels a.pod.metadata.labels).0
              (unfold labels_match in labels),
          ground (arith, h),
          ground (arith, h),
          ground (arith, h),
          ground (arith, h),
          sym p ∙ same_mask-eq (mask_of eligible a) (mask_of eligible b) mask ∙ q,
        )

    lowest_index-le :
        (previous : Option (DisplacedPod × ℕ)) (d : DisplacedPod) (j : ℕ)
        → ((before : DisplacedPod) (i : ℕ) → previous ≡ some (before, i) → Known eligible before)
        → Known eligible d
        → ((before : DisplacedPod) (i : ℕ) → previous ≡ some (before, i) → Alike before d → i ≤ j)
        → lowest_index pods eligible budget previous d ≤ j
    unfolding lowest_index
    lowest_index-le none d j k q h = omega arith
    lowest_index-le (some (before, i)) d j k q h =
        elim (Bool-cases (interchangeable eligible before d)) [
          | inl e ↦
              let low : i ≤ j =
                h before i refl (interchangeable-Alike before d (k before i refl) q e) in
              rw e low
          | inr e ↦ rw e (omega arith)
        ]

    pub Arranged-ordered :
        (previous : Option (DisplacedPod × ℕ)) (room : List RoomyNode) (ds : List DisplacedPod)
        → ((before : DisplacedPod) (i : ℕ) → previous ≡ some (before, i) → Known eligible before)
        → All (Known eligible) ds
        → Arranged previous room ds
        → OrderedFill pods eligible budget previous room ds
    Arranged-ordered previous room [] k a p = filled
    Arranged-ordered previous room (d ∷ ds) k a (then_put j may low p) =
        put_on j may (lowest_index-le previous d j k a.0 low) (
          Arranged-ordered (some (d, j)) (update_at j (put d) room) ds
            (λ before i e. subst (Known eligible) (ap (λ p. p.0) (eq_of_some e)) a.0) a.1 p)

module _ ⦃F : Floats⦄ (pods : List Pod) where
  search_order-Known :
      (room : List RoomyNode) (displaced : List DisplacedPod)
      → DistinctKeys displaced
      → All (Known pods room (pack_masks pods room displaced)) (search_order pods room displaced)
  unfolding search_order largest_first
  search_order-Known room displaced u =
      let sorted = largest_first displaced in
      let inside : All (λ d. Has d displaced) sorted =
        sort_by-All larger_request (λ d. Has d displaced) displaced
          (All-tabulate (λ d. Has d displaced) displaced (λ a m. m)) in
      let known : All (Known pods room (pack_masks pods room displaced)) sorted =
        All-tabulate (Known pods room (pack_masks pods room displaced)) sorted λ d m.
          let there = All-at (λ d. Has d displaced) sorted inside in
          let found =
            eligible_masks-lookup pods room d [] sorted
              (λ b n e. one_of_key displaced b d u (there b n) (there d m) e) (inl m) in
          Known-mask pods room _ d found in
      sort_by-All _ (Known pods room (pack_masks pods room displaced)) sorted known

  -- When `pack` settles that it found nothing although the total demand fits the total room, the
  -- Pods cannot be put, in the order of the search and none left out, each on a node that admits it and has room for
  -- it then, with each Pod that is alike to the one before it no earlier in the list of nodes.
  -- Alike Pods share namespace, labels, requests and the nodes that admit them at the start, and
  -- have no anti-affinity on the hostname. The Pods' names differ, and the room and the requests
  -- are 64-bit patterns.
  pub pack_exhaustive :
      (room : List RoomyNode) (displaced : List DisplacedPod) (budget : ℕ)
      → DistinctKeys displaced
      → RoomIsWord room
      → RequestsAreWords displaced
      → fits (total_demand pods no_resources displaced) (total_room pods no_resources room) ≡ true
      → (pack pods room displaced budget).found ≡ false
      → (pack pods room displaced budget).settled ≡ true
      → Perm (search_order pods room displaced) displaced
        × ¬ Arranged pods room none room (search_order pods room displaced)
  pack_exhaustive room displaced budget u w k fit f s = (
    search_order-perm pods room displaced,
    λ p. pack_complete pods room displaced budget w k fit f s (
        Arranged-ordered pods room (pack_masks pods room displaced) budget none room
          (search_order pods room displaced) (λ before i e. absurd (cc (e)))
          (search_order-Known room displaced u) p),
  )

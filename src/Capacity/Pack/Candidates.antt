-- ===== src/Capacity/Pack/Candidates.antt =====
-- About the candidates of a Pod in the search of `pack`.
use Prim.Native.Nat.{suc, zero, ℕ, ◌+◌, ◌≤◌}
use mathlib.Core.Bool.{true, ◌&&◌}
use mathlib.Core.List.{List, [], ◌∷◌}
use mathlib.Core.Logic.{inl, inr}
use mathlib.Core.Option.{some}
use mathlib.Core.Path.{ap₂, refl, ◌≡◌}
use native.Mathlib.Omega.{arith}
use nix_packages.Base.{
  &&-true, All, All-map, Bool-cases, Floats, Has, eq_of_some, get_elem?, leb, leb→le, le→leb,
  map-All, map-Has, sort_by, sort_by-All, sort_by-Has,
}
use nix_packages.Capacity.Admission.{DisplacedPod, RoomyNode, admits}
use nix_packages.Capacity.Pack.Placements.{MayGo}
use nix_packages.Capacity.Pack.Search.{candidates, candidates_from, tighter}
use nix_packages.Capacity.Resources.{fits}
use nix_packages.Kube.{Pod}

module _ ⦃F : Floats⦄ (pods : List Pod) (d : DisplacedPod) (lowest : ℕ) where
  -- An entry (i + offset, node) of the list that starts at index i.
  record Candidate (i : ℕ) (rs : List RoomyNode) (p : ℕ × RoomyNode) : Type 0 where
    offset : ℕ
    index : p.0 ≡ i + offset
    there : get_elem? rs offset ≡ some p.1
    has_room : fits d.requests p.1.free ≡ true
    admitted : admits p.1 d pods ≡ true
    not_below : lowest ≤ p.0

  Candidate-shift :
      (i : ℕ) (r : RoomyNode) (rs : List RoomyNode) (p : ℕ × RoomyNode)
      → Candidate (suc i) rs p
      → Candidate i (r ∷ rs) p
  Candidate-shift i r rs p h = record {
    offset = suc h.offset;
    index = omega (arith, h.index);
    there = h.there;
    has_room = h.has_room;
    admitted = h.admitted;
    not_below = h.not_below;
  }

  candidates_from-All :
      (i : ℕ) (rs : List RoomyNode) → All (Candidate i rs) (candidates_from pods d lowest i rs)
  unfolding candidates_from
  candidates_from-All i [] = tt
  candidates_from-All i (r ∷ rs) =
      let rest : All (Candidate i (r ∷ rs)) (candidates_from pods d lowest (suc i) rs) =
        All-map _ (Candidate-shift i r rs) (candidates_from-All (suc i) rs) in
      elim (Bool-cases (leb lowest i && (fits d.requests r.free && admits r d pods))) [
        | inl e ↦
            let parts = &&-true (leb lowest i) (fits d.requests r.free && admits r d pods) e in
            let both = &&-true (fits d.requests r.free) (admits r d pods) parts.1 in
            rw e (
              record {
                offset = 0;
                index = omega arith;
                there = refl;
                has_room = both.0;
                admitted = both.1;
                not_below = leb→le lowest i parts.0;
              },
              rest,
            )
        | inr e ↦ rw e rest
      ]

  to_MayGo :
      (room : List RoomyNode) (p : ℕ × RoomyNode)
      → Candidate 0 room p
      → MayGo pods room d p.0 × (lowest ≤ p.0)
  to_MayGo room p h = (
    record {
      node = p.1;
      there = let q : p.0 ≡ h.offset = omega (arith, h.index) in rw q h.there;
      has_room = h.has_room;
      admitted = h.admitted;
    },
    h.not_below,
  )

  -- Every candidate may take the Pod, and is not below the lowest index.
  pub candidates-All :
      (room : List RoomyNode)
      → All (λ j. MayGo pods room d j × (lowest ≤ j)) (candidates pods d lowest room)
  unfolding candidates
  candidates-All room =
      let listed = candidates_from pods d lowest 0 room in
      map-All (λ j. MayGo pods room d j × (lowest ≤ j)) (λ (p : ℕ × RoomyNode). p.0)
        (sort_by (tighter pods) listed)
        (sort_by-All (tighter pods) (λ p. MayGo pods room d p.0 × (lowest ≤ p.0)) listed
          (All-map listed (to_MayGo room) (candidates_from-All 0 room)))

  candidates_from-Has :
      (i j k : ℕ) (rs : List RoomyNode) (r : RoomyNode)
      → k ≡ i + j
      → get_elem? rs j ≡ some r
      → fits d.requests r.free ≡ true
      → admits r d pods ≡ true
      → lowest ≤ k
      → Has (k, r) (candidates_from pods d lowest i rs)
  unfolding candidates_from
  candidates_from-Has i j k [] r q h f a l = cc
  candidates_from-Has i zero k (x ∷ rs) r q h f a l =
      let same : x ≡ r = eq_of_some h in
      let here : k ≡ i = omega (arith, q) in
      let low : leb lowest i ≡ true = le→leb lowest i (omega (arith, q, l)) in
      rw (same, low, f, a) (inl (ap₂ (λ m s. (m, s)) here refl))
  candidates_from-Has i (suc j) k (x ∷ rs) r q h f a l =
      let later : Has (k, r) (candidates_from pods d lowest (suc i) rs) =
        candidates_from-Has (suc i) j k rs r (omega (arith, q)) h f a l in
      elim (Bool-cases (leb lowest i && (fits d.requests x.free && admits x d pods))) [
        | inl e ↦ rw e (inr later)
        | inr e ↦ rw e later
      ]

  -- A node that may take the Pod, not below the lowest index, is a candidate.
  pub candidates-Has :
      (room : List RoomyNode) (j : ℕ)
      → MayGo pods room d j
      → lowest ≤ j
      → Has j (candidates pods d lowest room)
  unfolding candidates
  candidates-Has room j h l =
      let listed = candidates_from pods d lowest 0 room in
      map-Has (λ (p : ℕ × RoomyNode). p.0) (j, h.node) (sort_by (tighter pods) listed)
        (sort_by-Has (tighter pods) (j, h.node) listed
          (candidates_from-Has 0 j j room h.node (omega arith) h.there h.has_room h.admitted l))

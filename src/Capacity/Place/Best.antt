-- ===== src/Capacity/Place/Best.antt =====
-- The node that the spreading picks for a Pod: what the inner loop of `place` finds.
use Prim.Native.Nat.{suc, ℕ, ◌+◌}
use mathlib.Core.Bool.{Bool, false, true, ◌&&◌}
use mathlib.Core.List.{List, [], ◌∷◌}
use mathlib.Core.Logic.{inl, inr, ◌⊎◌}
use mathlib.Core.Option.{Option, none, some}
use mathlib.Core.Path.{ap, refl, subst, sym, ◌≡◌}
use native.Mathlib.Omega.{arith}
use nix_packages.Base.{All, Floats, Has, get_elem?}
use nix_packages.Capacity.Admission.{DisplacedPod, RoomyNode, admits}
use nix_packages.Capacity.Place.{best_node, consider}
use nix_packages.Capacity.Resources.{fits}
use nix_packages.Kube.{Pod}

module _ ⦃F : Floats⦄ (d : DisplacedPod) (pods : List Pod) where
  -- The node at an index of the list that starts at i admits the Pod and has room for it.
  pub record Roomy (i : ℕ) (rs : List RoomyNode) (p : ℕ × RoomyNode) : Type 0 where
    pub offset : ℕ
    pub index : p.0 ≡ i + offset
    pub there : get_elem? rs offset ≡ some p.1
    pub has_room : fits d.requests p.1.free ≡ true
    pub admitted : admits p.1 d pods ≡ true

  Roomy-shift :
      (i : ℕ) (r : RoomyNode) (rs : List RoomyNode) (p : ℕ × RoomyNode)
      → Roomy (suc i) rs p
      → Roomy i (r ∷ rs) p
  Roomy-shift i r rs p h = record {
    offset = suc h.offset;
    index = omega (arith, h.index);
    there = h.there;
    has_room = h.has_room;
    admitted = h.admitted;
  }

  abbrev Seen : Type 0
  Seen = Option (ℕ × RoomyNode) × Bool

  consider_cases :
      (i : ℕ) (r : RoomyNode) (b : Seen) (p : ℕ × RoomyNode)
      → (consider d pods i r b).0 ≡ some p
      → (b.0 ≡ some p) ⊎ ((p ≡ (i, r)) × (fits d.requests r.free ≡ true) × (admits r d pods ≡ true))
  unfolding consider
  consider_cases i r (pick, admitted) p h = ground arith

  -- The pick is the one at the start, or a node of the list with room.
  pub best_node-some :
      (rs : List RoomyNode) (i : ℕ) (b : Seen) (p : ℕ × RoomyNode)
      → (best_node d pods rs i b).0 ≡ some p
      → (b.0 ≡ some p) ⊎ Roomy i rs p
  unfolding best_node
  best_node-some [] i (pick, admitted) p h = inl h
  best_node-some (r ∷ rs) i b p h = elim (best_node-some rs (suc i) (consider d pods i r b) p h) [
    | inl first ↦ elim (consider_cases i r b p first) [
      | inl old ↦ inl old
      | inr (e, f, a) ↦ inr (record {
        offset = 0;
        index = omega (arith, ap (λ (q : ℕ × RoomyNode). q.0) e);
        there = ap (λ (q : ℕ × RoomyNode). some q.1) (sym e);
        has_room = subst (λ (q : ℕ × RoomyNode). fits d.requests q.1.free ≡ true) (sym e) f;
        admitted = subst (λ (q : ℕ × RoomyNode). admits q.1 d pods ≡ true) (sym e) a;
      })
    ]
    | inr later ↦ inr (Roomy-shift i r rs p later)
  ]

  consider_admits :
      (i : ℕ) (r : RoomyNode) (b : Seen) → b.1 ≡ true → (consider d pods i r b).1 ≡ true
  unfolding consider
  consider_admits i r (pick, admitted) h = ground arith

  consider_keeps :
      (i : ℕ) (r : RoomyNode) (b : Seen)
      → (consider d pods i r b).0 ≡ none
      → (b.0 ≡ none) × ((admits r d pods && fits d.requests r.free) ≡ false)
  unfolding consider
  consider_keeps i r (pick, admitted) h = ground arith

  consider_barred :
      (i : ℕ) (r : RoomyNode) (b : Seen)
      → (consider d pods i r b).1 ≡ false
      → (b.1 ≡ false) × (admits r d pods ≡ false)
  unfolding consider
  consider_barred i r (pick, admitted) h = ground arith

  consider_admitted :
      (i : ℕ) (r : RoomyNode) (b : Seen)
      → (consider d pods i r b).1 ≡ true
      → (b.1 ≡ true) ⊎ (admits r d pods ≡ true)
  unfolding consider
  consider_admitted i r (pick, admitted) h = ground arith

  -- With no pick no node of the list both admits the Pod and has room for it.
  pub best_node-none :
      (rs : List RoomyNode) (i : ℕ) (b : Seen)
      → (best_node d pods rs i b).0 ≡ none
      → (b.0 ≡ none) × All (λ r. (admits r d pods && fits d.requests r.free) ≡ false) rs
  unfolding best_node
  best_node-none [] i b h = (h, tt)
  best_node-none (r ∷ rs) i b h =
      let rest = best_node-none rs (suc i) (consider d pods i r b) h in
      let first = consider_keeps i r b rest.0 in (first.0, (first.1, rest.1))

  -- With no admission every node of the list bars the Pod.
  pub best_node-barred :
      (rs : List RoomyNode) (i : ℕ) (b : Seen)
      → (best_node d pods rs i b).1 ≡ false
      → (b.1 ≡ false) × All (λ r. admits r d pods ≡ false) rs
  unfolding best_node
  best_node-barred [] i b h = (h, tt)
  best_node-barred (r ∷ rs) i b h =
      let rest = best_node-barred rs (suc i) (consider d pods i r b) h in
      let first = consider_barred i r b rest.0 in (first.0, (first.1, rest.1))

  pub best_node-admitted :
      (rs : List RoomyNode) (i : ℕ) (b : Seen)
      → (best_node d pods rs i b).1 ≡ true
      → (b.1 ≡ true) ⊎ ((r : RoomyNode) × Has r rs × (admits r d pods ≡ true))
  unfolding best_node
  best_node-admitted [] i b h = inl h
  best_node-admitted (r ∷ rs) i b h =
      elim (best_node-admitted rs (suc i) (consider d pods i r b) h) [
        | inl first ↦ elim (consider_admitted i r b first) [
          | inl old ↦ inl old
          | inr here ↦ inr (r, inl refl, here)
        ]
        | inr (x, m, a) ↦ inr (x, inr m, a)
      ]

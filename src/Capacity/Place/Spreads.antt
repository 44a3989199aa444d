-- ===== src/Capacity/Place/Spreads.antt =====
-- `place` as a step relation: what happens to each Pod, and why.
use Prim.Native.Nat.{ℕ}
use mathlib.Core.Bool.{Bool, false, true, ◌&&◌}
use mathlib.Core.List.{List, Perm, [], ◌++◌, ◌∷◌}
use mathlib.Core.Logic.{inl, inr}
use mathlib.Core.Option.{Option, none, some}
use mathlib.Core.Path.{ap, refl, ◌≡◌}
use native.Mathlib.Omega.{arith}
use nix_packages.Base.{All, Floats, Has, sort_by-perm}
use nix_packages.Capacity.Admission.{DisplacedPod, RoomyNode, admits}
use nix_packages.Capacity.Pack.Placements.{MayGo}
use nix_packages.Capacity.Place.{
  Placement, barred_reason, best_node, larger_request, largest_first, miss_line, no_room_reason,
  place, place_in_order, put, settle, update_at,
}
use nix_packages.Capacity.Place.Best.{
  best_node-admitted, best_node-barred, best_node-none, best_node-some,
}
use nix_packages.Capacity.Resources.{fits}
use nix_packages.Kube.{Pod}

module _ ⦃F : Floats⦄ (pods : List Pod) where
  pub data Spreads : List DisplacedPod → Placement → Placement → Type 0 where
    finished : {s : Placement} → Spreads [] s s
    goes :
        {s t : Placement} {d : DisplacedPod} {ds : List DisplacedPod} (j : ℕ)
        → MayGo pods s.room d j
        → Spreads ds (record s { room = update_at j (put d) s.room }) t
        → Spreads (d ∷ ds) s t
    lacks_room :
        {s t : Placement} {d : DisplacedPod} {ds : List DisplacedPod} (r : RoomyNode)
        → Has r s.room
        → admits r d pods ≡ true
        → All (λ x. (admits x d pods && fits d.requests x.free) ≡ false) s.room
        → Spreads ds (record s { no_room = s.no_room ++ miss_line d no_room_reason ∷ [] }) t
        → Spreads (d ∷ ds) s t
    is_barred :
        {s t : Placement} {d : DisplacedPod} {ds : List DisplacedPod}
        → All (λ x. admits x d pods ≡ false) s.room
        → Spreads ds (record s { barred = s.barred ++ miss_line d barred_reason ∷ [] }) t
        → Spreads (d ∷ ds) s t

  spread_one :
      (d : DisplacedPod) (ds : List DisplacedPod) (s t : Placement)
      (b : Option (ℕ × RoomyNode) × Bool)
      → best_node d pods s.room 0 (none, false) ≡ b
      → Spreads ds (settle d b s) t
      → Spreads (d ∷ ds) s t
  unfolding settle
  spread_one d ds s t (none, false) e h =
      is_barred
        (best_node-barred d pods s.room 0 (none, false)
          (ap (λ (x : Option (ℕ × RoomyNode) × Bool). x.1) e)).1
        h
  spread_one d ds s t (some p, false) e h =
      is_barred
        (best_node-barred d pods s.room 0 (none, false)
          (ap (λ (x : Option (ℕ × RoomyNode) × Bool). x.1) e)).1
        h
  spread_one d ds s t (none, true) e h =
      elim (best_node-admitted d pods s.room 0 (none, false)
        (ap (λ (x : Option (ℕ × RoomyNode) × Bool). x.1) e)) [
          | inl no_start ↦ cc
          | inr (r, m, a) ↦
              lacks_room r m a
                (best_node-none d pods s.room 0 (none, false)
                  (ap (λ (x : Option (ℕ × RoomyNode) × Bool). x.0) e)).1
                h
        ]
  spread_one d ds s t (some p, true) e h =
      elim (best_node-some d pods s.room 0 (none, false) p
        (ap (λ (x : Option (ℕ × RoomyNode) × Bool). x.0) e)) [
          | inl no_start ↦ cc
          | inr k ↦
              goes p.0
                (record {
                  node = p.1;
                  there = let q : p.0 ≡ k.offset = omega (arith, k.index) in rw q k.there;
                  has_room = k.has_room;
                  admitted = k.admitted;
                })
                h
        ]

  place_in_order-Spreads :
      (ds : List DisplacedPod) (s : Placement) → Spreads ds s (place_in_order pods ds s)
  unfolding place_in_order
  place_in_order-Spreads [] s = finished
  place_in_order-Spreads (d ∷ ds) s =
      spread_one d ds s _ (best_node d pods s.room 0 (none, false)) refl
        (place_in_order-Spreads ds (settle d (best_node d pods s.room 0 (none, false)) s))

  pub largest_first-perm :
      (displaced : List DisplacedPod) → Perm (largest_first displaced) displaced
  unfolding largest_first
  largest_first-perm displaced = sort_by-perm larger_request displaced

  -- `place` takes the Pods largest first through the step relation: each goes on a node that
  -- admits it and has room for it, or its line says truly that no admitting node has room, or that
  -- no node admits it. The Pods so taken are those given.
  pub place-Spreads :
      (room : List RoomyNode) (displaced : List DisplacedPod)
      → Spreads
          (largest_first displaced)
          (record { room = room; no_room = []; barred = [] })
          (place room displaced pods)
        × Perm (largest_first displaced) displaced
  unfolding place
  place-Spreads room displaced =
      (place_in_order-Spreads (largest_first displaced) _, largest_first-perm displaced)

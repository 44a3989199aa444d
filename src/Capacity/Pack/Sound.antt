-- ===== src/Capacity/Pack/Sound.antt =====
-- About what the search of `pack` finds, and the room that it leaves.
use Prim.Native.Nat.{suc, ℕ}
use mathlib.Core.Bool.{Bool, false, true}
use mathlib.Core.List.{List, Perm, [], ◌∷◌}
use mathlib.Core.Logic.{inl, inr}
use mathlib.Core.Option.{Option, none, some}
use mathlib.Core.Path.{ap, refl, ◌∙◌, ◌≡◌}
use nix_packages.Base.{All, All-map, Bool-cases, Dict, Floats, ltb, sort_by-All, sort_by-perm}
use nix_packages.Capacity.Admission.{DisplacedPod, RoomyNode}
use nix_packages.Capacity.Pack.Candidates.{candidates-All}
use nix_packages.Capacity.Pack.Placements.{
  Fills, MayGo, RequestsAreWords, RoomIsWord, done, step, update_at-RoomIsWord, update_at-take_back,
}
use nix_packages.Capacity.Pack.Search.{
  Searched, candidates, eligible_masks, lowest_index, pack, search_order, total_demand, total_room,
  try, try_each,
}
use nix_packages.Capacity.Place.{larger_request, largest_first, put, take_back, update_at}
use nix_packages.Capacity.Resources.{IsWord, fits, no_resources}
use nix_packages.Kube.{Pod}
use mathlib.Core.List.Perm

module _ ⦃F : Floats⦄ (pods : List Pod) where
  -- What a search for the Pods ds from a room means.
  pub record Answer (ds : List DisplacedPod) (room : List RoomyNode) (s : Searched) : Type 0 where
    pub on_found : s.found ≡ true → Fills pods room ds s.room
    pub on_failed : s.found ≡ false → s.room ≡ room

module _ ⦃F : Floats⦄ (pods : List Pod) (eligible : Dict (List Bool)) (budget : ℕ) where
  -- The search for the Pods after d, from every room of 64-bit patterns.
  abbrev Answers : List DisplacedPod → (ℕ → List RoomyNode → ℕ → Searched) → Type 0
  Answers ds go =
      (j : ℕ) (room : List RoomyNode) (steps : ℕ)
      → RoomIsWord room
      → Answer pods ds room (go j room steps)

  try_each-Answer :
      (go : ℕ → List RoomyNode → ℕ → Searched) (d : DisplacedPod) (ds : List DisplacedPod)
      (js : List ℕ) (room : List RoomyNode) (steps : ℕ)
      → Answers ds go
      → RoomIsWord room
      → IsWord d.requests
      → All (MayGo pods room d) js
      → Answer pods (d ∷ ds) room (try_each pods eligible budget go d js room steps)
  unfolding try_each
  try_each-Answer go d ds [] room steps ih w k may = record {
    on_found = λ h. cc;
    on_failed = λ h. refl;
  }
  try_each-Answer go d ds (j ∷ js) room steps ih w k may =
      let put_room = update_at j (put d) room in
      let a : Answer pods ds put_room (go j put_room (suc steps)) =
        ih j put_room (suc steps) (update_at-RoomIsWord d j room w) in
      elim (Bool-cases (ltb budget (suc steps))) [
        | inl over ↦ rw over (record { on_found = λ h. cc; on_failed = λ h. refl })
        | inr in_budget ↦ rw in_budget (elim (Bool-cases (go j put_room (suc steps)).found) [
          | inl found ↦
              rw found
                (record { on_found = λ h. step j may.0 (a.on_found found); on_failed = λ h. cc })
          | inr failed ↦ rw failed (
              rw
                (ap (update_at j (take_back d)) (a.on_failed failed)
                  ∙ update_at-take_back d j room w k)
                (try_each-Answer go d ds js room (go j put_room (suc steps)).steps ih w k may.1))
        ])
      ]

  pub try-Answer :
      (ds : List DisplacedPod) (previous : Option (DisplacedPod × ℕ)) (room : List RoomyNode)
      (steps : ℕ)
      → RoomIsWord room
      → RequestsAreWords ds
      → Answer pods ds room (try pods eligible budget ds previous room steps)
  unfolding try
  try-Answer [] previous room steps w k = record { on_found = λ h. done; on_failed = λ h. refl }
  try-Answer (d ∷ ds) previous room steps w k =
      try_each-Answer (λ j r n. try pods eligible budget ds (some (d, j)) r n) d ds
        (candidates pods d (lowest_index pods eligible budget previous d) room) room steps
        (λ j r n v. try-Answer ds (some (d, j)) r n v k.1) w k.0
        (All-map (candidates pods d (lowest_index pods eligible budget previous d) room)
          (λ j h. h.0) (candidates-All pods d (lowest_index pods eligible budget previous d) room))

module _ ⦃F : Floats⦄ (pods : List Pod) where
  pub search_order-perm :
      (room : List RoomyNode) (displaced : List DisplacedPod)
      → Perm (search_order pods room displaced) displaced
  unfolding search_order largest_first
  search_order-perm room displaced =
      Perm.trans (sort_by-perm _ (largest_first displaced)) (sort_by-perm larger_request displaced)

  pub search_order-words :
      (room : List RoomyNode) (displaced : List DisplacedPod)
      → RequestsAreWords displaced
      → RequestsAreWords (search_order pods room displaced)
  unfolding search_order largest_first
  search_order-words room displaced k =
      sort_by-All _ (λ d. IsWord d.requests) (largest_first displaced)
        (sort_by-All larger_request (λ d. IsWord d.requests) displaced k)

  -- When `pack` finds a placement, every Pod was put in the order of the search, each on a node
  -- that admitted it and had room for it then, and the room is what those steps leave. When it
  -- finds none, the room is as it was. The room and the requests are 64-bit patterns.
  pub pack_sound :
      (room : List RoomyNode) (displaced : List DisplacedPod) (budget : ℕ)
      → RoomIsWord room
      → RequestsAreWords displaced
      → ((pack pods room displaced budget).found ≡ true
          → Fills pods room
              (search_order pods room displaced)
              (pack pods room displaced budget).room)
        × ((pack pods room displaced budget).found ≡ false
            → (pack pods room displaced budget).room ≡ room)
  unfolding pack
  pack_sound room displaced budget w k =
      let eligible = eligible_masks pods room [] (largest_first displaced) in
      let a =
        try-Answer pods eligible budget (search_order pods room displaced) none room 0 w
          (search_order-words room displaced k) in
      elim (Bool-cases
        (fits (total_demand pods no_resources displaced) (total_room pods no_resources room))) [
          | inl e ↦ rw e (a.on_found, a.on_failed)
          | inr e ↦ rw e (λ h. cc, λ h. refl)
        ]

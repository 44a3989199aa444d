-- ===== src/Capacity/Pack/Complete.antt =====
-- About a search of `pack` that finds nothing, and the placements in the order of the search.
use Prim.Native.Nat.{suc, ℕ, ◌≤◌}
use mathlib.Core.Bool.{Bool, false, true, ◌||◌}
use mathlib.Core.List.{List, [], ◌∷◌}
use mathlib.Core.Logic.{inl, inr}
use mathlib.Core.Option.{Option, none, some}
use mathlib.Core.Path.{ap, subst, ◌∙◌, ◌≡◌}
use native.Mathlib.Omega.{arith}
use nix_packages.Base.{Bool-cases, Dict, Floats, Has, leb, leb→le, ltb, ltb→lt}
use nix_packages.Capacity.Admission.{DisplacedPod, RoomyNode}
use nix_packages.Capacity.Pack.Candidates.{candidates-Has}
use nix_packages.Capacity.Pack.Placements.{
  MayGo, RequestsAreWords, RoomIsWord, update_at-RoomIsWord, update_at-take_back,
}
use nix_packages.Capacity.Pack.Search.{
  Searched, candidates, eligible_masks, lowest_index, pack, search_order, total_demand, total_room,
  try, try_each,
}
use nix_packages.Capacity.Pack.Sound.{Answer, search_order-words, try-Answer}
use nix_packages.Capacity.Place.{largest_first, put, take_back, update_at}
use nix_packages.Capacity.Resources.{IsWord, fits, no_resources}
use nix_packages.Kube.{Pod}

module _ ⦃F : Floats⦄ (pods : List Pod) (eligible : Dict (List Bool)) (budget : ℕ) where
  -- A placement in which a Pod that is interchangeable with the one before goes no lower.
  pub data OrderedFill
      : Option (DisplacedPod × ℕ) → List RoomyNode → List DisplacedPod → Type 0 where
    filled :
        {previous : Option (DisplacedPod × ℕ)} {room : List RoomyNode}
        → OrderedFill previous room []
    put_on :
        {previous : Option (DisplacedPod × ℕ)} {room : List RoomyNode} {d : DisplacedPod}
        {ds : List DisplacedPod} (j : ℕ)
        → MayGo pods room d j
        → lowest_index pods eligible budget previous d ≤ j
        → OrderedFill (some (d, j)) (update_at j (put d) room) ds
        → OrderedFill previous room (d ∷ ds)

  -- The steps of a search never fall, and one that fails within the budget leaves no placement.
  abbrev Finds : Type 0 → ℕ → Searched → Type 0
  Finds P steps s = (steps ≤ s.steps) × (s.found ≡ false → s.steps ≤ budget → ¬ P)

  abbrev NoneAmong : DisplacedPod → List DisplacedPod → List RoomyNode → List ℕ → Type 0
  NoneAmong d ds room js =
      (i : ℕ) → Has i js → ¬ OrderedFill (some (d, i)) (update_at i (put d) room) ds

  -- The search for the Pods after d, both ways.
  abbrev Explores : DisplacedPod → List DisplacedPod → (ℕ → List RoomyNode → ℕ → Searched) → Type 0
  Explores d ds go =
      (j : ℕ) (room : List RoomyNode) (steps : ℕ)
      → RoomIsWord room
      → Answer pods ds room (go j room steps)
        × Finds (OrderedFill (some (d, j)) room ds) steps (go j room steps)

  try_each-steps :
      (go : ℕ → List RoomyNode → ℕ → Searched) (d : DisplacedPod) (js : List ℕ)
      (room : List RoomyNode) (steps : ℕ)
      → ((j : ℕ) (r : List RoomyNode) (n : ℕ) → n ≤ (go j r n).steps)
      → steps ≤ (try_each pods eligible budget go d js room steps).steps
  unfolding try_each
  try_each-steps go d [] room steps h = omega arith
  try_each-steps go d (j ∷ js) room steps h =
      let deeper = go j (update_at j (put d) room) (suc steps) in
      let grown : suc steps ≤ deeper.steps = h j (update_at j (put d) room) (suc steps) in
      let rest = try_each-steps go d js (update_at j (take_back d) deeper.room) deeper.steps h in
      elim (Bool-cases (ltb budget (suc steps))) [
        | inl over ↦ rw over (omega arith)
        | inr in_budget ↦ rw in_budget (elim (Bool-cases deeper.found) [
          | inl found ↦ rw found (omega (arith, grown))
          | inr failed ↦ rw failed (omega (arith, grown, rest))
        ])
      ]

  -- A candidate that fails within the budget leaves the search at the next one, in the same room.
  try_each-next :
      (go : ℕ → List RoomyNode → ℕ → Searched) (d : DisplacedPod) (j : ℕ) (js : List ℕ)
      (room : List RoomyNode) (steps : ℕ)
      → ltb budget (suc steps) ≡ false
      → (go j (update_at j (put d) room) (suc steps)).found ≡ false
      → (go j (update_at j (put d) room) (suc steps)).room ≡ update_at j (put d) room
      → RoomIsWord room
      → IsWord d.requests
      → try_each pods eligible budget go d (j ∷ js) room steps
        ≡ try_each pods eligible budget go d js room
            (go j (update_at j (put d) room) (suc steps)).steps
  unfolding try_each
  try_each-next go d j js room steps in_budget failed same w k =
      rw (in_budget, failed, ap (update_at j (take_back d)) same ∙ update_at-take_back d j room w k)

  -- What ends the loop at its first candidate: the budget, or a placement.
  try_each-stops :
      (go : ℕ → List RoomyNode → ℕ → Searched) (d : DisplacedPod) (j : ℕ) (js : List ℕ)
      (room : List RoomyNode) (steps : ℕ)
      → (try_each pods eligible budget go d (j ∷ js) room steps).found ≡ false
      → (try_each pods eligible budget go d (j ∷ js) room steps).steps ≤ budget
      → (ltb budget (suc steps) ≡ false)
        × ((go j (update_at j (put d) room) (suc steps)).found ≡ false)
  unfolding try_each
  try_each-stops go d j js room steps f b = elim (Bool-cases (ltb budget (suc steps))) [
    | inl over ↦ absurd (omega (arith, rw over at b, ltb→lt budget (suc steps) over))
    | inr in_budget ↦ elim (Bool-cases (go j (update_at j (put d) room) (suc steps)).found) [
      | inl found ↦ cc (rw (in_budget, found) at f)
      | inr failed ↦ (in_budget, failed)
    ]
  ]

  try_each_complete :
      (go : ℕ → List RoomyNode → ℕ → Searched) (d : DisplacedPod) (ds : List DisplacedPod)
      (js : List ℕ) (room : List RoomyNode) (steps : ℕ)
      → ((j : ℕ) (r : List RoomyNode) (n : ℕ) → n ≤ (go j r n).steps)
      → Explores d ds go
      → RoomIsWord room
      → IsWord d.requests
      → (try_each pods eligible budget go d js room steps).found ≡ false
      → (try_each pods eligible budget go d js room steps).steps ≤ budget
      → NoneAmong d ds room js
  try_each_complete go d ds [] room steps mono ex w k f b i m p = absurd m
  try_each_complete go d ds (j ∷ js) room steps mono ex w k f b i m p =
      let put_room = update_at j (put d) room in
      let deeper = go j put_room (suc steps) in
      let stop = try_each-stops go d j js room steps f b in
      let h = ex j put_room (suc steps) (update_at-RoomIsWord d j room w) in
      let q = try_each-next go d j js room steps stop.0 stop.1 (h.0.on_failed stop.1) w k in
      let b' : (try_each pods eligible budget go d js room deeper.steps).steps ≤ budget =
        subst (λ (s : Searched). s.steps ≤ budget) q b in
      elim m [
        | inl e ↦
            h.1.1 stop.1 (omega (arith, b', try_each-steps go d js room deeper.steps mono))
              (subst (λ n. OrderedFill (some (d, n)) (update_at n (put d) room) ds) e p)
        | inr later ↦
            try_each_complete go d ds js room deeper.steps mono ex w k
              (subst (λ (s : Searched). s.found ≡ false) q f) b' i later p
      ]

  try-steps :
      (ds : List DisplacedPod) (previous : Option (DisplacedPod × ℕ)) (room : List RoomyNode)
      (steps : ℕ)
      → steps ≤ (try pods eligible budget ds previous room steps).steps
  unfolding try
  try-steps [] previous room steps = omega arith
  try-steps (d ∷ ds) previous room steps =
      try_each-steps (λ j r n. try pods eligible budget ds (some (d, j)) r n) d _ room steps
        (λ j r n. try-steps ds (some (d, j)) r n)

  pub try_complete :
      (ds : List DisplacedPod) (previous : Option (DisplacedPod × ℕ)) (room : List RoomyNode)
      (steps : ℕ)
      → RoomIsWord room
      → RequestsAreWords ds
      → (try pods eligible budget ds previous room steps).found ≡ false
      → (try pods eligible budget ds previous room steps).steps ≤ budget
      → ¬ OrderedFill previous room ds
  unfolding try
  try_complete [] previous room steps w k f b p = cc
  try_complete (d ∷ ds) previous room steps w k f b (put_on j may low p) =
      try_each_complete (λ j r n. try pods eligible budget ds (some (d, j)) r n) d ds
        (candidates pods d (lowest_index pods eligible budget previous d) room) room steps
        (λ j r n. try-steps ds (some (d, j)) r n)
        (λ j r n v. (
          try-Answer pods eligible budget ds (some (d, j)) r n v k.1,
          (try-steps ds (some (d, j)) r n, λ f' b'. try_complete ds (some (d, j)) r n v k.1 f' b'),
        ))
        w k.0 f b j
        (candidates-Has pods d (lowest_index pods eligible budget previous d) room j may low) p

module _ ⦃F : Floats⦄ (pods : List Pod) where
  -- The masks that `pack` compares Pods by.
  abbrev pub pack_masks : List RoomyNode → List DisplacedPod → Dict (List Bool)
  pack_masks room displaced = eligible_masks pods room [] (largest_first displaced)

  -- When `pack` settles that it found nothing although the total demand fits the total room, no
  -- placement in the order of the search exists that keeps interchangeable neighbours in order.
  -- The room and the requests are 64-bit patterns.
  pub pack_complete :
      (room : List RoomyNode) (displaced : List DisplacedPod) (budget : ℕ)
      → RoomIsWord room
      → RequestsAreWords displaced
      → fits (total_demand pods no_resources displaced) (total_room pods no_resources room) ≡ true
      → (pack pods room displaced budget).found ≡ false
      → (pack pods room displaced budget).settled ≡ true
      → ¬ OrderedFill pods
          (pack_masks room displaced)
          budget
          none
          room
          (search_order pods room displaced)
  unfolding pack
  pack_complete room displaced budget w k fit f s =
      let eligible = pack_masks room displaced in
      let order = search_order pods room displaced in
      let t = try pods eligible budget order none room 0 in
      let f' : t.found ≡ false = rw fit at f in
      let s' : (t.found || leb t.steps budget) ≡ true = rw fit at s in
      try_complete pods eligible budget order none room 0 w
        (search_order-words pods room displaced k) f' (leb→le t.steps budget (rw f' at s'))

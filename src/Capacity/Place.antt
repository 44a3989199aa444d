-- ===== src/Capacity/Place.antt =====
-- capacity.go: placing Pods as the scheduler spreads them, largest first, each on the node with
-- the largest free share.
pub mod Best
pub mod Order
pub mod Spreads
use Prim.Native.Nat.{suc, zero, ℕ}
use Prim.Native.String.{String}
use mathlib.Core.Bool.{Bool, false, not, true}
use mathlib.Core.List.{List, [], ◌++◌, ◌∷◌}
use mathlib.Core.Option.{Option, none, some}
use nix_packages.Base.{Floats, drop_last, eqb, if◌then◌else◌, insert_by, lt64, sort_by, ◌<>◌}
use nix_packages.Capacity.Admission.{DisplacedPod, RoomyNode, admits}
use nix_packages.Capacity.Resources.{fits, minus, plus, resources_text}
use nix_packages.Kube.{Pod}

unfoldable pub larger_request : DisplacedPod → DisplacedPod → Bool
larger_request a b =
    if not (eqb a.requests.cpu b.requests.cpu)
    then lt64 b.requests.cpu a.requests.cpu
    else lt64 b.requests.memory a.requests.memory

unfoldable pub largest_first : List DisplacedPod → List DisplacedPod
unfolding sort_by insert_by larger_request
largest_first displaced = sort_by larger_request displaced

unfoldable pub pod_key : DisplacedPod → String
pod_key d = (d.pod.metadata.namespace <> "/") <> d.pod.metadata.name

-- The line of a Pod that is not placed.
unfoldable pub miss_line : DisplacedPod → String → String
miss_line d reason = (pod_key d <> "\t") <> ((resources_text d.requests <> "\t") <> reason)

abbrev pub barred_reason : String
barred_reason = "no remaining node may run it"

abbrev pub no_room_reason : String
no_room_reason = "no remaining node has room"

-- A node takes a Pod, and gives the last one back.
unfoldable pub put : DisplacedPod → RoomyNode → RoomyNode
put d r = record r { free = minus r.free d.requests; placed = r.placed ++ d.pod ∷ [] }

unfoldable pub take_back : DisplacedPod → RoomyNode → RoomyNode
take_back d r = record r { free = plus r.free d.requests; placed = drop_last r.placed }

-- A change of the node at an index.
abbrev pub update_at : ℕ → (RoomyNode → RoomyNode) → List RoomyNode → List RoomyNode
update_at i f [] = []
update_at zero f (r ∷ rs) = f r ∷ rs
update_at (suc i) f (r ∷ rs) = r ∷ update_at i f rs

-- The room after the Pods are placed, and the lines of those that are not.
pub record Placement : Type 0 where
  pub room : List RoomyNode
  pub no_room : List String
  pub barred : List String

module _ ⦃F : Floats⦄ where
  open F use {Float, literal, flt, fadd, fdiv, of_int64}

  add_share : ℕ → ℕ → Float → Float
  add_share free allocatable share =
      if lt64 0 allocatable then fadd share (fdiv (of_int64 free) (of_int64 allocatable)) else share

  unfoldable pub free_share : RoomyNode → Float
  unfolding add_share
  free_share r =
      add_share r.free.memory r.allocatable.memory
        (add_share r.free.cpu r.allocatable.cpu (literal "0.0"))

  abbrev pub better : RoomyNode → Option (ℕ × RoomyNode) → Bool
  better r none = true
  better r (some p) = flt (free_share p.1) (free_share r)

  -- One round of the inner loop: the pick so far, with its index, and whether any node admitted
  -- the Pod.
  unfoldable pub consider :
      DisplacedPod
      → List Pod
      → ℕ
      → RoomyNode
      → Option (ℕ × RoomyNode) × Bool
      → Option (ℕ × RoomyNode) × Bool
  consider d pods i r (pick, admitted) =
      if not (admits r d pods)
      then (pick, admitted)
      else if not (fits d.requests r.free)
      then (pick, true)
      else if better r pick
      then (some (i, r), true)
      else (pick, true)

  -- The inner loop over the nodes from index i on.
  unfoldable pub best_node :
      DisplacedPod
      → List Pod
      → List RoomyNode
      → ℕ
      → Option (ℕ × RoomyNode) × Bool
      → Option (ℕ × RoomyNode) × Bool
  best_node d pods [] i best = best
  best_node d pods (r ∷ rs) i best = best_node d pods rs (suc i) (consider d pods i r best)

  -- The `switch` on what the inner loop found.
  unfoldable pub settle : DisplacedPod → Option (ℕ × RoomyNode) × Bool → Placement → Placement
  settle d (none, true) s = record s { no_room = s.no_room ++ miss_line d no_room_reason ∷ [] }
  settle d (none, false) s = record s { barred = s.barred ++ miss_line d barred_reason ∷ [] }
  settle d (some p, false) s = record s { barred = s.barred ++ miss_line d barred_reason ∷ [] }
  settle d (some p, true) s = record s { room = update_at p.0 (put d) s.room }

  unfoldable pub place_in_order : List Pod → List DisplacedPod → Placement → Placement
  place_in_order pods [] s = s
  place_in_order pods (d ∷ ds) s =
      place_in_order pods ds (settle d (best_node d pods s.room 0 (none, false)) s)

  unfoldable pub place : List RoomyNode → List DisplacedPod → List Pod → Placement
  unfolding place_in_order
  place room displaced pods =
      place_in_order pods (largest_first displaced)
        (record { room = room; no_room = []; barred = [] })

-- ===== src/Capacity/Pack/Needed.antt =====
-- capacity.go: placeNeeded, which spreads the Pods and searches when that leaves one out.
use Prim.Native.Nat.{ℕ}
use Prim.Native.String.{String}
use mathlib.Core.Bool.{Bool, not, ◌&&◌}
use mathlib.Core.List.{List, [], map, ◌++◌, ◌∷◌}
use nix_packages.Base.{Floats, any, contains, if◌then◌else◌, is_empty, keep}
use nix_packages.Capacity.Admission.{DisplacedPod, RoomyNode, admits}
use nix_packages.Capacity.Pack.Search.{Packed, pack}
use nix_packages.Capacity.Place.{place}
use nix_packages.Capacity.Resources.{Resources}
use nix_packages.Kube.{Pod}

-- The Pods that do not fit, those that the search left unsettled, and the room as it is left.
pub record Needed : Type 0 where
  pub room : List RoomyNode
  pub unplaced : List String
  pub unsure : List String

-- `reset`: each node's free room as it was, and no Pod placed.
unfoldable pub reset : List Resources → List RoomyNode → List RoomyNode
reset [] rs = []
reset (f ∷ fs) [] = []
reset (f ∷ fs) (r ∷ rs) = record r { free = f; placed = [] } ∷ reset fs rs

abbrev pub frees : List RoomyNode → List Resources
frees room = map (λ r. r.free) room

module _ ⦃F : Floats⦄ (pods : List Pod) where
  -- Some node may run the Pod.
  unfoldable pub placeable : List RoomyNode → DisplacedPod → Bool
  placeable room d = any (λ r. admits r d pods) room

  -- The lines of the spreading that are not among those of the excluded Pods.
  unfoldable pub only_spread : List String → List String → List String
  only_spread excluded lines = keep (λ line. not (contains excluded line)) lines

  -- After a search that found nothing, the Pods are spread once more.
  unfoldable pub respread :
      List Resources → List RoomyNode → List DisplacedPod → List String → Bool → Needed
  respread saved room needed barred_lines settled =
      let again = place (reset saved room) needed pods in
      if not settled
      then record {
        room = again.room;
        unplaced = barred_lines;
        unsure = again.no_room ++ only_spread barred_lines again.barred;
      }
      else record { room = again.room; unplaced = again.no_room ++ again.barred; unsure = [] }

  -- What follows the search.
  unfoldable pub after_pack : List Resources → List DisplacedPod → List String → Packed → Needed
  after_pack saved needed barred_lines packed =
      if packed.found
      then record { room = packed.room; unplaced = barred_lines; unsure = [] }
      else respread saved packed.room needed barred_lines packed.settled

  -- The search in the fresh room, for the Pods that some node may run; the others' lines come from
  -- a spreading over no node.
  unfoldable pub searched : List Resources → List RoomyNode → List DisplacedPod → ℕ → Needed
  unfolding after_pack
  searched saved fresh needed budget =
      after_pack saved needed (place [] (keep (λ d. not (placeable fresh d)) needed) pods).barred
        (pack pods fresh (keep (placeable fresh) needed) budget)

  unfoldable pub place_needed : List RoomyNode → List DisplacedPod → ℕ → Needed
  unfolding searched
  place_needed room needed budget =
      let first = place room needed pods in
      if is_empty first.no_room && is_empty first.barred
      then record { room = first.room; unplaced = []; unsure = [] }
      else searched (frees room) (reset (frees room) first.room) needed budget

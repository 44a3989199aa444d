-- ===== src/Capacity/Pack/Placements.antt =====
-- What a placement is, whatever finds it: the Pods go in order, each on a node that admits it and
-- has room for it at that moment.
use Prim.Native.Nat.{suc, zero, ℕ}
use mathlib.Core.Bool.{true}
use mathlib.Core.List.{List, [], ◌∷◌}
use mathlib.Core.Option.{some}
use mathlib.Core.Path.{ap, refl, ◌≡◌}
use native.Mathlib.Omega.{arith}
use nix_packages.Base.{All, Floats, drop_last-append, get_elem?}
use nix_packages.Capacity.Admission.{DisplacedPod, RoomyNode, admits}
use nix_packages.Capacity.Place.{put, take_back, update_at}
use nix_packages.Capacity.Resources.{IsWord, fits, minus-IsWord, plus-minus}
use nix_packages.Kube.{Pod}

module _ ⦃F : Floats⦄ (pods : List Pod) where
  -- The Pod may go on the node at index j.
  pub record MayGo (room : List RoomyNode) (d : DisplacedPod) (j : ℕ) : Type 0 where
    pub node : RoomyNode
    pub there : get_elem? room j ≡ some node
    pub has_room : fits d.requests node.free ≡ true
    pub admitted : admits node d pods ≡ true

  pub data Fills : List RoomyNode → List DisplacedPod → List RoomyNode → Type 0 where
    done : {room : List RoomyNode} → Fills room [] room
    step :
        {room room' : List RoomyNode} {d : DisplacedPod} {ds : List DisplacedPod} (j : ℕ)
        → MayGo room d j
        → Fills (update_at j (put d) room) ds room'
        → Fills room (d ∷ ds) room'

-- Every node's free room, and every request, is a 64-bit pattern.
abbrev pub RoomIsWord : List RoomyNode → Type 0
RoomIsWord room = All (λ r. IsWord r.free) room

abbrev pub RequestsAreWords : List DisplacedPod → Type 0
RequestsAreWords ds = All (λ d. IsWord d.requests) ds

-- A Pod put on a node and taken back leaves the node as it was.
pub take_back-put :
    (d : DisplacedPod) (r : RoomyNode)
    → IsWord r.free
    → IsWord d.requests
    → take_back d (put d r) ≡ r
unfolding take_back put
take_back-put d r h k =
    ground (arith, plus-minus r.free d.requests h k, drop_last-append r.placed d.pod)

pub update_at-take_back :
    (d : DisplacedPod) (j : ℕ) (room : List RoomyNode)
    → RoomIsWord room
    → IsWord d.requests
    → update_at j (take_back d) (update_at j (put d) room) ≡ room
update_at-take_back d j [] h k = refl
update_at-take_back d zero (r ∷ rs) h k = ap (λ x. x ∷ rs) (take_back-put d r h.0 k)
update_at-take_back d (suc j) (r ∷ rs) h k = ap (◌∷◌ r) (update_at-take_back d j rs h.1 k)

pub update_at-RoomIsWord :
    (d : DisplacedPod) (j : ℕ) (room : List RoomyNode)
    → RoomIsWord room
    → RoomIsWord (update_at j (put d) room)
unfolding put
update_at-RoomIsWord d j [] h = tt
update_at-RoomIsWord d zero (r ∷ rs) h = (minus-IsWord r.free d.requests, h.1)
update_at-RoomIsWord d (suc j) (r ∷ rs) h = (h.0, update_at-RoomIsWord d j rs h.1)

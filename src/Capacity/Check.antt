-- ===== src/Capacity/Check.antt =====
-- capacity.go: checkDisplacedPodsFit, which joins the parts: the room that remains, the Pods to
-- place, where they go, and the verdict.
pub mod Room
pub mod Requests
pub mod Residents
pub mod Sound
use Prim.Native.String.{String}
use mathlib.Core.Bool.{not, ◌||◌}
use mathlib.Core.List.{List, [], ◌∷◌}
use text.Mathlib.Text.{◌==◌}
use nix_packages.Base.{Dict, Floats, Result, err, if◌then◌else◌, is_empty, ok, wrap_error, ◌>>=◌}
use nix_packages.Capacity.Admission.{RoomyNode}
use nix_packages.Capacity.Displaced.Select.{Selection, displaced_pods_to_place}
use nix_packages.Capacity.Pack.Needed.{frees, place_needed}
use nix_packages.Capacity.Pack.Search.{pack_budget}
use nix_packages.Capacity.Place.{place}
use nix_packages.Capacity.Quantity.{CapacityError, allocatable_resources, at_pod, cannot_hold}
use nix_packages.Capacity.Replacement.Defaults.{LimitRange}
use nix_packages.Capacity.Replacement.Templates.{Cluster}
use nix_packages.Capacity.Requests.{resident_requests}
use nix_packages.Capacity.Resources.{Resources, minus, read_resources}
use nix_packages.Kube.{Node, Pod, active, node_is_ready}

-- What the check prints: the room before and after, and the Pods that found no place.
pub record Fit : Type 0 where
  pub before : List Resources
  pub after : List RoomyNode
  pub unplaced : List String
  pub unsure : List String
  pub unplaced_others : List String

-- The check fails where a needed Pod does not fit. What it could not settle, and the others, are
-- only warned about.
unfoldable pub fit_verdict : String → Fit → Result CapacityError Fit
fit_verdict target fit = if is_empty fit.unplaced then ok fit else err (cannot_hold target)

module _ ⦃F : Floats⦄ where
  -- A node with all that it allocates free.
  unfoldable pub open_node : Node → Result CapacityError RoomyNode
  open_node n =
      wrap_error (allocatable_resources n.metadata.name) (read_resources n.status.allocatable)
      >>= λ r. ok (record { node = n; allocatable = r; free = r; placed = [] })

  -- The nodes that remain.
  unfoldable pub remaining_nodes : String → List Node → Result CapacityError (List RoomyNode)
  remaining_nodes target [] = ok []
  remaining_nodes target (n ∷ ns) =
      if n.metadata.name == target || n.spec.unschedulable || not (node_is_ready n)
      then remaining_nodes target ns
      else (open_node n >>= λ r. remaining_nodes target ns >>= λ rest. ok (r ∷ rest))

  -- What the Pod holds is taken from the node that it runs on.
  unfoldable pub charge_node : Pod → RoomyNode → Result CapacityError RoomyNode
  charge_node p r =
      if p.spec.node_name == r.node.metadata.name
      then (wrap_error (at_pod p.metadata.namespace p.metadata.name) (resident_requests p)
          >>= λ requests. ok (record r { free = minus r.free requests }))
      else ok r

  unfoldable pub charge : Pod → List RoomyNode → Result CapacityError (List RoomyNode)
  charge p [] = ok []
  charge p (r ∷ rs) = charge_node p r >>= λ charged. charge p rs >>= λ rest. ok (charged ∷ rest)

  unfoldable pub charge_all : List Pod → List RoomyNode → Result CapacityError (List RoomyNode)
  charge_all [] room = ok room
  charge_all (p ∷ ps) room =
      if not (active p) then charge_all ps room else (charge p room >>= charge_all ps)

  -- The needed Pods are placed first, then the others in the room that is left.
  unfoldable pub place_both : List Pod → List RoomyNode → Selection → Fit
  place_both pods room s =
      let first = place_needed pods room s.needed pack_budget in
      let then_others = place first.room s.others pods in
      record {
        before = frees room;
        after = then_others.room;
        unplaced = first.unplaced;
        unsure = first.unsure;
        unplaced_others = then_others.no_room;
      }

  module _ (to_lower : String → String) (k : Cluster) (target : String) where
    unfoldable pub fit_of : Dict (List LimitRange) → Result CapacityError Fit
    fit_of cache = do
      nodes ← k.get_nodes
      pods ← k.get_all_pods
      open_room ← remaining_nodes target nodes
      room ← charge_all pods open_room
      selection ← displaced_pods_to_place to_lower k target nodes pods cache
      ok (place_both pods room selection)

    unfoldable pub check_displaced_pods_fit : Dict (List LimitRange) → Result CapacityError Fit
    unfolding fit_of
    check_displaced_pods_fit cache = fit_of cache >>= fit_verdict target

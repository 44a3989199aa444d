-- ===== src/Capacity/Check/Sound.antt =====
-- About a run of checkDisplacedPodsFit that passes.
use Prim.Native.Nat.{◌<◌}
use Prim.Native.String.{String}
use mathlib.Core.List.{List, []}
use mathlib.Core.Logic.{inl, inr}
use mathlib.Core.Path.{ap, sym, ◌∙◌, ◌≡◌}
use nix_packages.Base.{
  Bool-cases, Dict, Floats, Pairwise, Selects, eq_of_ok, is_empty, is_empty-nil, ok, ok_of_bind,
  word,
}
use nix_packages.Capacity.Admission.{RoomyNode}
use nix_packages.Capacity.Budgets.Slots.{Stays}
use nix_packages.Capacity.Check.{
  Fit, charge_all, check_displaced_pods_fit, fit_of, fit_verdict, place_both, remaining_nodes,
}
use nix_packages.Capacity.Check.Requests.{displaced_pods_to_place-words}
use nix_packages.Capacity.Check.Residents.{IsRoomOf, room-IsRoomOf}
use nix_packages.Capacity.Check.Room.{charge_all-RoomIsWord, remaining_nodes-RoomIsWord}
use nix_packages.Capacity.Displaced.Select.{Selection, displaced_pods_to_place}
use nix_packages.Capacity.Pack.Needed.{place_needed}
use nix_packages.Capacity.Pack.NeededLaws.{AllPlaced, place_needed_sound}
use nix_packages.Capacity.Pack.Search.{pack_budget}
use nix_packages.Capacity.Place.{place}
use nix_packages.Capacity.Replacement.Defaults.{LimitRange}
use nix_packages.Capacity.Replacement.Templates.{Cluster}
use nix_packages.Kube.{Node, Pod}

fit_verdict-ok :
    (target : String) (fit : Fit) {f : Fit}
    → fit_verdict target fit ≡ ok f
    → (fit.unplaced ≡ []) × (fit ≡ f)
unfolding fit_verdict
fit_verdict-ok target fit h = elim (Bool-cases (is_empty fit.unplaced)) [
  | inl e ↦ (is_empty-nil fit.unplaced e, eq_of_ok (rw e at h))
  | inr e ↦ let k = rw e at h in cc
]

module _ ⦃F : Floats⦄ (to_lower : String → String) (k : Cluster) (target : String) where
  -- A passing check: the nodes and Pods read, the nodes that stay and the room that their residents
  -- leave, the Pods chosen, and the room in which every needed Pod has a place.
  pub record Holds (cache : Dict (List LimitRange)) (fit : Fit) : Type 0 where
    pub nodes : List Node
    pub pods : List Pod
    pub stays : List Node
    pub room : List RoomyNode
    pub selection : Selection
    pub filled_room : List RoomyNode
    pub nodes_read : k.get_nodes ≡ ok nodes
    pub pods_read : k.get_all_pods ≡ ok pods
    pub staying : Selects (Stays target) nodes stays
    pub free_room : Pairwise (IsRoomOf pods) stays room
    pub chosen : displaced_pods_to_place to_lower k target nodes pods cache ≡ ok selection
    pub all_placed : AllPlaced pods room selection.needed filled_room
    pub others_after : fit.after ≡ (place filled_room selection.others pods).room

  -- When the check passes and leaves no needed Pod unsettled, every Pod that the gate needs
  -- elsewhere has been put, in some order, on a node that admitted it and had room for it then, and
  -- the others are placed only after them. The room that this starts from is that of the nodes that
  -- are not the target, are schedulable and Ready, in their order: of each, what it allocates less
  -- what each active Pod on it holds. The conversion to int64 gives a 64-bit pattern.
  pub check_displaced_pods_fit_sound :
      (conversion : (x : F.Float) → F.ceil_int64 x < word) (cache : Dict (List LimitRange))
      (fit : Fit)
      → check_displaced_pods_fit to_lower k target cache ≡ ok fit
      → fit.unsure ≡ []
      → Holds cache fit
  unfolding check_displaced_pods_fit fit_of place_both
  check_displaced_pods_fit_sound conversion cache fit h sure =
      let (found, q, v) = ok_of_bind (fit_of to_lower k target cache) _ h in
      let (nodes, n, h0) = ok_of_bind k.get_nodes _ q in
      let (pods, p, h1) = ok_of_bind k.get_all_pods _ h0 in
      let (open_room, o, h2) = ok_of_bind (remaining_nodes target nodes) _ h1 in
      let (room, c, h3) = ok_of_bind (charge_all pods open_room) _ h2 in
      let (selection, s, h4) =
        ok_of_bind (displaced_pods_to_place to_lower k target nodes pods cache) _ h3 in
      let remains = room-IsRoomOf target nodes pods open_room room o c in
      let verdict = fit_verdict-ok target found v in
      let same : place_both pods room selection ≡ fit = eq_of_ok h4 ∙ verdict.1 in
      let opened = remaining_nodes-RoomIsWord conversion target nodes o in
      let fresh = charge_all-RoomIsWord pods open_room c opened.0 opened.1 in
      let first = place_needed pods room selection.needed pack_budget in
      record {
        nodes = nodes;
        pods = pods;
        stays = remains.0;
        room = room;
        selection = selection;
        filled_room = first.room;
        nodes_read = n;
        pods_read = p;
        staying = remains.1;
        free_room = remains.2;
        chosen = s;
        all_placed =
            place_needed_sound pods room selection.needed pack_budget fresh.0
              (displaced_pods_to_place-words to_lower k target nodes pods cache selection s) fresh.1
              (ap (λ (x : Fit). x.unplaced) (eq_of_ok h4) ∙ verdict.0)
              (ap (λ (x : Fit). x.unsure) same ∙ sure);
        others_after = ap (λ (x : Fit). x.after) (sym same);
      }

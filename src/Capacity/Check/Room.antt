-- ===== src/Capacity/Check/Room.antt =====
-- About the room that checkDisplacedPodsFit starts from.
use Prim.Native.Nat.{◌<◌}
use Prim.Native.String.{String}
use mathlib.Core.Bool.{not, ◌||◌}
use mathlib.Core.List.{List, [], ◌∷◌}
use mathlib.Core.Logic.{inl, inr}
use mathlib.Core.Path.{refl, subst, ◌≡◌}
use text.Mathlib.Text.{◌==◌}
use nix_packages.Base.{Bool-cases, Floats, eq_of_ok, ok, ok_of_bind, ok_of_wrap, word, wrap_error}
use nix_packages.Capacity.Admission.{RoomyNode}
use nix_packages.Capacity.Check.{charge, charge_all, charge_node, open_node, remaining_nodes}
use nix_packages.Capacity.Pack.Placed.{Untouched}
use nix_packages.Capacity.Pack.Placements.{RoomIsWord}
use nix_packages.Capacity.Quantity.{allocatable_resources, at_pod}
use nix_packages.Capacity.Requests.{resident_requests}
use nix_packages.Capacity.Resources.{IsWord, minus-IsWord, read_resources}
use nix_packages.Capacity.Resources.Range.{read_resources-IsWord}
use nix_packages.Kube.{Node, Pod, active, node_is_ready}

module _ ⦃F : Floats⦄ (conversion : (x : F.Float) → F.ceil_int64 x < word) where
  open_node-IsWord :
      (n : Node) {r : RoomyNode} → open_node n ≡ ok r → IsWord r.free × (r.placed ≡ [])
  unfolding open_node
  open_node-IsWord n h =
      let (free, q, k) =
        ok_of_bind
          (wrap_error (allocatable_resources n.metadata.name) (read_resources n.status.allocatable))
          _ h in
      let w = read_resources-IsWord conversion n.status.allocatable (
        ok_of_wrap (allocatable_resources n.metadata.name) (read_resources n.status.allocatable)
          q) in
      subst (λ x. IsWord x.free × (x.placed ≡ [])) (eq_of_ok k) (w, refl)

  pub remaining_nodes-RoomIsWord :
      (target : String) (ns : List Node) {room : List RoomyNode}
      → remaining_nodes target ns ≡ ok room
      → RoomIsWord room × Untouched room
  unfolding remaining_nodes
  remaining_nodes-RoomIsWord target [] h =
      subst (λ x. RoomIsWord x × Untouched x) (eq_of_ok h) (tt, tt)
  remaining_nodes-RoomIsWord target (n ∷ ns) h =
      elim (Bool-cases
        (n.metadata.name == target || n.spec.unschedulable || not (node_is_ready n))) [
          | inl e ↦ remaining_nodes-RoomIsWord target ns (rw (e, remaining_nodes) at h)
          | inr e ↦
              let (r, q, k) = ok_of_bind (open_node n) _ (rw (e, remaining_nodes) at h) in
              let (rest, q', k') = ok_of_bind (remaining_nodes target ns) _ k in
              let w = open_node-IsWord n q in
              let v = remaining_nodes-RoomIsWord target ns q' in
              subst (λ x. RoomIsWord x × Untouched x) (eq_of_ok k') ((w.0, v.0), (w.1, v.1))
        ]

module _ ⦃F : Floats⦄ where
  charge_node-IsWord :
      (p : Pod) (r : RoomyNode) {r' : RoomyNode}
      → charge_node p r ≡ ok r'
      → IsWord r.free
      → r.placed ≡ []
      → IsWord r'.free × (r'.placed ≡ [])
  unfolding charge_node
  charge_node-IsWord p r h w u = elim (Bool-cases (p.spec.node_name == r.node.metadata.name)) [
    | inl e ↦
        let (requests, q, k) =
          ok_of_bind
            (wrap_error (at_pod p.metadata.namespace p.metadata.name) (resident_requests p)) _
            (rw (e, charge_node) at h) in
        subst (λ x. IsWord x.free × (x.placed ≡ [])) (eq_of_ok k) (minus-IsWord r.free requests, u)
    | inr e ↦
        subst (λ x. IsWord x.free × (x.placed ≡ [])) (eq_of_ok (rw (e, charge_node) at h)) (w, u)
  ]

  charge-RoomIsWord :
      (p : Pod) (room : List RoomyNode) {room' : List RoomyNode}
      → charge p room ≡ ok room'
      → RoomIsWord room
      → Untouched room
      → RoomIsWord room' × Untouched room'
  unfolding charge
  charge-RoomIsWord p [] h w u = subst (λ x. RoomIsWord x × Untouched x) (eq_of_ok h) (tt, tt)
  charge-RoomIsWord p (r ∷ rs) h w u =
      let (charged, q, k) = ok_of_bind (charge_node p r) _ h in
      let (rest, q', k') = ok_of_bind (charge p rs) _ k in
      let a = charge_node-IsWord p r q w.0 u.0 in
      let b = charge-RoomIsWord p rs q' w.1 u.1 in
      subst (λ x. RoomIsWord x × Untouched x) (eq_of_ok k') ((a.0, b.0), (a.1, b.1))

  pub charge_all-RoomIsWord :
      (ps : List Pod) (room : List RoomyNode) {room' : List RoomyNode}
      → charge_all ps room ≡ ok room'
      → RoomIsWord room
      → Untouched room
      → RoomIsWord room' × Untouched room'
  unfolding charge_all
  charge_all-RoomIsWord [] room h w u = subst (λ x. RoomIsWord x × Untouched x) (eq_of_ok h) (w, u)
  charge_all-RoomIsWord (p ∷ ps) room h w u = elim (Bool-cases (not (active p))) [
    | inl e ↦ charge_all-RoomIsWord ps room (rw (e, charge_all) at h) w u
    | inr e ↦
        let (charged, q, k) = ok_of_bind (charge p room) _ (rw (e, charge_all) at h) in
        let c = charge-RoomIsWord p room q w u in charge_all-RoomIsWord ps charged k c.0 c.1
  ]

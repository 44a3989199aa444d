-- ===== src/Capacity/Check/Residents.antt =====
-- About the room that the residents leave on the nodes that remain.
-- An active Pod on the node.
use Prim.Native.String.{String}
use mathlib.Core.Bool.{false, not, true, ◌||◌}
use mathlib.Core.List.{List, [], ◌∷◌}
use mathlib.Core.Logic.{inl, inr, ◌⊎◌}
use mathlib.Core.Path.{ap, refl, subst, sym, ◌∙◌, ◌≡◌}
use text.Mathlib.Text.{◌==◌}
use nix_packages.Base.{
  Bool-cases, Floats, Pairwise, Pairwise-compose, Pairwise-map, Pairwise-self, Selects, eq_of_ok,
  ok, ok_of_bind, ok_of_wrap, selects_later, selects_none, selects_this, wrap_error,
}
use nix_packages.Capacity.Admission.{RoomyNode}
use nix_packages.Capacity.Budgets.Slots.{Stays, Stays-iff}
use nix_packages.Capacity.Check.{charge, charge_all, charge_node, open_node, remaining_nodes}
use nix_packages.Capacity.Quantity.{allocatable_resources, at_pod}
use nix_packages.Capacity.Requests.{resident_requests}
use nix_packages.Capacity.Resources.{Resources, minus, read_resources}
use nix_packages.Kube.{Node, Pod, active, node_is_ready}

abbrev pub Resident : Node → Pod → Type 0
Resident n p = (active p ≡ true) × ((p.spec.node_name == n.metadata.name) ≡ true)

module _ ⦃F : Floats⦄ where
  -- What is left when each Pod in turn takes what it holds.
  abbrev pub Leaves : List Pod → Resources → Resources → Type 0
  Leaves [] free left = left ≡ free
  Leaves (p ∷ ps) free left =
      (held : Resources) × (resident_requests p ≡ ok held) × Leaves ps (minus free held) left

  -- The node with what it allocates, none of the displaced Pods, and free what its residents leave.
  abbrev pub IsRoomOf : List Pod → Node → RoomyNode → Type 0
  IsRoomOf pods n r =
      (r.node ≡ n)
      × (read_resources n.status.allocatable ≡ ok r.allocatable)
      × (r.placed ≡ [])
      × (residents : List Pod) × Selects (Resident n) pods residents
      × Leaves residents r.allocatable r.free

  abbrev Opened : Node → RoomyNode → Type 0
  Opened n r =
      (r.node ≡ n)
      × (read_resources n.status.allocatable ≡ ok r.allocatable)
      × (r.placed ≡ [])
      × (r.free ≡ r.allocatable)

  abbrev Same : RoomyNode → RoomyNode → Type 0
  Same r r' = (r'.node ≡ r.node) × (r'.allocatable ≡ r.allocatable) × (r'.placed ≡ r.placed)

  abbrev Charged : List Pod → RoomyNode → RoomyNode → Type 0
  Charged pods r r' =
      Same r r'
      × (residents : List Pod) × Selects (Resident r.node) pods residents
      × Leaves residents r.free r'.free

  open_node-Opened : (n : Node) {r : RoomyNode} → open_node n ≡ ok r → Opened n r
  unfolding open_node
  open_node-Opened n h =
      let (free, q, k) =
        ok_of_bind
          (wrap_error (allocatable_resources n.metadata.name) (read_resources n.status.allocatable))
          _ h in
      let read =
        ok_of_wrap (allocatable_resources n.metadata.name) (read_resources n.status.allocatable)
          q in
      subst (Opened n) (eq_of_ok k) (refl, read, refl, refl)

  remaining_nodes-Opened :
      (target : String) (ns : List Node) (room : List RoomyNode)
      → remaining_nodes target ns ≡ ok room
      → (stays : List Node) × Selects (Stays target) ns stays × Pairwise Opened stays room
  unfolding remaining_nodes
  remaining_nodes-Opened target [] room h =
      ([], selects_none, subst (Pairwise Opened []) (eq_of_ok h) tt)
  remaining_nodes-Opened target (n ∷ ns) room h =
      elim (Bool-cases
        (n.metadata.name == target || n.spec.unschedulable || not (node_is_ready n))) [
          | inl e ↦
              let (stays, s, p) =
                remaining_nodes-Opened target ns room (rw (e, remaining_nodes) at h) in
              (stays, selects_later (λ st. cc (e, (Stays-iff target n).1 st)) s, p)
          | inr e ↦
              let (r, q, k) = ok_of_bind (open_node n) _ (rw (e, remaining_nodes) at h) in
              let (rest, q', k') = ok_of_bind (remaining_nodes target ns) _ k in
              let (stays, s, p) = remaining_nodes-Opened target ns rest q' in
              (
                n ∷ stays,
                selects_this ((Stays-iff target n).0 e) s,
                subst (Pairwise Opened (n ∷ stays)) (eq_of_ok k') (open_node-Opened n q, p),
              )
        ]

  -- One Pod: the node that it runs on is charged for it, the others are not.
  abbrev ChargedBy : Pod → RoomyNode → RoomyNode → Type 0
  ChargedBy p r r' =
      Same r r'
      × ((((p.spec.node_name == r.node.metadata.name) ≡ true)
            × (held : Resources) × (resident_requests p ≡ ok held)
            × (r'.free ≡ minus r.free held))
          ⊎ (((p.spec.node_name == r.node.metadata.name) ≡ false) × (r'.free ≡ r.free)))

  charge_node-ChargedBy : (p : Pod) (r r' : RoomyNode) → charge_node p r ≡ ok r' → ChargedBy p r r'
  unfolding charge_node
  charge_node-ChargedBy p r r' h = elim (Bool-cases (p.spec.node_name == r.node.metadata.name)) [
    | inl e ↦
        let (held, q, k) =
          ok_of_bind
            (wrap_error (at_pod p.metadata.namespace p.metadata.name) (resident_requests p)) _
            (rw (e, charge_node) at h) in
        let held_read =
          ok_of_wrap (at_pod p.metadata.namespace p.metadata.name) (resident_requests p) q in
        subst (ChargedBy p r) (eq_of_ok k) ((refl, refl, refl), inl (e, held, held_read, refl))
    | inr e ↦
        subst (ChargedBy p r) (eq_of_ok (rw (e, charge_node) at h))
          ((refl, refl, refl), inr (e, refl))
  ]

  charge-ChargedBy :
      (p : Pod) (room room' : List RoomyNode)
      → charge p room ≡ ok room'
      → Pairwise (ChargedBy p) room room'
  unfolding charge
  charge-ChargedBy p [] room' h = subst (Pairwise (ChargedBy p) []) (eq_of_ok h) tt
  charge-ChargedBy p (r ∷ rs) room' h =
      let (charged, q, k) = ok_of_bind (charge_node p r) _ h in
      let (rest, q', k') = ok_of_bind (charge p rs) _ k in
      subst (Pairwise (ChargedBy p) (r ∷ rs)) (eq_of_ok k')
        (charge_node-ChargedBy p r charged q, charge-ChargedBy p rs rest q')

  Charged-next :
      (p : Pod) (ps : List Pod)
      → active p ≡ true
      → (r s t : RoomyNode) → ChargedBy p r s
      → Charged ps s t
      → Charged (p ∷ ps) r t
  Charged-next p ps a r s t (same, by) ((x, y, z), residents, chosen, left) =
      let others : Selects (Resident r.node) ps residents =
        subst (λ n. Selects (Resident n) ps residents) same.0 chosen in
      let all_same : Same r t = (x ∙ same.0, y ∙ same.1, z ∙ same.2) in
      elim by [
        | inl (on, held, read, taken) ↦ (
          all_same,
          p ∷ residents,
          selects_this (a, on) others,
          (held, read, subst (λ f. Leaves residents f t.free) taken left),
        )
        | inr (off, kept_free) ↦ (
          all_same,
          residents,
          selects_later (λ on. cc (off, on.1)) others,
          subst (λ f. Leaves residents f t.free) kept_free left,
        )
      ]

  Charged-skip :
      (p : Pod) (ps : List Pod)
      → active p ≡ false
      → (r t : RoomyNode) → Charged ps r t
      → Charged (p ∷ ps) r t
  Charged-skip p ps a r t (same, residents, chosen, left) =
      (same, residents, selects_later (λ on. cc (a, on.0)) chosen, left)

  charge_all-Charged :
      (ps : List Pod) (room room' : List RoomyNode)
      → charge_all ps room ≡ ok room'
      → Pairwise (Charged ps) room room'
  unfolding charge_all
  charge_all-Charged [] room room' h =
      subst (Pairwise (Charged []) room) (eq_of_ok h)
        (Pairwise-self (Charged []) room λ r. ((refl, refl, refl), [], selects_none, refl))
  charge_all-Charged (p ∷ ps) room room' h = elim (Bool-cases (active p)) [
    | inr e ↦
        Pairwise-map (Charged ps) (Charged (p ∷ ps)) room room' (Charged-skip p ps e)
          (charge_all-Charged ps room room' (rw (e, charge_all) at h))
    | inl e ↦
        let (charged, q, k) = ok_of_bind (charge p room) _ (rw (e, charge_all) at h) in
        Pairwise-compose (ChargedBy p) (Charged ps) (Charged (p ∷ ps)) room charged room'
          (Charged-next p ps e) (charge-ChargedBy p room charged q)
          (charge_all-Charged ps charged room' k)
  ]

  Opened-Charged :
      (pods : List Pod) (n : Node) (r t : RoomyNode)
      → Opened n r
      → Charged pods r t
      → IsRoomOf pods n t
  Opened-Charged pods n r t (a, b, c, d) ((x, y, z), residents, chosen, left) = (
    x ∙ a,
    b ∙ ap ok (sym y),
    z ∙ c,
    residents,
    subst (λ m. Selects (Resident m) pods residents) a chosen,
    subst (λ f. Leaves residents f t.free) (d ∙ sym y) left,
  )

  -- The room that the check places in: the nodes that stay, in their order, and what is free there.
  pub room-IsRoomOf :
      (target : String) (nodes : List Node) (pods : List Pod) (open_room room : List RoomyNode)
      → remaining_nodes target nodes ≡ ok open_room
      → charge_all pods open_room ≡ ok room
      → (stays : List Node) × Selects (Stays target) nodes stays
        × Pairwise (IsRoomOf pods) stays room
  room-IsRoomOf target nodes pods open_room room o c =
      let (stays, s, p) = remaining_nodes-Opened target nodes open_room o in
      (
        stays,
        s,
        Pairwise-compose Opened (Charged pods) (IsRoomOf pods) stays open_room room
            (Opened-Charged pods) p (charge_all-Charged pods open_room room c),
      )

-- ===== src/Operation/NodeIndex.antt =====
-- nodeIndex, the last node of a name, and podIndex, the last Pod of a name.
use Prim.Native.String.{String}
use mathlib.Core.Bool.{false, true}
use mathlib.Core.List.{List, [], ◌∷◌}
use mathlib.Core.Logic.{inl, inr, ◌↔◌, ◌⊎◌}
use mathlib.Core.Option.{some}
use mathlib.Core.Path.{ap, refl, subst, sym, ◌∙◌, ◌≡◌}
use native.Mathlib.Omega.{arith}
use text.Mathlib.Text.{◌==◌}
use text.Mathlib.TextEquality.{eq_iff}
use nix_packages.Base.{
  All, Bool-cases, Dict, Has, Option-cases, eq_of_some, insert, lookup, lookup-insert_other,
  lookup-insert_same,
}
use nix_packages.Kube.{Node, Pod}
use nix_packages.Operation.Clusters.{key_of, node_of, pod_index}
use nix_packages.Operation.Switchovers.{node_index}

abbrev pub NoneNamed : String → List Node → Type 0
NoneNamed name nodes = All (λ n. (n.metadata.name == name) ≡ false) nodes

-- The node is the last of these with the name.
abbrev pub LastNamed : String → List Node → Node → Type 0
LastNamed name [] n = ⊥
LastNamed name (m ∷ ms) n =
    LastNamed name ms n ⊎ (NoneNamed name ms × ((m.metadata.name == name) ≡ true) × (m ≡ n))

Indexed : String → Dict Node → List Node → Node → Type 0
Indexed name index nodes n =
    LastNamed name nodes n ⊎ (NoneNamed name nodes × (lookup name index ≡ some n))

Indexed-iff :
    (name : String) (index : Dict Node) (nodes : List Node) (n : Node)
    → (lookup name (node_index index nodes) ≡ some n) ↔ Indexed name index nodes n
unfolding node_index Indexed
Indexed-iff name index [] n = (λ h. inr (tt, h), λ h. elim h [ inl l ↦ absurd l | inr e ↦ e.1 ])
Indexed-iff name index (m ∷ ms) n =
    let later = Indexed-iff name (insert m.metadata.name m index) ms n in
    elim (Bool-cases (m.metadata.name == name)) [
      | inl q ↦
          let p : m.metadata.name ≡ name = ground (arith, eq_iff m.metadata.name name) in
          let found : lookup name (insert m.metadata.name m index) ≡ some m =
            subst (λ x. lookup x (insert m.metadata.name m index) ≡ some m) p
              (lookup-insert_same m.metadata.name m index) in
          (
            λ h. elim (later.0 h) [
              | inl l ↦ inl (inl l)
              | inr e ↦ inl (inr (e.0, q, eq_of_some (sym found ∙ e.1)))
            ],
            λ h. later.1 (elim h [
              | inl l ↦ elim l [ inl deep ↦ inl deep | inr e ↦ inr (e.0, found ∙ ap some e.2) ]
              | inr e ↦ absurd (cc (q, e.0.0))
            ]),
          )
      | inr q ↦
          let same = lookup-insert_other m.metadata.name name m index q in
          (
            λ h. elim (later.0 h) [ inl l ↦ inl (inl l) | inr e ↦ inr ((q, e.0), sym same ∙ e.1) ],
            λ h. later.1 (elim h [
              | inl l ↦ elim l [ inl deep ↦ inl deep | inr e ↦ absurd (cc (q, e.1)) ]
              | inr e ↦ inr (e.0.1, same ∙ e.1)
            ]),
          )
    ]

pub node_index-LastNamed :
    (name : String) (nodes : List Node) (n : Node)
    → (lookup name (node_index [] nodes) ≡ some n) ↔ LastNamed name nodes n
unfolding Indexed lookup
node_index-LastNamed name nodes n =
    let h = Indexed-iff name [] nodes n in
    (
      λ e. elim (h.0 e) [ inl l ↦ l | inr none_named ↦ absurd (cc (none_named.1)) ],
      λ l. h.1 (inl l),
    )

pod_index-Has :
    (key : String) (index : Dict Pod) (pods : List Pod) (p : Pod)
    → lookup key (pod_index index pods) ≡ some p
    → (Has p pods × (key_of p.metadata.namespace p.metadata.name ≡ key))
      ⊎ (lookup key index ≡ some p)
unfolding pod_index
pod_index-Has key index [] p h = inr h
pod_index-Has key index (q ∷ qs) p h =
    let own = key_of q.metadata.namespace q.metadata.name in
    elim (pod_index-Has key (insert own q index) qs p h) [
      | inl (m, e) ↦ inl (inr m, e)
      | inr e ↦ elim (Bool-cases (own == key)) [
        | inr other ↦ inr (sym (lookup-insert_other own key q index other) ∙ e)
        | inl same ↦
            let k : own ≡ key = ground (arith, same, eq_iff own key) in
            let stored : lookup key (insert own q index) ≡ some q =
              subst (λ x. lookup x (insert own q index) ≡ some q) k
                (lookup-insert_same own q index) in
            let is_q : p ≡ q = eq_of_some (sym e ∙ stored) in
            inl (
              inl is_q,
              subst (λ (r : Pod). key_of r.metadata.namespace r.metadata.name ≡ key) (sym is_q) k,
            )
      ]
    ]

-- A node that a key leads to is the node of a Pod of that key.
pub node_of-Has :
    (key target : String) (pods : List Pod)
    → (target == "") ≡ false
    → (node_of (pod_index [] pods) key == target) ≡ true
    → (p : Pod) × Has p pods
      × (key_of p.metadata.namespace p.metadata.name ≡ key)
      × ((p.spec.node_name == target) ≡ true)
unfolding node_of lookup
node_of-Has key target pods named h = elim (Option-cases (lookup key (pod_index [] pods))) [
  | inl e ↦
      let none_found : ("" == target) ≡ true = rw (e, node_of) at h in
      let k : "" ≡ target = ground (arith, none_found, eq_iff "" target) in
      let z : (target == "") ≡ true = subst (λ x. (x == "") ≡ true) k refl in absurd (cc (named, z))
  | inr (p, e) ↦ elim (pod_index-Has key [] pods p e) [
    | inl (m, k) ↦ (p, m, k, rw (e, node_of) at h)
    | inr q ↦ absurd (cc (q))
  ]
]

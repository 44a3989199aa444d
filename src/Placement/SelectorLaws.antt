-- ===== src/Placement/SelectorLaws.antt =====
-- About the meaning of placement.go's selectors: labels, terms, a single node.
use Prim.Native.String.{String}
use mathlib.Core.Bool.{false, true}
use mathlib.Core.List.{List, [], ◌∷◌}
use mathlib.Core.Logic.{inl, inr, ◌↔◌, ◌≢◌}
use mathlib.Core.Option.{some}
use mathlib.Core.Path.{ap, refl, ◌≡◌}
use native.Mathlib.Omega.{arith}
use text.Mathlib.Text.{◌==◌}
use text.Mathlib.TextEquality.{eq_iff}
use nix_packages.Base.{
  &&-intro, &&-true, All, All-map, Dict, Floats, Has, Option-cases, all, all_iff, any, any-Has,
  any-true, find?, lookup, ||-false,
}
use nix_packages.Kube.{Node, NodeSelectorTerm, PodSpec, node_is_ready}
use nix_packages.Placement.Selectors.{
  agrees, field_requirement, label_requirement, labels_match, node_affinity_term_matches,
  node_selector_matches, other_matches, pinned_at, pod_matches_node, required_node_affinity_matches,
  required_terms, requires_target_node, terms_match,
}

-- Every entry of `match` is an entry of `labels`.
abbrev pub Carries : Dict String → Dict String → Type 0
Carries labels match = All (λ e. lookup e.0 labels ≡ some e.1) match

agrees_iff :
    (labels : Dict String) (e : String × String)
    → (agrees labels e ≡ true) ↔ (lookup e.0 labels ≡ some e.1)
agrees_iff labels e = elim (Option-cases (lookup e.0 labels)) [
  | inl h ↦ rw h (ground arith)
  | inr (v, h) ↦ rw h (ground (arith, eq_iff v e.1))
]

-- `labelsMatch` holds exactly when, for each key and value that a selector names, the labels have
-- the key, with that value.
pub labels_match_iff :
    (labels match : Dict String) → (labels_match labels match ≡ true) ↔ Carries labels match
unfolding labels_match
labels_match_iff labels match = (
  λ h. All-map match (λ e. (agrees_iff labels e).0) ((all_iff (agrees labels) match).0 h),
  λ h. (all_iff (agrees labels) match).1 (All-map match (λ e. (agrees_iff labels e).1) h),
)

module _ ⦃F : Floats⦄ where
  -- One required term holds of the node.
  abbrev pub TermHolds : Node → NodeSelectorTerm → Type 0
  TermHolds n t =
      All (λ r. label_requirement n.metadata.labels r ≡ true) t.match_expressions
      × All (λ r. field_requirement n r ≡ true) t.match_fields

  term_iff :
      (n : Node) (t : NodeSelectorTerm) → (node_affinity_term_matches n t ≡ true) ↔ TermHolds n t
  unfolding node_affinity_term_matches
  term_iff n t = ground (
    arith,
    all_iff (label_requirement n.metadata.labels) t.match_expressions,
    all_iff (field_requirement n) t.match_fields,
  )

  -- A Pod with required terms matches a node exactly when the node carries its node selector and
  -- meets every expression and field of some term.
  pub pod_matches_node_iff :
      (spec : PodSpec) (n : Node) (t : NodeSelectorTerm) (ts : List NodeSelectorTerm)
      → required_terms spec.affinity ≡ some (t ∷ ts)
      → (pod_matches_node spec n ≡ true) ↔ (
          Carries n.metadata.labels spec.node_selector
          × ((u : NodeSelectorTerm) × Has u (t ∷ ts) × TermHolds n u))
  unfolding pod_matches_node node_selector_matches required_node_affinity_matches terms_match
  pod_matches_node_iff spec n t ts e = rw e (
    λ h.
        let parts =
          &&-true (all (agrees n.metadata.labels) spec.node_selector)
            (any (node_affinity_term_matches n) (t ∷ ts)) h in
        let hit = any-true (node_affinity_term_matches n) (t ∷ ts) parts.1 in
        (
          (labels_match_iff n.metadata.labels spec.node_selector).0
              (unfold labels_match in parts.0),
          (hit.0, hit.1, (term_iff n hit.0).0 hit.2),
        ),
    λ h.
        &&-intro {a = all (agrees n.metadata.labels) spec.node_selector}
          {b = any (node_affinity_term_matches n) (t ∷ ts)}
          (unfold labels_match in (labels_match_iff n.metadata.labels spec.node_selector).1 h.0)
          (any-Has (node_affinity_term_matches n) (t ∷ ts) h.1.1 ((term_iff n h.1.0).1 h.1.2)),
  )

  -- The target is listed and its first entry matches, while every other Ready, schedulable node
  -- does not.
  abbrev pub Pinned : String → PodSpec → List Node → Type 0
  Pinned target spec nodes =
      ((n : Node) × (find? (λ m. m.metadata.name == target) nodes ≡ some n)
        × (pod_matches_node spec n ≡ true))
      × ((m : Node)
          → Has m nodes
          → m.metadata.name ≢ target
          → m.spec.unschedulable ≡ false
          → node_is_ready m ≡ true
          → pod_matches_node spec m ≡ false)

  other_matches-false :
      (target : String) (spec : PodSpec) (nodes : List Node)
      → any (other_matches target spec) nodes ≡ false
      → (m : Node) → Has m nodes
      → m.metadata.name ≢ target
      → m.spec.unschedulable ≡ false
      → node_is_ready m ≡ true
      → pod_matches_node spec m ≡ false
  unfolding any
  other_matches-false target spec [] h m i a b c = absurd i
  other_matches-false target spec (n ∷ ns) h m (inl e) a b c = rw e (
      ground (
        arith,
        ap (λ (x : Node). x.metadata.name) e,
        ap (λ (x : Node). x.spec.unschedulable) e,
        ap (λ (x : Node). node_is_ready x) e,
        eq_iff n.metadata.name target,
      ))
  other_matches-false target spec (n ∷ ns) h m (inr i) a b c =
      other_matches-false target spec ns (||-false _ _ h).1 m i a b c

  other_matches-all :
      (target : String) (spec : PodSpec) (nodes : List Node)
      → ((m : Node)
          → Has m nodes
          → m.metadata.name ≢ target
          → m.spec.unschedulable ≡ false
          → node_is_ready m ≡ true
          → pod_matches_node spec m ≡ false)
      → any (other_matches target spec) nodes ≡ false
  unfolding any
  other_matches-all target spec [] h = refl
  other_matches-all target spec (n ∷ ns) h = ground (
    arith,
    h n (inl refl),
    eq_iff n.metadata.name target,
    other_matches-all target spec ns (λ m i. h m (inr i)),
  )

  pinned_at_iff :
      (target : String) (spec : PodSpec) (nodes : List Node) (n : Node)
      → (pinned_at target spec nodes (some n) ≡ true)
        ↔ ((pod_matches_node spec n ≡ true) × (any (other_matches target spec) nodes ≡ false))
  unfolding pinned_at
  pinned_at_iff target spec nodes n = (λ h. ground arith, λ h. ground arith)

  -- `requiresTargetNode` holds exactly when the first node of the target's name is there and matches
  -- the Pods, and no Ready, schedulable node of another name matches them.
  pub requires_target_node_iff :
      (target : String) (spec : PodSpec) (nodes : List Node)
      → (requires_target_node target spec nodes ≡ true) ↔ Pinned target spec nodes
  unfolding requires_target_node
  requires_target_node_iff target spec nodes =
      elim (Option-cases (find? (λ (m : Node). m.metadata.name == target) nodes)) [
        | inl e ↦ rw e (λ h. cc, λ h. cc h.0.1)
        | inr (n, e) ↦ rw e (
          λ h.
              let parts = (pinned_at_iff target spec nodes n).0 h in
              ((n, refl, parts.0), other_matches-false target spec nodes parts.1),
          λ h.
              (pinned_at_iff target spec nodes n).1
                (cc (h.0.1, h.0.2), other_matches-all target spec nodes h.1),
        )
      ]

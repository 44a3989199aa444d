-- ===== src/Placement/Selectors.antt =====
-- placement.go: label selectors, node selectors and required node affinity.
use Prim.Native.String.{String}
use mathlib.Core.Bool.{Bool, false, not, true, ◌&&◌, ◌||◌}
use mathlib.Core.List.{List, [], ◌∷◌}
use mathlib.Core.Option.{Option, none, some}
use text.Mathlib.Text.{◌==◌}
use nix_packages.Base.{
  Dict, Floats, all, any, codes, contains, find?, has_key, if◌then◌else◌, lookup, text_at,
}
use nix_packages.Kube.{
  Affinity, LabelSelector, Node, NodeSelectorTerm, PodSpec, Requirement, node_is_ready,
}

abbrev pub hostname_label : String
hostname_label = "kubernetes.io/hostname"

abbrev pub unschedulable_key : String
unschedulable_key = "node.kubernetes.io/unschedulable"

-- The entry `key: value` of a selector is among the labels.
abbrev pub agrees : Dict String → String × String → Bool
agrees labels e = elim (lookup e.0 labels) [ none ↦ false | some actual ↦ actual == e.1 ]

unfoldable pub labels_match : Dict String → Dict String → Bool
labels_match labels match = all (agrees labels) match

unfoldable pub node_selector_matches : Node → Dict String → Bool
node_selector_matches n selector = all (agrees n.metadata.labels) selector

abbrev first_text : List String → String
first_text [] = ""
first_text (x ∷ xs) = x

-- The pointers of `a.NodeAffinity.Required.NodeSelectorTerms`, followed.
abbrev pub required_terms : Option Affinity → Option (List NodeSelectorTerm)
required_terms none = none
required_terms (some a) = elim a.node_affinity [ none ↦ none | some na ↦ na.required ]

module _ ⦃F : Floats⦄ where
  open F use {Float, parse_float, flt}

  -- The comparison of the operators Gt and Lt, once both sides are read.
  ordered : String → Option Float → Option Float → Bool
  ordered operator none expected = false
  ordered operator (some actual) none = false
  ordered operator (some actual) (some expected) =
      if operator == "Gt" then flt expected actual else flt actual expected

  unfoldable pub requirement_matches : String → Bool → Requirement → Bool
  unfolding ordered
  requirement_matches value present r =
      if r.operator == "In"
      then present && contains r.values value
      else if r.operator == "NotIn"
      then not present || not (contains r.values value)
      else if r.operator == "Exists"
      then present
      else if r.operator == "DoesNotExist"
      then not present
      else if r.operator == "Gt" || r.operator == "Lt"
      then (if not present
          then false
          else ordered r.operator (parse_float (codes value))
              (parse_float (codes (first_text r.values))))
      else false

  -- `value, present := labels[r.Key]`, then the requirement.
  unfoldable pub label_requirement : Dict String → Requirement → Bool
  label_requirement labels r = requirement_matches (text_at r.key labels) (has_key r.key labels) r

  -- metadata.name is the only field that a node selector can match.
  unfoldable pub field_requirement : Node → Requirement → Bool
  field_requirement n r = requirement_matches n.metadata.name (r.key == "metadata.name") r

  unfoldable pub node_affinity_term_matches : Node → NodeSelectorTerm → Bool
  node_affinity_term_matches n term =
      all (label_requirement n.metadata.labels) term.match_expressions
      && all (field_requirement n) term.match_fields

  -- The required terms, once every pointer on the way is followed.
  unfoldable pub terms_match : Node → Option (List NodeSelectorTerm) → Bool
  terms_match n none = true
  terms_match n (some []) = true
  terms_match n (some (t ∷ ts)) = any (node_affinity_term_matches n) (t ∷ ts)

  unfoldable pub required_node_affinity_matches : Node → Option Affinity → Bool
  required_node_affinity_matches n a = terms_match n (required_terms a)

  unfoldable pub pod_matches_node : PodSpec → Node → Bool
  pod_matches_node spec n =
      node_selector_matches n spec.node_selector && required_node_affinity_matches n spec.affinity

  abbrev pub other_matches : String → PodSpec → Node → Bool
  other_matches target spec n =
      not (n.metadata.name == target)
      && not n.spec.unschedulable
      && node_is_ready n
      && pod_matches_node spec n

  unfoldable pub pinned_at : String → PodSpec → List Node → Option Node → Bool
  pinned_at target spec nodes none = false
  pinned_at target spec nodes (some n) =
      if not (pod_matches_node spec n) then false else not (any (other_matches target spec) nodes)

  -- The first node of the target's name must match, and no other Ready, schedulable node may.
  unfoldable pub requires_target_node : String → PodSpec → List Node → Bool
  unfolding pinned_at
  requires_target_node target spec nodes =
      pinned_at target spec nodes (find? (λ n. n.metadata.name == target) nodes)

  -- A nil selector selects none, an empty one every Pod.
  unfoldable pub selector_matches : Dict String → Option LabelSelector → Bool
  selector_matches labels none = false
  selector_matches labels (some s) =
      labels_match labels s.match_labels && all (label_requirement labels) s.match_expressions

-- ===== src/Placement/Spread.antt =====
-- placement.go: the selector forms, anti-affinity and spread constraint that the floor models.
use Prim.Native.String.{String}
use mathlib.Core.Bool.{Bool, false, not, true, ◌&&◌, ◌||◌}
use mathlib.Core.List.{List, [], ◌∷◌}
use mathlib.Core.Option.{Option, none, some}
use text.Mathlib.Text.{◌==◌}
use nix_packages.Base.{Dict, any, contains, if◌then◌else◌, is_empty, keep, le64}
use nix_packages.Kube.{LabelSelector, PodAffinityTerm, PodSpec, SpreadConstraint}
use nix_packages.Placement.Selectors.{hostname_label, labels_match}

unfoldable pub simple_selector : Option LabelSelector → Bool
simple_selector none = false
simple_selector (some s) = is_empty s.match_expressions && not (is_empty s.match_labels)

abbrev pub match_labels_of : Option LabelSelector → Dict String
match_labels_of none = []
match_labels_of (some s) = s.match_labels

abbrev pub is_none {ℓ} : {A : Type ℓ} → Option A → Bool
is_none none = true
is_none (some a) = false

-- `spec.Affinity.PodAntiAffinity.Required`, empty where a pointer is nil.
abbrev pub required_anti_affinity : PodSpec → List PodAffinityTerm
required_anti_affinity spec = elim spec.affinity [
  | none ↦ []
  | some a ↦ elim a.pod_anti_affinity [ none ↦ [] | some anti ↦ anti.required ]
]

unfoldable pub one_per_node : PodSpec → Dict String → String → Bool
one_per_node spec labels namespace =
    any
      (λ term.
        term.topology_key == hostname_label
        && is_none term.namespace_selector
        && (is_empty term.namespaces || contains term.namespaces namespace)
        && is_empty term.match_label_keys
        && is_empty term.mismatch_label_keys
        && simple_selector term.label_selector
        && labels_match labels (match_labels_of term.label_selector))
      (required_anti_affinity spec)

modelled_spread : Dict String → SpreadConstraint → Bool
modelled_spread labels c =
    c.topology_key == hostname_label
    && le64 1 c.max_skew
    && (c.node_affinity_policy == "" || c.node_affinity_policy == "Honor")
    && is_none c.min_domains
    && is_empty c.match_label_keys
    && simple_selector c.label_selector
    && labels_match labels (match_labels_of c.label_selector)

-- Exactly one strict constraint, of the form that is modelled.
only_modelled : Dict String → List SpreadConstraint → Option SpreadConstraint
unfolding modelled_spread
only_modelled labels [] = none
only_modelled labels (c ∷ []) = if modelled_spread labels c then some c else none
only_modelled labels (c ∷ c' ∷ rest) = none

unfoldable pub hostname_spread : PodSpec → Dict String → Option SpreadConstraint
unfolding only_modelled
hostname_spread spec labels =
    only_modelled labels
      (keep (λ c. c.when_unsatisfiable == "DoNotSchedule") spec.topology_spread_constraints)

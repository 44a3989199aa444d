-- ===== src/Placement/Floor.antt =====
-- placement.go: readyFloor, the Ready replicas that a Deployment can keep while the target is out.
-- A counter of Pods or nodes is a plain number: it stays below 2 ^ 63, as the lists do.
pub mod Bounds
pub mod Domains
pub mod Skew
use Prim.Native.Nat.{suc, zero, ℕ}
use Prim.Native.String.{String}
use mathlib.Core.Bool.{Bool, false, not, true, ◌&&◌, ◌||◌}
use mathlib.Core.List.{List, [], map, ◌∷◌}
use mathlib.Core.Option.{Option, none, some}
use text.Mathlib.Text.{◌==◌}
use nix_packages.Base.{
  Dict, Floats, add64, any, eqb, if◌then◌else◌, insert, is_empty, keep, le64, length, lt64, max64,
  min64, set, sub64, text_at,
}
use nix_packages.Kube.{
  Controller, Node, Pod, PodSpec, SpreadConstraint, desired_replicas, has_owner, node_is_ready,
}
use nix_packages.Placement.Selectors.{hostname_label, labels_match, pod_matches_node}
use nix_packages.Placement.Spread.{
  hostname_spread, is_none, match_labels_of, one_per_node, simple_selector,
}
use nix_packages.Placement.Taints.{live_pod, node_admits, tolerates_cordon}

pub record Domain : Type 0 where
  pub name : String
  pub hostname : String
  pub count : ℕ
  pub is_open : Bool

-- The smallest count, from the first domain's on.
unfoldable pub least_count : ℕ → List Domain → ℕ
least_count least [] = least
least_count least (d ∷ ds) = least_count (min64 least d.count) ds

unfoldable pub minimum_of : List Domain → ℕ
minimum_of [] = 0
minimum_of (d ∷ ds) = least_count d.count (d ∷ ds)

-- The inner test of the pick: open, within the skew, and fewer than the pick so far.
abbrev pub fewer : Domain → Option (ℕ × Domain) → Bool
fewer d none = true
fewer d (some p) = lt64 d.count p.1.count

unfoldable pub within_skew : ℕ → ℕ → Domain → Bool
within_skew max_skew minimum d = le64 (sub64 (add64 d.count 1) minimum) max_skew

unfoldable pub pick_domain : ℕ → ℕ → List Domain → ℕ → Option (ℕ × Domain) → Option (ℕ × Domain)
pick_domain max_skew minimum [] i pick = pick
pick_domain max_skew minimum (d ∷ ds) i pick =
    pick_domain max_skew minimum ds (suc i)
      (if d.is_open && within_skew max_skew minimum d && fewer d pick then some (i, d) else pick)

-- One round: the pick, if any, takes one more Pod.
unfoldable pub place_one : ℕ → List Domain → Option (List Domain)
place_one max_skew domains = elim (pick_domain max_skew (minimum_of domains) domains 0 none) [
  | none ↦ none
  | some p ↦ some (set domains p.0 (record p.1 { count = add64 p.1.count 1 }))
]

-- `for range desired - running`, with the Pods placed so far.
unfoldable pub replay : ℕ → ℕ → List Domain → ℕ → List Domain × ℕ
replay zero max_skew domains placed = (domains, placed)
replay (suc n) max_skew domains placed = elim (place_one max_skew domains) [
  | none ↦ replay n max_skew domains placed
  | some domains' ↦ replay n max_skew domains' (suc placed)
]

-- The distinct host names, as the keys of a set.
unfoldable pub hostname_set : List Domain → Dict Bool → Dict Bool
hostname_set [] seen = seen
hostname_set (d ∷ ds) seen = hostname_set ds (insert d.hostname true seen)

module _ ⦃F : Floats⦄ (target namespace : String) (d : Controller) where
  abbrev template_spec : PodSpec
  template_spec = d.spec.template.spec

  abbrev template_labels : Dict String
  template_labels = d.spec.template.metadata.labels

  abbrev selector_labels : Dict String
  selector_labels = match_labels_of d.spec.selector

  abbrev replicas_of : List Pod → List Pod
  replicas_of = keep (λ p. labels_match p.metadata.labels selector_labels && live_pod p)

  -- A Ready node other than the target that runs a replica already, or that may take one.
  unfoldable pub eligible_node : List Pod → Node → Bool
  eligible_node replicas n =
      not (n.metadata.name == target)
      && node_is_ready n
      && (any (λ p. p.spec.node_name == n.metadata.name) replicas
          || (pod_matches_node template_spec n
              && not n.spec.unschedulable
              && node_admits template_spec n))

  unfoldable pub per_node_floor : List Node → List Pod → ℕ
  unfolding eligible_node
  per_node_floor nodes pods =
      min64 (desired_replicas d) (max64 (length (keep (eligible_node (replicas_of pods)) nodes)) 1)

  unfoldable pub running_replicas : List Pod → ℕ
  running_replicas pods = length (
      keep (λ p. not (p.spec.node_name == target) && has_owner p.metadata "ReplicaSet")
        (replicas_of pods))

  abbrev admitted_node : Node → Bool
  admitted_node n =
      not n.spec.unschedulable && not (n.metadata.name == target) && node_admits template_spec n

  -- The Pods that the constraint counts on a node. The drain takes this Deployment's own off the
  -- target; other selected Pods there stay.
  counted_pod : SpreadConstraint → Node → Pod → Bool
  counted_pod spread n p =
      if not (live_pod p)
        || not (p.spec.node_name == n.metadata.name)
        || not (labels_match p.metadata.labels (match_labels_of spread.label_selector))
      then false
      else not (
          n.metadata.name == target
          && labels_match p.metadata.labels selector_labels
          && has_owner p.metadata "ReplicaSet")

  -- The first two tests of the loop over the nodes: `false` is `continue`.
  has_domain : SpreadConstraint → Node → Bool
  has_domain spread n =
      if not (pod_matches_node template_spec n) || text_at hostname_label n.metadata.labels == ""
      then false
      else not (
          not (spread.node_taints_policy == "")
          && not (spread.node_taints_policy == "Ignore")
          && not (admitted_node n))

  domain_of : SpreadConstraint → List Pod → Node → Domain
  unfolding counted_pod
  domain_of spread pods n = record {
    name = n.metadata.name;
    hostname = text_at hostname_label n.metadata.labels;
    count = length (keep (counted_pod spread n) pods);
    is_open = admitted_node n && node_is_ready n;
  }

  unfoldable pub domains_of : SpreadConstraint → List Node → List Pod → List Domain
  unfolding has_domain domain_of
  domains_of spread nodes pods = map (domain_of spread pods) (keep (has_domain spread) nodes)

  unfoldable pub spread_floor : SpreadConstraint → List Node → List Pod → ℕ
  spread_floor spread nodes pods =
      let running = running_replicas pods in
      let domains = domains_of spread nodes pods in
      let desired = desired_replicas d in
      let replayed = replay (sub64 desired running) spread.max_skew domains 0 in
      if is_empty domains
        || not (eqb (length (hostname_set domains [])) (length domains))
        || le64 desired running
      then desired
      else min64 desired (max64 (add64 running replayed.1) 1)

  -- The form is not modelled, or one replica is desired: the full count.
  unfoldable pub keeps_full_count : Bool
  keeps_full_count =
      le64 (desired_replicas d) 1
      || tolerates_cordon template_spec
      || not (simple_selector d.spec.selector)
      || (not (one_per_node template_spec template_labels namespace)
          && is_none (hostname_spread template_spec template_labels))

  unfoldable pub spread_case : Option SpreadConstraint → List Node → List Pod → ℕ
  spread_case none nodes pods = desired_replicas d
  spread_case (some spread) nodes pods = spread_floor spread nodes pods

  unfoldable pub ready_floor : List Node → List Pod → ℕ
  unfolding spread_case
  ready_floor nodes pods =
      if keeps_full_count
      then desired_replicas d
      else if one_per_node template_spec template_labels namespace
      then per_node_floor nodes pods
      else spread_case (hostname_spread template_spec template_labels) nodes pods

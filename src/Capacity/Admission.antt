-- ===== src/Capacity/Admission.antt =====
-- capacity.go: whether a node may run a Pod, room aside: selectors, affinity, taints and required
-- hostname anti-affinity both ways.
use Prim.Native.String.{String}
use mathlib.Core.Bool.{Bool, not, ◌&&◌, ◌||◌}
use mathlib.Core.List.{List, [], ◌∷◌}
use text.Mathlib.Text.{◌==◌}
use nix_packages.Base.{Floats, any, contains, if◌then◌else◌, is_empty, keep}
use nix_packages.Capacity.Resources.{Resources, no_resources}
use nix_packages.Kube.{Node, Pod, PodAffinityTerm, PodSpec, node_is_ready}
use nix_packages.Placement.Selectors.{hostname_label, pod_matches_node, selector_matches}
use nix_packages.Placement.Spread.{is_none, required_anti_affinity}
use nix_packages.Placement.Taints.{live_pod, node_admits}

-- A node that can take displaced Pods: what is free on it, and the Pods that the check placed there.
pub record RoomyNode : Type 0 where
  pub node : Node
  pub allocatable : Resources
  pub free : Resources
  pub placed : List Pod

pub record DisplacedPod : Type 0 where
  pub pod : Pod
  pub requests : Resources

-- The required hostname terms that the check models.
modelled_term : PodAffinityTerm → Bool
modelled_term term =
    term.topology_key == hostname_label
    && not (is_none term.label_selector)
    && is_none term.namespace_selector
    && is_empty term.match_label_keys
    && is_empty term.mismatch_label_keys

unfoldable pub hostname_anti_affinity : PodSpec → List PodAffinityTerm
unfolding modelled_term
hostname_anti_affinity spec = keep modelled_term (required_anti_affinity spec)

module _ ⦃F : Floats⦄ where
  -- A term without namespaces means the Pod's own.
  term_selects : Pod → Pod → PodAffinityTerm → Bool
  term_selects a b term =
      contains (if is_empty term.namespaces then a.metadata.namespace ∷ [] else term.namespaces)
        b.metadata.namespace
      && selector_matches b.metadata.labels term.label_selector

  unfoldable pub repels : Pod → Pod → Bool
  unfolding term_selects
  repels a b = any (term_selects a b) (hostname_anti_affinity a.spec)

  unfoldable pub clash : Pod → Pod → Bool
  clash d p = repels p d || repels d p

  unfoldable pub claimed : RoomyNode → DisplacedPod → List Pod → Bool
  claimed r d pods =
      any (clash d.pod) r.placed
      || any (λ p. live_pod p && p.spec.node_name == r.node.metadata.name && clash d.pod p) pods

  unfoldable pub admits : RoomyNode → DisplacedPod → List Pod → Bool
  admits r d pods =
      pod_matches_node d.pod.spec r.node && node_admits d.pod.spec r.node && not (claimed r d pods)

  -- A Ready, schedulable node other than the target may run the Pod, room aside.
  unfoldable pub may_run_elsewhere : String → List Node → List Pod → Pod → Bool
  may_run_elsewhere target nodes pods p =
      any
        (λ n.
          not (n.metadata.name == target)
          && not n.spec.unschedulable
          && node_is_ready n
          && admits
              (record { node = n; allocatable = no_resources; free = no_resources; placed = [] })
              (record { pod = p; requests = no_resources }) pods)
        nodes

-- ===== src/Operation/Switchovers.antt =====
-- cnpg.go: the rules on clusters and Pods: survivability, health, and planSwitchovers.
-- nodeIndex is a list here; the last node of a name counts, as in the map.
use Prim.Native.Nat.{ℕ}
use Prim.Native.String.{String}
use mathlib.Core.Bool.{Bool, false, not, ◌&&◌, ◌||◌}
use mathlib.Core.List.{List, [], ◌∷◌}
use mathlib.Core.Option.{none, some}
use text.Mathlib.Text.{◌==◌}
use nix_packages.Base.{
  Dict, Floats, any, codes, contains, eqb, has_key, if◌then◌else◌, insert, keep, length, lookup,
  lt64, sort_by, sub64, text_at,
}
use nix_packages.Capacity.Displaced.{codes_before}
use nix_packages.Kube.{Node, Pod, node_is_ready, reboot_pending, running_and_ready}
use nix_packages.Operation.Clusters.{
  CnpgCluster, Replication, Standby, caught_up, cluster_key, desired_instances, key_of,
  minimum_ready, node_of, pod_index, primary_key, ready_at, standby_at,
}
use nix_packages.Placement.Spread.{is_none}

pub record Switchover : Type 0 where
  pub namespace : String
  pub cluster : String
  pub primary : String
  pub candidate : String
  pub candidate_node : String
  pub lagging : Bool

unfoldable pub node_index : Dict Node → List Node → Dict Node
node_index index [] = index
node_index index (n ∷ ns) = node_index (insert n.metadata.name n index) ns

unfoldable pub reboot_pending_at : Dict Node → String → Bool
reboot_pending_at index name = elim (lookup name index) [ none ↦ false | some n ↦ reboot_pending n ]

-- A surviving node that takes a primary: there, schedulable, stable and Ready.
unfoldable pub takes_primary : Node → Bool
takes_primary n =
    not n.spec.unschedulable
    && text_at "workload-class" n.metadata.labels == "stable"
    && node_is_ready n

unfoldable pub on_taking_node : Dict Node → Pod → Bool
unfolding takes_primary
on_taking_node index p = elim (lookup p.spec.node_name index) [
  | none ↦ false
  | some n ↦ takes_primary n
]

unfoldable pub healthy_instances : CnpgCluster → List String
healthy_instances c = elim (lookup "healthy" c.instances_status) [ none ↦ [] | some names ↦ names ]

-- The first test of the inner loop: a healthy replica of the cluster off the target.
unfoldable pub healthy_replica : String → CnpgCluster → Pod → Bool
healthy_replica target c p =
    p.metadata.namespace == c.metadata.namespace
    && text_at "cnpg.io/cluster" p.metadata.labels == c.metadata.name
    && text_at "cnpg.io/podRole" p.metadata.labels == "instance"
    && text_at "cnpg.io/instanceRole" p.metadata.labels == "replica"
    && not (p.metadata.name == c.current_primary)
    && not (p.spec.node_name == target)
    && is_none p.metadata.deletion_timestamp
    && running_and_ready p
    && contains (healthy_instances c) p.metadata.name

-- The sort's order: nodes that wait for no reboot first, then by name.
unfoldable pub preferred : Dict Node → Pod → Pod → Bool
preferred index p q =
    let pending_p = reboot_pending_at index p.spec.node_name in
    let pending_q = reboot_pending_at index q.spec.node_name in
    if pending_p && not pending_q || not pending_p && pending_q
    then pending_q
    else codes_before (codes p.metadata.name) (codes q.metadata.name)

pod_key_of : Pod → String
pod_key_of p = key_of p.metadata.namespace p.metadata.name

module _ ⦃F : Floats⦄ where
  -- A Pod that passes the first two tests.
  unfoldable pub may_take_over : String → CnpgCluster → Dict Node → Pod → Bool
  may_take_over target c index p = healthy_replica target c p && on_taking_node index p

  unfoldable pub is_caught_up : Dict Standby → Pod → Bool
  unfolding pod_key_of
  is_caught_up standbys p = caught_up (standby_at standbys (pod_key_of p))

  unfoldable pub is_streaming : Dict Standby → Pod → Bool
  unfolding pod_key_of
  is_streaming standbys p = (standby_at standbys (pod_key_of p)).0 == "streaming"

  unfoldable pub candidates_of :
      String → CnpgCluster → Dict Node → Dict Standby → List Pod → List Pod
  candidates_of target c index standbys pods =
      sort_by (preferred index)
        (keep (λ p. may_take_over target c index p && is_caught_up standbys p) pods)

  unfoldable pub is_lagging : String → CnpgCluster → Dict Node → Dict Standby → List Pod → Bool
  is_lagging target c index standbys = any (λ p.
      may_take_over target c index p && not (is_caught_up standbys p) && is_streaming standbys p)

  unfoldable pub switchover_to : CnpgCluster → Bool → List Pod → Switchover
  switchover_to c lagging [] = record {
    namespace = c.metadata.namespace;
    cluster = c.metadata.name;
    primary = c.current_primary;
    candidate = "";
    candidate_node = "";
    lagging = lagging;
  }
  switchover_to c lagging (p ∷ rest) = record {
    namespace = c.metadata.namespace;
    cluster = c.metadata.name;
    primary = c.current_primary;
    candidate = p.metadata.name;
    candidate_node = p.spec.node_name;
    lagging = lagging;
  }

  module _ (target : String) (pods : List Pod) (nodes : List Node) (standbys : Dict Standby) where
    unfoldable pub switchover_of : CnpgCluster → Switchover
    switchover_of c =
        switchover_to c (is_lagging target c (node_index [] nodes) standbys pods)
          (candidates_of target c (node_index [] nodes) standbys pods)

    unfoldable pub plan_switchovers : List CnpgCluster → List Switchover
    plan_switchovers [] = []
    plan_switchovers (c ∷ cs) =
        let rest = plan_switchovers cs in
        if node_of (pod_index [] pods) (primary_key c) == target
        then switchover_of c ∷ rest
        else rest

  -- streamingReplicas; an empty node excludes none.
  unfoldable pub streaming_replicas : CnpgCluster → List Pod → Dict Standby → String → ℕ
  streaming_replicas c pods standbys excluded = length (
      keep
        (λ p.
          p.metadata.namespace == c.metadata.namespace
          && text_at "cnpg.io/cluster" p.metadata.labels == c.metadata.name
          && not (p.metadata.name == c.current_primary)
          && not (not (excluded == "") && p.spec.node_name == excluded)
          && is_streaming standbys p)
        pods)

  -- The test of cnpgSurvivabilityFailures.
  unfoldable pub database_at_risk : String → List Pod → Replication → CnpgCluster → Bool
  database_at_risk target pods repl c =
      let index = pod_index [] pods in
      lt64 c.ready_instances (minimum_ready c)
      || c.current_primary == ""
      || not (has_key (primary_key c) index)
      || contains repl.unanswered (cluster_key c)
      || node_of index (primary_key c) == target
      || not (ready_at index (primary_key c))
      || lt64 (streaming_replicas c pods repl.standbys target) (sub64 (minimum_ready c) 1)

  unfoldable pub cnpg_survivability_failures :
      String → List CnpgCluster → List Pod → Replication → List CnpgCluster
  cnpg_survivability_failures target clusters pods repl =
      keep (database_at_risk target pods repl) clusters

  -- The test of waitForCNPGHealth.
  unfoldable pub database_unhealthy : List Pod → Replication → CnpgCluster → Bool
  database_unhealthy pods repl c =
      not (eqb c.ready_instances (desired_instances c))
      || not (c.phase == "Cluster in healthy state")
      || lt64 (streaming_replicas c pods repl.standbys "") (sub64 (desired_instances c) 1)

-- The clusters of a plan that have no candidate.
unfoldable pub without_candidate : List Switchover → List Switchover
without_candidate = keep (λ s. s.candidate == "" || s.candidate_node == "")

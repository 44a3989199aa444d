-- ===== src/Operation/DatabaseGates.antt =====
-- cnpg.go: the questions to the primaries, and the waits on CloudNativePG clusters.
use Prim.Native.String.{String}
use mathlib.Core.Bool.{Bool, false, true}
use mathlib.Core.List.{List, [], ◌++◌, ◌∷◌}
use mathlib.Core.Option.{Option, none, some}
use nix_packages.Base.{Dict, Floats, all, if◌then◌else◌, is_empty, keep, lt64}
use nix_packages.Kube.{Pod}
use nix_packages.Operation.Clusters.{
  CnpgCluster, Replication, cluster_key, desired_instances, parse_standbys, pod_index, primary_key,
  ready_at,
}
use nix_packages.Operation.Machine.{
  Gate, databases_at_risk, databases_unhealthy, no_candidate, pure, refuse, refused, ◌>>=◌,
}
use nix_packages.Operation.Switchovers.{
  Switchover, cnpg_survivability_failures, database_unhealthy, plan_switchovers, without_candidate,
}
use nix_packages.Operation.World.{
  Verdict, World, ask, deadline_after, duration_of, not_yet, poll_until, read_at, settled,
  wait_until_empty,
}
use nix_packages.Options.{Options}

module _ ⦃F : Floats⦄ (w : World) (o : Options) where
  unfoldable pub cnpg_installed : Gate Bool
  cnpg_installed = ask w (λ r. r.installed "clusters.postgresql.cnpg.io")

  -- One cluster's answer, merged into the others' (the loop's body).
  unfoldable pub with_answer : CnpgCluster → Option (List (List String)) → Replication → Replication
  with_answer c none repl = record repl { unanswered = repl.unanswered ++ cluster_key c ∷ [] }
  with_answer c (some lines) repl = record repl {
    standbys = parse_standbys c.metadata.namespace lines repl.standbys;
  }

  -- The query of a primary fails too once interrupted.
  unfoldable pub query_primary : CnpgCluster → Gate (Option (List (List String)))
  query_primary c = read_at w (λ r. r.psql c.metadata.namespace c.current_primary) >>= λ answer.
      pure (elim answer [ none ↦ none | some lines ↦ lines ])

  unfoldable pub ask_primary : Dict Pod → CnpgCluster → Replication → Gate Replication
  ask_primary index c repl =
      if lt64 (desired_instances c) 2
      then pure repl
      else if ready_at index (primary_key c)
      then (query_primary c >>= λ answer. pure (with_answer c answer repl))
      else pure (with_answer c none repl)

  unfoldable pub ask_primaries : Dict Pod → List CnpgCluster → Replication → Gate Replication
  ask_primaries index [] repl = pure repl
  ask_primaries index (c ∷ cs) repl = ask_primary index c repl >>= ask_primaries index cs

  unfoldable pub cnpg_standbys : List CnpgCluster → List Pod → Gate Replication
  cnpg_standbys clusters pods =
      ask_primaries (pod_index [] pods) clusters (record { standbys = []; unanswered = [] })

  unfoldable pub databases_at_risk_now : Gate (List CnpgCluster)
  databases_at_risk_now = do
    clusters ← ask w (λ r. r.clusters)
    pods ← ask w (λ r. r.cluster.get_all_pods)
    repl ← cnpg_standbys clusters pods
    pure (cnpg_survivability_failures o.node clusters pods repl)

  unfoldable pub wait_for_cnpg_survivability : Gate (Unit {0})
  wait_for_cnpg_survivability = cnpg_installed >>= λ found. elim found [
    | false ↦ pure tt
    | true ↦ deadline_after w (duration_of o.settle_timeout) >>= λ deadline.
        wait_until_empty w (refused databases_at_risk) deadline databases_at_risk_now
  ]

  unfoldable pub databases_unhealthy_now : Gate (List CnpgCluster)
  databases_unhealthy_now = do
    clusters ← ask w (λ r. r.clusters)
    pods ← ask w (λ r. r.cluster.get_all_pods)
    repl ← cnpg_standbys clusters pods
    pure (keep (database_unhealthy pods repl) clusters)

  unfoldable pub wait_for_cnpg_health : Gate (Unit {0})
  wait_for_cnpg_health = cnpg_installed >>= λ found. elim found [
    | false ↦ pure tt
    | true ↦ deadline_after w (duration_of o.settle_timeout) >>= λ deadline.
        wait_until_empty w (refused databases_unhealthy) deadline databases_unhealthy_now
  ]

  -- One plan's verdict: complete, or short of a candidate that may still catch up, or of one that
  -- cannot.
  unfoldable pub judge_plan : List Switchover → Gate (Verdict (List Switchover) (Unit {0}))
  judge_plan plan =
      let missing = without_candidate plan in
      if is_empty missing
      then pure (settled plan)
      else if all (λ s. s.lagging) missing
      then pure (not_yet (refused no_candidate) (pure tt))
      else refuse no_candidate

  unfoldable pub plan_now : Gate (Verdict (List Switchover) (Unit {0}))
  plan_now = do
    clusters ← ask w (λ r. r.clusters)
    pods ← ask w (λ r. r.cluster.get_all_pods)
    nodes ← ask w (λ r. r.cluster.get_nodes)
    repl ← cnpg_standbys clusters pods
    judge_plan (plan_switchovers o.node pods nodes repl.standbys clusters)

  unfoldable pub plan_cnpg_switchovers : Gate (List Switchover)
  plan_cnpg_switchovers = cnpg_installed >>= λ found. elim found [
    | false ↦ pure []
    | true ↦ deadline_after w (duration_of o.settle_timeout) >>= λ deadline.
        poll_until w (λ _. plan_now) deadline tt
  ]

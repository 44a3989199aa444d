-- ===== src/Operation/Changes.antt =====
-- operation.go and storage.go: the steps that change the cluster or the host one command at a
-- time, and those that keep the rebuild limit.
use Prim.Native.Nat.{ℕ}
use Prim.Native.String.{String}
use mathlib.Core.Bool.{Bool, not, ◌&&◌}
use mathlib.Core.List.{List, [], ◌∷◌}
use text.Mathlib.Text.{◌==◌}
use nix_packages.Base.{Floats, eqb, if◌then◌else◌, is_empty, minus_one, ok}
use nix_packages.Operation.DatabaseGates.{
  plan_cnpg_switchovers, wait_for_cnpg_health, wait_for_cnpg_survivability,
}
use nix_packages.Operation.Machine.{
  Action, Command, Event, Gate, Ledger, Reason, State, cordon_seen, detach_storage, gets, logged,
  modify, no_plugin, not_cordoned, observe, patch_rebuild_limit, promote, promotion, pure, ran,
  rebuild_limit, refuse, refuse_if, set_ledger, storage_active, uncordon, uncordon_failed, ◌>>=◌,
  ◌>>◌,
}
use nix_packages.Operation.StorageGates.{
  check_backup_target, check_replica_floor, longhorn_volumes_served, unhealthy_now, wait_for_detach,
  wait_for_healthy_volumes,
}
use nix_packages.Operation.Switchovers.{Switchover}
use nix_packages.Operation.WorkloadGates.{node_is_cordoned}
use nix_packages.Operation.World.{World, ask, deadline_after, duration_of, ticked}
use nix_packages.Options.{Options}

unfoldable pub ran_command : Command → ℕ → ℕ → State → State
ran_command c status took s = record {
  notes = ticked took s.notes;
  ledger = logged (ran c status) s.ledger;
}

abbrev pub note : Event → Action (Unit {0})
note e = modify (set_ledger (logged e))

unfoldable pub clear_limit : Ledger → Ledger
clear_limit l = record l { rebuild_limit_original = "" }

unfoldable pub record_limit : String → Ledger → Ledger
record_limit limit l = record l { rebuild_limit_original = limit }

module _ (w : World) (o : Options) where
  -- Run of a command that changes something: -1, and no command, once interrupted.
  unfoldable pub run_command : Command → Action ℕ
  run_command c = λ s. if w.interrupted_at s.notes.moment then (ok minus_one, s) else (
    ok (w.command_status s.notes.moment c),
    ran_command c (w.command_status s.notes.moment c) (w.took s.notes.moment) s,
  )

  -- Run with context.Background(): an interrupt does not stop it.
  unfoldable pub run_always : Command → Action ℕ
  run_always c = λ s. (
    ok (w.command_status s.notes.moment c),
    ran_command c (w.command_status s.notes.moment c) (w.took s.notes.moment) s,
  )

  unfoldable pub run_or : Command → Reason → Action (Unit {0})
  run_or c r = run_command c >>= λ status. refuse_if (not (eqb status 0)) r

  unfoldable pub uncordon_node : Action (Unit {0})
  uncordon_node = run_or uncordon uncordon_failed

  -- restoreRebuildLimit: nothing to do where no limit is recorded.
  unfoldable pub restore_rebuild_limit : Action (Unit {0})
  restore_rebuild_limit = gets (λ s. s.ledger.rebuild_limit_original) >>= λ original.
      if (original == "")
      then pure tt
      else (run_always (patch_rebuild_limit original) >>= λ status.
          if (eqb status 0) then (modify (set_ledger clear_limit)) else refuse rebuild_limit)

  -- The limit is recorded first, so that a failed patch is restored too.
  unfoldable pub raise_rebuild_limit : String → Action (Unit {0})
  raise_rebuild_limit limit =
      modify (set_ledger (record_limit limit)) >> run_or (patch_rebuild_limit "2") rebuild_limit

  -- The reads of waitForLonghornHealth up to its loop: the limit, the deadline and what is unhealthy.
  unfoldable pub health_reads : Gate (String × ℕ × Bool)
  health_reads = do
    _ ← check_replica_floor w o
    reuse ← ask w (λ r. r.setting "replica-replenishment-wait-interval")
    limit ← ask w (λ r. r.setting "concurrent-replica-rebuild-per-node-limit")
    deadline ← deadline_after w (duration_of o.settle_timeout)
    bad ← unhealthy_now w o
    pure (limit, deadline, not (is_empty bad))

  unfoldable pub admit_rebuilds : String → Bool → Action (Unit {0})
  admit_rebuilds limit degraded =
      if (degraded && limit == "0" && not o.check_only) then raise_rebuild_limit limit else pure tt

  unfoldable pub wait_for_longhorn_health : Action (Unit {0})
  wait_for_longhorn_health = observe (longhorn_volumes_served w o) >>= λ served.
      if served
      then (observe health_reads >>= λ found.
          admit_rebuilds found.0 found.2
          >> observe (wait_for_healthy_volumes w o found.1)
          >> restore_rebuild_limit
          >> observe (check_backup_target w o))
      else pure tt

  -- waitForNodeStorageDetach: only a real run reconciles sessions.
  unfoldable pub wait_for_node_storage_detach : Action (Unit {0})
  wait_for_node_storage_detach =
      observe (wait_for_detach w o) >> run_or (detach_storage (not o.check_only)) storage_active

  -- nodeIsCordoned, and verifyNodeIsCordoned.
  unfoldable pub read_cordon : ⦃F : Floats⦄ → Action Bool
  read_cordon =
      observe (node_is_cordoned w o) >>= λ cordoned. note (cordon_seen cordoned) >> pure cordoned

  unfoldable pub verify_node_is_cordoned : ⦃F : Floats⦄ → Action (Unit {0})
  verify_node_is_cordoned = read_cordon >>= λ cordoned. refuse_if (not cordoned) not_cordoned

  -- The promotions of switchCNPGPrimariesOffNode.
  unfoldable pub promote_all : List Switchover → Action (Unit {0})
  promote_all [] = pure tt
  promote_all (s ∷ rest) = run_or (promote s.candidate) promotion >> promote_all rest

module _ ⦃F : Floats⦄ (w : World) (o : Options) where
  unfoldable pub switch_planned : List Switchover → Action (Unit {0})
  switch_planned [] = pure tt
  switch_planned (s ∷ rest) =
      refuse_if (not w.has_cnpg_plugin) no_plugin
      >> promote_all w o (s ∷ rest)
      >> observe (wait_for_cnpg_health w o)
      >> observe (wait_for_cnpg_survivability w o)

  unfoldable pub switch_cnpg_primaries_off_node : Action (Unit {0})
  switch_cnpg_primaries_off_node = observe (plan_cnpg_switchovers w o) >>= switch_planned

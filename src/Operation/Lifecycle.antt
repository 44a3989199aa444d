-- ===== src/Operation/Lifecycle.antt =====
-- operation.go and host.go: reboot, powerOff, powerOn, checkOnly and Run. The power commands
-- stand here; ssh's status 255 is accepted, since the connection may drop as the host goes down.
use Prim.Native.Nat.{ℕ}
use mathlib.Core.Bool.{Bool, false, not, ◌||◌}
use mathlib.Core.List.{[]}
use mathlib.Core.Option.{none}
use text.Mathlib.Text.{◌==◌}
use nix_packages.Base.{Floats, Result, eqb, err, if◌then◌else◌, minus_one, ok}
use nix_packages.Operation.Changes.{
  read_cordon, restore_rebuild_limit, run_command, uncordon_node, verify_node_is_cordoned,
  wait_for_longhorn_health,
}
use nix_packages.Operation.DatabaseGates.{wait_for_cnpg_health, wait_for_cnpg_survivability}
use nix_packages.Operation.Fence.{
  check_own_agent, establish_baseline, initialize_fence_gate, keeping_cordon, set_agent_stopped,
  stop_fence_agent, wait_for_returned_fence_agent,
}
use nix_packages.Operation.Host.{
  reboot_needed, remember_boot_id, verify_new_boot, wait_for_ssh_down, wait_for_ssh_up,
}
use nix_packages.Operation.Machine.{
  Action, Failure, Gate, State, fail, gets, kept_cordon, modify, node_unready, observe,
  power_off_failed, power_off_host, pure, reboot_host, reboot_unknown, reboot_unstarted, refuse,
  refuse_if, refused, unsupported, ◌>>=◌, ◌>>◌,
}
use nix_packages.Operation.Network.{
  verify_survivor_node_network_paths, wait_for_returned_node_network,
}
use nix_packages.Operation.Prepare.{
  capacity_gates, check_node_access, check_node_exists, preflight_health, prepare_or_release,
  refuse_if_cordoned, set_workloads, survivability_gates, verify_resumed_maintenance_state,
}
use nix_packages.Operation.StorageGates.{wait_for_longhorn_survivability, warn_for_longhorn_health}
use nix_packages.Operation.WorkloadGates.{
  collect_target_pinned_pending_workloads, wait_for_no_bad_pods, wait_for_workloads,
}
use nix_packages.Operation.World.{World, probe, wait_ready}
use nix_packages.Options.{Options}

module _ ⦃F : Floats⦄ (w : World) (o : Options) where
  unfoldable pub reboot_host_step : Action (Unit {0})
  reboot_host_step = observe (remember_boot_id w o) >> run_command w o reboot_host >>= λ status.
      if (eqb status minus_one)
      then (fail (kept_cordon (refused reboot_unstarted)))
      else (if (eqb status 0 || eqb status 255)
          then pure tt
          else (fail (kept_cordon (refused reboot_unknown))))

  unfoldable pub power_off_host_step : Action (Unit {0})
  power_off_host_step = run_command w o power_off_host >>= λ status.
      refuse_if (not (eqb status 0 || eqb status 255)) power_off_failed

  -- The power action took effect.
  unfoldable pub verify_power_action : Gate (Unit {0})
  verify_power_action =
      wait_for_ssh_down w o >> set_agent_stopped w o false >> verify_survivor_node_network_paths w o

  unfoldable pub wait_for_node_ready : Gate (Unit {0})
  wait_for_node_ready = probe w (wait_ready o.ready_timeout) >>= λ status.
      if (eqb status 0) then pure tt else (fail (kept_cordon (refused node_unready)))

  unfoldable pub return_gates : Gate (Unit {0})
  return_gates =
      wait_for_node_ready
      >> wait_for_returned_node_network w o
      >> wait_for_longhorn_survivability w o
      >> wait_for_cnpg_survivability w o

  -- settleCluster; `off` only reports unhealthy volumes.
  unfoldable pub settle_cluster : Action (Unit {0})
  settle_cluster =
      observe (wait_for_workloads w o)
      >> (if (o.action == "off")
          then (observe (warn_for_longhorn_health w o))
          else wait_for_longhorn_health w o)
      >> observe (wait_for_cnpg_health w o)
      >> observe (wait_for_no_bad_pods w o)

  unfoldable pub finish_reboot : Action (Unit {0})
  finish_reboot =
      if o.leave_cordoned
      then pure tt
      else (wait_for_returned_fence_agent w o >> uncordon_node w o >> settle_cluster)

  unfoldable pub reboot : Action (Unit {0})
  reboot =
      prepare_or_release w o
      >> stop_fence_agent w o
      >> reboot_host_step
      >> observe verify_power_action
      >> observe (wait_for_ssh_up w o)
      >> observe (verify_new_boot w o)
      >> observe return_gates
      >> finish_reboot

  unfoldable pub power_off : Action (Unit {0})
  power_off =
      prepare_or_release w o
      >> stop_fence_agent w o
      >> power_off_host_step
      >> observe verify_power_action

  unfoldable pub establish_on_baseline : Action (Unit {0})
  establish_on_baseline = gets (λ s. s.ledger.has_agent) >>= λ has.
      if has then (keeping_cordon (establish_baseline w o)) else pure tt

  unfoldable pub power_on : Action (Unit {0})
  power_on =
      observe (check_node_exists w o)
      >> observe (wait_for_ssh_up w o)
      >> initialize_fence_gate w o
      >> observe wait_for_node_ready
      >> verify_node_is_cordoned w o
      >> observe (wait_for_returned_node_network w o)
      >> observe (survivability_gates w o)
      >> observe (collect_target_pinned_pending_workloads w o >>= λ xs. modify (set_workloads xs))
      >> establish_on_baseline
      >> wait_for_returned_fence_agent w o
      >> uncordon_node w o
      >> observe (wait_for_workloads w o)
      >> wait_for_longhorn_health w o
      >> observe (wait_for_cnpg_health w o)
      >> observe (wait_for_no_bad_pods w o)

  unfoldable pub check_fresh : Action (Unit {0})
  check_fresh = refuse_if_cordoned w o >> preflight_health w o >> observe (capacity_gates w o)

  unfoldable pub check_only_off : Action (Unit {0})
  check_only_off =
      check_node_access w o
      >> (if o.resume_maintenance then verify_resumed_maintenance_state w o else check_fresh)

  unfoldable pub check_on_gates : Action (Unit {0})
  check_on_gates =
      observe (check_node_exists w o)
      >> verify_node_is_cordoned w o
      >> observe (wait_for_ssh_up w o)
      >> initialize_fence_gate w o
      >> observe return_gates
      >> check_own_agent w o

-- checkOnlyOn sets the timeouts to zero: each gate is checked once.
unfoldable pub once : Options → Options
once o = record o { ssh_timeout_seconds = 0; ready_timeout = "0s"; settle_timeout = "0s" }

module _ ⦃F : Floats⦄ (w : World) (o : Options) where
  unfoldable pub check_only_run : Action (Unit {0})
  check_only_run = if (o.action == "on") then (check_on_gates w (once o)) else check_only_off w o

  unfoldable pub run_action : Action (Unit {0})
  run_action =
      if (o.action == "reboot")
      then reboot w o
      else (if (o.action == "off")
          then power_off w o
          else (if (o.action == "on") then power_on w o else refuse unsupported))

  unfoldable pub run_checked : Action (Unit {0})
  run_checked = if o.check_only then check_only_run else run_action

  -- --needed: true where the run is skipped.
  unfoldable pub skips_run : Action Bool
  skips_run =
      if o.needed
      then (observe (reboot_needed w o) >>= λ needed.
          if needed then pure false else (read_cordon w o >>= λ cordoned. pure (not cordoned)))
      else pure false

  unfoldable pub run : Action (Unit {0})
  run = skips_run >>= λ skipped. if skipped then pure tt else run_checked

  -- The exit status of Run before and after cleanup.
  unfoldable pub exit_of : Result Failure (Unit {0}) × State → ℕ × State
  exit_of (ok u, s) = (if w.interrupted_at s.notes.moment then 1 else 0, s)
  exit_of (err e, s) = (1, s)

  unfoldable pub cleaned : ℕ → Result Failure (Unit {0}) × State → ℕ × State
  cleaned status (ok u, s) = (status, s)
  cleaned status (err e, s) = (if eqb status 0 then 1 else status, s)

  -- Run: cleanup follows on every path.
  unfoldable pub run_operation : State → ℕ × State
  run_operation s =
      let (status, s') = exit_of (run s) in cleaned status (restore_rebuild_limit w o s')

-- New, at a time.
unfoldable pub new_state : ℕ → State
new_state time = record {
  notes = record {
    moment = 0;
    time = time;
    fence = record {
      previous_mode = "";
      status = none;
      status_exit = 0;
      agent_stopped = false;
      baseline = none;
    };
    workloads = [];
    boot_id = "";
  };
  ledger = record {
    trace = [];
    cordoned = false;
    releasable = false;
    rebuild_limit_original = "";
    has_agent = false;
  };
}

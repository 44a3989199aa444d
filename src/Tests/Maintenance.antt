-- ===== src/Tests/Maintenance.antt =====
-- A small cluster seen by a run of the node tool, and the theorems on a run at it.
use Prim.Native.Nat.{ℕ}
use mathlib.Core.Bool.{Bool, false, true}
use mathlib.Core.List.{List, [], ◌∷◌}
use mathlib.Core.Option.{none, some}
use mathlib.Core.Path.{refl, ◌≡◌}
use text.Mathlib.Text.{◌==◌}
use nix_packages.Base.{
  all, any, contains, digits_value, err, has_key, if◌then◌else◌, insert_by, is_digit, keep, lookup,
  ltb, ok, sort_by, span_digits, text_at,
}
use nix_packages.Capacity.Displaced.{codes_before, drop_repeats, unique_workloads}
use nix_packages.Capacity.Quantity.{read_failed}
use nix_packages.Capacity.Replacement.Templates.{Cluster}
use nix_packages.Kube.{active, internal_ips, node_is_ready}
use nix_packages.Operation.Changes.{
  admit_rebuilds, clear_limit, health_reads, promote_all, raise_rebuild_limit, ran_command,
  read_cordon, record_limit, restore_rebuild_limit, run_always, run_command, run_or,
  switch_cnpg_primaries_off_node, switch_planned, uncordon_node, verify_node_is_cordoned,
  wait_for_longhorn_health, wait_for_node_storage_detach,
}
use nix_packages.Operation.DatabaseGates.{
  ask_primaries, ask_primary, cnpg_installed, cnpg_standbys, databases_at_risk_now,
  databases_unhealthy_now, judge_plan, plan_cnpg_switchovers, plan_now, query_primary,
  wait_for_cnpg_health, wait_for_cnpg_survivability, with_answer,
}
use nix_packages.Operation.Fence.{
  after_stop, agent_not_returned, agent_shows_stopped, check_mode, check_own_agent,
  establish_baseline, fence_preflight, found_agent, heartbeat_returned, initialize_fence_gate,
  judge_own_agent, keeping_cordon, keeping_cordon_at, later_than, latest, manager_time,
  manager_time_of, manager_times, own_agent_returned, read_agent_annotation, read_fence_status,
  record_stop, reports_all, set_agent_stopped, set_baseline, set_notes_fence, status_read,
  stop_fence_agent, stop_running_agent, verify_fence_preflight, wait_for_own_agent,
  wait_for_returned_fence_agent,
}
use nix_packages.Operation.Guarded.{is_guarded}
use nix_packages.Operation.Host.{
  down_attempts, drop_newlines, read_boot_id, reboot_needed, remember_boot_id, up_attempts,
  up_round, verify_new_boot, verify_remote_privilege, wait_for_ssh_down, wait_for_ssh_up,
}
use nix_packages.Operation.Lifecycle.{
  check_fresh, check_on_gates, check_only_off, check_only_run, cleaned, establish_on_baseline,
  exit_of, finish_reboot, new_state, once, power_off, power_off_host_step, power_on, reboot,
  reboot_host_step, return_gates, run, run_action, run_checked, run_operation, settle_cluster,
  skips_run, verify_power_action, wait_for_node_ready,
}
use nix_packages.Operation.LimitLaws.{limit_open, run-ClosesLimit}
use nix_packages.Operation.Machine.{
  Event, agent_seen, bind_at, cordon_seen, detach_storage, fail, gets, lift, logged, modify,
  observe, observe_at, pure, ran, reboot_host, refuse_if, set_fence, set_ledger, uncordon, ◌>>=◌,
}
use nix_packages.Operation.Network.{
  is_address, is_address_code, is_only, join_spaced, probe_fails, ready_statuses, single_address,
  verify_all_node_network_paths, verify_network_path_on_node, verify_nodes,
  verify_returned_node_network, verify_survivor_node_network_paths, wait_for_returned_node_network,
}
use nix_packages.Operation.PowerGuard.{run-GuardsPower}
use nix_packages.Operation.Prepare.{
  capacity_gates, check_node_access, check_node_exists, cordon_held_flag, cordon_node, drain_node,
  fit_gate, named_kept, own_cordon_flags, past_release, pdb_gate, preflight_health,
  prepare_node_for_disruption, prepare_or_release, refuse_if_cordoned, release_cordon, released_at,
  set_workloads, slots_gate, start_fresh, start_resumed, survivability_gates,
  verify_resumed_maintenance_state,
}
use nix_packages.Operation.ReadyFloorGate.{
  add_replica, cannot_schedule, check_workload, check_workloads, count_replicas, counted_as,
  deployment_of, is_unschedulable, ready_floor_round, ready_replicas_of, replica_id, seen_since,
  since_of, stuck_ids, unschedulable_replicas, wait_for_controller_ready_floor,
  wait_for_displaced_workload_survivability, watch_unschedulable,
}
use nix_packages.Operation.RunLaws.{check_only-Harmless, harmless, keeps_cordon, run-KeepsCordon}
use nix_packages.Operation.StorageGates.{
  attached_now, attachments_now, check_backup_target, check_longhorn_replica_spread,
  check_replica_floor, list_longhorn_volumes, longhorn_volumes_served, unhealthy_now,
  volumes_at_risk_now, wait_for_detach, wait_for_healthy_volumes, wait_for_longhorn_survivability,
  wait_for_volumes_to_detach, warn_for_longhorn_health,
}
use nix_packages.Operation.Volumes.{remaining_attachments}
use nix_packages.Operation.WorkloadGates.{
  bad_pods_now, collect_displaced_workloads, collect_target_pinned_pending_workloads,
  displaced_owners, is_stuck_container, is_unhealthy, node_is_cordoned, not_maintenance, owner_of,
  pinned_from, pinned_only, settle_workload, settle_workloads, unhealthy_pods,
  verify_node_has_only_maintenance_pods, wait_for_no_bad_pods, wait_for_workloads, wait_labels,
  workload_requires_target_node,
}
use nix_packages.Operation.World.{
  Probe, Reads, World, after, after_check, ask, deadline_after, duration_of, expired,
  is_interrupted, judge_blocking, pause, poll_rounds, poll_until, probe, probe_output, read_at,
  ssh_down, ticked, wait_until_empty,
}
use nix_packages.Options.{Options, default_options}
use nix_packages.Options.Durations.{
  is_unit, parse_duration, read_duration, safe_name, unit_nanoseconds,
}
use nix_packages.Tests.Cluster.{meta, node_named, ready, whole_floats}

abbrev pub quiet_cluster : Cluster
quiet_cluster = record {
  find_controller = λ namespace name. ok none;
  find_replica_set = λ namespace name. ok none;
  find_stateful_set = λ namespace name. ok none;
  get_replica_set = λ namespace name. err (read_failed "replicaset");
  get_stateful_set = λ namespace name. err (read_failed "statefulset");
  get_revision = λ namespace name. err (read_failed "controllerrevision");
  get_limit_ranges = λ namespace. ok [];
  get_nodes = ok [];
  get_pods = λ namespace. ok [];
  get_all_pods = ok [];
}

-- A cluster without Longhorn and CloudNativePG, whose node is cordoned and has no agent.
abbrev pub quiet_reads : Reads
quiet_reads = record {
  cluster = quiet_cluster;
  node = ok (record (node_named "target" []) {
    metadata = record (meta "target" []) {
      annotations = ("flannel.alpha.coreos.com/public-ip", "10.0.0.1") ∷ [];
    };
    spec = record { unschedulable = true; taints = [] };
    status = record {
      conditions = ready ∷ [];
      addresses = record { type = "InternalIP"; address = "10.0.0.1" } ∷ [];
      allocatable = [];
    };
  });
  node_pods = ok [];
  pending_pods = ok [];
  budgets = ok [];
  installed = λ crd. ok false;
  volumes = ok [];
  replicas = ok [];
  attachments = ok [];
  setting = λ name. ok "0";
  default_backup_target = ok none;
  clusters = ok [];
  psql = λ namespace pod. none;
  fence_annotations = some [];
  managed = none;
  reboot_unneeded = false;
  audit_script = some "";
}

-- SSH drops once, and the boot ID changes by then.
abbrev quiet_status : ℕ → Probe → ℕ
quiet_status moment p = elim p [ ssh_down ↦ 255 | _ ↦ 0 ]

abbrev pub quiet_world : World
quiet_world = record {
  interrupted_at = λ moment. false;
  took = λ moment. 1000000000;
  reads = λ moment. quiet_reads;
  probe_status = quiet_status;
  probe_text = λ moment p. if ltb moment 14 then "old" else "new";
  command_status = λ moment c. 0;
  decode = λ text. none;
  render = λ value. "";
  to_lower = λ text. text;
  equal_fold = λ a b. a == b;
  has_cnpg_plugin = true;
}

-- A second maintenance of a node that is cordoned already.
abbrev pub resumed_reboot : Options
resumed_reboot = record (default_options "" "" "reboot") {
  host = "server1";
  node = "target";
  ssh_target = "root@server1";
  resume_maintenance = true;
  drain_timeout = "10m";
}

abbrev pub checked_reboot : Options
checked_reboot = record resumed_reboot { check_only = true }

abbrev pub kept_reboot : Options
kept_reboot = record resumed_reboot { leave_cordoned = true; leave_cordoned_requested = true }

abbrev final_trace : List Event
final_trace = (run_operation quiet_world resumed_reboot (new_state 0)).1.ledger.trace

abbrev final_status : ℕ
final_status = (run_operation quiet_world resumed_reboot (new_state 0)).0

run-GuardsPower_example :
    is_guarded resumed_reboot
      (run_operation quiet_world resumed_reboot (new_state 0)).1.ledger.trace
    ≡ true
run-GuardsPower_example = run-GuardsPower resumed_reboot quiet_world 0

check_only-Harmless_example :
    all harmless (run_operation quiet_world checked_reboot (new_state 0)).1.ledger.trace ≡ true
unfolding default_options
check_only-Harmless_example = check_only-Harmless quiet_world checked_reboot 0 refl

run-KeepsCordon_example :
    all keeps_cordon (run_operation quiet_world kept_reboot (new_state 0)).1.ledger.trace ≡ true
unfolding default_options
run-KeepsCordon_example = run-KeepsCordon quiet_world kept_reboot 0 refl refl refl

-- Everything that a run computes with.
abbrev run_is_open : Bool
unfolding bind_at ◌>>=◌ pure fail refuse_if gets modify lift observe_at observe logged set_ledger
    set_fence duration_of after ticked probe probe_output read_at ask is_interrupted pause expired
    deadline_after after_check poll_rounds poll_until judge_blocking wait_until_empty
    is_address_code is_address single_address join_spaced ready_statuses is_only
    verify_network_path_on_node verify_nodes verify_all_node_network_paths
    verify_survivor_node_network_paths verify_returned_node_network probe_fails
    wait_for_returned_node_network drop_newlines reboot_needed verify_remote_privilege read_boot_id
    remember_boot_id verify_new_boot down_attempts wait_for_ssh_down up_round up_attempts
    wait_for_ssh_up longhorn_volumes_served list_longhorn_volumes unhealthy_now
    wait_for_healthy_volumes check_replica_floor check_backup_target warn_for_longhorn_health
    check_longhorn_replica_spread volumes_at_risk_now wait_for_longhorn_survivability attached_now
    attachments_now wait_for_volumes_to_detach wait_for_detach is_stuck_container is_unhealthy
    unhealthy_pods not_maintenance owner_of displaced_owners collect_displaced_workloads
    workload_requires_target_node pinned_only pinned_from collect_target_pinned_pending_workloads
    wait_labels settle_workload settle_workloads wait_for_workloads bad_pods_now
    wait_for_no_bad_pods node_is_cordoned verify_node_has_only_maintenance_pods deployment_of
    counted_as is_unschedulable cannot_schedule replica_id add_replica since_of seen_since stuck_ids
    ready_replicas_of count_replicas unschedulable_replicas watch_unschedulable ready_floor_round
    wait_for_controller_ready_floor check_workload check_workloads
    wait_for_displaced_workload_survivability ran_command clear_limit record_limit run_command
    run_always run_or uncordon_node restore_rebuild_limit raise_rebuild_limit health_reads
    admit_rebuilds wait_for_longhorn_health wait_for_node_storage_detach read_cordon
    verify_node_is_cordoned promote_all switch_planned switch_cnpg_primaries_off_node manager_times
    latest manager_time_of later_than heartbeat_returned reports_all found_agent status_read
    set_notes_fence keeping_cordon_at keeping_cordon read_agent_annotation initialize_fence_gate
    read_fence_status check_mode fence_preflight verify_fence_preflight manager_time set_baseline
    establish_baseline agent_shows_stopped set_agent_stopped record_stop after_stop
    stop_running_agent stop_fence_agent own_agent_returned agent_not_returned wait_for_own_agent
    wait_for_returned_fence_agent judge_own_agent check_own_agent cordon_held_flag own_cordon_flags
    past_release set_workloads named_kept check_node_exists check_node_access preflight_health
    survivability_gates verify_resumed_maintenance_state refuse_if_cordoned pdb_gate slots_gate
    fit_gate capacity_gates cordon_node drain_node start_resumed start_fresh
    prepare_node_for_disruption release_cordon released_at prepare_or_release reboot_host_step
    power_off_host_step verify_power_action wait_for_node_ready return_gates settle_cluster
    finish_reboot reboot power_off establish_on_baseline power_on check_fresh check_only_off
    check_on_gates once check_only_run run_action run_checked skips_run run exit_of cleaned
    run_operation new_state cnpg_installed with_answer query_primary ask_primary ask_primaries
    cnpg_standbys databases_at_risk_now wait_for_cnpg_survivability databases_unhealthy_now
    wait_for_cnpg_health judge_plan plan_now plan_cnpg_switchovers remaining_attachments
    default_options keep any all has_key lookup text_at contains internal_ips node_is_ready
    codes_before sort_by insert_by drop_repeats unique_workloads active is_digit safe_name
    parse_duration read_duration span_digits digits_value is_unit unit_nanoseconds
run_is_open = true

-- The resumed reboot goes through: the host is rebooted on a cordon that was found, and the node is
-- uncordoned at the end.
resumed_run :
    (final_status ≡ 0)
    × (final_trace
        ≡ ran uncordon 0
          ∷ ran reboot_host 0
          ∷ ran (detach_storage true) 0
          ∷ cordon_seen true
          ∷ agent_seen false
          ∷ [])
unfolding run_is_open
resumed_run = (refl, refl)

run-ClosesLimit_example :
    (limit_open (run_operation quiet_world resumed_reboot (new_state 0)).1.ledger.trace ≡ false)
    × ((run_operation quiet_world resumed_reboot (new_state 0)).1.ledger.rebuild_limit_original
        ≡ "")
run-ClosesLimit_example = run-ClosesLimit quiet_world resumed_reboot 0 resumed_run.0

-- ===== src/Tests/GateCases.antt =====
-- The gates of a maintenance at concrete objects.
use Prim.Native.Nat.{ℕ, ◌/◌}
use Prim.Native.String.{String}
use mathlib.Core.Bool.{false, true}
use mathlib.Core.List.{List, [], ◌∷◌}
use mathlib.Core.Logic.{inl, ◌↔◌, ◌⊎◌}
use mathlib.Core.Option.{some}
use mathlib.Core.Path.{refl, ◌≡◌}
use native.Mathlib.Omega.{arith}
use nix_packages.Base.{
  All, Dict, Has, add64, all, any, contains, digits_value, eqb, has_key, insert, insert_by,
  is_digit, keep, le64, lookup, lt64, show_int64, sort_by, span_digits, text_at, ◌<>◌,
}
use nix_packages.Capacity.Displaced.{codes_before}
use nix_packages.Kube.{
  Node, Pod, Workload, active, has_owner, is_instance_manager, is_mirror, node_is_ready,
  running_and_ready,
}
use nix_packages.Operation.Clusters.{
  CnpgCluster, Standby, caught_up, node_of, pod_index, primary_key, standby_at, within_lag,
}
use nix_packages.Operation.DrainLaws.{Longest, choose_timeout-covers, time_for}
use nix_packages.Operation.DrainTimeout.{
  choose_timeout, grace_of, is_drained, longest_grace, needed_time, raised_timeout,
}
use nix_packages.Operation.Endings.{wait_for_ready_floor-Ended, wait_for_ssh_up-Ended}
use nix_packages.Operation.FenceLaws.{IsHealthy, fence_state_failures_iff}
use nix_packages.Operation.FenceStatus.{
  fence_state_failures, fence_states, known_mode, number_lt, one_own_state, own_fence_state,
  own_states, parse_fence_status, since_problem, state_problem, states_of, status_names_node,
  status_object, timing_problem,
}
use nix_packages.Operation.Host.{wait_for_ssh_up}
use nix_packages.Operation.Json.{
  Fields, array, as_object, boolean, field, find_field, get_field, is_false, is_null, is_text,
  is_true, item, items_of, no_fields, no_items, null, number, number_of, object, objects_of, string,
}
use nix_packages.Operation.Lifecycle.{new_state}
use nix_packages.Operation.Machine.{Notes, State}
use nix_packages.Operation.ReadyFloorGate.{wait_for_controller_ready_floor}
use nix_packages.Operation.ReportLaws.{IsOwn, parse_fence_status-IsOwn}
use nix_packages.Operation.SwitchoverLaws.{Picks, RunsPrimary, plan_switchovers_sound}
use nix_packages.Operation.Switchovers.{
  Switchover, candidates_of, healthy_instances, healthy_replica, is_caught_up, is_lagging,
  is_streaming, may_take_over, node_index, on_taking_node, plan_switchovers, switchover_of,
  switchover_to, takes_primary,
}
use nix_packages.Operation.VolumeLaws.{IsSafe, survivability_iff}
use nix_packages.Operation.Volumes.{
  LonghornReplica, LonghornVolume, at_risk, attached_or_attaching, survivability_failures, survives,
  surviving_nodes, surviving_replica_nodes,
}
use nix_packages.Operation.Waits.{Ended}
use nix_packages.Operation.World.{duration_of}
use nix_packages.Options.{default_options}
use nix_packages.Options.Durations.{is_unit, parse_duration, read_duration, unit_nanoseconds}
use nix_packages.Tests.Cluster.{
  meta, node_named, plain_spec, pod_named, running_container, whole_floats,
}
use nix_packages.Tests.Maintenance.{quiet_world, resumed_reboot}

abbrev first_notes : Notes
unfolding new_state
first_notes = (new_state 0).notes

abbrev held_state : State
held_state = record {
  notes = first_notes;
  ledger = record {
    trace = [];
    cordoned = true;
    releasable = true;
    rebuild_limit_original = "";
    has_agent = false;
  };
}

abbrev web_workload : Workload
web_workload = record { namespace = "default"; kind = "deployment"; name = "web" }

wait_for_ready_floor-Ended_example :
    Ended first_notes.time
      (wait_for_controller_ready_floor quiet_world resumed_reboot web_workload 2 first_notes)
wait_for_ready_floor-Ended_example =
    wait_for_ready_floor-Ended quiet_world resumed_reboot web_workload 2 first_notes

wait_for_ssh_up-Ended_example :
    Ended first_notes.time (wait_for_ssh_up quiet_world resumed_reboot first_notes)
unfolding default_options
wait_for_ssh_up-Ended_example =
    wait_for_ssh_up-Ended quiet_world resumed_reboot (omega arith) first_notes

-- One volume with three replicas, on the target and two other nodes.
abbrev replica_on : String → LonghornReplica
replica_on node = record {
  volume_name = "vol";
  node_id = node;
  failed_at = "";
  current_state = "running";
}

abbrev volume : LonghornVolume
volume = record {
  metadata = meta "vol" [];
  number_of_replicas = 3;
  node_id = "alpha";
  state = "attached";
  robustness = "degraded";
  current_node_id = "alpha";
  claim_namespace = "default";
  claim_name = "web-data";
}

abbrev spread_replicas : List LonghornReplica
spread_replicas = replica_on "target" ∷ replica_on "alpha" ∷ replica_on "beta" ∷ []

survivability_iff_example : (survivability_failures "target" (volume ∷ []) spread_replicas ≡ []) ↔ (
    (v : LonghornVolume)
    → Has v (volume ∷ [])
    → attached_or_attaching v ≡ true
    → IsSafe "target" spread_replicas v)
survivability_iff_example = survivability_iff "target" (volume ∷ []) spread_replicas

survivable_volume : survivability_failures "target" (volume ∷ []) spread_replicas ≡ []
unfolding survivability_failures keep at_risk surviving_replica_nodes surviving_nodes survives
    contains sort_by insert_by codes_before lt64 attached_or_attaching
survivable_volume = refl

-- A state that is healthy, with no unfence on record.
abbrev healthy_state : Fields
healthy_state = field "ok" (boolean true) (
    field "fenced" (boolean false) (
      field "classification" (string "healthy") (
        field "mode" (string "enforce")
          (field "refence_window" (number "300") (field "since_unfence" null no_fields)))))

fence_state_failures_iff_example :
    (fence_state_failures (λ value. "") (healthy_state ∷ []) ≡ [])
    ↔ All IsHealthy (healthy_state ∷ [])
fence_state_failures_iff_example = fence_state_failures_iff (λ value. "") (healthy_state ∷ [])

-- A healthy server passes.
passing_server : fence_state_failures (λ value. "") (healthy_state ∷ []) ≡ []
unfolding fence_state_failures state_problem timing_problem since_problem get_field find_field
    is_true is_false is_text is_null number_of known_mode number_lt digits_value
passing_server = refl

abbrev slow_pod : Pod
slow_pod = record (pod_named "web-1" "target") {
  spec = record (plain_spec "target") { termination_grace_period_seconds = some 900 };
}

choose_timeout-covers_example :
    (longest : ℕ) × Longest (slow_pod ∷ []) longest
    × (((choose_timeout resumed_reboot (slow_pod ∷ [])
            ≡ show_int64 (time_for longest / 1000000000) <> "s")
          × (resumed_reboot.drain_timeout_set ≡ false)
          × (eqb (duration_of resumed_reboot.drain_timeout) 0 ≡ false)
          × (le64 (time_for longest) (duration_of resumed_reboot.drain_timeout) ≡ false))
        ⊎ ((choose_timeout resumed_reboot (slow_pod ∷ []) ≡ resumed_reboot.drain_timeout)
            × ((resumed_reboot.drain_timeout_set ≡ true)
                ⊎ ((eqb (duration_of resumed_reboot.drain_timeout) 0 ≡ true)
                    ⊎ (le64 (time_for longest) (duration_of resumed_reboot.drain_timeout)
                        ≡ true)))))
choose_timeout-covers_example = choose_timeout-covers resumed_reboot (slow_pod ∷ [])

raised_drain : choose_timeout resumed_reboot (slow_pod ∷ []) ≡ "1020s"
unfolding choose_timeout needed_time longest_grace is_drained grace_of raised_timeout duration_of
    parse_duration span_digits is_unit digits_value unit_nanoseconds le64 lt64 add64 active
    has_owner any is_mirror has_key lookup is_instance_manager text_at is_digit show_int64
    read_duration default_options
raised_drain = refl

-- A primary on the target, and a replica that is caught up.
abbrev database_pod : String → String → String → Pod
database_pod name role node_name = record (pod_named name node_name) {
  metadata = meta name (
      ("cnpg.io/cluster", "db")
      ∷ ("cnpg.io/podRole", "instance")
      ∷ ("cnpg.io/instanceRole", role)
      ∷ []);
  status = record (pod_named name node_name).status { container_statuses = running_container ∷ [] };
}

abbrev database : CnpgCluster
database = record {
  metadata = meta "db" [];
  instances = some 2;
  ready_instances = 2;
  current_primary = "db-1";
  phase = "Cluster in healthy state";
  instances_status = ("healthy", "db-1" ∷ "db-2" ∷ []) ∷ [];
}

abbrev stable_node : Node
stable_node = record (node_named "alpha" []) {
  metadata = meta "alpha" (("workload-class", "stable") ∷ []);
}

abbrev database_pods : List Pod
database_pods = database_pod "db-1" "primary" "target" ∷ database_pod "db-2" "replica" "alpha" ∷ []

abbrev database_standbys : Dict Standby
database_standbys = ("default/db-2", ("streaming", some 0)) ∷ []

abbrev planned : Switchover
planned = record {
  namespace = "default";
  cluster = "db";
  primary = "db-1";
  candidate = "db-2";
  candidate_node = "alpha";
  lagging = false;
}

plan_switchovers_sound_example :
    (c : CnpgCluster) × Has c (database ∷ [])
    × RunsPrimary "target" database_pods c
    × Picks "target" database_pods (stable_node ∷ []) database_standbys c planned
unfolding plan_switchovers switchover_of switchover_to candidates_of is_lagging may_take_over
    healthy_replica on_taking_node takes_primary is_caught_up caught_up within_lag standby_at
    is_streaming node_index pod_index node_of primary_key lookup insert text_at running_and_ready
    healthy_instances contains keep any all sort_by insert_by node_is_ready
plan_switchovers_sound_example =
    plan_switchovers_sound "target" database_pods (stable_node ∷ []) database_standbys
      (database ∷ []) planned refl (inl refl)

abbrev own_report : Fields
own_report = field "node" (string "target") (
    field "states"
      (array (
        item (object (field "self" (boolean true) (field "node" (string "target") no_fields)))
          (item null no_items)))
      no_fields)

parse_fence_status-IsOwn_example :
    (get_field "node" own_report ≡ string "target")
    × IsOwn "target" (fence_states (some own_report)) (own_fence_state (some own_report))
unfolding parse_fence_status status_object status_names_node states_of own_states one_own_state
    get_field find_field is_true is_text items_of objects_of as_object keep
parse_fence_status-IsOwn_example =
    parse_fence_status-IsOwn (λ reply. some (object own_report)) "{}" "target" own_report refl

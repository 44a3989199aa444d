-- ===== src/Operation/Fence.antt =====
-- fence.go: the gates of the self-fence agent around a power action. Dropped: the texts of
-- failures, which only the operator reads.
use Prim.Native.Nat.{ℕ}
use Prim.Native.String.{String}
use mathlib.Core.Bool.{Bool, false, not, true, ◌&&◌, ◌||◌}
use mathlib.Core.List.{List, [], ◌∷◌}
use mathlib.Core.Option.{Option, none, some}
use text.Mathlib.Text.{◌==◌}
use nix_packages.Base.{
  Floats, Result, any, eqb, err, has_key, if◌then◌else◌, is_empty, le64, length, lt64, ltb, ok,
  text_at,
}
use nix_packages.Operation.Changes.{run_or}
use nix_packages.Operation.FenceStatus.{
  counts_servers, fence_state_failures, fence_states, jq_text, node_blocks_fence, own_agent_healthy,
  own_fence_state, parse_fence_status, reported_names, unreported_node,
}
use nix_packages.Operation.Json.{Fields, get_field}
use nix_packages.Operation.Machine.{
  Action, Failure, FenceState, Gate, Ledger, Notes, State, agent_running, agent_seen, agent_stop,
  annotate_baseline, baseline_cleanup, baseline_time, baseline_write, fence_metadata, fence_mode,
  fence_preflight_failed, fence_return, fence_servers, fence_status_invalid, gets, kept_cordon,
  logged, modify, observe, own_agent, pure, refuse, refuse_if, refused, remove_baseline, set_ledger,
  stop_agent, ◌>>=◌, ◌>>◌,
}
use nix_packages.Operation.World.{
  ManagedField, ManagedFieldsNode, World, ask, deadline_after, duration_of, fence_status,
  fence_stop_timeout, probe_output, read_at, wait_until_empty,
}
use nix_packages.Options.{Options}
use nix_packages.Placement.Spread.{is_none}

abbrev agent_annotation : String
agent_annotation = "fence.alc.xyz/agent-mode"

abbrev agent_manager : String
agent_manager = "node-self-fence"

abbrev baseline_manager : String
baseline_manager = "k8s-node-reboot"

-- managerTimes: none where one of them is no timestamp.
unfoldable pub manager_times : String → List ManagedField → Option (List ℕ)
manager_times manager [] = some []
manager_times manager (f ∷ fs) = elim (manager_times manager fs) [
  | none ↦ none
  | some later ↦
      if f.manager == manager
      then elim f.seconds [ none ↦ none | some t ↦ some (t ∷ later) ]
      else some later
]

-- slices.Max of the times, where there are any.
unfoldable pub latest : List ℕ → Option ℕ
latest [] = none
latest (t ∷ ts) = some (elim (latest ts) [ none ↦ t | some m ↦ if ltb t m then m else t ])

unfoldable pub manager_time_of : String → Option ManagedFieldsNode → Option ℕ
manager_time_of manager none = none
manager_time_of manager (some n) = elim (manager_times manager n.managed_fields) [
  | none ↦ none
  | some times ↦ latest times
]

unfoldable pub later_than : Option ℕ → Option ℕ → Bool
later_than (some heartbeat) (some baseline) = ltb baseline heartbeat
later_than none b = false
later_than (some h) none = false

-- The annotation and the heartbeat of ownAgentReturned.
unfoldable pub heartbeat_returned : String → Option ℕ → Option ManagedFieldsNode → Bool
heartbeat_returned mode baseline none = false
heartbeat_returned mode baseline (some n) =
    text_at agent_annotation n.annotations == mode
    && later_than (manager_time_of agent_manager (some n)) baseline

-- `status["servers"]` is the number of states.
module _ ⦃F : Floats⦄ where
  unfoldable pub reports_all : Option Fields → ℕ → Bool
  reports_all status count = elim status [
    | none ↦ false
    | some fields ↦ counts_servers (get_field "servers" fields) count
  ]

unfoldable pub found_agent : Bool → Ledger → Ledger
found_agent has l = record (logged (agent_seen has) l) { has_agent = has }

unfoldable pub status_read : ℕ → Option Fields → FenceState → FenceState
status_read exit status f = record f { status_exit = exit; status = status }

unfoldable pub set_notes_fence : (FenceState → FenceState) → Notes → Notes
set_notes_fence f n = record n { fence = f n.fence }

-- `fmt.Errorf("%w; %s", err, recovery)`, which says that the node remains cordoned.
unfoldable pub keeping_cordon_at :
    {A : Type 0} → Result Failure A × State → Result Failure A × State
keeping_cordon_at (ok a, s) = (ok a, s)
keeping_cordon_at (err e, s) = (err (kept_cordon e), s)

unfoldable pub keeping_cordon : {A : Type 0} → Action A → Action A
keeping_cordon m = λ s. keeping_cordon_at (m s)

module _ ⦃F : Floats⦄ (w : World) (o : Options) where
  unfoldable pub read_agent_annotation : Gate Bool
  read_agent_annotation = read_at w (λ r. r.fence_annotations) >>= λ answer. elim answer [
    | none ↦ refuse fence_metadata
    | some found ↦ elim found [
      | none ↦ refuse fence_metadata
      | some annotations ↦ pure (has_key agent_annotation annotations)
    ]
  ]

  unfoldable pub initialize_fence_gate : Action Bool
  initialize_fence_gate =
      observe read_agent_annotation >>= λ has. modify (set_ledger (found_agent has)) >> pure has

  -- readFenceStatus: 127 is a command that is missing.
  unfoldable pub read_fence_status : Gate Bool
  read_fence_status = probe_output w fence_status >>= λ r.
      let status = if eqb r.0 127 then none else parse_fence_status w.decode r.1 o.node in
      modify (set_notes_fence (status_read r.0 status)) >> pure (not (is_none status))

  -- The mode of the target's agent: recorded once, and compared afterwards.
  unfoldable pub check_mode : String → Gate (Unit {0})
  check_mode mode = gets (λ n. n.fence.previous_mode) >>= λ previous.
      if (previous == "")
      then (modify (set_notes_fence (λ f. record f { previous_mode = mode })))
      else (refuse_if (not (mode == previous)) fence_mode)

  -- verifyFencePreflight, for a target with an agent.
  unfoldable pub fence_preflight : Gate (Unit {0})
  fence_preflight = do
    nodes ← ask w (λ r. r.cluster.get_nodes)
    _ ← refuse_if (any node_blocks_fence nodes) fence_preflight_failed
    known ← read_fence_status
    _ ← refuse_if (not known) fence_status_invalid
    fence ← gets (λ n. n.fence)
    let states = fence_states fence.status
    _ ← refuse_if (not (is_empty (fence_state_failures w.render states))) fence_preflight_failed
    _ ← refuse_if (not (eqb fence.status_exit 0)) fence_status_invalid
    _ ← refuse_if (not (reports_all fence.status (length states))) fence_servers
    _ ← refuse_if (any (unreported_node (reported_names states)) nodes) fence_preflight_failed
    check_mode (jq_text w.render (get_field "mode" (own_fence_state fence.status)))

  unfoldable pub verify_fence_preflight : Action (Unit {0})
  verify_fence_preflight =
      initialize_fence_gate >>= λ has. if has then observe fence_preflight else pure tt

  -- managerTime: none as well where the read fails.
  unfoldable pub manager_time : String → Gate (Option ℕ)
  manager_time manager = read_at w (λ r. r.managed) >>= λ answer.
      pure (elim answer [ none ↦ none | some n ↦ manager_time_of manager n ])

  unfoldable pub set_baseline : Option ℕ → Gate (Unit {0})
  set_baseline t = modify (set_notes_fence (λ f. record f { baseline = t }))

  -- The value of the annotation, unique to the run, is not modelled.
  unfoldable pub establish_baseline : Action (Unit {0})
  establish_baseline = do
    _ ← run_or w o (annotate_baseline o.node) baseline_write
    baseline ← observe (manager_time baseline_manager)
    _ ← run_or w o remove_baseline baseline_cleanup
    _ ← refuse_if (is_none baseline) baseline_time
    observe (set_baseline baseline)

  -- The check of the stop's loop.
  unfoldable pub agent_shows_stopped : Gate (List String)
  agent_shows_stopped = read_at w (λ r. r.node) >>= λ answer. pure (elim answer [
    | none ↦ o.node ∷ []
    | some found ↦ elim found [
      | err e ↦ o.node ∷ []
      | ok n ↦
          if text_at agent_annotation n.metadata.annotations == "stopped" then [] else o.node ∷ []
    ]
  ])

  unfoldable pub set_agent_stopped : Bool → Gate (Unit {0})
  set_agent_stopped b = modify (set_notes_fence (λ f. record f { agent_stopped = b }))

  unfoldable pub record_stop : Gate (Option ℕ)
  record_stop =
      set_agent_stopped true >> manager_time agent_manager >>= λ t. set_baseline t >> pure t

  -- Without an API-server time of the stop, a baseline of the run's own takes its place.
  unfoldable pub after_stop : Option ℕ → Action (Unit {0})
  after_stop none = keeping_cordon establish_baseline
  after_stop (some t) = pure tt

  unfoldable pub stop_running_agent : Action (Unit {0})
  stop_running_agent = do
    deadline ← observe (deadline_after w fence_stop_timeout)
    _ ← verify_fence_preflight
    _ ← keeping_cordon (run_or w o stop_agent agent_stop)
    _ ←
        observe
          (wait_until_empty w (kept_cordon (refused agent_running)) deadline agent_shows_stopped)
    t ← observe record_stop
    after_stop t

  unfoldable pub stop_fence_agent : Action (Unit {0})
  stop_fence_agent =
      gets (λ s. s.ledger.has_agent) >>= λ has. if has then stop_running_agent else pure tt

  -- ownAgentReturned, after a status that parsed.
  unfoldable pub own_agent_returned : Gate Bool
  own_agent_returned = gets (λ n. n.fence) >>= λ fence.
      let own = own_fence_state fence.status in
      let mode = jq_text w.render (get_field "mode" own) in
      if not (own_agent_healthy own) || not (o.action == "on") && not (mode == fence.previous_mode)
      then pure false
      else (read_at w (λ r. r.managed) >>= λ answer.
          pure (elim answer [ none ↦ false | some n ↦ heartbeat_returned mode fence.baseline n ]))

  unfoldable pub agent_not_returned : Gate (List String)
  agent_not_returned = read_fence_status >>= λ known. gets (λ n. n.fence.status_exit) >>= λ exit.
      if known && le64 exit 1
      then (own_agent_returned >>= λ returned. pure (if returned then [] else o.node ∷ []))
      else pure (o.node ∷ [])

  unfoldable pub wait_for_own_agent : Gate (Unit {0})
  wait_for_own_agent = deadline_after w (duration_of o.fence_timeout) >>= λ deadline.
      wait_until_empty w (kept_cordon (refused fence_return)) deadline agent_not_returned

  unfoldable pub wait_for_returned_fence_agent : Action (Unit {0})
  wait_for_returned_fence_agent =
      gets (λ s. s.ledger.has_agent) >>= λ has. if has then observe wait_for_own_agent else pure tt

  -- The last gate of checkOnlyOn.
  unfoldable pub judge_own_agent : Gate (Unit {0})
  judge_own_agent = read_fence_status >>= λ known. gets (λ n. n.fence) >>= λ fence.
      refuse_if (not known || lt64 1 fence.status_exit) fence_status_invalid
      >> refuse_if (not (own_agent_healthy (own_fence_state fence.status))) own_agent

  unfoldable pub check_own_agent : Action (Unit {0})
  check_own_agent =
      gets (λ s. s.ledger.has_agent) >>= λ has. if has then observe judge_own_agent else pure tt

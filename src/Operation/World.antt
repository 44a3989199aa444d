-- ===== src/Operation/World.antt =====
-- runner.go and the readers of kube.go, storage.go, cnpg.go and fence.go, seen from a run: what the
-- cluster, the host and the clock answer. A run asks at its moments, one after another; the answers
-- may differ from moment to moment. A check of capacity.go reads one moment's cluster.
-- Commands that only read or wait, of which the run uses the status, or the text.
use Prim.Native.Nat.{suc, zero, ℕ, ◌+◌, ◌-◌, ◌/◌}
use Prim.Native.String.{String}
use mathlib.Core.Bool.{Bool}
use mathlib.Core.List.{List, [], ◌∷◌}
use mathlib.Core.Option.{Option, none, some}
use nix_packages.Base.{Dict, Result, err, half_word, if◌then◌else◌, leb, ltb, minus_one, ok, word}
use nix_packages.Capacity.Budgets.{DisruptionBudget}
use nix_packages.Capacity.Quantity.{CapacityError}
use nix_packages.Capacity.Replacement.Templates.{Cluster}
use nix_packages.Kube.{Node, Pod, Workload}
use nix_packages.Operation.Clusters.{CnpgCluster}
use nix_packages.Operation.Json.{Json}
use nix_packages.Operation.Machine.{
  Command, Failure, Gate, Notes, fail, gets, interrupted, lift, out_of_fuel, pure, ◌>>=◌, ◌>>◌,
}
use nix_packages.Operation.Volumes.{BackupTarget, LonghornReplica, LonghornVolume, VolumeAttachment}
use nix_packages.Options.Durations.{parse_duration}

pub data Probe : Type 0 where
  get_node_object flannel_link privilege ssh_up ssh_down cat_boot_id reboot_check fence_status :
      Probe
  wait_ready : String → Probe
  rollout_status : Workload → String → Probe
  wait_pods : String → Dict String → String → Probe
  audit : String → String → String → Probe

pub record ManagedField : Type 0 where
  pub manager : String
  -- time.Parse of a string in whole seconds, none where it is anything else.
  pub seconds : Option ℕ

-- managedFieldsNode
pub record ManagedFieldsNode : Type 0 where
  pub annotations : Dict String
  pub managed_fields : List ManagedField

-- What kubectl's reads answer at one moment, decoded. `psql` is replicationQuery's answer of a
-- namespace's Pod by lines and fields; `reboot_unneeded` is a parsed bootcheck state of NotNeeded.
pub record Reads : Type 0 where
  pub cluster : Cluster
  pub node : Result CapacityError Node
  pub node_pods : Result CapacityError (List Pod)
  pub pending_pods : Result CapacityError (List Pod)
  pub budgets : Result CapacityError (List DisruptionBudget)
  pub installed : String → Result CapacityError Bool
  pub volumes : Result CapacityError (List LonghornVolume)
  pub replicas : Result CapacityError (List LonghornReplica)
  pub attachments : Result CapacityError (List VolumeAttachment)
  pub setting : String → Result CapacityError String
  pub default_backup_target : Result CapacityError (Option BackupTarget)
  pub clusters : Result CapacityError (List CnpgCluster)
  pub psql : String → String → Option (List (List String))
  pub fence_annotations : Option (Dict String)
  pub managed : Option ManagedFieldsNode
  pub reboot_unneeded : Bool
  pub audit_script : Option String

pub record World : Type 0 where
  -- The run's context is done.
  pub interrupted_at : ℕ → Bool
  -- Nanoseconds that a moment's read or command takes.
  pub took : ℕ → ℕ
  pub reads : ℕ → Reads
  pub probe_status : ℕ → Probe → ℕ
  pub probe_text : ℕ → Probe → String
  pub command_status : ℕ → Command → ℕ
  pub decode : String → Option Json
  pub render : Json → String
  pub to_lower : String → String
  -- strings.EqualFold
  pub equal_fold : String → String → Bool
  pub has_cnpg_plugin : Bool

-- poll, fenceStopTimeout and unschedulableGrace of New, in nanoseconds.
abbrev pub poll : ℕ
poll = 5000000000

abbrev pub fence_stop_timeout : ℕ
fence_stop_timeout = 60000000000

abbrev pub unschedulable_grace : ℕ
unschedulable_grace = 300000000000

-- duration: zero for text that does not parse.
unfoldable pub duration_of : String → ℕ
duration_of text = elim (parse_duration text) [ ok d ↦ d | err e ↦ 0 ]

-- o.now().Add(d), where a negative Duration lies before now.
unfoldable pub after : ℕ → ℕ → ℕ
after time d = if ltb d half_word then time + d else time - (word - d)

unfoldable pub ticked : ℕ → Notes → Notes
ticked took n = record n { moment = n.moment + 1; time = n.time + took }

-- What a check of a loop found: it is settled, or not yet, with the error if the time is up, and
-- what is still to do before the pause.
pub data Verdict (A C : Type 0) : Type 0 where
  settled : A → Verdict A C
  not_yet : Failure → (Notes → Result Failure C × Notes) → Verdict A C

module _ (w : World) where
  -- Run of a command that changes nothing: -1 (statusNotStarted) once interrupted.
  unfoldable pub probe : Probe → Gate ℕ
  probe p = λ n.
      if w.interrupted_at n.moment
      then (ok minus_one, n)
      else (ok (w.probe_status n.moment p), ticked (w.took n.moment) n)

  -- Its standard output, of the moment that it ran at.
  unfoldable pub probe_output : Probe → Gate (ℕ × String)
  probe_output p = λ n.
      if w.interrupted_at n.moment
      then (ok (minus_one, ""), n)
      else (ok (w.probe_status n.moment p, w.probe_text n.moment p), ticked (w.took n.moment) n)

  -- A read of kubectl, which fails once interrupted: its error stands for exit -1 as well.
  unfoldable pub read_at : {A : Type 0} → (Reads → A) → Gate (Option A)
  read_at f = λ n.
      if w.interrupted_at n.moment
      then (ok none, n)
      else (ok (some (f (w.reads n.moment))), ticked (w.took n.moment) n)

  unfoldable pub ask : {A : Type 0} → (Reads → Result CapacityError A) → Gate A
  ask f = read_at f >>= λ r. elim r [ none ↦ fail interrupted | some a ↦ lift a ]

  unfoldable pub is_interrupted : Gate Bool
  is_interrupted = gets (λ n. w.interrupted_at n.moment)

  -- pause: the sleep ends early once the context is done.
  unfoldable pub pause : Gate (Unit {0})
  pause = λ n. if w.interrupted_at n.moment then (err interrupted, n) else (ok tt, ticked poll n)

  -- o.expired(deadline)
  unfoldable pub expired : ℕ → Gate Bool
  expired deadline = gets (λ n. leb deadline n.time)

  unfoldable pub deadline_after : ℕ → Gate ℕ
  deadline_after d = gets (λ n. after n.time d)

  -- What follows a check: the value, or the deadline, the rest, a pause and the next round.
  unfoldable pub after_check : {A C : Type 0} → ℕ → (C → Gate A) → Verdict A C → Gate A
  after_check deadline next (settled a) = pure a
  after_check deadline next (not_yet e rest) =
      expired deadline >>= λ late. if late then fail e else (rest >>= λ c. pause >> next c)

  module _ {A C : Type 0} (check : C → Gate (Verdict A C)) where
    -- `for { check; if expired { return err }; …; pause }`
    unfoldable pub poll_rounds : ℕ → ℕ → C → Gate A
    poll_rounds zero deadline c = fail out_of_fuel
    poll_rounds (suc fuel) deadline c = check c >>= after_check deadline (poll_rounds fuel deadline)

    -- Rounds enough for the time that is left, at a poll interval each.
    unfoldable pub poll_until : ℕ → C → Gate A
    poll_until deadline c = λ n. poll_rounds ((deadline - n.time) / poll + 2) deadline c n

  -- A loop whose check yields what still blocks, until nothing does.
  unfoldable pub judge_blocking : {B : Type 0} → Failure → List B → Verdict (Unit {0}) (Unit {0})
  judge_blocking e [] = settled tt
  judge_blocking e (b ∷ bs) = not_yet e (pure tt)

  unfoldable pub wait_until_empty : {B : Type 0} → Failure → ℕ → Gate (List B) → Gate (Unit {0})
  wait_until_empty e deadline blocking =
      poll_until {A = Unit {0}} {C = Unit {0}}
        (λ _. blocking >>= λ bad. pure (judge_blocking e bad)) deadline tt

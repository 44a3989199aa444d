-- ===== src/Operation/StorageGates.antt =====
-- storage.go: the waits and checks on Longhorn that change nothing. The health wait, which may
-- raise the rebuild limit, and the detach, which runs a script, are actions and stand elsewhere.
use Prim.Native.Nat.{ℕ}
use mathlib.Core.Bool.{Bool, false, not, true, ◌&&◌}
use mathlib.Core.List.{List}
use mathlib.Core.Option.{none, some}
use nix_packages.Base.{is_empty}
use nix_packages.Operation.Machine.{
  Gate, attachments_left, backup_target, pure, refuse_if, refused, replica_floor, replica_spread,
  volumes_at_risk, volumes_attached, volumes_unhealthy, ◌>>=◌,
}
use nix_packages.Operation.Volumes.{
  LonghornVolume, VolumeAttachment, remaining_attachments, spread_failures, still_attached,
  survivability_failures, under_replicated, unhealthy_attached_volumes,
}
use nix_packages.Operation.World.{World, ask, deadline_after, duration_of, wait_until_empty}
use nix_packages.Options.{Options}

module _ (w : World) (o : Options) where
  unfoldable pub longhorn_volumes_served : Gate Bool
  longhorn_volumes_served = ask w (λ r. r.installed "volumes.longhorn.io")

  unfoldable pub list_longhorn_volumes : Gate (List LonghornVolume)
  list_longhorn_volumes = ask w (λ r. r.volumes)

  unfoldable pub unhealthy_now : Gate (List LonghornVolume)
  unhealthy_now = list_longhorn_volumes >>= λ volumes. pure (unhealthy_attached_volumes volumes)

  -- The wait loop of waitForLonghornHealth.
  unfoldable pub wait_for_healthy_volumes : ℕ → Gate (Unit {0})
  wait_for_healthy_volumes deadline =
      wait_until_empty w (refused volumes_unhealthy) deadline unhealthy_now

  -- Its first part: the replica floor. The deadline starts after the two settings are read.
  unfoldable pub check_replica_floor : Gate (Unit {0})
  check_replica_floor = list_longhorn_volumes >>= λ volumes.
      refuse_if (not (is_empty (under_replicated volumes))) replica_floor

  -- Its last part.
  unfoldable pub check_backup_target : Gate (Unit {0})
  check_backup_target = ask w (λ r. r.default_backup_target) >>= λ target.
      refuse_if
        (elim target [
          | none ↦ false
          | some t ↦ not t.available && o.require_longhorn_backup_target
        ])
        backup_target

  -- It only reports.
  unfoldable pub warn_for_longhorn_health : Gate (Unit {0})
  warn_for_longhorn_health = longhorn_volumes_served >>= λ served. elim served [
    | false ↦ pure tt
    | true ↦ list_longhorn_volumes >>= λ volumes. pure tt
  ]

  unfoldable pub check_longhorn_replica_spread : Gate (Unit {0})
  check_longhorn_replica_spread = longhorn_volumes_served >>= λ served. elim served [
    | false ↦ pure tt
    | true ↦ list_longhorn_volumes >>= λ volumes. ask w (λ r. r.replicas) >>= λ replicas.
        refuse_if (not (is_empty (spread_failures o.node volumes replicas))) replica_spread
  ]

  unfoldable pub volumes_at_risk_now : Gate (List LonghornVolume)
  volumes_at_risk_now = list_longhorn_volumes >>= λ volumes.
      ask w (λ r. r.replicas) >>= λ replicas. pure (survivability_failures o.node volumes replicas)

  unfoldable pub wait_for_longhorn_survivability : Gate (Unit {0})
  wait_for_longhorn_survivability = longhorn_volumes_served >>= λ served. elim served [
    | false ↦ pure tt
    | true ↦ deadline_after w (duration_of o.settle_timeout) >>= λ deadline.
        wait_until_empty w (refused volumes_at_risk) deadline volumes_at_risk_now
  ]

  unfoldable pub attached_now : Gate (List LonghornVolume)
  attached_now = list_longhorn_volumes >>= λ volumes. pure (still_attached o.node volumes)

  unfoldable pub attachments_now : Gate (List VolumeAttachment)
  attachments_now =
      ask w (λ r. r.attachments) >>= λ found. pure (remaining_attachments o.node found)

  unfoldable pub wait_for_volumes_to_detach : Gate (Unit {0})
  wait_for_volumes_to_detach = longhorn_volumes_served >>= λ served. elim served [
    | false ↦ pure tt
    | true ↦ deadline_after w (duration_of o.drain_timeout) >>= λ deadline.
        wait_until_empty w (refused volumes_attached) deadline attached_now
  ]

  -- waitForNodeStorageDetach, up to the script on the host.
  unfoldable pub wait_for_detach : Gate (Unit {0})
  wait_for_detach = do
    _ ← wait_for_volumes_to_detach
    deadline ← deadline_after w (duration_of o.drain_timeout)
    wait_until_empty w (refused attachments_left) deadline attachments_now

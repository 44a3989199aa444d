-- ===== src/Operation/Host.antt =====
-- host.go: the host's side of a power action, without the power commands themselves.
-- strings.TrimRight(text, "\n")
use Prim.Native.Char.{code}
use Prim.Native.Nat.{suc, zero, ℕ, ◌+◌, ◌/◌}
use Prim.Native.String.{String}
use mathlib.Core.Bool.{Bool, false, not, true, ◌&&◌, ◌||◌}
use text.Mathlib.Text.{◌==◌}
use nix_packages.Base.{add64, eqb, if◌then◌else◌, le64, minus_one}
use nix_packages.Operation.Machine.{
  Gate, boot_unreadable, fail, gets, interrupted, kept_cordon, modify, out_of_fuel, pure, refuse,
  refuse_if, refused, remote_privilege, same_boot, ssh_missing, ssh_stays, ◌>>=◌, ◌>>◌,
}
use nix_packages.Operation.World.{
  World, cat_boot_id, is_interrupted, pause, privilege, probe, probe_output, reboot_check, ssh_down,
  ssh_up,
}
use nix_packages.Options.{Options}

unfoldable pub drop_newlines : String → String
drop_newlines String.[] = ""
drop_newlines (String.◌∷◌ c s) =
    let rest = drop_newlines s in if eqb (code c) 10 && rest == "" then "" else String.◌∷◌ c rest

-- int(o.poll.Seconds()), at least one.
abbrev pub poll_seconds : ℕ
poll_seconds = 5

abbrev pub ssh_down_attempts : ℕ
ssh_down_attempts = 30

module _ (w : World) (o : Options) where
  -- rebootNeeded: only a clear "not needed" skips the reboot.
  unfoldable pub reboot_needed : Gate Bool
  reboot_needed = do
    unneeded ← gets (λ n. (w.reads n.moment).reboot_unneeded)
    status ← probe w reboot_check
    pure (not (eqb status 0) || not unneeded)

  unfoldable pub verify_remote_privilege : Gate (Unit {0})
  verify_remote_privilege =
      probe w privilege >>= λ status. refuse_if (not (eqb status 0)) remote_privilege

  -- Empty where it cannot be read.
  unfoldable pub read_boot_id : Gate String
  read_boot_id =
      probe_output w cat_boot_id >>= λ r. pure (if eqb r.0 0 then drop_newlines r.1 else "")

  unfoldable pub remember_boot_id : Gate (Unit {0})
  remember_boot_id = do
    id ← read_boot_id
    _ ← modify (λ n. record n { boot_id = id })
    refuse_if (id == "") boot_unreadable

  unfoldable pub verify_new_boot : Gate (Unit {0})
  verify_new_boot = do
    current ← read_boot_id
    _ ← refuse_if (current == "") boot_unreadable
    previous ← gets (λ n. n.boot_id)
    if current == previous then fail (kept_cordon (refused same_boot)) else pure tt

  -- A probe that an interrupt refused or ended is no evidence of a drop.
  unfoldable pub down_attempts : ℕ → Gate (Unit {0})
  down_attempts zero = fail (kept_cordon (refused ssh_stays))
  down_attempts (suc attempts) = probe w ssh_down >>= λ status. is_interrupted w >>= λ stopped.
      elim (eqb status minus_one || stopped) [
        | true ↦ fail interrupted
        | false ↦ elim (eqb status 0) [ true ↦ pause w >> down_attempts attempts | false ↦ pure tt ]
      ]

  unfoldable pub wait_for_ssh_down : Gate (Unit {0})
  wait_for_ssh_down = down_attempts ssh_down_attempts

  -- A round of waitForSSHUp after its probe.
  unfoldable pub up_round : Bool → Bool → Gate (Unit {0}) → Gate (Unit {0})
  up_round up late next =
      if up then pure tt else if late then refuse ssh_missing else (pause w >> next)

  -- The loop, on fuel: `elapsed`, an int, grows at each round and wraps.
  unfoldable pub up_attempts : ℕ → ℕ → Gate (Unit {0})
  up_attempts zero elapsed = fail out_of_fuel
  up_attempts (suc fuel) elapsed = probe w ssh_up >>= λ status.
      up_round (eqb status 0) (le64 o.ssh_timeout_seconds (add64 elapsed poll_seconds))
        (up_attempts fuel (add64 elapsed poll_seconds))

  unfoldable pub wait_for_ssh_up : Gate (Unit {0})
  wait_for_ssh_up = up_attempts (o.ssh_timeout_seconds / poll_seconds + 1) 0

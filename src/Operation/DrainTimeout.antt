-- ===== src/Operation/DrainTimeout.antt =====
-- operation.go: drainTimeout. Grace periods and durations are 64-bit patterns.
use Prim.Native.Nat.{ℕ, ◌%◌, ◌*◌, ◌/◌}
use Prim.Native.String.{String}
use mathlib.Core.Bool.{Bool, not, ◌&&◌, ◌||◌}
use mathlib.Core.List.{List, [], ◌∷◌}
use mathlib.Core.Option.{none, some}
use nix_packages.Base.{add64, eqb, if◌then◌else◌, le64, lt64, show_int64, word, ◌<>◌}
use nix_packages.Kube.{Pod, active, has_owner, is_instance_manager, is_mirror}
use nix_packages.Operation.Machine.{Gate, pure, ◌>>=◌}
use nix_packages.Operation.World.{World, ask, duration_of}
use nix_packages.Options.{Options}

abbrev pub drain_margin : ℕ
drain_margin = 120000000000

abbrev pub second_ns : ℕ
second_ns = 1000000000

-- The Pods that the drain evicts and waits for.
unfoldable pub is_drained : Pod → Bool
is_drained p =
    active p && not (has_owner p.metadata "DaemonSet" || is_mirror p || is_instance_manager p)

unfoldable pub grace_of : Pod → ℕ
grace_of p = elim p.spec.termination_grace_period_seconds [ none ↦ 30 | some g ↦ g ]

unfoldable pub longest_grace : ℕ → List Pod → ℕ
longest_grace longest [] = longest
longest_grace longest (p ∷ ps) =
    longest_grace (if is_drained p && lt64 longest (grace_of p) then grace_of p else longest) ps

-- time.Duration(longest)*time.Second + drainMargin
unfoldable pub needed_time : List Pod → ℕ
needed_time pods = add64 ((longest_grace 0 pods * second_ns) % word) drain_margin

-- int64(needed/time.Second) of a Duration that is not negative.
unfoldable pub raised_timeout : ℕ → String
raised_timeout needed = show_int64 (needed / second_ns) <> "s"

unfoldable pub choose_timeout : Options → List Pod → String
choose_timeout o pods =
    let timeout = duration_of o.drain_timeout in
    let needed = needed_time pods in
    if eqb timeout 0 || le64 needed timeout || o.drain_timeout_set
    then o.drain_timeout
    else raised_timeout needed

unfoldable pub drain_timeout_of : World → Options → Gate String
drain_timeout_of w o = ask w (λ r. r.node_pods) >>= λ pods. pure (choose_timeout o pods)

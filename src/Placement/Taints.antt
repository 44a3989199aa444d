-- ===== src/Placement/Taints.antt =====
-- placement.go: taints and tolerations. `live_pod` and the cordon's toleration stand here too.
use Prim.Native.String.{String}
use mathlib.Core.Bool.{Bool, false, not, true, ◌&&◌, ◌||◌}
use mathlib.Core.Option.{none, some}
use text.Mathlib.Text.{◌==◌}
use nix_packages.Base.{all, any, if◌then◌else◌}
use nix_packages.Kube.{Node, Pod, PodSpec, Taint, Toleration, active}
use nix_packages.Placement.Selectors.{unschedulable_key}

abbrev pub operator_of : Toleration → String
operator_of tol = if tol.operator == "" then "Equal" else tol.operator

-- The three tests on one toleration.
unfoldable pub tolerates : Toleration → Taint → Bool
tolerates tol t =
    ((tol.key == "" && operator_of tol == "Exists") || tol.key == t.key)
    && (operator_of tol == "Exists" || tol.value == t.value)
    && (tol.effect == "" || tol.effect == t.effect)

unfoldable pub tolerates_taint : PodSpec → Taint → Bool
tolerates_taint spec t = any (λ tol. tolerates tol t) spec.tolerations

-- One round of the loop over the node's taints: `true` is `continue`.
unfoldable pub taint_admits : PodSpec → Taint → Bool
taint_admits spec t =
    if not (t.effect == "NoSchedule") && not (t.effect == "NoExecute")
    then true
    else if t.key == unschedulable_key
    then true
    else tolerates_taint spec t

unfoldable pub node_admits : PodSpec → Node → Bool
node_admits spec n = all (taint_admits spec) n.spec.taints

unfoldable pub live_pod : Pod → Bool
live_pod p =
    (elim p.metadata.deletion_timestamp [ none ↦ true | some t ↦ false ])
    && active p
    && not (p.spec.node_name == "")

cordon_tolerated : Toleration → Bool
cordon_tolerated tol =
    (tol.key == unschedulable_key || (tol.key == "" && operator_of tol == "Exists"))
    && (operator_of tol == "Exists" || (operator_of tol == "Equal" && tol.value == ""))
    && (tol.effect == "" || tol.effect == "NoSchedule")

unfoldable pub tolerates_cordon : PodSpec → Bool
unfolding cordon_tolerated
tolerates_cordon spec = any cordon_tolerated spec.tolerations

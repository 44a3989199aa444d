-- ===== src/Placement/TaintLaws.antt =====
-- About the meaning of placement.go's taints and tolerations.
use mathlib.Core.Bool.{false, true}
use mathlib.Core.Logic.{inl, inr, ◌↔◌, ◌≢◌, ◌⊎◌}
use mathlib.Core.Path.{◌≡◌}
use native.Mathlib.Omega.{arith}
use text.Mathlib.Text.{◌==◌}
use text.Mathlib.TextEquality.{eq_iff}
use nix_packages.Base.{Bool-cases, Has, all-Has, all-false, any-Has, any-true}
use nix_packages.Kube.{Node, PodSpec, Taint, Toleration}
use nix_packages.Placement.Selectors.{unschedulable_key}
use nix_packages.Placement.Taints.{
  node_admits, operator_of, taint_admits, tolerates, tolerates_taint,
}

-- The toleration answers the taint: by key (every key, for Exists without one), by value (any, for
-- Exists) and by effect (any, where it names none).
abbrev pub Answers : Toleration → Taint → Type 0
Answers tol t =
    ((tol.key ≡ t.key) ⊎ ((tol.key ≡ "") × (tol.operator ≡ "Exists")))
    × ((tol.value ≡ t.value) ⊎ (tol.operator ≡ "Exists"))
    × ((tol.effect ≡ t.effect) ⊎ (tol.effect ≡ ""))

-- The taint keeps Pods from being scheduled, and is not the cordon.
abbrev pub Blocks : Taint → Type 0
Blocks t = ((t.effect ≡ "NoSchedule") ⊎ (t.effect ≡ "NoExecute")) × (t.key ≢ unschedulable_key)

exists_operator : (tol : Toleration) → (operator_of tol == "Exists") ≡ (tol.operator == "Exists")
exists_operator tol = elim (Bool-cases (tol.operator == "")) [
  | inl e ↦ rw (e, (eq_iff tol.operator "").0 e)
  | inr e ↦ rw e
]

tolerates_iff : (tol : Toleration) (t : Taint) → (tolerates tol t ≡ true) ↔ Answers tol t
unfolding tolerates
tolerates_iff tol t = rw (exists_operator tol) (
  λ h. ground (
    arith,
    eq_iff tol.key "",
    eq_iff tol.operator "Exists",
    eq_iff tol.key t.key,
    eq_iff tol.value t.value,
    eq_iff tol.effect "",
    eq_iff tol.effect t.effect,
  ),
  λ h. ground (
    arith,
    eq_iff tol.key "",
    eq_iff tol.operator "Exists",
    eq_iff tol.key t.key,
    eq_iff tol.value t.value,
    eq_iff tol.effect "",
    eq_iff tol.effect t.effect,
  ),
)

-- The spec has a toleration that answers the taint.
abbrev pub Tolerated : PodSpec → Taint → Type 0
Tolerated spec t = (tol : Toleration) × Has tol spec.tolerations × Answers tol t

tolerates_taint_iff :
    (spec : PodSpec) (t : Taint) → (tolerates_taint spec t ≡ true) ↔ Tolerated spec t
unfolding tolerates_taint
tolerates_taint_iff spec t = (
  λ h.
      let hit = any-true (λ (tol : Toleration). tolerates tol t) spec.tolerations h in
      (hit.0, hit.1, (tolerates_iff hit.0 t).0 hit.2),
  λ h.
      any-Has (λ (tol : Toleration). tolerates tol t) spec.tolerations h.1
        ((tolerates_iff h.0 t).1 h.2),
)

taint_admits-blocked :
    (spec : PodSpec) (t : Taint) → taint_admits spec t ≡ true → Blocks t → Tolerated spec t
unfolding taint_admits
taint_admits-blocked spec t h b = (tolerates_taint_iff spec t).0 (
    ground (
      arith,
      eq_iff t.effect "NoSchedule",
      eq_iff t.effect "NoExecute",
      eq_iff t.key unschedulable_key,
    ))

taint_admits-false :
    (spec : PodSpec) (t : Taint) → taint_admits spec t ≡ false → Blocks t × ¬ Tolerated spec t
unfolding taint_admits
taint_admits-false spec t h = (
  ground (
    arith,
    eq_iff t.effect "NoSchedule",
    eq_iff t.effect "NoExecute",
    eq_iff t.key unschedulable_key,
  ),
  λ k. let e : tolerates_taint spec t ≡ true = (tolerates_taint_iff spec t).1 k in ground arith,
)

-- `nodeAdmits` admits exactly when every blocking taint of the node is answered by some
-- toleration, and a refusal shows a blocking taint that none answers.
pub node_admits_iff :
    (spec : PodSpec) (n : Node)
    → ((node_admits spec n ≡ true)
        → (t : Taint) → Has t n.spec.taints
        → Blocks t
        → Tolerated spec t)
      × ((node_admits spec n ≡ false)
          → (t : Taint) × Has t n.spec.taints × Blocks t × (¬ Tolerated spec t))
unfolding node_admits
node_admits_iff spec n = (
  λ h t m. taint_admits-blocked spec t (all-Has (taint_admits spec) n.spec.taints h m),
  λ h.
      let miss = all-false (taint_admits spec) n.spec.taints h in
      let why = taint_admits-false spec miss.0 miss.2 in (miss.0, miss.1, why.0, why.1),
)

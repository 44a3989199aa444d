-- ===== src/Base/Dicts.antt =====
-- Maps after an insertion.
use Prim.Native.String.{String}
use mathlib.Core.Bool.{false}
use mathlib.Core.List.{[], ◌∷◌}
use mathlib.Core.Logic.{inl, inr}
use mathlib.Core.Option.{some}
use mathlib.Core.Path.{refl, subst, sym, ◌≡◌}
use native.Mathlib.Omega.{arith}
use text.Mathlib.Text.{◌==◌}
use text.Mathlib.TextEquality.{eq_iff}
use text.Mathlib.TextPositions.{eq_refl}
use nix_packages.Base.Tests.{Bool-cases}
use nix_packages.Base.Text.{Dict, insert, lookup}

pub lookup-insert_same :
    {V : Type 0} (k : String) (v : V) (m : Dict V) → lookup k (insert k v m) ≡ some v
unfolding lookup insert
lookup-insert_same k v [] = rw (eq_refl k) refl
lookup-insert_same k v (e ∷ rest) = elim (Bool-cases (e.0 == k)) [
  | inl h ↦ rw (h, eq_refl k) refl
  | inr h ↦ rw (h, lookup, h) (lookup-insert_same k v rest)
]

pub lookup-insert_other :
    {V : Type 0} (k j : String) (v : V) (m : Dict V)
    → (k == j) ≡ false
    → lookup j (insert k v m) ≡ lookup j m
unfolding lookup insert
lookup-insert_other k j v [] h = rw h refl
lookup-insert_other k j v (e ∷ rest) h = elim (Bool-cases (e.0 == k)) [
  | inl q ↦
      let p : e.0 ≡ k = ground (arith, eq_iff e.0 k) in
      let other : (e.0 == j) ≡ false = subst (λ x. (x == j) ≡ false) (sym p) h in
      rw (q, h, other) refl
  | inr q ↦ elim (Bool-cases (e.0 == j)) [
    | inl z ↦ rw (q, z) refl
    | inr z ↦ rw (q, z) (lookup-insert_other k j v rest h)
  ]
]

-- ===== src/Placement/Floor/Bounds.antt =====
-- About the range of readyFloor's result.
use Prim.Native.Nat.{ℕ}
use Prim.Native.String.{String}
use mathlib.Core.Bool.{Bool, false, true}
use mathlib.Core.List.{List}
use mathlib.Core.Option.{Option, none, some}
use mathlib.Core.Path.{◌≡◌}
use native.Mathlib.Omega.{arith}
use nix_packages.Base.{Floats, if◌then◌else◌, le64, lt64, max64, min64}
use nix_packages.Kube.{Controller, Node, Pod, SpreadConstraint, desired_replicas}
use nix_packages.Placement.Floor.{
  keeps_full_count, per_node_floor, ready_floor, spread_case, spread_floor,
}
use nix_packages.Placement.Spread.{hostname_spread}

min64-le : (a b : ℕ) → le64 (min64 a b) a ≡ true
unfolding min64 le64 lt64
min64-le a b = ground arith

min64-ge : (a b c : ℕ) → le64 c a ≡ true → le64 c b ≡ true → le64 c (min64 a b) ≡ true
unfolding min64
min64-ge a b c h k = ground arith

max64-ge : (a b : ℕ) → le64 b (max64 a b) ≡ true
unfolding max64 le64 lt64
max64-ge a b = ground arith

le64_refl : (a : ℕ) → le64 a a ≡ true
unfolding le64
le64_refl a = ground arith

-- A result that lies between one and the desired count, once a replica is desired.
abbrev Between : ℕ → ℕ → Type 0
Between desired floor = (le64 floor desired ≡ true) × (le64 1 desired ≡ true → le64 1 floor ≡ true)

capped-Between : (desired n : ℕ) → Between desired (min64 desired (max64 n 1))
capped-Between desired n =
    (min64-le desired (max64 n 1), λ h. min64-ge desired (max64 n 1) 1 h (max64-ge n 1))

full-Between : (desired : ℕ) → Between desired desired
full-Between desired = (le64_refl desired, λ h. h)

if-Between :
    (c : Bool) (desired x y : ℕ)
    → Between desired x
    → Between desired y
    → Between desired (if c then x else y)
if-Between true desired x y h k = h
if-Between false desired x y h k = k

module _ ⦃F : Floats⦄ (target namespace : String) (d : Controller) (nodes : List Node)
    (pods : List Pod) where
  spread_case-Between :
      (spread : Option SpreadConstraint)
      → Between (desired_replicas d) (spread_case target namespace d spread nodes pods)
  unfolding spread_case spread_floor
  spread_case-Between none = full-Between (desired_replicas d)
  spread_case-Between (some spread) =
      if-Between _ (desired_replicas d) _ _ (full-Between (desired_replicas d))
        (capped-Between (desired_replicas d) _)

  -- The floor is never above the desired count, and at least one where a replica is desired, on
  -- every branch of `readyFloor`.
  pub ready_floor_bounds :
      (le64 (ready_floor target namespace d nodes pods) (desired_replicas d) ≡ true)
      × (le64 1 (desired_replicas d) ≡ true
          → le64 1 (ready_floor target namespace d nodes pods) ≡ true)
  unfolding ready_floor per_node_floor
  ready_floor_bounds =
      if-Between (keeps_full_count target namespace d) (desired_replicas d) _ _
        (full-Between (desired_replicas d))
        (if-Between _ (desired_replicas d) _ _ (capped-Between (desired_replicas d) _) (
          spread_case-Between
            (hostname_spread d.spec.template.spec d.spec.template.metadata.labels)))

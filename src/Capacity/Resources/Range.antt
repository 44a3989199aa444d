-- ===== src/Capacity/Resources/Range.antt =====
-- About the range of what readResources gives.
use Prim.Native.Nat.{ℕ, ◌<◌}
use Prim.Native.String.{String}
use mathlib.Core.Logic.{inl, inr}
use mathlib.Core.Path.{subst, ◌≡◌}
use native.Mathlib.Omega.{arith}
use nix_packages.Base.{Dict, Floats, Option-cases, eq_of_ok, lookup, ok, ok_of_bind, word}
use nix_packages.Capacity.Quantity.Range.{parse_quantity-lt}
use nix_packages.Capacity.Resources.{IsWord, Resources, read_entry, read_resources}

module _ ⦃F : Floats⦄ (conversion : (x : F.Float) → F.ceil_int64 x < word) where
  read_entry-lt :
      (key : String) (list : Dict String) (scale : F.Float) {n : ℕ}
      → read_entry key list scale ≡ ok n
      → n < word
  unfolding read_entry
  read_entry-lt key list scale h = elim (Option-cases (lookup key list)) [
    | inl missing ↦ subst (λ x. x < word) (eq_of_ok (rw (missing, read_entry) at h)) (omega arith)
    | inr (text, e) ↦ parse_quantity-lt conversion text scale (rw (e, read_entry) at h)
  ]

  pub read_resources-IsWord :
      (list : Dict String) {r : Resources} → read_resources list ≡ ok r → IsWord r
  unfolding read_resources
  read_resources-IsWord list h =
      let (cpu, c, h1) = ok_of_bind (read_entry "cpu" list (F.literal "1000")) _ h in
      let (memory, m, h2) = ok_of_bind (read_entry "memory" list (F.literal "1")) _ h1 in
      subst IsWord (eq_of_ok h2) (
        read_entry-lt "cpu" list (F.literal "1000") c,
        read_entry-lt "memory" list (F.literal "1") m,
      )

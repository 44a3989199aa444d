-- ===== src/Operation/ReleaseLaws.antt =====
-- releaseCordon: which cordon a failed preparation leaves, and what its error says of it.
use Prim.Native.Nat.{ℕ}
use mathlib.Core.Bool.{Bool, true}
use mathlib.Core.List.{◌∷◌}
use mathlib.Core.Logic.{◌⊎◌}
use mathlib.Core.Path.{◌≡◌}
use nix_packages.Base.{Floats, Result, eqb, err}
use nix_packages.Operation.Machine.{Failure, State, names_cordon, ran, uncordon, was_uncordoned}
use nix_packages.Operation.World.{World}
use nix_packages.Options.{Options}

module _ ⦃F : Floats⦄ (w : World) (o : Options) where
  -- What the error and the trace say of the cordon.
  abbrev pub Tells : Failure → State → Result Failure (Unit {0}) × State → Type 0
  Tells f s r =
      (f' : Failure) × (r.0 ≡ err f')
      × ((names_cordon f' ≡ true)
          ⊎ ((f' ≡ was_uncordoned f)
              × ((n : ℕ) × (eqb n 0 ≡ true)
                  × (r.1.ledger.trace ≡ ran uncordon n ∷ s.ledger.trace))))

-- ===== src/Capacity/Quantity/Range.antt =====
-- About the range of what parseQuantity gives.
use Prim.Native.Nat.{ℕ, ◌<◌}
use Prim.Native.String.{String}
use mathlib.Core.List.{List, [], ◌∷◌}
use mathlib.Core.Logic.{inl, inr}
use mathlib.Core.Option.{Option, none, some}
use mathlib.Core.Path.{subst, ◌≡◌}
use nix_packages.Base.{Floats, Option-cases, atoi_codes, codes, eq_of_ok, ok, word}
use nix_packages.Capacity.Quantity.{
  Quantity, match_quantity, parse_quantity, read_quantity, round_up, scaled,
}

module _ ⦃F : Floats⦄ (conversion : (x : F.Float) → F.ceil_int64 x < word) where
  scaled-lt :
      (text : String) (scale value : F.Float) (e : List ℕ) {n : ℕ}
      → scaled text scale value e ≡ ok n
      → n < word
  unfolding scaled round_up
  scaled-lt text scale value [] h = subst (λ x. x < word) (eq_of_ok h) (conversion _)
  scaled-lt text scale value (c ∷ e) h = elim (Option-cases (atoi_codes (c ∷ e))) [
    | inl none_read ↦ let k = rw (none_read, scaled) at h in cc
    | inr (exponent, q) ↦ subst (λ x. x < word) (eq_of_ok (rw (q, scaled) at h)) (conversion _)
  ]

  read_quantity-lt :
      (text : String) (scale : F.Float) (q : Option Quantity) {n : ℕ}
      → read_quantity text scale q ≡ ok n
      → n < word
  unfolding read_quantity
  read_quantity-lt text scale none h = cc
  read_quantity-lt text scale (some q) h = elim (Option-cases (F.parse_float q.mantissa)) [
    | inl none_read ↦ let k = rw (none_read, read_quantity) at h in cc
    | inr (value, e) ↦ scaled-lt text scale _ q.exponent (rw (e, read_quantity) at h)
  ]

  pub parse_quantity-lt :
      (text : String) (scale : F.Float) {n : ℕ} → parse_quantity text scale ≡ ok n → n < word
  unfolding parse_quantity
  parse_quantity-lt text scale h = read_quantity-lt text scale (match_quantity (codes text)) h

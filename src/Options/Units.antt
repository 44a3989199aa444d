-- ===== src/Options/Units.antt =====
-- About the unit that ParseArgs adds to a bare number of seconds.
use Prim.Native.Char.{code}
use Prim.Native.Nat.{ℕ}
use Prim.Native.String.{String}
use mathlib.Core.Bool.{not}
use mathlib.Core.List.{List, [], ◌++◌, ◌∷◌}
use mathlib.Core.Logic.{inl, inr}
use mathlib.Core.Path.{ap, refl, subst, sym, ◌∙◌, ◌≡◌}
use native.Mathlib.Omega.{arith}
use nix_packages.Base.{
  &&-true, Bool-cases, codes, eq_of_ok, is_digit, is_empty, is_empty-nil, ok, ok_of_bind,
  span_digits, ◌<>◌,
}
use nix_packages.Options.{with_unit}
use nix_packages.Options.Durations.{
  digits_only, is_unit, parse_duration, read_duration, unit_nanoseconds,
}
use Prim.Native.String.append.{nil as nil_append, cons as cons_append}

codes-append : (s t : String) → codes (s <> t) ≡ codes s ++ codes t
codes-append String.[] t = ap codes (λ i. nil_append t i)
codes-append (String.◌∷◌ c s) t =
    ap codes (λ i. cons_append c s t i) ∙ ap (◌∷◌ (code c)) (codes-append s t)

-- Digits to the end of a text are still its digits where a text without digits follows.
span_digits-append :
    (s t : List ℕ)
    → (span_digits s).1 ≡ []
    → (span_digits t).0 ≡ []
    → span_digits (s ++ t) ≡ ((span_digits s).0, (span_digits t).1)
unfolding span_digits
span_digits-append [] t h k = ap (λ x. (x, (span_digits t).1)) k
span_digits-append (c ∷ s) t h k = elim (Bool-cases (is_digit c)) [
  | inl e ↦ let r = span_digits-append s t (rw e at h) k in rw e (rw r refl)
  | inr e ↦ let q : c ∷ s ≡ [] = rw e at h in cc
]

span_digits-unit :
    (text : String)
    → (span_digits (codes text)).1 ≡ []
    → span_digits (codes (text <> "s")) ≡ ((span_digits (codes text)).0, b's' ∷ [])
unfolding span_digits
span_digits-unit text h =
    ap span_digits (codes-append text "s") ∙ span_digits-append (codes text) (b's' ∷ []) h refl

read_duration-unit :
    (text text' : String) (ds : List ℕ) (d : ℕ)
    → read_duration text (ds, []) ≡ ok d
    → read_duration text' (ds, b's' ∷ []) ≡ ok d
unfolding read_duration is_unit unit_nanoseconds
read_duration-unit text text' ds d h = ground arith

pub parse_duration-unit :
    (text : String) (d : ℕ)
    → (span_digits (codes text)).1 ≡ []
    → parse_duration text ≡ ok d
    → parse_duration (text <> "s") ≡ ok d
unfolding parse_duration
parse_duration-unit text d h k =
    let parts = (span_digits (codes text)).0 in
    ap (read_duration (text <> "s")) (span_digits-unit text h)
    ∙ read_duration-unit text (text <> "s") parts d
        (ap (λ x. read_duration text (parts, x)) (sym h) ∙ k)

-- A duration that the validation passes on, with the unit that it adds to a bare number of
-- seconds, reads as the same length as the text that was written.
pub with_unit-keeps :
    (text text' : String)
    → with_unit text ≡ ok text'
    → (d : ℕ) × (parse_duration text ≡ ok d) × (parse_duration text' ≡ ok d)
unfolding with_unit digits_only
with_unit-keeps text text' h =
    let (d, q, e) = ok_of_bind (parse_duration text) _ h in
    elim (Bool-cases (digits_only text)) [
      | inl b ↦
          let parts =
            &&-true (not (is_empty (span_digits (codes text)).0))
              (is_empty (span_digits (codes text)).1) b in
          (
            d,
            q,
            subst (λ x. parse_duration x ≡ ok d) (eq_of_ok (rw b at e))
                (parse_duration-unit text d (is_empty-nil (span_digits (codes text)).1 parts.1) q),
          )
      | inr b ↦ (d, q, subst (λ x. parse_duration x ≡ ok d) (eq_of_ok (rw b at e)) q)
    ]

-- ===== src/Options/Numbers.antt =====
-- About the range of the numbers that the command line sets.
use Prim.Native.Nat.{ℕ, ◌<◌}
use Prim.Native.String.{String}
use mathlib.Core.Bool.{Bool, false, not, true, ◌&&◌, ◌||◌}
use mathlib.Core.List.{List, [], ◌∷◌}
use mathlib.Core.Logic.{inl, inr}
use mathlib.Core.Option.{Option, none, some}
use mathlib.Core.Path.{ap, ◌≡◌}
use native.Mathlib.Omega.{arith}
use nix_packages.Base.{
  &&-true, Bool-cases, Option-cases, atoi, atoi_codes, codes, digits_value, eq_of_some, eqb,
  half_word, in_range, is_digit, is_empty, ltb, span_digits, unsigned_value, word,
}
use nix_packages.Options.{slots_of}
use nix_packages.Options.Durations.{plain_number, positive_integer}

in_range-lt :
    (negative : Bool) (value : Option ℕ) (n : ℕ) → in_range negative value ≡ some n → n < word
unfolding in_range
in_range-lt negative none n h = cc
in_range-lt true (some v) n h = ground arith
in_range-lt false (some v) n h = ground arith

atoi_codes-lt : (s : List ℕ) (n : ℕ) → atoi_codes s ≡ some n → n < word
unfolding atoi_codes
atoi_codes-lt [] n h = cc
atoi_codes-lt (c ∷ s) n h = elim (Bool-cases (eqb c b'-')) [
  | inl e ↦ in_range-lt true (unsigned_value s) n (rw e at h)
  | inr e ↦ elim (Bool-cases (eqb c b'+')) [
    | inl f ↦ in_range-lt false (unsigned_value s) n (rw (e, f) at h)
    | inr f ↦ in_range-lt false (unsigned_value (c ∷ s)) n (rw (e, f) at h)
  ]
]

pub atoi-lt : (text : String) (n : ℕ) → atoi text ≡ some n → n < word
unfolding atoi
atoi-lt text n h = atoi_codes-lt (codes text) n h

-- A number without a sign in front.
in_range-false :
    (value : Option ℕ) (n : ℕ) → in_range false value ≡ some n → (value ≡ some n) × (n < half_word)
unfolding in_range
in_range-false none n h = cc
in_range-false (some v) n h = elim (Bool-cases (ltb v half_word)) [
  | inl e ↦ let q : v ≡ n = eq_of_some (rw e at h) in (ap some q, ground arith)
  | inr e ↦ let q = rw e at h in cc
]

unsigned_value-some :
    (s : List ℕ) (n : ℕ) → unsigned_value s ≡ some n → digits_value 0 (span_digits s).0 ≡ n
unfolding unsigned_value
unsigned_value-some s n h =
    elim (Bool-cases (is_empty (span_digits s).0 || not (is_empty (span_digits s).1))) [
      | inl e ↦ let q = rw e at h in cc
      | inr e ↦ eq_of_some (rw e at h)
    ]

is_digit-no_sign : (c : ℕ) → is_digit c ≡ true → (eqb c b'-' ≡ false) × (eqb c b'+' ≡ false)
unfolding is_digit
is_digit-no_sign c h = ground arith

atoi_codes-positive :
    (s : List ℕ) (n : ℕ)
    → plain_number (span_digits s).0 ≡ true
    → eqb (digits_value 0 (span_digits s).0) 0 ≡ false
    → atoi_codes s ≡ some n
    → (0 < n) × (n < half_word)
unfolding atoi_codes span_digits plain_number
atoi_codes-positive [] n p z h = cc
atoi_codes-positive (c ∷ s) n p z h = elim (Bool-cases (is_digit c)) [
  | inl e ↦
      let signs = is_digit-no_sign c e in
      let r = in_range-false (unsigned_value (c ∷ s)) n (rw (signs.0, signs.1, atoi_codes) at h) in
      let v = unsigned_value-some (c ∷ s) n r.0 in (ground (arith, v, z), r.1)
  | inr e ↦ let q : false ≡ true = rw (e, span_digits) at p in cc
]

pub slots_of-positive :
    (text : String)
    → positive_integer text ≡ true
    → (0 < slots_of text) × (slots_of text < half_word)
unfolding slots_of positive_integer atoi
slots_of-positive text h = elim (Option-cases (atoi text)) [
  | inl e ↦ rw (e, slots_of) (omega arith)
  | inr (n, e) ↦
      rw (e, slots_of)
        (let s = codes text in
          let value = not (eqb (digits_value 0 (span_digits s).0) 0) in
          let outer =
            &&-true (plain_number (span_digits s).0 && value) (is_empty (span_digits s).1) h in
          let inner = &&-true (plain_number (span_digits s).0) value outer.0 in
          atoi_codes-positive s n inner.0 (ground (arith, inner.1)) e)
]

-- ===== src/Placement/Floor/Domains.antt =====
-- About the counts of readyFloor's topology domains and the smallest of them.
use Prim.Native.Nat.{suc, zero, ℕ, ◌+◌, ◌<◌, ◌≤◌}
use mathlib.Core.Bool.{true}
use mathlib.Core.List.{List, [], ◌∷◌}
use mathlib.Core.Logic.{inl, inr, ◌⊎◌}
use mathlib.Core.Option.{some}
use mathlib.Core.Path.{ap, refl, ◌∙◌, ◌≡◌}
use native.Mathlib.Omega.{arith}
use nix_packages.Base.{
  All, All-map, add64, eq_of_some, get_elem?, half_word, le64, lt64, min64, set, sub64,
}
use nix_packages.Placement.Floor.{Domain, least_count, minimum_of}

abbrev pub total_count : List Domain → ℕ
total_count [] = 0
total_count (d ∷ ds) = d.count + total_count ds

-- Every count, with n Pods more, is far from wrapping.
abbrev pub Room : ℕ → List Domain → Type 0
Room n ds = All (λ d. d.count + n < half_word) ds

-- The domains after the replay: the same ones, a count either unchanged or, for an open domain,
-- raised to at most m plus maxSkew.
abbrev pub Grown : ℕ → ℕ → List Domain → List Domain → Type 0
Grown ms m [] [] = Unit
Grown ms m [] (e ∷ es) = ⊥
Grown ms m (d ∷ ds) [] = ⊥
Grown ms m (d ∷ ds) (e ∷ es) =
    ((e.count ≡ d.count) ⊎ ((d.is_open ≡ true) × (d.count < e.count) × (e.count ≤ m + ms)))
    × Grown ms m ds es

abbrev pub bump : Domain → Domain
bump d = record d { count = add64 d.count 1 }

-- The count of a domain that took a Pod, without wrapping.
pub fits-le :
    (ms minimum c : ℕ)
    → ms < half_word
    → c + 1 < half_word
    → minimum ≤ c
    → le64 (sub64 (add64 c 1) minimum) ms ≡ true
    → c + 1 ≤ minimum + ms
unfolding le64 sub64 add64
fits-le ms minimum c hm hc hl h = ground arith

min64-min : (a b : ℕ) → a < half_word → b < half_word → (min64 a b ≤ a) × (min64 a b ≤ b)
unfolding min64 lt64
min64-min a b ha hb = ground arith

min64_mono : (a b c d : ℕ) → a ≤ c → b ≤ d → c < half_word → d < half_word → min64 a b ≤ min64 c d
unfolding min64 lt64
min64_mono a b c d h k hc hd = ground arith

min64-lt : (a b : ℕ) → a < half_word → b < half_word → min64 a b < half_word
unfolding min64
min64-lt a b ha hb = ground arith

-- Pointwise at most.
abbrev pub Under : List Domain → List Domain → Type 0
Under [] [] = Unit
Under [] (e ∷ es) = ⊥
Under (d ∷ ds) [] = ⊥
Under (d ∷ ds) (e ∷ es) = (d.count ≤ e.count) × Under ds es

least_count_mono :
    (a b : ℕ) (ds es : List Domain)
    → a ≤ b
    → b < half_word
    → Room 0 es
    → Under ds es
    → least_count a ds ≤ least_count b es
unfolding least_count
least_count_mono a b [] [] h hb r u = h
least_count_mono a b [] (e ∷ es) h hb r u = absurd u
least_count_mono a b (d ∷ ds) [] h hb r u = absurd u
least_count_mono a b (d ∷ ds) (e ∷ es) h hb r u =
    least_count_mono (min64 a d.count) (min64 b e.count) ds es
      (min64_mono a d.count b e.count h u.0 hb (omega (arith, r.0)))
      (min64-lt b e.count hb (omega (arith, r.0))) r.1 u.1

pub minimum_of_mono :
    (ds es : List Domain) → Room 0 es → Under ds es → minimum_of ds ≤ minimum_of es
unfolding minimum_of
minimum_of_mono [] [] r u = omega arith
minimum_of_mono [] (e ∷ es) r u = absurd u
minimum_of_mono (d ∷ ds) [] r u = absurd u
minimum_of_mono (d ∷ ds) (e ∷ es) r u =
    least_count_mono d.count e.count (d ∷ ds) (e ∷ es) u.0 (omega (arith, r.0)) r u

least_count-le : (a : ℕ) (ds : List Domain) → a < half_word → Room 0 ds → least_count a ds ≤ a
unfolding least_count
least_count-le a [] ha r = omega arith
least_count-le a (d ∷ ds) ha r = omega (
  arith,
  least_count-le (min64 a d.count) ds (min64-lt a d.count ha (omega (arith, r.0))) r.1,
  min64-min a d.count ha (omega (arith, r.0)),
)

-- The smallest count is below that of every listed domain.
least_count-at :
    (a : ℕ) (ds : List Domain) (i : ℕ) (d : Domain)
    → a < half_word
    → Room 0 ds
    → get_elem? ds i ≡ some d
    → least_count a ds ≤ d.count
unfolding least_count
least_count-at a [] i d ha r h = cc
least_count-at a (e ∷ es) zero d ha r h =
    let s : e ≡ d = eq_of_some h in
    let q : e.count ≡ d.count = ap (λ (x : Domain). x.count) s in
    omega (
      arith,
      q,
      least_count-le (min64 a e.count) es (min64-lt a e.count ha (omega (arith, r.0))) r.1,
      min64-min a e.count ha (omega (arith, r.0)),
    )
least_count-at a (e ∷ es) (suc i) d ha r h =
    least_count-at (min64 a e.count) es i d (min64-lt a e.count ha (omega (arith, r.0))) r.1 h

pub minimum_of-at :
    (ds : List Domain) (i : ℕ) (d : Domain)
    → Room 0 ds
    → get_elem? ds i ≡ some d
    → minimum_of ds ≤ d.count
unfolding minimum_of
minimum_of-at [] i d r h = cc
minimum_of-at (e ∷ es) i d r h = least_count-at e.count (e ∷ es) i d (omega (arith, r.0)) r h

-- One step: the room shrinks by one Pod, no count falls, and one Pod is counted.
bump-count : (d : Domain) → d.count + 1 < half_word → (bump d).count ≡ d.count + 1
unfolding add64
bump-count d h = omega arith

pub Room-weaken : (n : ℕ) (ds : List Domain) → Room n ds → Room 0 ds
Room-weaken n ds = All-map ds (λ d h. omega arith)

pub Room-set :
    (n : ℕ) (ds : List Domain) (i : ℕ) (d : Domain)
    → Room (suc n) ds
    → get_elem? ds i ≡ some d
    → Room n (set ds i (bump d))
Room-set n [] i d r h = tt
Room-set n (e ∷ es) zero d r h =
    let q : e.count ≡ d.count = ap (λ (x : Domain). x.count) (eq_of_some h) in
    (
      omega (arith, q, r.0, bump-count d (omega (arith, q, r.0))),
      All-map es (λ x k. omega arith) r.1,
    )
Room-set n (e ∷ es) (suc i) d r h = (omega (arith, r.0), Room-set n es i d r.1 h)

pub total_count-set :
    (ds : List Domain) (i : ℕ) (d : Domain)
    → Room 1 ds
    → get_elem? ds i ≡ some d
    → total_count (set ds i (bump d)) ≡ total_count ds + 1
total_count-set [] i d r h = cc
total_count-set (e ∷ es) zero d r h =
    let q : e.count ≡ d.count = ap (λ (x : Domain). x.count) (eq_of_some h) in
    omega (arith, q, bump-count d (omega (arith, q, r.0)))
total_count-set (e ∷ es) (suc i) d r h = omega (arith, total_count-set es i d r.1 h)

pub Grown-Under : (ms m : ℕ) (ds es : List Domain) → Grown ms m ds es → Under ds es
Grown-Under ms m [] [] g = tt
Grown-Under ms m [] (e ∷ es) g = absurd g
Grown-Under ms m (d ∷ ds) [] g = absurd g
Grown-Under ms m (d ∷ ds) (e ∷ es) g = (omega (arith, g.0), Grown-Under ms m ds es g.1)

pub Grown-refl : (ms m : ℕ) (ds : List Domain) → Grown ms m ds ds
Grown-refl ms m [] = tt
Grown-refl ms m (d ∷ ds) = (inl refl, Grown-refl ms m ds)

-- A step in front of a replay whose end leaves room for the step.
pub Grown-set :
    (ms m : ℕ) (ds es : List Domain) (i : ℕ) (d : Domain)
    → get_elem? ds i ≡ some d
    → d.is_open ≡ true
    → d.count + 1 < half_word
    → d.count + 1 ≤ m + ms
    → Grown ms m (set ds i (bump d)) es
    → Grown ms m ds es
Grown-set ms m [] es i d h o c f g = cc
Grown-set ms m (x ∷ ds) [] zero d h o c f g = absurd g
Grown-set ms m (x ∷ ds) [] (suc i) d h o c f g = absurd g
Grown-set ms m (x ∷ ds) (e ∷ es) zero d h o c f g =
    let q : x.count ≡ d.count = ap (λ (y : Domain). y.count) (eq_of_some h) in
    let p : x.is_open ≡ d.is_open = ap (λ (y : Domain). y.is_open) (eq_of_some h) in
    (inr (p ∙ o, omega (arith, q, g.0, bump-count d c), omega (arith, g.0, bump-count d c)), g.1)
Grown-set ms m (x ∷ ds) (e ∷ es) (suc i) d h o c f g = (g.0, Grown-set ms m ds es i d h o c f g.1)

pub Under-set :
    (ds es : List Domain) (i : ℕ) (d : Domain)
    → Room 1 ds
    → get_elem? ds i ≡ some d
    → Under (set ds i (bump d)) es
    → Under ds es
Under-set [] es i d r h u = cc
Under-set (x ∷ ds) [] zero d r h u = absurd u
Under-set (x ∷ ds) [] (suc i) d r h u = absurd u
Under-set (x ∷ ds) (e ∷ es) zero d r h u =
    let q : x.count ≡ d.count = ap (λ (y : Domain). y.count) (eq_of_some h) in
    (omega (arith, q, u.0, bump-count d (omega (arith, q, r.0))), u.1)
Under-set (x ∷ ds) (e ∷ es) (suc i) d r h u = (u.0, Under-set ds es i d r.1 h u.1)

pub Room-at :
    (n : ℕ) (ds : List Domain) (i : ℕ) (d : Domain)
    → Room n ds
    → get_elem? ds i ≡ some d
    → d.count + n < half_word
Room-at n [] i d r h = cc
Room-at n (x ∷ ds) zero d r h =
    let q : x.count ≡ d.count = ap (λ (y : Domain). y.count) (eq_of_some h) in omega (arith, q, r.0)
Room-at n (x ∷ ds) (suc i) d r h = Room-at n ds i d r.1 h

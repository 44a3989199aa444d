-- ===== src/Base/Picked.antt =====
-- A list without the elements that a loop passes over, and two lists element by element.
use mathlib.Core.Bool.{Bool, true}
use mathlib.Core.List.{List, [], ◌∷◌}
use mathlib.Core.Logic.{inl, inr, ◌↔◌}
use mathlib.Core.Path.{ap, refl, subst, sym, ◌≡◌}
use nix_packages.Base.Lists.{All, Has, keep}
use nix_packages.Base.Tests.{Bool-cases}

module _ {A : Type 0} (P : A → Type 0) where
  -- The second list has the elements of the first with the property, in their order.
  pub data Selects : List A → List A → Type 0 where
    selects_none : Selects [] []
    selects_this : {x : A} {xs ys : List A} → P x → Selects xs ys → Selects (x ∷ xs) (x ∷ ys)
    selects_later : {x : A} {xs ys : List A} → ¬ P x → Selects xs ys → Selects (x ∷ xs) ys

  module _ (p : A → Bool) (p_iff : (a : A) → (p a ≡ true) ↔ P a) where
    pub Selects-keep : {xs ys : List A} → Selects xs ys → keep p xs ≡ ys
    unfolding keep
    Selects-keep selects_none = refl
    Selects-keep (selects_this {x} {xs} {ys} h s) =
        rw ((p_iff x).1 h) (ap (λ zs. x ∷ zs) (Selects-keep s))
    Selects-keep (selects_later {x} {xs} {ys} h s) = elim (Bool-cases (p x)) [
      | inl e ↦ absurd (h ((p_iff x).0 e))
      | inr e ↦ rw e (Selects-keep s)
    ]

-- The lists are as long, and their elements are related, each with the one at its place.
abbrev pub Pairwise : {A B : Type 0} → (A → B → Type 0) → List A → List B → Type 0
Pairwise R [] [] = Unit {0}
Pairwise R [] (b ∷ bs) = ⊥
Pairwise R (a ∷ as') [] = ⊥
Pairwise R (a ∷ as') (b ∷ bs) = R a b × Pairwise R as' bs

pub Pairwise-self :
    {A : Type 0} (R : A → A → Type 0) (xs : List A) → ((a : A) → R a a) → Pairwise R xs xs
Pairwise-self R [] h = tt
Pairwise-self R (x ∷ xs) h = (h x, Pairwise-self R xs h)

pub Pairwise-compose :
    {A B C : Type 0} (R : A → B → Type 0) (S : B → C → Type 0) (T : A → C → Type 0) (xs : List A)
    (ys : List B) (zs : List C)
    → ((a : A) (b : B) (c : C) → R a b → S b c → T a c)
    → Pairwise R xs ys
    → Pairwise S ys zs
    → Pairwise T xs zs
Pairwise-compose R S T [] [] [] h r s = tt
Pairwise-compose R S T [] [] (z ∷ zs) h r s = absurd s
Pairwise-compose R S T [] (y ∷ ys) zs h r s = absurd r
Pairwise-compose R S T (x ∷ xs) [] zs h r s = absurd r
Pairwise-compose R S T (x ∷ xs) (y ∷ ys) [] h r s = absurd s
Pairwise-compose R S T (x ∷ xs) (y ∷ ys) (z ∷ zs) h r s =
    (h x y z r.0 s.0, Pairwise-compose R S T xs ys zs h r.1 s.1)

pub Pairwise-map :
    {A B : Type 0} (R S : A → B → Type 0) (xs : List A) (ys : List B)
    → ((a : A) (b : B) → R a b → S a b)
    → Pairwise R xs ys
    → Pairwise S xs ys
Pairwise-map R S [] [] h r = tt
Pairwise-map R S [] (y ∷ ys) h r = absurd r
Pairwise-map R S (x ∷ xs) [] h r = absurd r
Pairwise-map R S (x ∷ xs) (y ∷ ys) h r = (h x y r.0, Pairwise-map R S xs ys h r.1)

pub All-tabulate :
    {A : Type 0} (P : A → Type 0) (xs : List A) → ((a : A) → Has a xs → P a) → All P xs
All-tabulate P [] h = tt
All-tabulate P (x ∷ xs) h = (h x (inl refl), All-tabulate P xs (λ a m. h a (inr m)))

pub All-at : {A : Type 0} (P : A → Type 0) (xs : List A) → All P xs → (a : A) → Has a xs → P a
All-at P [] h a m = absurd m
All-at P (x ∷ xs) h a (inl e) = subst P (sym e) h.0
All-at P (x ∷ xs) h a (inr m) = All-at P xs h.1 a m

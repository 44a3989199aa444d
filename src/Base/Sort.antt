-- ===== src/Base/Sort.antt =====
-- Go's sort.SliceStable by a test `less`: insertion sort gives the one stable order.
use mathlib.Core.Bool.{Bool, false, true}
use mathlib.Core.List.{List, Perm, [], ◌∷◌}
use mathlib.Core.Logic.{inl, inr, ◌⊎◌}
use mathlib.Core.Path.{◌≡◌}
use nix_packages.Base.Lists.{All, Has}
use nix_packages.Base.Tests.{Bool-cases, if◌then◌else◌}
use mathlib.Core.List.Perm

module _ {A : Type 0} (less : A → A → Bool) where
  unfoldable pub insert_by : A → List A → List A
  insert_by x [] = x ∷ []
  insert_by x (y ∷ ys) = let rest = insert_by x ys in if less y x then y ∷ rest else x ∷ y ∷ ys

  unfoldable pub sort_by : List A → List A
  sort_by [] = []
  sort_by (x ∷ xs) = insert_by x (sort_by xs)

  insert_by-perm : (x : A) (ys : List A) → Perm (insert_by x ys) (x ∷ ys)
  unfolding insert_by
  insert_by-perm x [] = Perm.refl (x ∷ [])
  insert_by-perm x (y ∷ ys) = elim (Bool-cases (less y x)) [
    | inl e ↦ rw e (Perm.trans (Perm.cons y (insert_by-perm x ys)) (Perm.swap x y ys))
    | inr e ↦ rw e (Perm.refl (x ∷ y ∷ ys))
  ]

  pub sort_by-perm : (xs : List A) → Perm (sort_by xs) xs
  unfolding sort_by
  sort_by-perm [] = Perm.refl []
  sort_by-perm (x ∷ xs) = Perm.trans (insert_by-perm x (sort_by xs)) (Perm.cons x (sort_by-perm xs))

  -- No element comes after one that it is less than.
  abbrev pub IsSorted : List A → Type 0
  IsSorted [] = Unit
  IsSorted (x ∷ xs) = All (λ y. less y x ≡ false) xs × IsSorted xs

  insert_by-keeps {κ} :
      (P : A → Type κ) (x : A) (ys : List A) → P x → All P ys → All P (insert_by x ys)
  unfolding insert_by
  insert_by-keeps P x [] h k = (h, tt)
  insert_by-keeps P x (y ∷ ys) h k = elim (Bool-cases (less y x)) [
    | inl e ↦ rw e (k.0, insert_by-keeps P x ys h k.1)
    | inr e ↦ rw e (h, k)
  ]

  pub sort_by-All {κ} : (P : A → Type κ) (xs : List A) → All P xs → All P (sort_by xs)
  unfolding sort_by
  sort_by-All P [] h = tt
  sort_by-All P (x ∷ xs) h = insert_by-keeps P x (sort_by xs) h.0 (sort_by-All P xs h.1)

  insert_by-Has : (a x : A) (ys : List A) → (a ≡ x) ⊎ Has a ys → Has a (insert_by x ys)
  unfolding insert_by
  insert_by-Has a x [] h = h
  insert_by-Has a x (y ∷ ys) (inl q) = elim (Bool-cases (less y x)) [
    | inl e ↦ rw e (inr (insert_by-Has a x ys (inl q)))
    | inr e ↦ rw e (inl q)
  ]
  insert_by-Has a x (y ∷ ys) (inr (inl q)) = elim (Bool-cases (less y x)) [
    | inl e ↦ rw e (inl q)
    | inr e ↦ rw e (inr (inl q))
  ]
  insert_by-Has a x (y ∷ ys) (inr (inr m)) = elim (Bool-cases (less y x)) [
    | inl e ↦ rw e (inr (insert_by-Has a x ys (inr m)))
    | inr e ↦ rw e (inr (inr m))
  ]

  pub sort_by-Has : (a : A) (xs : List A) → Has a xs → Has a (sort_by xs)
  unfolding sort_by
  sort_by-Has a [] h = h
  sort_by-Has a (x ∷ xs) (inl q) = insert_by-Has a x (sort_by xs) (inl q)
  sort_by-Has a (x ∷ xs) (inr m) = insert_by-Has a x (sort_by xs) (inr (sort_by-Has a xs m))

  module _ (W : A → Type 0) (asym : (a b : A) → less a b ≡ true → less b a ≡ false)
      (cotrans : (a b c : A)
        → W a
        → W b
        → W c
        → less b a ≡ false
        → less c b ≡ false
        → less c a ≡ false) where
    insert_by-All :
        (z x : A) (ys : List A)
        → less x z ≡ false
        → All (λ y. less y z ≡ false) ys
        → All (λ y. less y z ≡ false) (insert_by x ys)
    unfolding insert_by
    insert_by-All z x [] h k = (h, tt)
    insert_by-All z x (y ∷ ys) h k = elim (Bool-cases (less y x)) [
      | inl e ↦ rw e (k.0, insert_by-All z x ys h k.1)
      | inr e ↦ rw e (h, k)
    ]

    after_head :
        (x y : A) (zs : List A)
        → W x
        → All W (y ∷ zs)
        → All (λ z. less z y ≡ false) zs
        → less y x ≡ false
        → All (λ z. less z x ≡ false) zs
    after_head x y [] w v h e = tt
    after_head x y (z ∷ zs) w v h e =
        (cotrans x y z w v.0 v.1.0 e h.0, after_head x y zs w (v.0, v.1.1) h.1 e)

    insert_by-IsSorted :
        (x : A) (ys : List A) → W x → All W ys → IsSorted ys → IsSorted (insert_by x ys)
    unfolding insert_by
    insert_by-IsSorted x [] w v s = (tt, tt)
    insert_by-IsSorted x (y ∷ ys) w v s = elim (Bool-cases (less y x)) [
      | inl e ↦ rw e (insert_by-All y x ys (asym y x e) s.0, insert_by-IsSorted x ys w v.1 s.1)
      | inr e ↦ rw e ((e, after_head x y ys w v s.0 e), s)
    ]

    pub sort_by-IsSorted : (xs : List A) → All W xs → IsSorted (sort_by xs)
    unfolding sort_by
    sort_by-IsSorted [] v = tt
    sort_by-IsSorted (x ∷ xs) v =
        insert_by-IsSorted x (sort_by xs) v.0 (sort_by-All W xs v.1) (sort_by-IsSorted xs v.1)

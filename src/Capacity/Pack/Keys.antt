-- ===== src/Capacity/Pack/Keys.antt =====
-- The keys and the masks that the search compares Pods by.
-- No two of the Pods have the same name in the same namespace.
use mathlib.Core.Bool.{Bool, false, true}
use mathlib.Core.List.{List, [], ◌∷◌}
use mathlib.Core.Logic.{inl, inr, ◌≢◌}
use mathlib.Core.Path.{ap, refl, subst, sym, ◌∙◌, ◌≡◌}
use text.Mathlib.Text.{◌==◌}
use text.Mathlib.TextPositions.{eq_refl}
use nix_packages.Base.{All, Has}
use nix_packages.Capacity.Admission.{DisplacedPod}
use nix_packages.Capacity.Pack.Search.{same_mask}
use nix_packages.Capacity.Place.{pod_key}

abbrev pub DistinctKeys : List DisplacedPod → Type 0
DistinctKeys [] = Unit {0}
DistinctKeys (d ∷ ds) = All (λ b. (pod_key d == pod_key b) ≡ false) ds × DistinctKeys ds

apart :
    (d b : DisplacedPod) (ds : List DisplacedPod)
    → All (λ b. (pod_key d == pod_key b) ≡ false) ds
    → Has b ds
    → pod_key d ≢ pod_key b
apart d b [] h m q = absurd m
apart d b (x ∷ xs) h (inl e) q =
    let k : (pod_key d == pod_key b) ≡ false =
      subst (λ x. (pod_key d == pod_key x) ≡ false) (sym e) h.0 in
    let z : (pod_key d == pod_key b) ≡ true =
      subst (λ x. (pod_key d == x) ≡ true) q (eq_refl (pod_key d)) in
    cc
apart d b (x ∷ xs) h (inr m) q = apart d b xs h.1 m q

pub one_of_key :
    (ds : List DisplacedPod) (a b : DisplacedPod)
    → DistinctKeys ds
    → Has a ds
    → Has b ds
    → pod_key a ≡ pod_key b
    → a ≡ b
one_of_key [] a b h m n e = absurd m
one_of_key (x ∷ xs) a b h (inl p) (inl q) e = p ∙ sym q
one_of_key (x ∷ xs) a b h (inl p) (inr m) e = absurd (apart x b xs h.0 m (sym (ap pod_key p) ∙ e))
one_of_key (x ∷ xs) a b h (inr m) (inl q) e =
    absurd (apart x a xs h.0 m (sym (ap pod_key q) ∙ sym e))
one_of_key (x ∷ xs) a b h (inr m) (inr n) e = one_of_key xs a b h.1 m n e

pub same_mask-eq : (xs ys : List Bool) → same_mask xs ys ≡ true → xs ≡ ys
unfolding same_mask
same_mask-eq [] [] h = refl
same_mask-eq [] (y ∷ ys) h = absurd (cc)
same_mask-eq (x ∷ xs) [] h = absurd (cc)
same_mask-eq (true ∷ xs) (true ∷ ys) h = ap (λ zs. true ∷ zs) (same_mask-eq xs ys h)
same_mask-eq (true ∷ xs) (false ∷ ys) h = absurd (cc)
same_mask-eq (false ∷ xs) (true ∷ ys) h = absurd (cc)
same_mask-eq (false ∷ xs) (false ∷ ys) h = ap (λ zs. false ∷ zs) (same_mask-eq xs ys h)

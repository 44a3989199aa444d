-- ===== src/Operation/VolumeSpread.antt =====
-- The loop of survivingReplicaNodes, and the length of what it finds.
use Prim.Native.Nat.{suc}
use Prim.Native.String.{String}
use mathlib.Core.Bool.{Bool, false, not, true, ◌&&◌}
use mathlib.Core.List.{List, [], ◌++◌, ◌∷◌}
use mathlib.Core.Logic.{inl, inr}
use mathlib.Core.Path.{ap, refl, subst, sym, ◌∙◌, ◌≡◌}
use native.Mathlib.Omega.{arith}
use text.Mathlib.Text.{◌==◌}
use text.Mathlib.TextEquality.{eq_iff}
use text.Mathlib.TextPositions.{eq_refl}
use nix_packages.Base.{&&-true, Bool-cases, Has, contains, insert_by, length, ltb, sort_by}
use nix_packages.Operation.Volumes.{LonghornReplica, survives, surviving_nodes}

contains-append_left :
    (xs ys : List String) (a : String) → contains xs a ≡ true → contains (xs ++ ys) a ≡ true
unfolding contains
contains-append_left [] ys a h = absurd (cc)
contains-append_left (x ∷ xs) ys a h = elim (Bool-cases (a == x)) [
  | inl e ↦ rw e refl
  | inr e ↦ let k : contains xs a ≡ true = rw e at h in rw (e, contains-append_left xs ys a k) refl
]

contains-append_last : (xs : List String) (a : String) → contains (xs ++ a ∷ []) a ≡ true
unfolding contains
contains-append_last [] a = rw (eq_refl a) refl
contains-append_last (x ∷ xs) a = elim (Bool-cases (a == x)) [
  | inl e ↦ rw e refl
  | inr e ↦ rw (e, contains-append_last xs a) refl
]

module _ (target volume : String) where
  found_stays :
      (rs : List LonghornReplica) (found : List String) (a : String)
      → contains found a ≡ true
      → contains (surviving_nodes target volume found rs) a ≡ true
  unfolding surviving_nodes
  found_stays [] found a h = h
  found_stays (x ∷ xs) found a h =
      elim (Bool-cases
        (survives target x && x.volume_name == volume && not (contains found x.node_id))) [
          | inl e ↦
              rw (e, surviving_nodes)
                (found_stays xs (found ++ x.node_id ∷ []) a
                  (contains-append_left found (x.node_id ∷ []) a h))
          | inr e ↦ rw (e, surviving_nodes) (found_stays xs found a h)
        ]

  -- The head of the list, whether its node was found before or not.
  head_found :
      (x : LonghornReplica) (xs : List LonghornReplica) (found : List String)
      → (survives target x && x.volume_name == volume) ≡ true
      → contains (surviving_nodes target volume found (x ∷ xs)) x.node_id ≡ true
  unfolding surviving_nodes
  head_found x xs found h =
      let (s, v) = &&-true (survives target x) (x.volume_name == volume) h in
      elim (Bool-cases (contains found x.node_id)) [
        | inl e ↦ rw (s, v, e, surviving_nodes) (found_stays xs found x.node_id e)
        | inr e ↦
            rw (s, v, e, surviving_nodes)
              (found_stays xs (found ++ x.node_id ∷ []) x.node_id
                (contains-append_last found x.node_id))
      ]

  pub surviving_nodes-finds :
      (rs : List LonghornReplica) (found : List String) (r : LonghornReplica)
      → Has r rs
      → (survives target r && r.volume_name == volume) ≡ true
      → contains (surviving_nodes target volume found rs) r.node_id ≡ true
  unfolding surviving_nodes
  surviving_nodes-finds [] found r m h = absurd m
  surviving_nodes-finds (x ∷ xs) found r (inr m) h = surviving_nodes-finds xs _ r m h
  surviving_nodes-finds (x ∷ xs) found r (inl e) h =
      subst (λ n. contains (surviving_nodes target volume found (x ∷ xs)) n ≡ true)
        (ap (λ r. r.node_id) (sym e))
        (head_found x xs found
          (subst (λ r. (survives target r && r.volume_name == volume) ≡ true) e h))

-- Two different names take two places.
pub two_long :
    (xs : List String) (a b : String)
    → contains xs a ≡ true
    → contains xs b ≡ true
    → (a == b) ≡ false
    → ltb (length xs) 2 ≡ false
unfolding contains
two_long [] a b h k d = absurd (cc)
two_long (x ∷ y ∷ rest) a b h k d = ground arith
two_long (x ∷ []) a b h k d =
    let p : a ≡ x = ground (arith, h, eq_iff a x) in
    let q : b ≡ x = ground (arith, k, eq_iff b x) in
    let same : (a == b) ≡ true = ground (arith, eq_iff a b, p ∙ sym q) in absurd (cc)

length-insert_by :
    {A : Type 0} (less : A → A → Bool) (x : A) (xs : List A)
    → length (insert_by less x xs) ≡ suc (length xs)
unfolding insert_by
length-insert_by less x [] = refl
length-insert_by less x (y ∷ ys) = elim (Bool-cases (less y x)) [
  | inl e ↦ rw (e, insert_by) (ap suc (length-insert_by less x ys))
  | inr e ↦ rw (e, insert_by) refl
]

pub length-sort_by :
    {A : Type 0} (less : A → A → Bool) (xs : List A) → length (sort_by less xs) ≡ length xs
unfolding sort_by
length-sort_by less [] = refl
length-sort_by less (x ∷ xs) =
    length-insert_by less x (sort_by less xs) ∙ ap suc (length-sort_by less xs)

-- ===== src/Capacity/Pack/Placed.antt =====
-- About the rooms that `place` and `reset` leave, for `placeNeeded`.
use Prim.Native.Nat.{suc, zero, ℕ}
use Prim.Native.String.{String}
use mathlib.Core.Bool.{Bool, not}
use mathlib.Core.List.{List, [], ◌++◌, ◌∷◌}
use mathlib.Core.Logic.{inl, inr, ◌≢◌}
use mathlib.Core.Option.{none, some}
use mathlib.Core.Path.{ap, ap₂, refl, subst, sym, ◌≡◌}
use nix_packages.Base.{All, Bool-cases, Floats, Has, get_elem?, keep}
use nix_packages.Capacity.Admission.{DisplacedPod, RoomyNode}
use nix_packages.Capacity.Pack.Needed.{frees, reset}
use nix_packages.Capacity.Pack.Placements.{Fills, done, step}
use nix_packages.Capacity.Place.{Placement, largest_first, place, put, update_at}
use nix_packages.Capacity.Place.Spreads.{
  Spreads, finished, goes, is_barred, lacks_room, place-Spreads,
}
use nix_packages.Kube.{Pod}

module _ ⦃F : Floats⦄ (pods : List Pod) where
  append-ne-nil : (xs : List String) (x : String) → (xs ++ x ∷ []) ≢ []
  append-ne-nil [] x h = cc
  append-ne-nil (y ∷ ys) x h = cc

  -- Lines are only added.
  Spreads-grows :
      (ds : List DisplacedPod) (s t : Placement)
      → Spreads pods ds s t
      → (t.no_room ≡ [] → s.no_room ≡ []) × (t.barred ≡ [] → s.barred ≡ [])
  Spreads-grows ds s t finished = (λ h. h, λ h. h)
  Spreads-grows ds s t (goes j m h) = Spreads-grows _ _ t h
  Spreads-grows ds s t (lacks_room r m a l h) =
      let k = Spreads-grows _ _ t h in (λ e. absurd (append-ne-nil s.no_room _ (k.0 e)), k.1)
  Spreads-grows ds s t (is_barred l h) =
      let k = Spreads-grows _ _ t h in (k.0, λ e. absurd (append-ne-nil s.barred _ (k.1 e)))

  -- A spreading without a line is a placement of every Pod.
  Spreads-Fills :
      (ds : List DisplacedPod) (s t : Placement)
      → Spreads pods ds s t
      → t.no_room ≡ []
      → t.barred ≡ []
      → Fills pods s.room ds t.room
  Spreads-Fills ds s t finished n b = done
  Spreads-Fills ds s t (goes j m h) n b = step j m (Spreads-Fills _ _ t h n b)
  Spreads-Fills ds s t (lacks_room r m a l h) n b =
      absurd (append-ne-nil s.no_room _ ((Spreads-grows _ _ t h).0 n))
  Spreads-Fills ds s t (is_barred l h) n b =
      absurd (append-ne-nil s.barred _ ((Spreads-grows _ _ t h).1 b))

-- The same nodes, whatever is free or placed on them.
abbrev pub SameNodes : List RoomyNode → List RoomyNode → Type 0
SameNodes [] [] = Unit
SameNodes [] (s ∷ ss) = ⊥
SameNodes (r ∷ rs) [] = ⊥
SameNodes (r ∷ rs) (s ∷ ss) = (r.node ≡ s.node) × (r.allocatable ≡ s.allocatable) × SameNodes rs ss

pub SameNodes-refl : (room : List RoomyNode) → SameNodes room room
SameNodes-refl [] = tt
SameNodes-refl (r ∷ rs) = (refl, refl, SameNodes-refl rs)

pub SameNodes-put :
    (d : DisplacedPod) (j : ℕ) (a b : List RoomyNode)
    → SameNodes a b
    → SameNodes a (update_at j (put d) b)
unfolding put
SameNodes-put d j [] [] h = tt
SameNodes-put d j [] (s ∷ ss) h = absurd h
SameNodes-put d j (r ∷ rs) [] h = absurd h
SameNodes-put d zero (r ∷ rs) (s ∷ ss) h = h
SameNodes-put d (suc j) (r ∷ rs) (s ∷ ss) h = (h.0, h.1, SameNodes-put d j rs ss h.2)

-- Every node's list of placed Pods is empty.
abbrev pub Untouched : List RoomyNode → Type 0
Untouched room = All (λ r. r.placed ≡ []) room

-- `reset` brings back a room on which nothing was placed, from any room with its nodes.
pub reset-SameNodes : (a b : List RoomyNode) → SameNodes a b → Untouched a → reset (frees a) b ≡ a
unfolding reset
reset-SameNodes [] [] h u = refl
reset-SameNodes [] (s ∷ ss) h u = absurd h
reset-SameNodes (r ∷ rs) [] h u = absurd h
reset-SameNodes (r ∷ rs) (s ∷ ss) h u =
    ap₂ ◌∷◌
      (λ i. record { node = sym h.0 i; allocatable = sym h.1 i; free = r.free; placed = sym u.0 i })
      (reset-SameNodes rs ss h.2 u.1)

pub keep-all :
    {A : Type 0} (p : A → Bool) (xs : List A) → keep (λ x. not (p x)) xs ≡ [] → keep p xs ≡ xs
unfolding keep
keep-all p [] h = refl
keep-all p (x ∷ xs) h = elim (Bool-cases (p x)) [
  | inl e ↦ rw e (ap (◌∷◌ x) (keep-all p xs (rw e at h)))
  | inr e ↦ let k : x ∷ keep (λ y. not (p y)) xs ≡ [] = rw e at h in cc
]

module _ ⦃F : Floats⦄ (pods : List Pod) where
  pub Spreads-SameNodes :
      (room : List RoomyNode) (ds : List DisplacedPod) (s t : Placement)
      → Spreads pods ds s t
      → SameNodes room s.room
      → SameNodes room t.room
  Spreads-SameNodes room ds s t finished h = h
  Spreads-SameNodes room ds s t (goes {d = d} j m k) h =
      Spreads-SameNodes room _ _ t k (SameNodes-put d j room s.room h)
  Spreads-SameNodes room ds s t (lacks_room r m a l k) h = Spreads-SameNodes room _ _ t k h
  Spreads-SameNodes room ds s t (is_barred l k) h = Spreads-SameNodes room _ _ t k h

  pub place-SameNodes :
      (room : List RoomyNode) (ds : List DisplacedPod) → SameNodes room (place room ds pods).room
  place-SameNodes room ds =
      Spreads-SameNodes room _ _ _ (place-Spreads pods room ds).0 (SameNodes-refl room)

  pub place-Fills :
      (room : List RoomyNode) (ds : List DisplacedPod)
      → (place room ds pods).no_room ≡ []
      → (place room ds pods).barred ≡ []
      → Fills pods room (largest_first ds) (place room ds pods).room
  place-Fills room ds n b =
      Spreads-Fills pods _ (record { room = room; no_room = []; barred = [] }) _
        (place-Spreads pods room ds).0 n b

  -- In an empty room every Pod is barred, so no line means no Pod.
  pub Spreads-nowhere :
      (ds : List DisplacedPod) (s t : Placement)
      → Spreads pods ds s t
      → s.room ≡ []
      → t.barred ≡ []
      → ds ≡ []
  Spreads-nowhere ds s t finished e b = refl
  Spreads-nowhere ds s t (goes j m h) e b =
      let k : none ≡ some m.node =
        subst (λ (x : List RoomyNode). get_elem? x j ≡ some m.node) e m.there in
      cc
  Spreads-nowhere ds s t (lacks_room r m a l h) e b = absurd (subst (λ x. Has r x) e m)
  Spreads-nowhere ds s t (is_barred l h) e b =
      absurd (append-ne-nil pods s.barred _ ((Spreads-grows pods _ _ t h).1 b))

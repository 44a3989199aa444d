-- ===== src/Capacity/Pack/NeededLaws.antt =====
-- About a run of `placeNeeded` that reports no Pod.
use Prim.Native.Nat.{ℕ}
use Prim.Native.String.{String}
use mathlib.Core.Bool.{Bool, false, not, true, ◌&&◌}
use mathlib.Core.List.{List, Perm, [], ◌∷◌}
use mathlib.Core.Logic.{inl, inr, ◌≢◌}
use mathlib.Core.Path.{ap, refl, subst, ◌∙◌, ◌≡◌}
use native.Mathlib.Omega.{arith}
use nix_packages.Base.{
  &&-true, All-keep, Bool-cases, Floats, append-nil_parts, contains, insert_by, is_empty,
  is_empty-nil, keep, sort_by,
}
use nix_packages.Capacity.Admission.{DisplacedPod, RoomyNode}
use nix_packages.Capacity.Pack.Needed.{
  after_pack, frees, only_spread, place_needed, placeable, reset, respread, searched,
}
use nix_packages.Capacity.Pack.Placed.{
  SameNodes-refl, Spreads-nowhere, Untouched, keep-all, place-Fills, place-SameNodes,
  reset-SameNodes,
}
use nix_packages.Capacity.Pack.Placements.{Fills, RequestsAreWords, RoomIsWord}
use nix_packages.Capacity.Pack.Search.{Packed, pack, search_order}
use nix_packages.Capacity.Pack.Sound.{pack_sound, search_order-perm}
use nix_packages.Capacity.Place.{larger_request, largest_first, place}
use nix_packages.Capacity.Place.Spreads.{largest_first-perm, place-Spreads}
use nix_packages.Capacity.Resources.{IsWord, Resources}
use nix_packages.Kube.{Pod}

insert_by-ne-nil :
    {A : Type 0} (less : A → A → Bool) (x : A) (ys : List A) → insert_by less x ys ≢ []
unfolding insert_by
insert_by-ne-nil less x [] h = cc
insert_by-ne-nil less x (y ∷ ys) h = ground arith

largest_first-nil : (ds : List DisplacedPod) → largest_first ds ≡ [] → ds ≡ []
unfolding largest_first sort_by
largest_first-nil [] h = refl
largest_first-nil (d ∷ ds) h = absurd (insert_by-ne-nil larger_request d _ h)

module _ ⦃F : Floats⦄ (pods : List Pod) where
  -- Every Pod has been placed, in some order, from the first room to the second.
  abbrev pub AllPlaced : List RoomyNode → List DisplacedPod → List RoomyNode → Type 0
  AllPlaced room needed room' =
      (order : List DisplacedPod) × Perm order needed × Fills pods room order room'

  nothing_excluded :
      (excluded : List DisplacedPod) → (place [] excluded pods).barred ≡ [] → excluded ≡ []
  nothing_excluded excluded b = largest_first-nil excluded (
      Spreads-nowhere pods _ (record { room = []; no_room = []; barred = [] }) _
        (place-Spreads pods [] excluded).0 refl b)

  only_spread-nil : (lines : List String) → only_spread pods [] lines ≡ [] → lines ≡ []
  unfolding only_spread keep contains
  only_spread-nil [] h = refl
  only_spread-nil (x ∷ xs) h = cc

  place-AllPlaced :
      (room : List RoomyNode) (needed : List DisplacedPod)
      → (place room needed pods).no_room ≡ []
      → (place room needed pods).barred ≡ []
      → AllPlaced room needed (place room needed pods).room
  place-AllPlaced room needed n b =
      (largest_first needed, largest_first-perm pods needed, place-Fills pods room needed n b)

  respread-AllPlaced :
      (saved : List Resources) (room fresh : List RoomyNode) (needed : List DisplacedPod)
      (barred_lines : List String) (settled : Bool)
      → reset saved room ≡ fresh
      → (respread pods saved room needed barred_lines settled).unplaced ≡ []
      → (respread pods saved room needed barred_lines settled).unsure ≡ []
      → AllPlaced fresh needed (respread pods saved room needed barred_lines settled).room
  unfolding respread
  respread-AllPlaced saved room fresh needed barred_lines true q u v =
      let again = place (reset saved room) needed pods in
      let parts = append-nil_parts again.no_room again.barred u in
      subst (λ x. AllPlaced x needed again.room) q
        (place-AllPlaced (reset saved room) needed parts.0 parts.1)
  respread-AllPlaced saved room fresh needed barred_lines false q u v =
      let again = place (reset saved room) needed pods in
      let parts = append-nil_parts again.no_room (only_spread pods barred_lines again.barred) v in
      subst (λ x. AllPlaced x needed again.room) q
        (place-AllPlaced (reset saved room) needed parts.0 (
          only_spread-nil again.barred
            (subst (λ x. only_spread pods x again.barred ≡ []) u parts.1)))

  after_pack-AllPlaced :
      (saved : List Resources) (fresh : List RoomyNode) (needed : List DisplacedPod)
      (barred_lines : List String) (packed : Packed)
      → (packed.found ≡ true → barred_lines ≡ [] → AllPlaced fresh needed packed.room)
      → (packed.found ≡ false → reset saved packed.room ≡ fresh)
      → (after_pack pods saved needed barred_lines packed).unplaced ≡ []
      → (after_pack pods saved needed barred_lines packed).unsure ≡ []
      → AllPlaced fresh needed (after_pack pods saved needed barred_lines packed).room
  unfolding after_pack
  after_pack-AllPlaced saved fresh needed barred_lines packed hit miss u v =
      elim (Bool-cases packed.found) [
        | inl e ↦ rw e (hit e (rw e at u))
        | inr e ↦ rw e (
            respread-AllPlaced saved packed.room fresh needed barred_lines packed.settled (miss e)
              (rw e at u) (rw e at v))
      ]

  searched-AllPlaced :
      (room : List RoomyNode) (needed : List DisplacedPod) (budget : ℕ)
      → RoomIsWord room
      → RequestsAreWords needed
      → Untouched room
      → (searched pods (frees room) room needed budget).unplaced ≡ []
      → (searched pods (frees room) room needed budget).unsure ≡ []
      → AllPlaced room needed (searched pods (frees room) room needed budget).room
  unfolding searched
  searched-AllPlaced room needed budget w k t u v =
      let kept = keep (placeable pods room) needed in
      let excluded = keep (λ d. not (placeable pods room d)) needed in
      let packed = pack pods room kept budget in
      let same : reset (frees room) room ≡ room =
        reset-SameNodes room room (SameNodes-refl room) t in
      let sound =
        pack_sound pods room kept budget w
          (All-keep (λ d. IsWord d.requests) (placeable pods room) needed k) in
      after_pack-AllPlaced (frees room) room needed (place [] excluded pods).barred packed
        (λ f b.
          let q : kept ≡ needed =
            keep-all (placeable pods room) needed (nothing_excluded excluded b) in
          (
            search_order pods room kept,
            subst (λ x. Perm (search_order pods room kept) x) q (search_order-perm pods room kept),
            sound.0 f,
          ))
        (λ f. ap (reset (frees room)) (sound.1 f) ∙ same) u v

  -- When `placeNeeded` reports no Pod, as unplaced or as unsettled, every needed Pod has been put,
  -- in some order, on a node that admitted it and had room for it at that moment, from the room it
  -- was given to the room it leaves. It is given a room of 64-bit patterns with no Pod placed yet.
  pub place_needed_sound :
      (room : List RoomyNode) (needed : List DisplacedPod) (budget : ℕ)
      → RoomIsWord room
      → RequestsAreWords needed
      → Untouched room
      → (place_needed pods room needed budget).unplaced ≡ []
      → (place_needed pods room needed budget).unsure ≡ []
      → AllPlaced room needed (place_needed pods room needed budget).room
  unfolding place_needed
  place_needed_sound room needed budget w k t u v =
      let first = place room needed pods in
      let fresh : reset (frees room) first.room ≡ room =
        reset-SameNodes room first.room (place-SameNodes pods room needed) t in
      elim (Bool-cases (is_empty first.no_room && is_empty first.barred)) [
        | inl e ↦
            let parts = &&-true (is_empty first.no_room) (is_empty first.barred) e in
            rw e (
              place-AllPlaced room needed (is_empty-nil first.no_room parts.0)
                (is_empty-nil first.barred parts.1))
        | inr e ↦
            rw (e, fresh)
              (searched-AllPlaced room needed budget w k t (rw (e, fresh) at u)
                (rw (e, fresh) at v))
      ]

-- ===== src/Placement/Floor/Skew.antt =====
-- About readyFloor's replay of the scheduler's skew check.
use Prim.Native.Nat.{suc, zero, ℕ, ◌+◌, ◌<◌, ◌≤◌}
use mathlib.Core.Bool.{true, ◌&&◌}
use mathlib.Core.List.{List, [], ◌∷◌}
use mathlib.Core.Logic.{inl, inr, ◌⊎◌}
use mathlib.Core.Option.{Option, none, some}
use mathlib.Core.Path.{ap, refl, subst, sym, ◌∙◌, ◌≡◌}
use native.Mathlib.Omega.{arith}
use nix_packages.Base.{All-map, Bool-cases, Option-cases, eq_of_some, get_elem?, half_word, set}
use nix_packages.Placement.Floor.{
  Domain, fewer, minimum_of, pick_domain, place_one, replay, within_skew,
}
use nix_packages.Placement.Floor.Domains.{
  Grown, Grown-Under, Grown-refl, Grown-set, Room, Room-at, Room-set, Room-weaken, Under-set, bump,
  fits-le, minimum_of-at, minimum_of_mono, total_count, total_count-set,
}

-- A Pod was placed on an open domain within the skew.
record Placed (ms minimum : ℕ) (ds ds' : List Domain) : Type 0 where
  at : ℕ
  domain : Domain
  there : get_elem? ds at ≡ some domain
  is_open : domain.is_open ≡ true
  in_skew : within_skew ms minimum domain ≡ true
  result : ds' ≡ set ds at (bump domain)

record Picked (ms minimum : ℕ) (ds : List Domain) (i : ℕ) (p : ℕ × Domain) : Type 0 where
  offset : ℕ
  index : p.0 ≡ i + offset
  there : get_elem? ds offset ≡ some p.1
  is_open : p.1.is_open ≡ true
  in_skew : within_skew ms minimum p.1 ≡ true

Picked-shift :
    (ms minimum : ℕ) (d : Domain) (ds : List Domain) (i : ℕ) (p : ℕ × Domain)
    → Picked ms minimum ds (suc i) p
    → Picked ms minimum (d ∷ ds) i p
Picked-shift ms minimum d ds i p h = record {
  offset = suc h.offset;
  index = omega (arith, h.index);
  there = h.there;
  is_open = h.is_open;
  in_skew = h.in_skew;
}

pick_domain-Picked :
    (ms minimum : ℕ) (ds : List Domain) (i : ℕ) (pick : Option (ℕ × Domain)) (p : ℕ × Domain)
    → pick_domain ms minimum ds i pick ≡ some p
    → (pick ≡ some p) ⊎ Picked ms minimum ds i p
unfolding pick_domain
pick_domain-Picked ms minimum [] i pick p h = inl h
pick_domain-Picked ms minimum (d ∷ ds) i pick p h =
    elim (Bool-cases (d.is_open && within_skew ms minimum d && fewer d pick)) [
      | inl e ↦ elim (pick_domain-Picked ms minimum ds (suc i) (some (i, d)) p (rw e at h)) [
        | inl same ↦ inr (record {
          offset = 0;
          index = ground (arith, same);
          there = ground (arith, same);
          is_open = ground (arith, same);
          in_skew = ground (arith, same);
        })
        | inr later ↦ inr (Picked-shift ms minimum d ds i p later)
      ]
      | inr e ↦ elim (pick_domain-Picked ms minimum ds (suc i) pick p (rw e at h)) [
        | inl same ↦ inl same
        | inr later ↦ inr (Picked-shift ms minimum d ds i p later)
      ]
    ]

place_one-Placed :
    (ms : ℕ) (ds ds' : List Domain) → place_one ms ds ≡ some ds' → Placed ms (minimum_of ds) ds ds'
unfolding place_one
place_one-Placed ms ds ds' h = elim (Option-cases (pick_domain ms (minimum_of ds) ds 0 none)) [
  | inl e ↦ let k : none ≡ some ds' = rw (e, place_one) at h in cc
  | inr (p, e) ↦ elim (pick_domain-Picked ms (minimum_of ds) ds 0 none p e) [
    | inl no_pick ↦ cc
    | inr k ↦
        let q : some (set ds p.0 (bump p.1)) ≡ some ds' = rw (e, place_one) at h in
        record {
          at = p.0;
          domain = p.1;
          there = let i : p.0 ≡ k.offset = omega (arith, k.index) in rw i k.there;
          is_open = k.is_open;
          in_skew = k.in_skew;
          result = sym (eq_of_some q);
        }
  ]
]

-- What holds of the domains and the number placed after n rounds.
pub record Replayed (ms n : ℕ) (ds : List Domain) (placed : ℕ) (r : List Domain × ℕ) : Type 0 where
  pub grown : Grown ms (minimum_of r.0) ds r.0
  pub counted : r.1 + total_count ds ≡ placed + total_count r.0
  pub rounds : r.1 ≤ placed + n
  room : Room 0 r.0

after_step :
    (ms n : ℕ) (ds ds' : List Domain) (placed : ℕ) (r : List Domain × ℕ)
    → ms < half_word
    → Room (suc n) ds
    → Placed ms (minimum_of ds) ds ds'
    → Replayed ms n ds' (suc placed) r
    → Replayed ms (suc n) ds placed r
after_step ms n ds ds' placed r hm room p h =
    let one : Room 1 ds = All-map ds (λ d k. omega arith) room in
    let c : p.domain.count + 1 < half_word = Room-at 1 ds p.at p.domain one p.there in
    let g : Grown ms (minimum_of r.0) (set ds p.at (bump p.domain)) r.0 =
      subst (λ x. Grown ms (minimum_of r.0) x r.0) p.result h.grown in
    let low : minimum_of ds ≤ minimum_of r.0 =
      minimum_of_mono ds r.0 h.room
        (Under-set ds r.0 p.at p.domain one p.there (Grown-Under ms (minimum_of r.0) _ r.0 g)) in
    let at : minimum_of ds ≤ p.domain.count =
      minimum_of-at ds p.at p.domain (Room-weaken (suc n) ds room) p.there in
    let fit : p.domain.count + 1 ≤ minimum_of ds + ms =
      fits-le ms (minimum_of ds) p.domain.count hm c at (unfold within_skew in p.in_skew) in
    let sum : total_count ds' ≡ total_count ds + 1 =
      ap total_count p.result ∙ total_count-set ds p.at p.domain one p.there in
    record {
      grown =
          Grown-set ms (minimum_of r.0) ds r.0 p.at p.domain p.there p.is_open c
            (omega (arith, low, fit)) g;
      counted = omega (arith, h.counted, sum);
      rounds = omega (arith, h.rounds);
      room = h.room;
    }

idle_round :
    (ms n : ℕ) (ds : List Domain) (placed : ℕ) (r : List Domain × ℕ)
    → Replayed ms n ds placed r
    → Replayed ms (suc n) ds placed r
idle_round ms n ds placed r h = record {
  grown = h.grown;
  counted = h.counted;
  rounds = omega (arith, h.rounds);
  room = h.room;
}

-- The replay of `readyFloor`, where no count can wrap: each domain keeps its count, or is open and
-- is raised to at most the smallest count at the end plus maxSkew; the number placed is what the
-- counts grew by, and at most the number of rounds.
pub replay_skew :
    (n ms : ℕ) (ds : List Domain) (placed : ℕ)
    → ms < half_word
    → Room n ds
    → Replayed ms n ds placed (replay n ms ds placed)
unfolding replay
replay_skew zero ms ds placed hm room = record {
  grown = Grown-refl ms (minimum_of ds) ds;
  counted = refl;
  rounds = omega arith;
  room = room;
}
replay_skew (suc n) ms ds placed hm room = elim (Option-cases (place_one ms ds)) [
  | inl e ↦
      rw (e, replay)
        (idle_round ms n ds placed _
          (replay_skew n ms ds placed hm (All-map ds (λ d k. omega arith) room)))
  | inr (ds', e) ↦
      rw (e, replay)
        (let p = place_one-Placed ms ds ds' e in
          after_step ms n ds ds' placed _ hm room p (
            replay_skew n ms ds' (suc placed) hm
              (subst (λ x. Room n x) (sym p.result) (Room-set n ds p.at p.domain room p.there))))
]

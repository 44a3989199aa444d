-- ===== src/Operation/VolumeLaws.antt =====
-- survivabilityFailures: what a passed gate says of the replicas.
-- Each node of the list holds a replica that stays, of the volume.
use Prim.Native.String.{String}
use mathlib.Core.Bool.{Bool, false, not, true, ◌&&◌}
use mathlib.Core.List.{List, [], ◌++◌, ◌∷◌}
use mathlib.Core.Logic.{inl, inr, ◌↔◌}
use mathlib.Core.Path.{refl, subst, sym, ◌≡◌}
use native.Mathlib.Omega.{arith}
use text.Mathlib.Text.{◌==◌}
use text.Mathlib.TextEquality.{eq_iff}
use text.Mathlib.TextPositions.{eq_refl}
use nix_packages.Base.{
  &&-intro, All, All-append, Bool-cases, Has, codes, contains, keep, length, lt64, ltb, ||-false,
}
use nix_packages.Capacity.Displaced.{codes_before}
use nix_packages.Operation.SwitchoverLaws.{keep-Has}
use nix_packages.Operation.VolumeSpread.{length-sort_by, surviving_nodes-finds, two_long}
use nix_packages.Operation.Volumes.{
  LonghornReplica, LonghornVolume, at_risk, attached_or_attaching, min_longhorn_replicas,
  survivability_failures, survives, surviving_nodes, surviving_replica_nodes,
}

abbrev pub Holds : String → String → List LonghornReplica → String → Type 0
Holds target volume replicas node =
    (r : LonghornReplica) × Has r replicas
    × (survives target r ≡ true)
    × ((r.volume_name == volume) ≡ true)
    × (r.node_id ≡ node)

-- No name twice.
abbrev pub IsDistinct : List String → Type 0
IsDistinct [] = Unit {0}
IsDistinct (x ∷ xs) = (contains xs x ≡ false) × IsDistinct xs

eq-sym-false : (a b : String) → (a == b) ≡ false → (b == a) ≡ false
eq-sym-false a b h = elim (Bool-cases (b == a)) [
  | inr e ↦ e
  | inl e ↦
      let p : b ≡ a = ground (arith, eq_iff b a) in
      let q : (a == b) ≡ true = subst (λ x. (x == b) ≡ true) p (eq_refl b) in absurd (cc)
]

contains-append :
    (xs : List String) (a b : String)
    → contains xs a ≡ false
    → (a == b) ≡ false
    → contains (xs ++ b ∷ []) a ≡ false
unfolding contains
contains-append [] a b h e = rw e refl
contains-append (x ∷ xs) a b h e =
    let k = ||-false (a == x) (contains xs a) h in rw (k.0, contains-append xs a b k.1 e) refl

IsDistinct-append :
    (xs : List String) (b : String)
    → IsDistinct xs
    → contains xs b ≡ false
    → IsDistinct (xs ++ b ∷ [])
unfolding contains
IsDistinct-append [] b h e = (refl, tt)
IsDistinct-append (x ∷ xs) b h e =
    let k = ||-false (b == x) (contains xs b) e in
    (contains-append xs x b h.0 (eq-sym-false b x k.0), IsDistinct-append xs b h.1 k.1)

module _ (target volume : String) where
  -- The loop keeps the nodes distinct, each with its replica.
  surviving_nodes-Holds :
      (all_replicas found_from : List LonghornReplica) (found : List String)
      → ((r : LonghornReplica) → Has r found_from → Has r all_replicas)
      → All (Holds target volume all_replicas) found
      → IsDistinct found
      → All (Holds target volume all_replicas) (surviving_nodes target volume found found_from)
        × IsDistinct (surviving_nodes target volume found found_from)
  unfolding surviving_nodes
  surviving_nodes-Holds rs [] found m h d = (h, d)
  surviving_nodes-Holds rs (x ∷ xs) found m h d =
      elim (Bool-cases
        (survives target x && x.volume_name == volume && not (contains found x.node_id))) [
          | inl e ↦
              rw (e, surviving_nodes)
                (surviving_nodes-Holds rs xs (found ++ x.node_id ∷ []) (λ r k. m r (inr k))
                  (All-append (Holds target volume rs) found (x.node_id ∷ []) h
                    ((x, m x (inl refl), ground (arith, e), ground (arith, e), refl), tt))
                  (IsDistinct-append found x.node_id d (ground (arith, e))))
          | inr e ↦
              rw (e, surviving_nodes) (surviving_nodes-Holds rs xs found (λ r k. m r (inr k)) h d)
        ]

-- A replica of the volume that runs, has not failed, and is not on the target.
abbrev pub Remains : String → LonghornVolume → LonghornReplica → Type 0
Remains target v r =
    ((r.node_id == target) ≡ false)
    × ((r.current_state == "running") ≡ true)
    × ((r.failed_at == "") ≡ true)
    × ((r.volume_name == v.metadata.name) ≡ true)

Remains-iff :
    (target : String) (v : LonghornVolume) (r : LonghornReplica)
    → ((survives target r && r.volume_name == v.metadata.name) ≡ true) ↔ Remains target v r
unfolding survives
Remains-iff target v r = (
  λ h. (ground (arith, h), ground (arith, h), ground (arith, h), ground (arith, h)),
  λ (a, b, c, d). ground (arith, a, b, c, d),
)

-- Two replicas of the volume that stay, on different nodes.
abbrev pub KeepsTwo : String → LonghornVolume → List LonghornReplica → Type 0
KeepsTwo target v replicas =
    (q : LonghornReplica) × (r : LonghornReplica) × Has q replicas
    × Has r replicas
    × Remains target v q
    × Remains target v r
    × ((q.node_id == r.node_id) ≡ false)

two_nodes :
    (target : String) (v : LonghornVolume) (replicas : List LonghornReplica) (nodes : List String)
    → All (Holds target v.metadata.name replicas) nodes
    → IsDistinct nodes
    → ltb (length nodes) 2 ≡ false
    → KeepsTwo target v replicas
unfolding contains
two_nodes target v rs [] h d e = absurd (ground arith)
two_nodes target v rs (a ∷ []) h d e = absurd (ground arith)
two_nodes target v rs (a ∷ b ∷ rest) h d e =
    let (q, mq, sq, vq, nq) = h.0 in
    let (r, mr, sr, vr, nr) = h.1.0 in
    let apart = (||-false (a == b) (contains rest a) d.0).0 in
    (
      q,
      r,
      mq,
      mr,
      (Remains-iff target v q).0 (&&-intro sq vq),
      (Remains-iff target v r).0 (&&-intro sr vr),
      subst (λ x. (x == r.node_id) ≡ false) (sym nq) (subst (λ y. (a == y) ≡ false) (sym nr) apart),
    )

two_places :
    (target : String) (v : LonghornVolume) (replicas : List LonghornReplica)
    → KeepsTwo target v replicas
    → ltb (length (surviving_nodes target v.metadata.name [] replicas)) 2 ≡ false
two_places target v replicas (q, r, mq, mr, sq, sr, apart) =
    two_long (surviving_nodes target v.metadata.name [] replicas) q.node_id r.node_id
      (surviving_nodes-finds target v.metadata.name replicas [] q mq
        ((Remains-iff target v q).1 sq))
      (surviving_nodes-finds target v.metadata.name replicas [] r mr
        ((Remains-iff target v r).1 sr))
      apart

-- A volume that one more node can leave.
abbrev pub IsSafe : String → List LonghornReplica → LonghornVolume → Type 0
IsSafe target replicas v =
    (lt64 v.number_of_replicas min_longhorn_replicas ≡ false)
    × ((v.state == "attached") ≡ true)
    × ((v.robustness == "faulted") ≡ false)
    × ((v.current_node_id == target) ≡ false)
    × ((v.node_id == target) ≡ false)
    × KeepsTwo target v replicas

at_risk_iff :
    (target : String) (replicas : List LonghornReplica) (v : LonghornVolume)
    → (at_risk target replicas v ≡ false) ↔ IsSafe target replicas v
unfolding at_risk surviving_replica_nodes
at_risk_iff target replicas v =
    let nodes = surviving_nodes target v.metadata.name [] replicas in
    let same = length-sort_by (λ a b. codes_before (codes a) (codes b)) nodes in
    let (holds, distinct) =
      surviving_nodes-Holds target v.metadata.name replicas replicas [] (λ r k. k) tt tt in
    (
      λ safe. (
        ground (arith, safe),
        ground (arith, safe),
        ground (arith, safe),
        ground (arith, safe),
        ground (arith, safe),
        two_nodes target v replicas nodes holds distinct (ground (arith, safe, same)),
      ),
      λ (a, b, c, d, e, two). ground (arith, a, b, c, d, e, two_places target v replicas two, same),
    )

keep_none :
    {A : Type 0} (p : A → Bool) (xs : List A) → ((a : A) → Has a xs → p a ≡ false) → keep p xs ≡ []
unfolding keep
keep_none p [] h = refl
keep_none p (x ∷ xs) h = rw (h x (inl refl), keep) (keep_none p xs (λ a m. h a (inr m)))

-- The one-node-down gate finds no failure exactly where every attached or attaching volume asks
-- for three replicas or more, is attached, not faulted, neither attached nor being attached to the
-- target, and has two running, unfailed replicas on two different nodes besides the target.
pub survivability_iff :
    (target : String) (volumes : List LonghornVolume) (replicas : List LonghornReplica)
    → (survivability_failures target volumes replicas ≡ []) ↔ (
        (v : LonghornVolume)
        → Has v volumes
        → attached_or_attaching v ≡ true
        → IsSafe target replicas v)
unfolding survivability_failures
survivability_iff target volumes replicas = (
  λ h v m a. (at_risk_iff target replicas v).0 (elim (Bool-cases (at_risk target replicas v)) [
    | inr e ↦ e
    | inl e ↦
        let found =
          keep-Has (λ v. attached_or_attaching v && at_risk target replicas v) v volumes m
            (&&-intro a e) in
        absurd (subst (Has v) h found)
  ]),
  λ h. keep_none _ volumes λ v m. elim (Bool-cases (attached_or_attaching v)) [
    | inr e ↦ rw e refl
    | inl e ↦ rw (e, (at_risk_iff target replicas v).1 (h v m e)) refl
  ],
)

-- ===== src/Operation/SwitchoverLaws.antt =====
-- planSwitchovers: which clusters and replicas it names.
use Prim.Native.String.{String}
use mathlib.Core.Bool.{Bool, false, true, ◌&&◌}
use mathlib.Core.List.{List, [], ◌∷◌}
use mathlib.Core.Logic.{inl, inr, ◌⊎◌}
use mathlib.Core.Path.{refl, subst, sym, ◌≡◌}
use text.Mathlib.Text.{◌==◌}
use nix_packages.Base.{
  &&-intro, &&-true, All, All-map, Bool-cases, Dict, Floats, Has, keep, sort_by-All, sort_by-Has,
  ◌<>◌,
}
use nix_packages.Kube.{Node, Pod}
use nix_packages.Operation.Candidates.{
  CaughtUp, IsReplica, OnTakingNode, healthy_replica_iff, is_caught_up_iff, on_taking_node_iff,
}
use nix_packages.Operation.Clusters.{CnpgCluster, Standby, node_of, pod_index, primary_key}
use nix_packages.Operation.NodeIndex.{node_of-Has}
use nix_packages.Operation.Switchovers.{
  Switchover, candidates_of, healthy_replica, is_caught_up, is_lagging, may_take_over, node_index,
  on_taking_node, plan_switchovers, preferred, switchover_of, switchover_to,
}

pub keep-Has :
    {A : Type 0} (p : A → Bool) (a : A) (xs : List A) → Has a xs → p a ≡ true → Has a (keep p xs)
unfolding keep
keep-Has p a [] m h = m
keep-Has p a (x ∷ xs) (inl e) h = rw (subst (λ y. p y ≡ true) e h) (inl e)
keep-Has p a (x ∷ xs) (inr m) h = elim (Bool-cases (p x)) [
  | inl e ↦ rw e (inr (keep-Has p a xs m h))
  | inr e ↦ rw e (keep-Has p a xs m h)
]

pub kept-Has :
    {A : Type 0} (p : A → Bool) (xs : List A) → All (λ a. Has a xs × (p a ≡ true)) (keep p xs)
unfolding keep
kept-Has p [] = tt
kept-Has p (x ∷ xs) = elim (Bool-cases (p x)) [
  | inl e ↦ rw e ((inl refl, e), All-map (keep p xs) (λ a h. (inr h.0, h.1)) (kept-Has p xs))
  | inr e ↦ rw e (All-map (keep p xs) (λ a h. (inr h.0, h.1)) (kept-Has p xs))
]

-- A Pod with the name of the cluster's current primary, in its namespace, on the target.
abbrev pub RunsPrimary : String → List Pod → CnpgCluster → Type 0
RunsPrimary target pods c =
    (p : Pod) × Has p pods
    × (((p.metadata.namespace <> "/") <> p.metadata.name)
        ≡ ((c.metadata.namespace <> "/") <> c.current_primary))
    × ((p.spec.node_name == target) ≡ true)

module _ ⦃F : Floats⦄ (target : String) (pods : List Pod) (nodes : List Node)
    (standbys : Dict Standby) where
  -- A replica that may take over, on a node that takes a primary, and caught up.
  abbrev pub IsCandidate : CnpgCluster → Pod → Type 0
  IsCandidate c p = Has p pods × IsReplica target c p × OnTakingNode nodes p × CaughtUp standbys p

  -- The switchover names a candidate, or there is none.
  abbrev pub Picks : CnpgCluster → Switchover → Type 0
  Picks c s =
      (s.namespace ≡ c.metadata.namespace)
      × (s.cluster ≡ c.metadata.name)
      × (s.primary ≡ c.current_primary)
      × (((p : Pod) × IsCandidate c p
            × (s.candidate ≡ p.metadata.name)
            × (s.candidate_node ≡ p.spec.node_name))
          ⊎ ((s.candidate ≡ "") × ((p : Pod) → IsCandidate c p → ⊥)))

  Picks-first :
      (c : CnpgCluster) (lagging : Bool) (found : List Pod)
      → All (IsCandidate c) found
      → ((p : Pod) → IsCandidate c p → Has p found)
      → Picks c (switchover_to c lagging found)
  unfolding switchover_to
  Picks-first c lagging [] h k = (refl, refl, refl, inr (refl, k))
  Picks-first c lagging (p ∷ rest) h k = (refl, refl, refl, inl (p, h.0, refl, refl))

  abbrev test : CnpgCluster → Pod → Bool
  test c p = may_take_over target c (node_index [] nodes) p && is_caught_up standbys p

  tested : (c : CnpgCluster) (p : Pod) → Has p pods × (test c p ≡ true) → IsCandidate c p
  unfolding may_take_over
  tested c p h =
      let a =
        &&-true (may_take_over target c (node_index [] nodes) p) (is_caught_up standbys p) h.1 in
      let b = &&-true (healthy_replica target c p) (on_taking_node (node_index [] nodes) p) a.0 in
      (
        h.0,
        (healthy_replica_iff target c p).0 b.0,
        (on_taking_node_iff nodes p).0 b.1,
        (is_caught_up_iff standbys p).0 a.1,
      )

  switchover_of-Picks : (c : CnpgCluster) → Picks c (switchover_of target pods nodes standbys c)
  unfolding switchover_of candidates_of may_take_over
  switchover_of-Picks c =
      Picks-first c (is_lagging target c (node_index [] nodes) standbys pods)
        (candidates_of target c (node_index [] nodes) standbys pods)
        (sort_by-All (preferred (node_index [] nodes)) (IsCandidate c) (keep (test c) pods)
          (All-map (keep (test c) pods) (tested c) (kept-Has (test c) pods)))
        (λ p h. sort_by-Has (preferred (node_index [] nodes)) p (keep (test c) pods) (
          keep-Has (test c) p pods h.0 (
            &&-intro
              (&&-intro ((healthy_replica_iff target c p).1 h.1)
                ((on_taking_node_iff nodes p).1 h.2))
              ((is_caught_up_iff standbys p).1 h.3))))

  planned_for :
      (clusters : List CnpgCluster) (s : Switchover)
      → Has s (plan_switchovers target pods nodes standbys clusters)
      → (c : CnpgCluster) × Has c clusters
        × ((node_of (pod_index [] pods) (primary_key c) == target) ≡ true)
        × Picks c s
  unfolding plan_switchovers
  planned_for [] s m = absurd m
  planned_for (c ∷ cs) s m =
      let later : Has s (plan_switchovers target pods nodes standbys cs)
          → (d : CnpgCluster) × Has d (c ∷ cs)
            × ((node_of (pod_index [] pods) (primary_key d) == target) ≡ true)
            × Picks d s =
        λ k. let (d, n, f, q) = planned_for cs s k in (d, inr n, f, q) in
      elim (Bool-cases (node_of (pod_index [] pods) (primary_key c) == target)) [
        | inl e ↦
            let k : (s ≡ switchover_of target pods nodes standbys c)
                ⊎ Has s (plan_switchovers target pods nodes standbys cs) =
              rw (e, plan_switchovers) at (m) in
            elim k [
              | inl q ↦ (c, inl refl, e, subst (Picks c) (sym q) (switchover_of-Picks c))
              | inr n ↦ later n
            ]
        | inr e ↦ later (rw (e, plan_switchovers) at (m))
      ]

  -- The target has a name. Then every entry of the plan belongs to a cluster whose primary runs on
  -- the target, and names as the one to take over a Pod that is a healthy, ready replica of the
  -- cluster away from the target, on a schedulable, stable and Ready node, that streams within the
  -- allowed lag. It names none only where the cluster has no such Pod.
  pub plan_switchovers_sound :
      (clusters : List CnpgCluster) (s : Switchover)
      → (target == "") ≡ false
      → Has s (plan_switchovers target pods nodes standbys clusters)
      → (c : CnpgCluster) × Has c clusters × RunsPrimary target pods c × Picks c s
  unfolding primary_key
  plan_switchovers_sound clusters s named m =
      let (c, n, f, q) = planned_for clusters s m in
      (c, n, node_of-Has (primary_key c) target pods named f, q)

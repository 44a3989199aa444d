-- ===== src/Capacity/Displaced/Order.antt =====
-- About the lists of displacedPodsToPlace under its sorting and splitting.
use Prim.Native.Nat.{suc, zero, ℕ}
use Prim.Native.String.{String}
use mathlib.Core.Bool.{not}
use mathlib.Core.List.{List, [], reverse, ◌∷◌}
use mathlib.Core.Logic.{inl, inr}
use mathlib.Core.Option.{Option, none, some}
use mathlib.Core.Path.{subst, ◌≡◌}
use text.Mathlib.Text.{◌==◌}
use nix_packages.Base.{
  All, All-append, All-reverse, All-take, Bool-cases, Dict, Floats, drop, eq_of_ok, if◌then◌else◌,
  lt64, ok, ok_of_bind, sort_by-All,
}
use nix_packages.Capacity.Admission.{DisplacedPod}
use nix_packages.Capacity.Displaced.{ready_minimum}
use nix_packages.Capacity.Displaced.Select.{
  Groups, Selection, by_need, collect, displaced_pods_to_place, in_order, ordered_for, pods_of,
  runs_first, select_all, select_workload, waits_for_target, with_requests,
}
use nix_packages.Capacity.Place.{larger_request, largest_first}
use nix_packages.Capacity.Replacement.Defaults.{LimitRange}
use nix_packages.Capacity.Replacement.Templates.{Cluster, StatefulSet, pod_ordinal}
use nix_packages.Kube.{Node, Pod, Workload, ref}

module _ ⦃F : Floats⦄ (to_lower : String → String) (k : Cluster) (target : String)
    (P : DisplacedPod → Type 0) where
  in_order-All :
      (sts : Option StatefulSet) (ds : List DisplacedPod)
      → All P ds
      → All P (in_order to_lower k target sts ds)
  unfolding in_order
  in_order-All none ds a = sort_by-All (λ x y. lt64 (pod_ordinal x.pod) (pod_ordinal y.pod)) P ds a
  in_order-All (some s) ds a = elim (Bool-cases (not (s.pod_management_policy == "Parallel"))) [
    | inl e ↦ rw e (sort_by-All (λ x y. lt64 (pod_ordinal x.pod) (pod_ordinal y.pod)) P ds a)
    | inr e ↦ rw e a
  ]

  ordered_for-All :
      (w : Workload) (ds : List DisplacedPod) {r : List DisplacedPod}
      → ordered_for to_lower k target w ds ≡ ok r
      → All P ds
      → All P r
  unfolding ordered_for
  ordered_for-All w ds h a = elim (Bool-cases (w.kind == "statefulset")) [
    | inl e ↦
        let (sts, q, i) =
          ok_of_bind (k.find_stateful_set w.namespace (ref w)) _ (rw (e, ordered_for) at h) in
        subst (All P) (eq_of_ok i) (in_order-All sts ds a)
    | inr e ↦ subst (All P) (eq_of_ok (rw (e, ordered_for) at h)) a
  ]

  by_need-All :
      (nodes : List Node) (pods : List Pod) (ds : List DisplacedPod)
      → All P ds
      → All P (by_need to_lower k target nodes pods ds)
  unfolding by_need largest_first
  by_need-All nodes pods ds a =
      sort_by-All (runs_first to_lower k target nodes pods) P (reverse (largest_first ds))
        (All-reverse P (largest_first ds) (sort_by-All larger_request P ds a))

  All-drop : (n : ℕ) (ds : List DisplacedPod) → All P ds → All P (drop n ds)
  All-drop zero ds h = h
  All-drop (suc n) [] h = tt
  All-drop (suc n) (d ∷ ds) h = All-drop n ds h.1

  -- Both lists of a selection.
  abbrev BothHold : Selection → Type 0
  BothHold s = All P s.needed × All P s.others

  -- Whatever size a workload's Pods are given, it holds of them.
  abbrev SizedHold : Groups → Type 0
  SizedHold groups =
      (w : Workload) (cache : Dict (List LimitRange))
      (sized : List DisplacedPod × Dict (List LimitRange))
      → with_requests to_lower k target (pods_of w groups) cache ≡ ok sized
      → All P sized.0

  module _ (nodes : List Node) (pods : List Pod) where
    select_workload-All :
        (groups : Groups) (w : Workload) (s r : Selection)
        → SizedHold groups
        → select_workload to_lower k target nodes pods groups w s ≡ ok r
        → BothHold s
        → BothHold r
    unfolding select_workload
    select_workload-All groups w s r sizes h a =
        let (m, q0, h0) = ok_of_bind (ready_minimum k target w) _ h in
        let (c, q1, h1) =
          ok_of_bind (if m.gated then k.find_controller w.namespace (ref w) else ok none) _ h0 in
        elim (Bool-cases (waits_for_target to_lower k target nodes m c)) [
          | inl e ↦ subst BothHold (eq_of_ok (rw e at h1)) a
          | inr e ↦
              let (sized, q2, h2) =
                ok_of_bind (with_requests to_lower k target (pods_of w groups) s.cache) _
                  (rw e at h1) in
              let (displaced, q3, h3) =
                ok_of_bind
                  (ordered_for to_lower k target w (by_need to_lower k target nodes pods sized.0)) _
                  h2 in
              let b =
                ordered_for-All w _ q3
                  (by_need-All nodes pods sized.0 (sizes w s.cache sized q2)) in
              subst BothHold (eq_of_ok h3) (
                All-append P s.needed _ a.0 (All-take P _ displaced b),
                All-append P s.others _ a.1 (All-drop _ displaced b),
              )
        ]

    select_all-All :
        (groups : Groups) (ws : List Workload) (s r : Selection)
        → SizedHold groups
        → select_all to_lower k target nodes pods groups ws s ≡ ok r
        → BothHold s
        → BothHold r
    unfolding select_all
    select_all-All groups [] s r sizes h a = subst BothHold (eq_of_ok h) a
    select_all-All groups (w ∷ ws) s r sizes h a =
        let (s', q, e) = ok_of_bind (select_workload to_lower k target nodes pods groups w s) _ h in
        select_all-All groups ws s' r sizes e (select_workload-All groups w s s' sizes q a)

    pub displaced_pods_to_place-All :
        (cache : Dict (List LimitRange)) (r : Selection)
        → ((groups : Groups) → collect to_lower k target pods [] ≡ ok groups → SizedHold groups)
        → displaced_pods_to_place to_lower k target nodes pods cache ≡ ok r
        → BothHold r
    unfolding displaced_pods_to_place
    displaced_pods_to_place-All cache r sizes h =
        let (groups, q, e) = ok_of_bind (collect to_lower k target pods []) _ h in
        select_all-All groups _ _ r (sizes groups q) e (tt, tt)

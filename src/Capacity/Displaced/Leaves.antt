-- ===== src/Capacity/Displaced/Leaves.antt =====
-- About the Pods that displacedPodsToPlace chooses from.
use Prim.Native.String.{String}
use mathlib.Core.Bool.{false, true}
use mathlib.Core.List.{List, [], ◌∷◌}
use mathlib.Core.Logic.{inl, inr}
use mathlib.Core.Option.{Option, none, some}
use mathlib.Core.Path.{refl, subst, ◌≡◌}
use native.Mathlib.Omega.{arith}
use text.Mathlib.TextEquality.{eq_iff}
use nix_packages.Base.{
  All, All-append, All-map, Bool-cases, Dict, Floats, Has, eq_of_ok, ok, ok_of_bind, wrap_error,
}
use nix_packages.Capacity.Admission.{DisplacedPod}
use nix_packages.Capacity.Displaced.{same_workload, workload_for_pod}
use nix_packages.Capacity.Displaced.Order.{displaced_pods_to_place-All}
use nix_packages.Capacity.Displaced.Select.{
  Groups, Selection, add_pod, add_workload, collect, displaced_pods_to_place, leaves_target,
  pods_of, with_requests,
}
use nix_packages.Capacity.Quantity.{at_pod}
use nix_packages.Capacity.Replacement.Defaults.{LimitRange}
use nix_packages.Capacity.Replacement.Templates.{Cluster, replacement_requests}
use nix_packages.Kube.{Node, Pod, Workload, active, has_owner, is_instance_manager, is_mirror}

All-Has : {A : Type 0} (xs : List A) → All (λ a. Has a xs) xs
All-Has [] = tt
All-Has (x ∷ xs) = (inl refl, All-map xs (λ a h. inr h) (All-Has xs))

module _ (P : Pod → Type 0) where
  -- Every Pod of every group.
  abbrev GroupsHold : Groups → Type 0
  GroupsHold groups = All (λ g. All P g.1) groups

  abbrev PodsHold : List DisplacedPod → Type 0
  PodsHold ds = All (λ d. P d.pod) ds

  add_pod-holds :
      (w : Workload) (p : Pod) (groups : Groups)
      → P p
      → GroupsHold groups
      → GroupsHold (add_pod w p groups)
  unfolding add_pod
  add_pod-holds w p [] h a = ((h, tt), tt)
  add_pod-holds w p ((v, ps) ∷ rest) h a = elim (Bool-cases (same_workload v w)) [
    | inl e ↦ rw e (All-append P ps (p ∷ []) a.0 (h, tt), a.1)
    | inr e ↦ rw e (a.0, add_pod-holds w p rest h a.1)
  ]

  pods_of-holds : (w : Workload) (groups : Groups) → GroupsHold groups → All P (pods_of w groups)
  unfolding pods_of
  pods_of-holds w [] a = tt
  pods_of-holds w ((v, ps) ∷ rest) a = elim (Bool-cases (same_workload v w)) [
    | inl e ↦ rw e a.0
    | inr e ↦ rw e (pods_of-holds w rest a.1)
  ]

  module _ ⦃F : Floats⦄ (to_lower : String → String) (k : Cluster) (target : String) where
    add_workload-holds :
        (w : Option Workload) (p : Pod) (groups : Groups)
        → P p
        → GroupsHold groups
        → GroupsHold (add_workload to_lower k target w p groups)
    unfolding add_workload
    add_workload-holds none p groups h a = a
    add_workload-holds (some w) p groups h a = add_pod-holds w p groups h a

    collect-holds :
        (ps : List Pod) (groups : Groups) {r : Groups}
        → collect to_lower k target ps groups ≡ ok r
        → All (λ p. leaves_target target p ≡ true → P p) ps
        → GroupsHold groups
        → GroupsHold r
    unfolding collect
    collect-holds [] groups h l a = subst GroupsHold (eq_of_ok h) a
    collect-holds (p ∷ ps) groups h l a = elim (Bool-cases (leaves_target target p)) [
      | inl e ↦
          let (w, q, i) = ok_of_bind (workload_for_pod to_lower k p) _ (rw (e, collect) at h) in
          collect-holds ps _ i l.1 (add_workload-holds w p groups (l.0 e) a)
      | inr e ↦ collect-holds ps groups (rw (e, collect) at h) l.1 a
    ]

    with_requests-holds :
        (ps : List Pod) (cache : Dict (List LimitRange))
        {r : List DisplacedPod × Dict (List LimitRange)}
        → with_requests to_lower k target ps cache ≡ ok r
        → All P ps
        → PodsHold r.0
    unfolding with_requests
    with_requests-holds [] cache h a = subst (λ x. PodsHold x.0) (eq_of_ok h) tt
    with_requests-holds (p ∷ ps) cache h a =
        let (r, q, e) =
          ok_of_bind
            (wrap_error (at_pod p.metadata.namespace p.metadata.name)
              (replacement_requests k p cache))
            _ h in
        let (rest, q', e') = ok_of_bind (with_requests to_lower k target ps r.1) _ e in
        subst (λ x. PodsHold x.0) (eq_of_ok e') (a.0, with_requests-holds ps r.1 q' a.1)

-- The Pod is among those that the check reads, and the drain moves it off the target.
abbrev pub LeavesTarget : String → List Pod → Pod → Type 0
LeavesTarget target pods p =
    Has p pods
    × (p.spec.node_name ≡ target)
    × (active p ≡ true)
    × (has_owner p.metadata "DaemonSet" ≡ false)
    × (is_mirror p ≡ false)
    × (is_instance_manager p ≡ false)

leaves_target-LeavesTarget :
    (target : String) (pods : List Pod) (p : Pod)
    → Has p pods
    → leaves_target target p ≡ true
    → LeavesTarget target pods p
unfolding leaves_target
leaves_target-LeavesTarget target pods p m h =
    let test = eq_iff p.spec.node_name target in
    (
      m,
      ground (arith, test),
      ground (arith, test),
      ground (arith, test),
      ground (arith, test),
      ground (arith, test),
    )

module _ ⦃F : Floats⦄ where
  -- Every Pod that `displacedPodsToPlace` counts, as needed elsewhere or as another, is one of the
  -- Pods read, runs on the target, is active, and is no Pod of a DaemonSet, no mirror Pod and no
  -- instance manager.
  pub displaced_pods_to_place-LeavesTarget :
      (to_lower : String → String) (k : Cluster) (target : String) (nodes : List Node)
      (pods : List Pod) (cache : Dict (List LimitRange)) (r : Selection)
      → displaced_pods_to_place to_lower k target nodes pods cache ≡ ok r
      → All (λ d. LeavesTarget target pods d.pod) r.needed
        × All (λ d. LeavesTarget target pods d.pod) r.others
  displaced_pods_to_place-LeavesTarget to_lower k target nodes pods cache r h =
      let P = LeavesTarget target pods in
      displaced_pods_to_place-All to_lower k target (λ d. P d.pod) nodes pods cache r
        (λ groups q w c sized e. with_requests-holds P to_lower k target (pods_of w groups) c e (
          pods_of-holds P w groups (
            collect-holds P to_lower k target pods [] q
              (All-map pods (leaves_target-LeavesTarget target pods) (All-Has pods)) tt)))
        h

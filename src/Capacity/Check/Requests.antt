-- ===== src/Capacity/Check/Requests.antt =====
-- About the range of the requests that displacedPodsToPlace computes.
use Prim.Native.String.{String}
use mathlib.Core.Bool.{Bool, false}
use mathlib.Core.List.{List, [], ◌++◌, ◌∷◌}
use mathlib.Core.Option.{Option, none, some}
use mathlib.Core.Path.{subst, ◌≡◌}
use nix_packages.Base.{Dict, Floats, eq_of_ok, ok, ok_of_bind, ok_of_wrap, wrap_error}
use nix_packages.Capacity.Admission.{DisplacedPod}
use nix_packages.Capacity.Displaced.Order.{displaced_pods_to_place-All}
use nix_packages.Capacity.Displaced.Select.{
  Selection, displaced_pods_to_place, pods_of, with_requests,
}
use nix_packages.Capacity.Pack.Placements.{RequestsAreWords}
use nix_packages.Capacity.Quantity.{at_pod}
use nix_packages.Capacity.Replacement.{largest_by_name, pod_level_request, template_requests}
use nix_packages.Capacity.Replacement.Defaults.{LimitRange, with_limit_range_defaults}
use nix_packages.Capacity.Replacement.Templates.{
  Cluster, from_template, recreation_template, replacement_requests,
}
use nix_packages.Capacity.Requests.{held_requests, init_requests, pod_requests, sum_requests}
use nix_packages.Capacity.Resources.{IsWord, Resources, no_resources, plus-IsWord, read_resources}
use nix_packages.Kube.{Node, Pod, PodSpec}

module _ ⦃F : Floats⦄ where
  held_requests-IsWord :
      (spec : PodSpec) (held : Dict Resources) (infeasible : Bool) {r : Resources}
      → held_requests spec held infeasible ≡ ok r
      → IsWord r
  unfolding held_requests
  held_requests-IsWord spec held infeasible h =
      let (app, q0, h0) =
        ok_of_bind (sum_requests held infeasible no_resources spec.containers) _ h in
      let (sums, q1, h1) =
        ok_of_bind (init_requests held infeasible (no_resources, no_resources) spec.init_containers)
          _ h0 in
      let (level, q2, h2) = ok_of_bind (read_resources spec.resources.requests) _ h1 in
      let (overhead, q3, h3) = ok_of_bind (read_resources spec.overhead) _ h2 in
      subst IsWord (eq_of_ok h3) (plus-IsWord _ overhead)

  template_requests-IsWord :
      (spec written template : PodSpec) {r : Resources}
      → template_requests spec written template ≡ ok r
      → IsWord r
  unfolding template_requests
  template_requests-IsWord spec written template h =
      let (largest, q0, h0) =
        ok_of_bind
          (largest_by_name [] (
            (spec.containers ++ spec.init_containers)
            ++ (template.containers ++ template.init_containers)))
          _ h in
      let (own, q1, h1) = ok_of_bind (pod_level_request spec) _ h0 in
      let (level, q2, h2) = ok_of_bind (pod_level_request written) _ h1 in
      let (overhead, q3, h3) = ok_of_bind (read_resources spec.overhead) _ h2 in
      subst IsWord (eq_of_ok h3) (plus-IsWord _ overhead)

  module _ (k : Cluster) where
    from_template-IsWord :
        (p : Pod) (cache : Dict (List LimitRange)) (found : Option PodSpec)
        {r : Resources × Dict (List LimitRange)}
        → from_template k p cache found ≡ ok r
        → IsWord r.0
    unfolding from_template pod_requests
    from_template-IsWord p cache none h =
        let (requests, q, e) = ok_of_bind (pod_requests p.spec) _ h in
        subst (λ x. IsWord x.0) (eq_of_ok e) (held_requests-IsWord p.spec [] false q)
    from_template-IsWord p cache (some written) h =
        let (given, q, e) =
          ok_of_bind
            (with_limit_range_defaults k.get_limit_ranges p.metadata.namespace written cache) _ h in
        let (requests, q', e') = ok_of_bind (template_requests p.spec written given.0) _ e in
        subst (λ x. IsWord x.0) (eq_of_ok e') (template_requests-IsWord p.spec written given.0 q')

    replacement_requests-IsWord :
        (p : Pod) (cache : Dict (List LimitRange)) {r : Resources × Dict (List LimitRange)}
        → replacement_requests k p cache ≡ ok r
        → IsWord r.0
    unfolding replacement_requests
    replacement_requests-IsWord p cache h =
        let (found, q, e) = ok_of_bind (recreation_template k p) _ h in
        from_template-IsWord p cache found e

  module _ (to_lower : String → String) (k : Cluster) (target : String) where
    with_requests-words :
        (ps : List Pod) (cache : Dict (List LimitRange))
        {r : List DisplacedPod × Dict (List LimitRange)}
        → with_requests to_lower k target ps cache ≡ ok r
        → RequestsAreWords r.0
    unfolding with_requests
    with_requests-words [] cache h = subst (λ x. RequestsAreWords x.0) (eq_of_ok h) tt
    with_requests-words (p ∷ ps) cache h =
        let named = at_pod p.metadata.namespace p.metadata.name in
        let (r, q, e) = ok_of_bind (wrap_error named (replacement_requests k p cache)) _ h in
        let (rest, q', e') = ok_of_bind (with_requests to_lower k target ps r.1) _ e in
        subst (λ x. RequestsAreWords x.0) (eq_of_ok e')
          (
            replacement_requests-IsWord k p cache
                (ok_of_wrap named (replacement_requests k p cache) q),
            with_requests-words ps r.1 q',
          )

    pub displaced_pods_to_place-words :
        (nodes : List Node) (pods : List Pod) (cache : Dict (List LimitRange)) (r : Selection)
        → displaced_pods_to_place to_lower k target nodes pods cache ≡ ok r
        → RequestsAreWords r.needed
    displaced_pods_to_place-words nodes pods cache r h =
        (displaced_pods_to_place-All to_lower k target (λ d. IsWord d.requests) nodes pods cache r
          (λ groups q w c sized e. with_requests-words (pods_of w groups) c e) h).0

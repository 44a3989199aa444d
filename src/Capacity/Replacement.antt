-- ===== src/Capacity/Replacement.antt =====
-- capacity.go: the size of the Pod that replaces a displaced one (replacementRequests), from the
-- Pod and the template that its controller recreates it from.
pub mod Templates
pub mod Defaults
use Prim.Native.String.{String}
use mathlib.Core.Bool.{Bool, true, ◌||◌}
use mathlib.Core.List.{List, [], ◌++◌, ◌∷◌}
use mathlib.Core.Option.{none, some}
use text.Mathlib.Text.{◌==◌}
use nix_packages.Base.{
  Dict, Floats, Result, any, has_key, if◌then◌else◌, insert, keep, lookup, ok, ◌>>=◌,
}
use nix_packages.Capacity.Quantity.{CapacityError}
use nix_packages.Capacity.Resources.{Resources, larger, no_resources, plus, read_resources}
use nix_packages.Kube.{Container, PodSpec}

-- One name's limit stands in for a missing request.
abbrev pub limit_for : Dict String → String → Dict String → Dict String
limit_for limits name requests =
    if has_key name requests
    then requests
    else elim (lookup name limits) [ none ↦ requests | some limit ↦ insert name limit requests ]

module _ ⦃F : Floats⦄ where
  unfoldable pub container_request : Container → Result CapacityError Resources
  container_request c = read_resources (
      limit_for c.resources.limits "memory"
        (limit_for c.resources.limits "cpu" c.resources.requests))

  -- Some container names the resource, in its requests or its limits.
  named_by_container : PodSpec → String → Bool
  named_by_container spec name =
      any (λ c. has_key name c.resources.requests || has_key name c.resources.limits)
        (spec.containers ++ spec.init_containers)

  -- A Pod-level limit stands in for a resource that nothing requests.
  level_limit_for : PodSpec → String → Dict String → Dict String
  level_limit_for spec name requests =
      if has_key name requests then requests else elim (lookup name spec.resources.limits) [
        | none ↦ requests
        | some limit ↦ if named_by_container spec name then requests else insert name limit requests
      ]

  unfoldable pub pod_level_request : PodSpec → Result CapacityError Resources
  unfolding level_limit_for named_by_container
  pod_level_request spec =
      read_resources
        (level_limit_for spec "memory" (level_limit_for spec "cpu" spec.resources.requests))

  -- `largest`: each container's larger request, by name.
  unfoldable pub largest_by_name :
      Dict Resources → List Container → Result CapacityError (Dict Resources)
  largest_by_name largest [] = ok largest
  largest_by_name largest (c ∷ cs) = container_request c >>= λ r.
      largest_by_name
        (insert c.name
          (larger (elim (lookup c.name largest) [ none ↦ no_resources | some l ↦ l ]) r) largest)
        cs

  abbrev pub is_sidecar : Container → Bool
  is_sidecar c = c.restart_policy == "Always"

  -- A `map[string]bool` of names, each once.
  unfoldable pub name_set : Dict Bool → List Container → Dict Bool
  name_set names [] = names
  name_set names (c ∷ cs) = name_set (insert c.name true names) cs

  -- `sum`: the total of the largest requests of a set of names.
  unfoldable pub sum_of : Dict Resources → Resources → Dict Bool → Resources
  sum_of largest total [] = total
  sum_of largest total (e ∷ names) =
      sum_of largest (plus total (elim (lookup e.0 largest) [ none ↦ no_resources | some l ↦ l ]))
        names

  -- list[:at], up to the first container of the name, or all of it.
  before_name : String → List Container → List Container
  before_name name [] = []
  before_name name (c ∷ cs) =
      let rest = before_name name cs in if c.name == name then [] else c ∷ rest

  -- The sidecars that run beside an init container, on either side.
  unfoldable pub beside : PodSpec → PodSpec → String → Dict Bool
  unfolding before_name
  beside spec template name =
      name_set (name_set [] (keep is_sidecar (before_name name spec.init_containers)))
        (keep is_sidecar (before_name name template.init_containers))

  -- The loop over the init containers of one side: the total so far, raised to each peak.
  unfoldable pub raise_to_peaks :
      Dict Resources → PodSpec → PodSpec → Resources → List Container → Resources
  raise_to_peaks largest spec template total [] = total
  raise_to_peaks largest spec template total (c ∷ cs) =
      let peak =
        plus (elim (lookup c.name largest) [ none ↦ no_resources | some l ↦ l ])
          (sum_of largest no_resources (beside spec template c.name)) in
      raise_to_peaks largest spec template (if is_sidecar c then total else larger total peak) cs

  union_total : Dict Resources → PodSpec → PodSpec → Resources
  union_total largest spec template =
      plus (sum_of largest no_resources (name_set [] (spec.containers ++ template.containers))) (
        sum_of largest no_resources (
          name_set (name_set [] (keep is_sidecar spec.init_containers))
            (keep is_sidecar template.init_containers)))

  -- From the template: `written` as the controller has it, `template` with the namespace's defaults.
  unfoldable pub template_requests : PodSpec → PodSpec → PodSpec → Result CapacityError Resources
  unfolding union_total
  template_requests spec written template = do
    largest ← largest_by_name [] (
        (spec.containers ++ spec.init_containers)
        ++ (template.containers ++ template.init_containers))
    own ← pod_level_request spec
    level ← pod_level_request written
    overhead ← read_resources spec.overhead
    ok (
        plus
          (larger
            (larger
              (raise_to_peaks largest spec template
                (raise_to_peaks largest spec template (union_total largest spec template)
                  spec.init_containers)
                template.init_containers)
              own)
            level)
          overhead)

-- ===== src/Capacity/Requests.antt =====
-- capacity.go: what the scheduler reserves for a Pod (podRequests), and what a node holds for one
-- that runs there already (residentRequests).
use Prim.Native.String.{String}
use mathlib.Core.Bool.{Bool, false, not, ◌&&◌, ◌||◌}
use mathlib.Core.List.{List, [], ◌++◌, ◌∷◌}
use mathlib.Core.Option.{none, some}
use text.Mathlib.Text.{◌==◌}
use nix_packages.Base.{
  Dict, Floats, Result, any, has_key, if◌then◌else◌, insert, is_empty, keep, lookup, max64, ok,
  text_at, ◌>>=◌,
}
use nix_packages.Capacity.Quantity.{CapacityError}
use nix_packages.Capacity.Resources.{Resources, larger, no_resources, plus, read_resources}
use nix_packages.Kube.{Container, ContainerStatus, Pod, PodSpec}

module _ ⦃F : Floats⦄ where
  -- The request of a container named `name`, raised to what the node holds for it, or replaced by
  -- that where a resize cannot be granted.
  unfoldable pub raised : Dict Resources → Bool → String → Resources → Resources
  raised held infeasible name r = elim (lookup name held) [
    | none ↦ r
    | some h ↦ if infeasible then h else larger r h
  ]

  unfoldable pub request_of : Dict Resources → Bool → Container → Result CapacityError Resources
  request_of held infeasible c = do
    r ← read_resources c.resources.requests
    ok (raised held infeasible c.name r)

  -- The loop over the app containers, from a sum so far.
  unfoldable pub sum_requests :
      Dict Resources → Bool → Resources → List Container → Result CapacityError Resources
  sum_requests held infeasible app [] = ok app
  sum_requests held infeasible app (c ∷ cs) =
      request_of held infeasible c >>= λ r. sum_requests held infeasible (plus app r) cs

  -- The loop over the init containers: the sidecars' sum and the largest init container so far.
  unfoldable pub init_requests :
      Dict Resources
      → Bool
      → Resources × Resources
      → List Container
      → Result CapacityError (Resources × Resources)
  init_requests held infeasible sums [] = ok sums
  init_requests held infeasible (sidecars, init) (c ∷ cs) = request_of held infeasible c >>= λ r.
      init_requests held infeasible
        (if c.restart_policy == "Always"
          then (plus sidecars r, init)
          else (sidecars, larger init (plus r sidecars)))
        cs

  -- A Pod-level request replaces the total of each resource that it names.
  abbrev pod_level : Dict String → Resources → Resources → Resources
  pod_level requests level total = record {
    cpu = if has_key "cpu" requests then level.cpu else total.cpu;
    memory = if has_key "memory" requests then level.memory else total.memory;
  }

  unfoldable pub held_requests : PodSpec → Dict Resources → Bool → Result CapacityError Resources
  held_requests spec held infeasible = do
    app ← sum_requests held infeasible no_resources spec.containers
    sums ← init_requests held infeasible (no_resources, no_resources) spec.init_containers
    level ← read_resources spec.resources.requests
    overhead ← read_resources spec.overhead
    ok (plus (pod_level spec.resources.requests level (larger (plus app sums.0) sums.1)) overhead)

  unfoldable pub pod_requests : PodSpec → Result CapacityError Resources
  pod_requests spec = held_requests spec [] false

  -- The first loop of residentRequests: each container's request, by name.
  unfoldable pub requested_by_name :
      Dict Resources → List Container → Result CapacityError (Dict Resources)
  requested_by_name requested [] = ok requested
  requested_by_name requested (c ∷ cs) =
      read_resources c.resources.requests >>= λ r. requested_by_name (insert c.name r requested) cs

  -- `requested[name]`, zero where it is missing.
  abbrev resources_at : String → Dict Resources → Resources
  resources_at name requested = elim (lookup name requested) [ none ↦ no_resources | some r ↦ r ]

  unreported : String → ContainerStatus → Bool
  unreported name s = text_at name s.allocated_resources == "" && text_at name s.requests == ""

  -- What a status says that the node holds; a resource that it does not report holds the request.
  held_by_status : Dict Resources → ContainerStatus → Resources → Resources → Resources
  unfolding unreported
  held_by_status requested s allocated actual = record {
    cpu =
        if unreported "cpu" s
        then (resources_at s.name requested).cpu
        else max64 allocated.cpu actual.cpu;
    memory =
        if unreported "memory" s
        then (resources_at s.name requested).memory
        else max64 allocated.memory actual.memory;
  }

  unfoldable pub held_by_name :
      Dict Resources → Dict Resources → List ContainerStatus → Result CapacityError (Dict Resources)
  unfolding held_by_status
  held_by_name requested held [] = ok held
  held_by_name requested held (s ∷ rest) = do
    allocated ← read_resources s.allocated_resources
    actual ← read_resources s.requests
    held_by_name requested
        (if is_empty s.allocated_resources && is_empty s.requests
          then held
          else insert s.name (held_by_status requested s allocated actual) held)
        rest

  unfoldable pub resize_infeasible : Pod → Bool
  resize_infeasible p =
      p.status.resize == "Infeasible"
      || any (λ c. c.type == "PodResizePending" && c.status == "True" && c.reason == "Infeasible")
          p.status.conditions

  unfoldable pub pod_level_held : Pod → Bool
  pod_level_held p = not (is_empty p.status.allocated_resources) || not (is_empty p.status.requests)

  -- The refused request goes, for the resources that the node reports.
  granted : Pod → Dict String → Dict String
  granted p requests =
      if resize_infeasible p && pod_level_held p
      then keep
          (λ e. not (has_key e.0 p.status.allocated_resources || has_key e.0 p.status.requests))
          requests
      else requests

  abbrev with_requests : PodSpec → Dict String → PodSpec
  with_requests spec requests = record spec {
    resources = record { requests = requests; limits = spec.resources.limits };
  }

  resident_level : Pod → Resources → Result CapacityError Resources
  resident_level p requests = do
    allocated ← read_resources p.status.allocated_resources
    actual ← read_resources p.status.requests
    overhead ← read_resources p.spec.overhead
    ok (larger requests (plus (larger allocated actual) overhead))

  unfoldable pub resident_requests : Pod → Result CapacityError Resources
  unfolding granted resident_level
  resident_requests p = do
    requested ← requested_by_name [] (p.spec.containers ++ p.spec.init_containers)
    held ←
        held_by_name requested [] (p.status.container_statuses ++ p.status.init_container_statuses)
    requests ←
        held_requests (with_requests p.spec (granted p p.spec.resources.requests)) held
          (resize_infeasible p)
    if not (pod_level_held p) then ok requests else resident_level p requests

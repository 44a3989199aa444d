-- ===== src/Capacity/Replacement/Defaults.antt =====
-- capacity.go: withLimitRangeDefaults, what a namespace's LimitRanges give a template's containers.
-- The operation caches each namespace's LimitRanges: the cache is passed along.
use Prim.Native.Nat.{ℕ}
use Prim.Native.String.{String}
use mathlib.Core.Bool.{Bool, not, ◌&&◌, ◌||◌}
use mathlib.Core.List.{List, [], flatten, ◌++◌, ◌∷◌}
use mathlib.Core.Option.{none, some}
use text.Mathlib.Text.{◌==◌}
use nix_packages.Base.{
  Dict, Floats, Result, any, has_key, if◌then◌else◌, insert, lookup, lt64, minus_one, ok, text_at,
  ◌>>=◌,
}
use nix_packages.Capacity.Quantity.{CapacityError, parse_quantity}
use nix_packages.Kube.{Container, PodSpec, ResourceLists}

pub record LimitItem : Type 0 where
  pub type : String
  pub default : Dict String
  pub default_request : Dict String

-- A LimitRange is the list of its limits.
abbrev pub LimitRange : Type 0
LimitRange = List LimitItem

unfoldable pub lacks_size : Container → Bool
lacks_size c =
    (text_at "cpu" c.resources.requests == "" && text_at "cpu" c.resources.limits == "")
    || (text_at "memory" c.resources.requests == "" && text_at "memory" c.resources.limits == "")

-- `reliesOnDefault`
unfoldable pub relies_on_default : PodSpec → Bool
relies_on_default template = any lacks_size (template.containers ++ template.init_containers)

module _ ⦃F : Floats⦄ where
  open F use {literal}

  -- The loop over the limits of every range: the largest value so far, and its text.
  unfoldable pub largest_limit :
      (LimitItem → Dict String)
      → String
      → ℕ × String
      → List LimitItem
      → Result CapacityError (ℕ × String)
  largest_limit pick name best [] = ok best
  largest_limit pick name best (l ∷ ls) =
      if not (l.type == "Container") || not (has_key name (pick l))
      then largest_limit pick name best ls
      else (parse_quantity (text_at name (pick l))
            (if name == "cpu" then literal "1000" else literal "1.0")
          >>= λ n.
              largest_limit pick name (if lt64 best.0 n then (n, text_at name (pick l)) else best)
                ls)

  -- The value of the largest, empty where there is none.
  unfoldable pub largest_value :
      (LimitItem → Dict String) → String → List LimitRange → Result CapacityError String
  largest_value pick name ranges =
      largest_limit pick name (minus_one, "") (flatten ranges) >>= λ best. ok best.1

  -- The limit, or the empty text, for a missing request.
  own_limit : String → ResourceLists → ResourceLists
  own_limit name r =
      if text_at name r.requests == "" && not (text_at name r.limits == "")
      then record r { requests = insert name (text_at name r.limits) r.requests }
      else r

  default_request : List LimitRange → String → ResourceLists → Result CapacityError ResourceLists
  default_request ranges name r =
      if not (text_at name r.requests == "")
      then ok r
      else (largest_value (λ l. l.default_request) name ranges >>= λ value.
          ok (if value == "" then r else record r { requests = insert name value r.requests }))

  default_limit : List LimitRange → String → ResourceLists → Result CapacityError ResourceLists
  default_limit ranges name r =
      if not (text_at name r.limits == "")
      then ok r
      else (largest_value (λ l. l.default) name ranges >>= λ value.
          ok (if value == "" then r else record r { limits = insert name value r.limits }))

  -- One resource of a container: its own limit, then the default request, then the default limit.
  unfoldable pub apply_name :
      List LimitRange → String → ResourceLists → Result CapacityError ResourceLists
  unfolding own_limit default_request default_limit
  apply_name ranges name r = default_request ranges name (own_limit name r) >>= λ requested.
      default_limit ranges name requested

  unfoldable pub apply_defaults :
      List LimitRange → List Container → Result CapacityError (List Container)
  apply_defaults ranges [] = ok []
  apply_defaults ranges (c ∷ cs) = do
    cpu ← apply_name ranges "cpu" c.resources
    both ← apply_name ranges "memory" cpu
    rest ← apply_defaults ranges cs
    ok (record c { resources = both } ∷ rest)

  with_ranges : PodSpec → List LimitRange → Result CapacityError PodSpec
  with_ranges template ranges = do
    containers ← apply_defaults ranges template.containers
    init_containers ← apply_defaults ranges template.init_containers
    ok (record template { containers = containers; init_containers = init_containers })

  -- The namespace's LimitRanges, from the cache or read and put there.
  unfoldable pub ranges_of :
      (String → Result CapacityError (List LimitRange))
      → String
      → Dict (List LimitRange)
      → Result CapacityError (List LimitRange × Dict (List LimitRange))
  ranges_of read namespace cache = elim (lookup namespace cache) [
    | some ranges ↦ ok (ranges, cache)
    | none ↦ read namespace >>= λ ranges. ok (ranges, insert namespace ranges cache)
  ]

  unfoldable pub with_limit_range_defaults :
      (String → Result CapacityError (List LimitRange))
      → String
      → PodSpec
      → Dict (List LimitRange)
      → Result CapacityError (PodSpec × Dict (List LimitRange))
  unfolding with_ranges
  with_limit_range_defaults read namespace template cache =
      if not (relies_on_default template)
      then ok (template, cache)
      else (ranges_of read namespace cache >>= λ found.
          with_ranges template found.0 >>= λ completed. ok (completed, found.1))

-- ===== src/Capacity/Replacement/Templates.antt =====
-- capacity.go: recreationTemplate and replacementRequests. kubectl's answers are the fields of
-- `Cluster`, which stay the same while the check runs.
use Prim.Native.Nat.{ℕ}
use Prim.Native.String.{String}
use mathlib.Core.Bool.{◌&&◌, ◌||◌}
use mathlib.Core.List.{List, [], ◌∷◌}
use mathlib.Core.Option.{Option, none, some}
use text.Mathlib.Text.{◌==◌}
use nix_packages.Base.{
  Dict, Floats, Result, add64, atoi_codes, codes, eqb, if◌then◌else◌, le64, lt64, minus_one, ok,
  ◌>>=◌,
}
use nix_packages.Capacity.Quantity.{CapacityError}
use nix_packages.Capacity.Replacement.{template_requests}
use nix_packages.Capacity.Replacement.Defaults.{LimitRange, with_limit_range_defaults}
use nix_packages.Capacity.Requests.{pod_requests}
use nix_packages.Capacity.Resources.{Resources}
use nix_packages.Kube.{Controller, Node, Pod, PodSpec, first_owner}

pub record RollingUpdate : Type 0 where
  pub partition : Option ℕ

-- `start` is Ordinals.Start, zero when unset.
pub record StatefulSet : Type 0 where
  pub template : PodSpec
  pub pod_management_policy : String
  pub ordinals_start : Option ℕ
  pub strategy_type : String
  pub rolling_update : Option RollingUpdate
  pub current_revision : String
  pub update_revision : String

-- The answers of `kubectl get -o json`: an error, or the object; of readQuiet also its absence.
pub record Cluster : Type 0 where
  pub find_controller : String → String → Result CapacityError (Option Controller)
  pub find_replica_set : String → String → Result CapacityError (Option Controller)
  pub find_stateful_set : String → String → Result CapacityError (Option StatefulSet)
  pub get_replica_set : String → String → Result CapacityError Controller
  pub get_stateful_set : String → String → Result CapacityError StatefulSet
  pub get_revision : String → String → Result CapacityError PodSpec
  pub get_limit_ranges : String → Result CapacityError (List LimitRange)
  pub get_nodes : Result CapacityError (List Node)
  pub get_pods : String → Result CapacityError (List Pod)
  pub get_all_pods : Result CapacityError (List Pod)

-- What follows the last dash, the whole text where there is none.
after_dash : List ℕ → List ℕ → List ℕ
after_dash tail [] = tail
after_dash tail (c ∷ s) = after_dash (if eqb c b'-' then s else tail) s

unfoldable pub pod_ordinal : Pod → ℕ
unfolding after_dash
pod_ordinal p = elim (atoi_codes (after_dash (codes p.metadata.name) (codes p.metadata.name))) [
  | none ↦ minus_one
  | some n ↦ n
]

-- The partition of a rolling update, where it has one.
abbrev pub partition_of : StatefulSet → Option ℕ
partition_of sts =
    if sts.strategy_type == "OnDelete"
    then none
    else elim sts.rolling_update [ none ↦ none | some u ↦ u.partition ]

abbrev pub start_of : StatefulSet → ℕ
start_of sts = elim sts.ordinals_start [ none ↦ 0 | some n ↦ n ]

-- The revision at which the Pod comes back.
unfoldable pub revision_of : StatefulSet → ℕ → String
revision_of sts ordinal = elim (partition_of sts) [
  | none ↦ sts.update_revision
  | some partition ↦
      if le64 0 ordinal && lt64 ordinal (add64 (start_of sts) partition)
      then sts.current_revision
      else sts.update_revision
]

unfoldable pub recreation_template : Cluster → Pod → Result CapacityError (Option PodSpec)
recreation_template k p =
    let owner = first_owner p.metadata in
    let namespace = p.metadata.namespace in
    if owner.kind == "ReplicaSet"
    then (k.get_replica_set namespace owner.name >>= λ rs. ok (some rs.spec.template.spec))
    else if owner.kind == "StatefulSet"
    then (k.get_stateful_set namespace owner.name >>= λ sts.
        let revision = revision_of sts (pod_ordinal p) in
        if revision == "" || revision == sts.update_revision
        then ok (some sts.template)
        else (k.get_revision namespace revision >>= λ spec. ok (some spec)))
    else ok none

module _ ⦃F : Floats⦄ (k : Cluster) where
  unfoldable pub from_template :
      Pod
      → Dict (List LimitRange)
      → Option PodSpec
      → Result CapacityError (Resources × Dict (List LimitRange))
  from_template p cache none = pod_requests p.spec >>= λ r. ok (r, cache)
  from_template p cache (some written) =
      with_limit_range_defaults k.get_limit_ranges p.metadata.namespace written cache >>= λ given.
      template_requests p.spec written given.0 >>= λ r. ok (r, given.1)

  -- The request of the Pod that replaces p, with the cache of LimitRanges passed along.
  unfoldable pub replacement_requests :
      Pod → Dict (List LimitRange) → Result CapacityError (Resources × Dict (List LimitRange))
  unfolding from_template
  replacement_requests p cache = recreation_template k p >>= from_template p cache

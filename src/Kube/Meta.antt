-- ===== src/Kube/Meta.antt =====
-- kube.go: object metadata, owners, conditions and label selectors. A Go pointer is an `Option`.
use Prim.Native.String.{String}
use mathlib.Core.Bool.{Bool}
use mathlib.Core.List.{List, [], ◌∷◌}
use mathlib.Core.Option.{Option}
use text.Mathlib.Text.{◌==◌}
use nix_packages.Base.{Dict, any}

pub record OwnerReference : Type 0 where
  pub kind : String
  pub name : String

pub record ObjectMeta : Type 0 where
  pub name : String
  pub namespace : String
  pub uid : String
  pub labels : Dict String
  pub annotations : Dict String
  pub owner_references : List OwnerReference
  pub deletion_timestamp : Option String

unfoldable pub has_owner : ObjectMeta → String → Bool
has_owner m kind = any (λ owner. owner.kind == kind) m.owner_references

abbrev head_owner : List OwnerReference → OwnerReference
head_owner [] = record { kind = ""; name = "" }
head_owner (owner ∷ rest) = owner

-- The zero reference where there is none.
unfoldable pub first_owner : ObjectMeta → OwnerReference
first_owner m = head_owner m.owner_references

pub record Condition : Type 0 where
  pub type : String
  pub status : String
  pub reason : String
  pub message : String

pub record Requirement : Type 0 where
  pub key : String
  pub operator : String
  pub values : List String

pub record LabelSelector : Type 0 where
  pub match_labels : Dict String
  pub match_expressions : List Requirement

pub record NodeSelectorTerm : Type 0 where
  pub match_expressions : List Requirement
  pub match_fields : List Requirement

pub record PodAffinityTerm : Type 0 where
  pub label_selector : Option LabelSelector
  pub namespace_selector : Option LabelSelector
  pub namespaces : List String
  pub topology_key : String
  pub match_label_keys : List String
  pub mismatch_label_keys : List String

-- The two required terms of `affinity`: each pointer of the source is an `Option`.
pub record NodeAffinity : Type 0 where
  pub required : Option (List NodeSelectorTerm)

pub record PodAntiAffinity : Type 0 where
  pub required : List PodAffinityTerm

pub record Affinity : Type 0 where
  pub node_affinity : Option NodeAffinity
  pub pod_anti_affinity : Option PodAntiAffinity

-- ===== src/Kube/Pods.antt =====
-- kube.go: Pods, their containers and their status. An `int` is its 64-bit pattern (Base.Words).
use Prim.Native.Nat.{ℕ}
use Prim.Native.String.{String}
use mathlib.Core.Bool.{Bool, false, not, ◌&&◌, ◌||◌}
use mathlib.Core.List.{List, [], ◌∷◌}
use mathlib.Core.Option.{Option}
use text.Mathlib.Text.{◌==◌}
use nix_packages.Base.{Dict, all, has_key, if◌then◌else◌, is_empty, text_at}
use nix_packages.Kube.Meta.{Affinity, Condition, LabelSelector, ObjectMeta}

pub record Toleration : Type 0 where
  pub key : String
  pub operator : String
  pub value : String
  pub effect : String

pub record SpreadConstraint : Type 0 where
  pub max_skew : ℕ
  pub topology_key : String
  pub when_unsatisfiable : String
  pub label_selector : Option LabelSelector
  pub min_domains : Option ℕ
  pub node_affinity_policy : String
  pub node_taints_policy : String
  pub match_label_keys : List String

pub record ResourceLists : Type 0 where
  pub requests : Dict String
  pub limits : Dict String

pub record Container : Type 0 where
  pub name : String
  pub resources : ResourceLists
  pub restart_policy : String

pub record PodSpec : Type 0 where
  pub node_name : String
  pub node_selector : Dict String
  pub affinity : Option Affinity
  pub tolerations : List Toleration
  pub topology_spread_constraints : List SpreadConstraint
  pub containers : List Container
  pub init_containers : List Container
  pub overhead : Dict String
  pub resources : ResourceLists
  pub termination_grace_period_seconds : Option ℕ

-- `waiting` is `State.Waiting`, the reason of a container that waits.
pub record ContainerStatus : Type 0 where
  pub name : String
  pub ready : Bool
  pub allocated_resources : Dict String
  pub requests : Dict String
  pub waiting : Option String

-- `requests` is `Status.Resources.Requests`.
pub record PodStatus : Type 0 where
  pub phase : String
  pub conditions : List Condition
  pub requests : Dict String
  pub allocated_resources : Dict String
  pub resize : String
  pub nominated_node_name : String
  pub container_statuses : List ContainerStatus
  pub init_container_statuses : List ContainerStatus

pub record Pod : Type 0 where
  pub metadata : ObjectMeta
  pub spec : PodSpec
  pub status : PodStatus

unfoldable pub active : Pod → Bool
active p = not (p.status.phase == "Succeeded") && not (p.status.phase == "Failed")

-- The first condition of type Ready decides.
ready_condition : List Condition → Bool
ready_condition [] = false
ready_condition (c ∷ rest) = if c.type == "Ready" then c.status == "True" else ready_condition rest

unfoldable pub pod_ready : Pod → Bool
unfolding ready_condition
pod_ready p = ready_condition p.status.conditions

unfoldable pub running_and_ready : Pod → Bool
running_and_ready p =
    if not (p.status.phase == "Running") || is_empty p.status.container_statuses
    then false
    else all (λ s. s.ready) p.status.container_statuses

unfoldable pub is_mirror : Pod → Bool
is_mirror p = has_key "kubernetes.io/config.mirror" p.metadata.annotations

unfoldable pub is_instance_manager : Pod → Bool
is_instance_manager p = text_at "longhorn.io/component" p.metadata.labels == "instance-manager"

-- ===== src/Kube/Controllers.antt =====
-- kube.go: Pod controllers, and the workloads named after them.
use Prim.Native.Nat.{ℕ}
use Prim.Native.String.{String}
use mathlib.Core.Option.{Option, none, some}
use nix_packages.Base.{◌<>◌}
use nix_packages.Kube.Meta.{LabelSelector, ObjectMeta}
use nix_packages.Kube.Pods.{PodSpec}

pub record PodTemplate : Type 0 where
  pub metadata : ObjectMeta
  pub spec : PodSpec

pub record ControllerSpec : Type 0 where
  pub replicas : Option ℕ
  pub selector : Option LabelSelector
  pub template : PodTemplate

-- `ready_replicas` is `Status.ReadyReplicas`.
pub record Controller : Type 0 where
  pub metadata : ObjectMeta
  pub spec : ControllerSpec
  pub ready_replicas : ℕ

unfoldable pub desired_replicas : Controller → ℕ
desired_replicas c = elim c.spec.replicas [ none ↦ 1 | some n ↦ n ]

pub record Workload : Type 0 where
  pub namespace : String
  pub kind : String
  pub name : String

unfoldable pub ref : Workload → String
ref w = (w.kind <> "/") <> w.name

unfoldable pub workload_text : Workload → String
workload_text w = (w.namespace <> "/") <> ref w

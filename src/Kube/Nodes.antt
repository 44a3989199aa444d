-- ===== src/Kube/Nodes.antt =====
-- kube.go: nodes.
use Prim.Native.String.{String}
use mathlib.Core.Bool.{Bool, ◌&&◌}
use mathlib.Core.List.{List, [], ◌∷◌}
use text.Mathlib.Text.{◌==◌}
use nix_packages.Base.{Dict, any, if◌then◌else◌}
use nix_packages.Kube.Meta.{Condition, ObjectMeta}

pub record Taint : Type 0 where
  pub key : String
  pub value : String
  pub effect : String

abbrev pub reboot_pending_taint : String
reboot_pending_taint = "nixfleet/reboot-pending"

pub record NodeSpec : Type 0 where
  pub unschedulable : Bool
  pub taints : List Taint

pub record NodeAddress : Type 0 where
  pub type : String
  pub address : String

pub record NodeStatus : Type 0 where
  pub conditions : List Condition
  pub addresses : List NodeAddress
  pub allocatable : Dict String

pub record Node : Type 0 where
  pub metadata : ObjectMeta
  pub spec : NodeSpec
  pub status : NodeStatus

-- The loop that collects the addresses of type InternalIP.
internal_addresses : List NodeAddress → List String
internal_addresses [] = []
internal_addresses (a ∷ rest) =
    let others = internal_addresses rest in
    if a.type == "InternalIP" then a.address ∷ others else others

unfoldable pub internal_ips : Node → List String
unfolding internal_addresses
internal_ips n = internal_addresses n.status.addresses

unfoldable pub node_is_ready : Node → Bool
node_is_ready n = any (λ c. c.type == "Ready" && c.status == "True") n.status.conditions

unfoldable pub reboot_pending : Node → Bool
reboot_pending n = any (λ t. t.key == reboot_pending_taint) n.spec.taints

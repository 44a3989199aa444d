-- ===== src/Operation/Volumes.antt =====
-- storage.go: Longhorn volumes, replicas and attachments, and the rules that list what blocks a
-- maintenance. Each rule returns the objects that its lines are about.
use Prim.Native.Nat.{ℕ}
use Prim.Native.String.{String}
use mathlib.Core.Bool.{Bool, not, ◌&&◌, ◌||◌}
use mathlib.Core.List.{List, [], ◌++◌, ◌∷◌}
use text.Mathlib.Text.{◌==◌}
use nix_packages.Base.{codes, contains, if◌then◌else◌, keep, length, lt64, ltb, sort_by, ◌<>◌}
use nix_packages.Capacity.Displaced.{codes_before}
use nix_packages.Kube.{Condition, ObjectMeta}

pub record LonghornVolume : Type 0 where
  pub metadata : ObjectMeta
  pub number_of_replicas : ℕ
  pub node_id : String
  pub state : String
  pub robustness : String
  pub current_node_id : String
  pub claim_namespace : String
  pub claim_name : String

pub record LonghornReplica : Type 0 where
  pub volume_name : String
  pub node_id : String
  pub failed_at : String
  pub current_state : String

pub record VolumeAttachment : Type 0 where
  pub metadata : ObjectMeta
  pub node_name : String
  pub attacher : String
  pub attached : Bool

-- The part of a BackupTarget's status that is read.
pub record BackupTarget : Type 0 where
  pub available : Bool
  pub conditions : List Condition

abbrev pub min_longhorn_replicas : ℕ
min_longhorn_replicas = 3

abbrev pub min_surviving_longhorn_replicas : ℕ
min_surviving_longhorn_replicas = 2

unfoldable pub claim : LonghornVolume → String
claim v = (v.claim_namespace <> "/") <> v.claim_name

unfoldable pub attached_or_attaching : LonghornVolume → Bool
attached_or_attaching v = v.state == "attached" || v.state == "attaching"

unfoldable pub unhealthy_attached_volumes : List LonghornVolume → List LonghornVolume
unhealthy_attached_volumes = keep (λ v. attached_or_attaching v && not (v.robustness == "healthy"))

-- `under` of waitForLonghornHealth.
unfoldable pub under_replicated : List LonghornVolume → List LonghornVolume
under_replicated =
    keep (λ v. attached_or_attaching v && lt64 v.number_of_replicas min_longhorn_replicas)

-- A replica that stays, running and unfailed, with the target down.
unfoldable pub survives : String → LonghornReplica → Bool
survives target r = not (r.node_id == target) && r.current_state == "running" && r.failed_at == ""

-- One volume's entry of survivingReplicaNodes, before the sort: each node once, in the order of
-- the replicas.
unfoldable pub surviving_nodes : String → String → List String → List LonghornReplica → List String
surviving_nodes target volume found [] = found
surviving_nodes target volume found (r ∷ rs) =
    surviving_nodes target volume
      (if survives target r && r.volume_name == volume && not (contains found r.node_id)
        then found ++ r.node_id ∷ []
        else found)
      rs

-- survivingReplicaNodes, at one volume's name.
unfoldable pub surviving_replica_nodes : String → List LonghornReplica → String → List String
surviving_replica_nodes target replicas volume =
    sort_by (λ a b. codes_before (codes a) (codes b)) (surviving_nodes target volume [] replicas)

unfoldable pub at_risk : String → List LonghornReplica → LonghornVolume → Bool
at_risk target replicas v =
    lt64 v.number_of_replicas min_longhorn_replicas
    || not (v.state == "attached")
    || v.robustness == "faulted"
    || v.current_node_id == target
    || v.node_id == target
    || ltb (length (surviving_replica_nodes target replicas v.metadata.name))
        min_surviving_longhorn_replicas

unfoldable pub survivability_failures :
    String → List LonghornVolume → List LonghornReplica → List LonghornVolume
survivability_failures target volumes replicas =
    keep (λ v. attached_or_attaching v && at_risk target replicas v) volumes

unfoldable pub spread_failures :
    String → List LonghornVolume → List LonghornReplica → List LonghornVolume
spread_failures target volumes replicas =
    keep
      (λ v.
        v.state == "attached"
        && ltb (length (surviving_replica_nodes target replicas v.metadata.name))
            min_surviving_longhorn_replicas)
      volumes

-- The volumes that have not left the node yet.
unfoldable pub still_attached : String → List LonghornVolume → List LonghornVolume
still_attached node =
    keep (λ v. (v.current_node_id == node || v.node_id == node) && not (v.state == "detached"))

-- The VolumeAttachments of Longhorn that remain on the node.
unfoldable pub remaining_attachments : String → List VolumeAttachment → List VolumeAttachment
remaining_attachments node = keep (λ a. a.node_name == node && a.attacher == "driver.longhorn.io")

-- ===== src/Operation/Clusters.antt =====
-- cnpg.go: CloudNativePG clusters, their standbys, the survivability rule and the choice of the
-- replicas that take over.
use Prim.Native.Nat.{ℕ}
use Prim.Native.String.{String}
use mathlib.Core.Bool.{Bool, false, ◌&&◌}
use mathlib.Core.List.{List, [], ◌∷◌}
use mathlib.Core.Option.{Option, none, some}
use text.Mathlib.Text.{◌==◌}
use nix_packages.Base.{Dict, Floats, codes, if◌then◌else◌, insert, lookup, lt64, sub64, ◌<>◌}
use nix_packages.Kube.{ObjectMeta, Pod, running_and_ready}

pub record CnpgCluster : Type 0 where
  pub metadata : ObjectMeta
  pub instances : Option ℕ
  pub ready_instances : ℕ
  pub current_primary : String
  pub phase : String
  pub instances_status : Dict (List String)

unfoldable pub desired_instances : CnpgCluster → ℕ
desired_instances c = elim c.instances [ none ↦ 1 | some n ↦ n ]

-- namespace/name
abbrev pub key_of : String → String → String
key_of namespace name = (namespace <> "/") <> name

unfoldable pub cluster_key : CnpgCluster → String
cluster_key c = key_of c.metadata.namespace c.metadata.name

unfoldable pub primary_key : CnpgCluster → String
primary_key c = key_of c.metadata.namespace c.current_primary

-- podIndex: a later Pod of the same name replaces an earlier one.
unfoldable pub pod_index : Dict Pod → List Pod → Dict Pod
pod_index index [] = index
pod_index index (p ∷ ps) =
    pod_index (insert (key_of p.metadata.namespace p.metadata.name) p index) ps

-- The node of the Pod at the key, empty where there is none.
unfoldable pub node_of : Dict Pod → String → String
node_of index key = elim (lookup key index) [ none ↦ "" | some p ↦ p.spec.node_name ]

unfoldable pub ready_at : Dict Pod → String → Bool
ready_at index key = elim (lookup key index) [ none ↦ false | some p ↦ running_and_ready p ]

unfoldable pub minimum_ready : CnpgCluster → ℕ
minimum_ready c = if lt64 1 (desired_instances c) then sub64 (desired_instances c) 1 else 1

module _ ⦃F : Floats⦄ where
  open F use {Float, fle, literal, parse_float}

  -- A standby: its state, and its lag in bytes, none for -1, where the primary does not know.
  abbrev pub Standby : Type 0
  Standby = String × Option Float

  -- `lag >= 0 && lag <= maxSwitchoverLag`
  unfoldable pub within_lag : Option Float → Bool
  within_lag none = false
  within_lag (some lag) = fle (literal "0") lag && fle lag (literal "16777216")

  unfoldable pub caught_up : Standby → Bool
  unfolding within_lag
  caught_up s = s.0 == "streaming" && within_lag s.1

  -- A line of replicationQuery's output, split at its bars; other than three fields, or an empty
  -- name, is skipped.
  unfoldable pub read_standby : String → List String → Dict Standby → Dict Standby
  read_standby namespace (name ∷ state ∷ lag ∷ []) standbys =
      if name == ""
      then standbys
      else insert (key_of namespace name) (state, parse_float (codes lag)) standbys
  read_standby namespace [] standbys = standbys
  read_standby namespace (a ∷ []) standbys = standbys
  read_standby namespace (a ∷ b ∷ []) standbys = standbys
  read_standby namespace (a ∷ b ∷ c ∷ d ∷ rest) standbys = standbys

  -- parseStandbys, of the lines' fields.
  unfoldable pub parse_standbys : String → List (List String) → Dict Standby → Dict Standby
  parse_standbys namespace [] standbys = standbys
  parse_standbys namespace (line ∷ rest) standbys =
      parse_standbys namespace rest (read_standby namespace line standbys)

  -- The zero standby where the key is missing.
  unfoldable pub standby_at : Dict Standby → String → Standby
  standby_at standbys key = elim (lookup key standbys) [
    | none ↦ ("", some (literal "0"))
    | some s ↦ s
  ]

  -- What the primaries report, and the clusters whose primary could not be asked.
  pub record Replication : Type 0 where
    pub standbys : Dict Standby
    pub unanswered : List String

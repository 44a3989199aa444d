-- ===== src/Capacity/Budgets.antt =====
-- capacity.go: the checks of PodDisruptionBudgets and of Pod slots. What kubectl answers is an
-- argument, a result or the error of the read.
pub mod Blockers
pub mod Slots
use Prim.Native.Nat.{ℕ}
use Prim.Native.String.{String}
use mathlib.Core.Bool.{Bool, false, not, true, ◌&&◌, ◌||◌}
use mathlib.Core.List.{List, [], map, ◌++◌, ◌∷◌}
use mathlib.Core.Option.{Option, none, some}
use text.Mathlib.Text.{◌==◌}
use nix_packages.Base.{
  Dict, Result, add64, all, atoi, contains, err, has_key, if◌then◌else◌, is_empty, keep, le64,
  length, ok, sub64, text_at, ◌<>◌, ◌>>=◌,
}
use nix_packages.Capacity.Quantity.{CapacityError, no_pod_slots, pdb_blocks, unreadable_pod_count}
use nix_packages.Kube.{
  LabelSelector, Node, ObjectMeta, Pod, Requirement, active, has_owner, is_instance_manager,
  is_mirror, node_is_ready,
}
use nix_packages.Placement.Selectors.{labels_match}

pub record DisruptionBudget : Type 0 where
  pub metadata : ObjectMeta
  pub selector : Option LabelSelector
  pub disruptions_allowed : ℕ

-- One expression, with the Bash tool's semantics: NotIn requires the label.
unfoldable pub pdb_requirement : Dict String → Requirement → Bool
pdb_requirement labels e =
    let present = has_key e.key labels in
    let listed = contains e.values (text_at e.key labels) in
    if e.operator == "In"
    then present && listed
    else if e.operator == "NotIn"
    then present && not listed
    else if e.operator == "Exists"
    then present
    else if e.operator == "DoesNotExist"
    then not present
    else false

unfoldable pub pdb_selector_matches : Dict String → Option LabelSelector → Bool
pdb_selector_matches labels none = true
pdb_selector_matches labels (some s) =
    if not (labels_match labels s.match_labels)
    then false
    else all (pdb_requirement labels) s.match_expressions

abbrev pub role_label : String
role_label = "cnpg.io/instanceRole"

-- The tests of the inner loop: whether the budget's row for the Pod is written.
unfoldable pub is_blocker : String → Bool → DisruptionBudget → Pod → Bool
is_blocker node ignore_cnpg_primaries pdb p =
    if not (p.spec.node_name == node)
      || not (p.metadata.namespace == pdb.metadata.namespace)
      || not (active p)
      || has_owner p.metadata "DaemonSet"
    then false
    else if is_instance_manager p
    then false
    else if not (pdb_selector_matches p.metadata.labels pdb.selector)
    then false
    else if ignore_cnpg_primaries && text_at role_label p.metadata.labels == "primary"
    then false
    else true

blocker_role : Pod → String
blocker_role p =
    if has_key role_label p.metadata.labels then text_at role_label p.metadata.labels else "-"

unfoldable pub blocker_row : DisruptionBudget → Pod → String
unfolding blocker_role
blocker_row pdb p =
    ((p.metadata.namespace <> "\t") <> (pdb.metadata.name <> "\t"))
    <> ((p.metadata.name <> "\t") <> blocker_role p)

-- The rows of one budget.
unfoldable pub budget_rows : String → Bool → List Pod → DisruptionBudget → List String
budget_rows node ignore_cnpg_primaries pods pdb =
    if le64 1 pdb.disruptions_allowed
    then []
    else map (blocker_row pdb) (keep (is_blocker node ignore_cnpg_primaries pdb) pods)

unfoldable pub rows_of : String → Bool → List Pod → List DisruptionBudget → List String
rows_of node ignore_cnpg_primaries pods [] = []
rows_of node ignore_cnpg_primaries pods (pdb ∷ rest) =
    budget_rows node ignore_cnpg_primaries pods pdb ++ rows_of node ignore_cnpg_primaries pods rest

unfoldable pub pdb_verdict : String → List String → Result CapacityError (Unit {0})
pdb_verdict node [] = ok tt
pdb_verdict node (row ∷ rows) = err (pdb_blocks node)

unfoldable pub check_pdb_eviction_blockers :
    String
    → Bool
    → Result CapacityError (List DisruptionBudget)
    → Result CapacityError (List Pod)
    → Result CapacityError (Unit {0})
unfolding pdb_verdict
check_pdb_eviction_blockers node ignore_cnpg_primaries read_pdbs read_pods = do
  pdbs ← read_pdbs
  pods ← read_pods
  pdb_verdict node (rows_of node ignore_cnpg_primaries pods pdbs)

-- The loop over the stable nodes: the names that remain, and their allocatable Pods.
unfoldable pub stable_slots :
    String → List Node → List String × ℕ → Result CapacityError (List String × ℕ)
stable_slots target [] sums = ok sums
stable_slots target (n ∷ ns) (remaining, allocatable) =
    if n.metadata.name == target || n.spec.unschedulable || not (node_is_ready n)
    then stable_slots target ns (remaining, allocatable)
    else elim (atoi (text_at "pods" n.status.allocatable)) [
      | none ↦ err (unreadable_pod_count n.metadata.name)
      | some slots ↦
          stable_slots target ns (remaining ++ n.metadata.name ∷ [], add64 allocatable slots)
    ]

unfoldable pub is_scheduled : List String → Pod → Bool
is_scheduled remaining p = active p && contains remaining p.spec.node_name

unfoldable pub is_displaced : String → Pod → Bool
is_displaced target p =
    active p
    && p.spec.node_name == target
    && not (has_owner p.metadata "DaemonSet")
    && not (is_mirror p)
    && not (is_instance_manager p)

unfoldable pub free_after : String → List Pod → List String × ℕ → ℕ
free_after target pods sums =
    sub64 (sub64 sums.1 (length (keep (is_scheduled sums.0) pods)))
      (length (keep (is_displaced target) pods))

unfoldable pub slots_verdict :
    String → ℕ → List Pod → List String × ℕ → Result CapacityError (Unit {0})
slots_verdict target required pods sums =
    if not (is_empty sums.0) && le64 required (free_after target pods sums)
    then ok tt
    else err no_pod_slots

unfoldable pub check_stable_node_pod_slots :
    String
    → ℕ
    → Result CapacityError (List Node)
    → Result CapacityError (List Pod)
    → Result CapacityError (Unit {0})
check_stable_node_pod_slots target required read_nodes read_pods = do
  nodes ← read_nodes
  pods ← read_pods
  sums ← stable_slots target nodes ([], 0)
  slots_verdict target required pods sums

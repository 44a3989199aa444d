-- ===== src/Operation/FenceStatus.antt =====
-- fence.go: what the status report of the self-fence agent says (parseFenceStatus,
-- fenceStateFailures and the readers of a state). Decoding and printing JSON are arguments.
-- `decode` reads one JSON document with nothing after it.
-- The states that are the node's own.
use Prim.Native.Nat.{ℕ}
use Prim.Native.String.{String}
use mathlib.Core.Bool.{Bool, false, not, ◌&&◌, ◌||◌}
use mathlib.Core.List.{List, [], ◌∷◌}
use mathlib.Core.Option.{Option, none, some}
use text.Mathlib.Text.{◌==◌}
use nix_packages.Base.{
  Floats, any, codes, contains, has_key, if◌then◌else◌, is_empty, keep, text_at,
}
use nix_packages.Kube.{Node}
use nix_packages.Operation.Json.{
  Fields, Json, array, boolean, find_field, get_field, is_false, is_null, is_text, is_true,
  items_of, no_fields, null, number, number_of, object, objects_of, or_else, string,
}

unfoldable pub own_states : List Fields → List Fields
own_states = keep (λ state. is_true (get_field "self" state))

-- `selfStates != 1 || self["node"] != node`
unfoldable pub one_own_state : String → List Fields → Bool
one_own_state node [] = false
one_own_state node (state ∷ []) = is_text node (get_field "node" state)
one_own_state node (s ∷ t ∷ rest) = false

-- `status["states"]` as objects: none where it is no list, or an element is neither an object nor
-- null.
unfoldable pub states_of : Fields → Option (List Fields)
states_of status = elim (items_of (get_field "states" status)) [
  | none ↦ none
  | some entries ↦ objects_of entries
]

-- The checks of parseFenceStatus on a decoded object.
unfoldable pub status_names_node : String → Fields → Bool
unfolding states_of own_states
status_names_node node status = is_text node (get_field "node" status) && elim (states_of status) [
  | none ↦ false
  | some states ↦ not (is_empty states) && one_own_state node (own_states states)
]

unfoldable pub status_object : String → Json → Option Fields
status_object node (object status) = if status_names_node node status then some status else none
status_object node null = none
status_object node (boolean b) = none
status_object node (number n) = none
status_object node (string t) = none
status_object node (array a) = none

unfoldable pub parse_fence_status : (String → Option Json) → String → String → Option Fields
unfolding status_object
parse_fence_status decode reply node = elim (decode reply) [
  | none ↦ none
  | some document ↦ status_object node document
]

-- fenceStates: no states without a report.
unfoldable pub fence_states : Option Fields → List Fields
fence_states none = []
fence_states (some status) = elim (states_of status) [ none ↦ [] | some states ↦ states ]

unfoldable pub own_of : List Fields → Fields
own_of [] = no_fields
own_of (state ∷ rest) = state

-- ownFenceState: the first own state.
unfoldable pub own_fence_state : Option Fields → Fields
unfolding own_of
own_fence_state status = own_of (own_states (fence_states status))

-- jqText; `render` prints what is neither a string nor null.
unfoldable pub jq_text : (Json → String) → Json → String
jq_text render (string t) = t
jq_text render null = "null"
jq_text render (boolean b) = render (boolean b)
jq_text render (number n) = render (number n)
jq_text render (array a) = render (array a)
jq_text render (object o) = render (object o)

-- Why a server's state blocks maintenance; the line names the server.
pub data Blocked : Type 0 where
  unverified fenced unhealthy_class unknown_mode no_timing invalid_since recent_unfence : Blocked

unfoldable pub known_mode : Json → Bool
known_mode mode = is_text "enforce" mode || is_text "observe" mode

module _ ⦃F : Floats⦄ where
  open F use {flt, literal, parse_float, of_int64}

  -- `a < b` of two JSON numbers.
  unfoldable pub number_lt : String → String → Bool
  number_lt a b = elim (parse_float (codes a)) [
    | none ↦ false
    | some x ↦ elim (parse_float (codes b)) [ none ↦ false | some y ↦ flt x y ]
  ]

  -- The case `sinceUnfence != nil`.
  unfoldable pub since_problem : String → Json → Option Blocked
  since_problem window since = if is_null since then none else elim (number_of since) [
    | none ↦ some invalid_since
    | some n ↦ if number_lt n window then some recent_unfence else none
  ]

  -- The last two cases.
  unfoldable pub timing_problem : Fields → Option Blocked
  unfolding since_problem
  timing_problem state = elim (find_field "since_unfence" state) [
    | none ↦ some no_timing
    | some since ↦ elim (number_of (get_field "refence_window" state)) [
      | none ↦ some no_timing
      | some window ↦ if number_lt window "0" then some no_timing else since_problem window since
    ]
  ]

  unfoldable pub state_problem : Fields → Option Blocked
  unfolding timing_problem
  state_problem state =
      if not (is_true (get_field "ok" state))
      then some unverified
      else if not (is_false (get_field "fenced" state))
      then some fenced
      else if not (is_text "healthy" (get_field "classification" state))
      then some unhealthy_class
      else if not (known_mode (get_field "mode" state))
      then some unknown_mode
      else timing_problem state

  unfoldable pub server_name : (Json → String) → Fields → String
  server_name render state = jq_text render (
      or_else (or_else (get_field "node" state) (get_field "address" state))
        (string "unknown server"))

  unfoldable pub fence_state_failures : (Json → String) → List Fields → List (String × Blocked)
  fence_state_failures render [] = []
  fence_state_failures render (state ∷ rest) =
      let others = fence_state_failures render rest in
      elim (state_problem state) [
        | none ↦ others
        | some problem ↦ (server_name render state, problem) ∷ others
      ]

  -- `servers != float64(len(o.fenceStates()))`
  unfoldable pub counts_servers : Json → ℕ → Bool
  counts_servers servers count = elim (number_of servers) [
    | none ↦ false
    | some n ↦ elim (parse_float (codes n)) [
      | none ↦ false
      | some x ↦ not (flt x (of_int64 count)) && not (flt (of_int64 count) x)
    ]
  ]

-- ownAgentHealthy
unfoldable pub own_agent_healthy : Fields → Bool
own_agent_healthy own =
    is_true (get_field "ok" own)
    && is_text "healthy" (get_field "classification" own)
    && is_false (get_field "fenced" own)
    && known_mode (get_field "mode" own)

-- The names that the states report.
unfoldable pub reported_names : List Fields → List String
reported_names [] = []
reported_names (state ∷ rest) =
    let others = reported_names rest in
    elim (get_field "node" state) [ string name ↦ name ∷ others | _ ↦ others ]

-- The disabled annotations and out-of-service taints that block maintenance.
unfoldable pub node_blocks_fence : Node → Bool
node_blocks_fence n =
    text_at "fence.alc.xyz/disabled" n.metadata.annotations == "true"
    || any (λ t. t.key == "node.kubernetes.io/out-of-service") n.spec.taints

-- A control-plane Node that no state names.
unfoldable pub unreported_node : List String → Node → Bool
unreported_node names n =
    has_key "node-role.kubernetes.io/control-plane" n.metadata.labels
    && not (contains names n.metadata.name)

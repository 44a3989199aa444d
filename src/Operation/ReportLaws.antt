-- ===== src/Operation/ReportLaws.antt =====
-- parseFenceStatus and ownFenceState: what an accepted report says of the node's own state.
use Prim.Native.String.{String}
use mathlib.Core.Bool.{not, true, ◌&&◌}
use mathlib.Core.List.{List, [], ◌∷◌}
use mathlib.Core.Logic.{inl, inr}
use mathlib.Core.Option.{Option, none, some}
use mathlib.Core.Path.{ap, refl, subst, sym, ◌∙◌, ◌≡◌}
use native.Mathlib.Omega.{arith}
use nix_packages.Base.{&&-true, All, Bool-cases, Has, Option-cases, eq_of_some, is_empty}
use nix_packages.Operation.FenceLaws.{is_text-eq, is_true-eq}
use nix_packages.Operation.FenceStatus.{
  fence_states, one_own_state, own_fence_state, own_of, own_states, parse_fence_status, states_of,
  status_names_node, status_object,
}
use nix_packages.Operation.Json.{
  Fields, Json, array, boolean, get_field, is_text, is_true, null, number, object, string,
}
use nix_packages.Operation.SwitchoverLaws.{keep-Has, kept-Has}

one_own_state-single :
    (node : String) (states : List Fields)
    → one_own_state node states ≡ true
    → (own : Fields) × (states ≡ own ∷ []) × (is_text node (get_field "node" own) ≡ true)
unfolding one_own_state
one_own_state-single node [] h = absurd (cc)
one_own_state-single node (s ∷ []) h = (s, refl, h)
one_own_state-single node (s ∷ t ∷ rest) h = absurd (cc)

status_object-names :
    (node : String) (document : Json) (status : Fields)
    → status_object node document ≡ some status
    → status_names_node node status ≡ true
unfolding status_object
status_object-names node (object m) status h = elim (Bool-cases (status_names_node node m)) [
  | inl e ↦
      let k : some m ≡ some status = rw (e, status_object) at h in
      subst (λ m. status_names_node node m ≡ true) (eq_of_some k) e
  | inr e ↦ let k : none ≡ some status = rw (e, status_object) at h in absurd (cc)
]
status_object-names node null status h = absurd (cc)
status_object-names node (boolean b) status h = absurd (cc)
status_object-names node (number n) status h = absurd (cc)
status_object-names node (string t) status h = absurd (cc)
status_object-names node (array a) status h = absurd (cc)

-- `own` is the one state among these that says it is the node's own.
abbrev pub IsOwn : String → List Fields → Fields → Type 0
IsOwn node states own =
    Has own states
    × (get_field "self" own ≡ boolean true)
    × (get_field "node" own ≡ string node)
    × ((state : Fields) → Has state states → is_true (get_field "self" state) ≡ true → state ≡ own)

single-IsOwn :
    (node : String) (states : List Fields) (own : Fields)
    → own_states states ≡ own ∷ []
    → is_text node (get_field "node" own) ≡ true
    → IsOwn node states own
unfolding own_states
single-IsOwn node states own e n =
    let chosen = kept-Has (λ state. is_true (get_field "self" state)) states in
    let (m, s) =
      (subst (All (λ state. Has state states × (is_true (get_field "self" state) ≡ true))) e
        chosen).0 in
    (
      m,
      is_true-eq _ s,
      is_text-eq node _ n,
      λ state h k.
          elim (subst (Has state) e
            (keep-Has (λ state. is_true (get_field "self" state)) state states h k)) [
              | inl same ↦ same
              | inr empty ↦ absurd empty
            ],
    )

fence_states-eq :
    (status : Fields) (states : List Fields)
    → states_of status ≡ some states
    → fence_states (some status) ≡ states
unfolding fence_states
fence_states-eq status states e = rw (e, fence_states) refl

own_fence_state-eq :
    (report : Option Fields) (own : Fields)
    → own_states (fence_states report) ≡ own ∷ []
    → own_fence_state report ≡ own
unfolding own_fence_state own_of
own_fence_state-eq report own e = ap own_of e

names-IsOwn :
    (node : String) (status : Fields)
    → status_names_node node status ≡ true
    → (get_field "node" status ≡ string node)
      × IsOwn node (fence_states (some status)) (own_fence_state (some status))
unfolding status_names_node
names-IsOwn node status h = elim (Option-cases (states_of status)) [
  | inl e ↦ absurd (ground (arith, e, h))
  | inr (states, e) ↦
      let k : (not (is_empty states) && one_own_state node (own_states states)) ≡ true =
        ground (arith, e, h) in
      let f = fence_states-eq status states e in
      let (own, single, named) =
        one_own_state-single node (own_states states)
          ((&&-true (not (is_empty states)) (one_own_state node (own_states states)) k).1) in
      (
        is_text-eq node _ (ground (arith, h)),
        subst (λ x. IsOwn node (fence_states (some status)) x)
            (sym (own_fence_state-eq (some status) own (ap own_states f ∙ single)))
            (subst (λ xs. IsOwn node xs own) (sym f) (single-IsOwn node states own single named)),
      )
]

-- A reply that parseFenceStatus accepts is a report that names the node, and the state that
-- ownFenceState takes from it is one of the reported states, says that it is the node's own, names
-- the node, and is the only one that says so.
pub parse_fence_status-IsOwn :
    (decode : String → Option Json) (reply node : String) (status : Fields)
    → parse_fence_status decode reply node ≡ some status
    → (get_field "node" status ≡ string node)
      × IsOwn node (fence_states (some status)) (own_fence_state (some status))
unfolding parse_fence_status
parse_fence_status-IsOwn decode reply node status h = elim (Option-cases (decode reply)) [
  | inl e ↦ let k : none ≡ some status = rw (e, parse_fence_status) at h in absurd (cc)
  | inr (document, e) ↦
      names-IsOwn node status
        (status_object-names node document status (rw (e, parse_fence_status) at h))
]

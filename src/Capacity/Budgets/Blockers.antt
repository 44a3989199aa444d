-- ===== src/Capacity/Budgets/Blockers.antt =====
-- About what lets the PodDisruptionBudget check pass.
use Prim.Native.String.{String}
use mathlib.Core.Bool.{Bool, false, true}
use mathlib.Core.List.{List, [], map, ◌∷◌}
use mathlib.Core.Logic.{inl, inr, ◌↔◌, ◌≢◌, ◌⊎◌}
use mathlib.Core.Path.{refl, subst, sym, ◌≡◌}
use native.Mathlib.Omega.{arith}
use text.Mathlib.TextEquality.{eq_iff}
use nix_packages.Base.{Bool-cases, Has, append-nil_parts, err, keep, le64, ok, text_at}
use nix_packages.Capacity.Budgets.{
  DisruptionBudget, blocker_row, budget_rows, check_pdb_eviction_blockers, is_blocker,
  pdb_selector_matches, pdb_verdict, role_label, rows_of,
}
use nix_packages.Capacity.Quantity.{pdb_blocks}
use nix_packages.Kube.{Pod, active, has_owner, is_instance_manager}

-- The budget covers the Pod. Mirror Pods are not left out; before the switchover, database
-- primaries are.
abbrev pub Obstructs : String → Bool → DisruptionBudget → Pod → Type 0
Obstructs node ignore pdb p =
    (p.spec.node_name ≡ node)
    × (p.metadata.namespace ≡ pdb.metadata.namespace)
    × (active p ≡ true)
    × (has_owner p.metadata "DaemonSet" ≡ false)
    × (is_instance_manager p ≡ false)
    × (pdb_selector_matches p.metadata.labels pdb.selector ≡ true)
    × (ignore ≡ true → text_at role_label p.metadata.labels ≢ "primary")

is_blocker_iff :
    (node : String) (ignore : Bool) (pdb : DisruptionBudget) (p : Pod)
    → (is_blocker node ignore pdb p ≡ true) ↔ Obstructs node ignore pdb p
unfolding is_blocker
is_blocker_iff node ignore pdb p = (
  λ h. ground (
    arith,
    eq_iff p.spec.node_name node,
    eq_iff p.metadata.namespace pdb.metadata.namespace,
    eq_iff (text_at role_label p.metadata.labels) "primary",
  ),
  λ h. ground (
    arith,
    h.6,
    eq_iff p.spec.node_name node,
    eq_iff p.metadata.namespace pdb.metadata.namespace,
    eq_iff (text_at role_label p.metadata.labels) "primary",
  ),
)

-- A budget that allows no disruption obstructs the eviction of some Pod.
pub record Blocker (node : String) (ignore : Bool) (pdbs : List DisruptionBudget) (pods : List Pod)
    : Type 0 where
  pub budget : DisruptionBudget
  pub pod : Pod
  pub listed : Has budget pdbs
  pub runs : Has pod pods
  pub exhausted : le64 1 budget.disruptions_allowed ≡ false
  pub obstructs : Obstructs node ignore budget pod

keep-nil :
    {A : Type 0} (p : A → Bool) (xs : List A) {a : A} → keep p xs ≡ [] → Has a xs → p a ≡ false
unfolding keep
keep-nil p [] h m = absurd m
keep-nil p (x ∷ xs) h (inl e) = rw e (ground arith)
keep-nil p (x ∷ xs) h (inr m) = keep-nil p xs (ground arith) m

keep-cons :
    {A : Type 0} (p : A → Bool) (xs : List A)
    → (keep p xs ≡ []) ⊎ ((a : A) × Has a xs × (p a ≡ true))
unfolding keep
keep-cons p [] = inl refl
keep-cons p (x ∷ xs) = elim (Bool-cases (p x)) [
  | inl e ↦ inr (x, inl refl, e)
  | inr e ↦ elim (keep-cons p xs) [
    | inl none_left ↦ inl (rw e none_left)
    | inr (a, m, h) ↦ inr (a, inr m, h)
  ]
]

map-nil : {A : Type 0} (f : A → String) (xs : List A) → map f xs ≡ [] → xs ≡ []
map-nil f [] h = refl
map-nil f (x ∷ xs) h = cc

module _ (node : String) (ignore : Bool) (pods : List Pod) where
  budget_rows-nil :
      (pdb : DisruptionBudget) (p : Pod)
      → budget_rows node ignore pods pdb ≡ []
      → le64 1 pdb.disruptions_allowed ≡ false
      → Has p pods
      → is_blocker node ignore pdb p ≡ false
  unfolding budget_rows
  budget_rows-nil pdb p h e m =
      keep-nil (is_blocker node ignore pdb) pods (map-nil (blocker_row pdb) _ (rw e at h)) m

  budget_rows-cases :
      (pdb : DisruptionBudget)
      → (budget_rows node ignore pods pdb ≡ [])
        ⊎ ((le64 1 pdb.disruptions_allowed ≡ false)
            × ((p : Pod) × Has p pods × (is_blocker node ignore pdb p ≡ true)))
  unfolding budget_rows
  budget_rows-cases pdb = elim (Bool-cases (le64 1 pdb.disruptions_allowed)) [
    | inl e ↦ inl (rw e)
    | inr e ↦ elim (keep-cons (is_blocker node ignore pdb) pods) [
      | inl nothing ↦ inl (rw (e, nothing))
      | inr found ↦ inr (e, found)
    ]
  ]

  rows_of-nil :
      (pdbs : List DisruptionBudget) (b : Blocker node ignore pdbs pods)
      → rows_of node ignore pods pdbs ≢ []
  unfolding rows_of
  rows_of-nil [] b h = absurd b.listed
  rows_of-nil (pdb ∷ rest) b h =
      let parts = append-nil_parts (budget_rows node ignore pods pdb) _ h in
      elim b.listed [
        | inl e ↦ cc (
          (is_blocker_iff node ignore b.budget b.pod).1 b.obstructs,
          budget_rows-nil b.budget b.pod
              (subst (λ x. budget_rows node ignore pods x ≡ []) (sym e) parts.0) b.exhausted b.runs,
        )
        | inr m ↦
            rows_of-nil rest
              (record {
                budget = b.budget;
                pod = b.pod;
                listed = m;
                runs = b.runs;
                exhausted = b.exhausted;
                obstructs = b.obstructs;
              })
              parts.1
      ]

  rows_of-cases :
      (pdbs : List DisruptionBudget)
      → (rows_of node ignore pods pdbs ≡ []) ⊎ Blocker node ignore pdbs pods
  unfolding rows_of
  rows_of-cases [] = inl refl
  rows_of-cases (pdb ∷ rest) = elim (budget_rows-cases pdb) [
    | inl nothing ↦ elim (rows_of-cases rest) [
      | inl none_left ↦ inl (rw (nothing, none_left))
      | inr b ↦ inr (record {
        budget = b.budget;
        pod = b.pod;
        listed = inr b.listed;
        runs = b.runs;
        exhausted = b.exhausted;
        obstructs = b.obstructs;
      })
    ]
    | inr (e, (p, m, h)) ↦ inr (record {
      budget = pdb;
      pod = p;
      listed = inl refl;
      runs = m;
      exhausted = e;
      obstructs = (is_blocker_iff node ignore pdb p).0 h;
    })
  ]

  pdb_verdict_cases :
      (rows : List String)
      → ((rows ≡ []) × (pdb_verdict node rows ≡ ok tt))
        ⊎ ((rows ≢ []) × (pdb_verdict node rows ≡ err (pdb_blocks node)))
  unfolding pdb_verdict
  pdb_verdict_cases [] = inl (refl, refl)
  pdb_verdict_cases (row ∷ rows) = inr (λ h. cc, refl)

  -- Once both reads succeed, the check passes where no budget that allows no disruption obstructs,
  -- and where one does it fails, naming the node. A budget obstructs by a Pod of its own namespace
  -- on the node that its selector matches, if the Pod is active, not owned by a DaemonSet and no
  -- Longhorn instance manager. Mirror Pods count too, although the drain skips them; where database
  -- primaries are ignored, a Pod with the role primary does not count.
  pub check_pdb_iff :
      (pdbs : List DisruptionBudget)
      → (¬ Blocker node ignore pdbs pods
          → check_pdb_eviction_blockers node ignore (ok pdbs) (ok pods) ≡ ok tt)
        × (Blocker node ignore pdbs pods
            → check_pdb_eviction_blockers node ignore (ok pdbs) (ok pods) ≡ err (pdb_blocks node))
  unfolding check_pdb_eviction_blockers
  check_pdb_iff pdbs = elim (pdb_verdict_cases (rows_of node ignore pods pdbs)) [
    | inl (nothing, passes) ↦ (λ h. passes, λ b. absurd (rows_of-nil pdbs b nothing))
    | inr (some_row, fails) ↦ (
      λ h. elim (rows_of-cases pdbs) [
        | inl nothing ↦ absurd (some_row nothing)
        | inr b ↦ absurd (h b)
      ],
      λ b. fails,
    )
  ]

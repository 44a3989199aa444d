-- ===== src/Operation/Candidates.antt =====
-- The tests of planSwitchovers on a Pod, against a description of each.
use Prim.Native.String.{String}
use mathlib.Core.Bool.{false, true, ◌&&◌}
use mathlib.Core.List.{List, []}
use mathlib.Core.Logic.{inl, inr, ◌↔◌}
use mathlib.Core.Option.{none, some}
use mathlib.Core.Path.{ap, refl, subst, sym, ◌∙◌, ◌≡◌}
use native.Mathlib.Omega.{arith}
use text.Mathlib.Text.{◌==◌}
use text.Mathlib.TextEquality.{eq_iff}
use nix_packages.Base.{
  Dict, Floats, Option-cases, all, any, contains, eq_of_some, is_empty, lookup, text_at, ◌<>◌,
}
use nix_packages.Kube.{Node, Pod, node_is_ready, running_and_ready}
use nix_packages.Operation.Clusters.{CnpgCluster, Standby, caught_up, standby_at, within_lag}
use nix_packages.Operation.NodeIndex.{LastNamed, node_index-LastNamed}
use nix_packages.Operation.Switchovers.{
  healthy_instances, healthy_replica, is_caught_up, node_index, on_taking_node, takes_primary,
}
use nix_packages.Placement.Spread.{is_none}

-- A Pod of the cluster that CloudNativePG lists as healthy: an instance and a replica, not the
-- current primary, not on the target, not being deleted, running, and with every container ready.
abbrev pub IsReplica : String → CnpgCluster → Pod → Type 0
IsReplica target c p =
    ((p.metadata.namespace == c.metadata.namespace) ≡ true)
    × ((text_at "cnpg.io/cluster" p.metadata.labels == c.metadata.name) ≡ true)
    × ((text_at "cnpg.io/podRole" p.metadata.labels == "instance") ≡ true)
    × ((text_at "cnpg.io/instanceRole" p.metadata.labels == "replica") ≡ true)
    × ((p.metadata.name == c.current_primary) ≡ false)
    × ((p.spec.node_name == target) ≡ false)
    × (is_none p.metadata.deletion_timestamp ≡ true)
    × ((p.status.phase == "Running") ≡ true)
    × (is_empty p.status.container_statuses ≡ false)
    × (all (λ s. s.ready) p.status.container_statuses ≡ true)
    × ((names : List String) × (lookup "healthy" c.instances_status ≡ some names)
        × (contains names p.metadata.name ≡ true))

-- The node of the Pod, the last of its name: schedulable, labelled stable, and Ready.
abbrev pub OnTakingNode : List Node → Pod → Type 0
OnTakingNode nodes p =
    (n : Node) × LastNamed p.spec.node_name nodes n
    × (n.spec.unschedulable ≡ false)
    × ((text_at "workload-class" n.metadata.labels == "stable") ≡ true)
    × (any (λ c. c.type == "Ready" && c.status == "True") n.status.conditions ≡ true)

pub healthy_replica_iff :
    (target : String) (c : CnpgCluster) (p : Pod)
    → (healthy_replica target c p ≡ true) ↔ IsReplica target c p
unfolding healthy_replica running_and_ready healthy_instances contains
healthy_replica_iff target c p = elim (Option-cases (lookup "healthy" c.instances_status)) [
  | inl e ↦ (
    λ h. absurd (ground (arith, e, h)),
    λ (a, b, d, f, g, i, j, k, l, m, (names, n, o)). cc (e, n),
  )
  | inr (names, e) ↦ (
    λ h. (
      ground (arith, e, h),
      ground (arith, e, h),
      ground (arith, e, h),
      ground (arith, e, h),
      ground (arith, e, h),
      ground (arith, e, h),
      ground (arith, e, h),
      ground (arith, e, h),
      ground (arith, e, h),
      ground (arith, e, h),
      (names, e, ground (arith, e, h)),
    ),
    λ (a, b, d, f, g, i, j, k, l, m, (others, n, o)).
        let same : others ≡ names = eq_of_some (sym n ∙ e) in
        let listed : contains names p.metadata.name ≡ true =
          subst (λ xs. contains xs p.metadata.name ≡ true) same o in
        ground (arith, e, a, b, d, f, g, i, j, k, l, m, listed),
  )
]

pub on_taking_node_iff :
    (nodes : List Node) (p : Pod)
    → (on_taking_node (node_index [] nodes) p ≡ true) ↔ OnTakingNode nodes p
unfolding on_taking_node takes_primary node_is_ready
on_taking_node_iff nodes p = elim (Option-cases (lookup p.spec.node_name (node_index [] nodes))) [
  | inl e ↦ (
    λ h. absurd (ground (arith, e, h)),
    λ (n, l, a, b, d). cc (e, (node_index-LastNamed p.spec.node_name nodes n).1 l),
  )
  | inr (n, e) ↦ (
    λ h. (
      n,
      (node_index-LastNamed p.spec.node_name nodes n).0 e,
      ground (arith, e, h),
      ground (arith, e, h),
      ground (arith, e, h),
    ),
    λ (m, l, a, b, d).
        let at_m = (node_index-LastNamed p.spec.node_name nodes m).1 l in
        ground (arith, at_m, a, b, d),
  )
]

module _ ⦃F : Floats⦄ where
  -- The primary reports the Pod as streaming, with a known lag from 0 to 16777216 bytes.
  abbrev pub CaughtUp : Dict Standby → Pod → Type 0
  CaughtUp standbys p =
      (lag : F.Float) × (lookup ((p.metadata.namespace <> "/") <> p.metadata.name) standbys
        ≡ some ("streaming", some lag))
      × (F.fle (F.literal "0") lag ≡ true)
      × (F.fle lag (F.literal "16777216") ≡ true)

  lag_cases :
      (s : Standby)
      → (caught_up s ≡ true) ↔ (
          (lag : F.Float) × (s ≡ ("streaming", some lag))
          × (F.fle (F.literal "0") lag ≡ true)
          × (F.fle lag (F.literal "16777216") ≡ true))
  unfolding caught_up within_lag
  lag_cases (state, none) =
      (λ h. absurd (ground (arith, h)), λ (lag, e, a, b). cc (ap (λ s. s.1) e))
  lag_cases (state, some lag) = (
    λ h.
        let named : state ≡ "streaming" = ground (arith, h, eq_iff state "streaming") in
        (lag, ap (λ x. (x, some lag)) named, ground (arith, h), ground (arith, h)),
    λ (other, e, a, b).
        subst (λ (s : Standby). caught_up s ≡ true) (sym e)
          (unfold caught_up within_lag in ground (arith, a, b)),
  )

  standby_at-none :
      (standbys : Dict Standby) (key : String)
      → lookup key standbys ≡ none
      → caught_up (standby_at standbys key) ≡ false
  unfolding standby_at caught_up
  standby_at-none standbys key e = rw (e, standby_at) refl

  standby_at-some :
      (standbys : Dict Standby) (key : String) (s : Standby)
      → lookup key standbys ≡ some s
      → standby_at standbys key ≡ s
  unfolding standby_at
  standby_at-some standbys key s e = rw (e, standby_at) refl

  pub is_caught_up_iff :
      (standbys : Dict Standby) (p : Pod) → (is_caught_up standbys p ≡ true) ↔ CaughtUp standbys p
  unfolding is_caught_up
  is_caught_up_iff standbys p =
      let key = (p.metadata.namespace <> "/") <> p.metadata.name in
      elim (Option-cases (lookup key standbys)) [
        | inl e ↦
            (λ h. absurd (cc (h, standby_at-none standbys key e)), λ (lag, k, a, b). cc (e, k))
        | inr (s, e) ↦
            let l = lag_cases s in
            let found = standby_at-some standbys key s e in
            (
              λ h.
                  let (lag, k, a, b) = l.0 (subst (λ s. caught_up s ≡ true) found h) in
                  (lag, e ∙ ap some k, a, b),
              λ (lag, k, a, b).
                  subst (λ s. caught_up s ≡ true) (sym found)
                    (l.1 (lag, eq_of_some (sym e ∙ k), a, b)),
            )
      ]

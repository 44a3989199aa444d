-- ===== src/Operation/PowerLaws.antt =====
-- What stands in the trace before a power action, by the marks that the start of reboot and of off
-- leaves.
-- A cordon that succeeded, or one that was found.
use mathlib.Core.Bool.{Bool, false, not, true, ◌&&◌, ◌||◌}
use mathlib.Core.List.{List}
use mathlib.Core.Logic.{inl, inr, ◌⊎◌}
use mathlib.Core.Path.{ap, refl, subst, ◌∙◌, ◌≡◌}
use native.Mathlib.Omega.{arith}
use nix_packages.Base.{Bool-cases, Floats, Result, any, eq_of_ok, eqb}
use nix_packages.Operation.ChangeRuns.{Allowed, Prepares}
use nix_packages.Operation.Changes.{
  clear_limit, read_cordon, record_limit, verify_node_is_cordoned, wait_for_node_storage_detach,
}
use nix_packages.Operation.Fence.{found_agent, initialize_fence_gate, verify_fence_preflight}
use nix_packages.Operation.LimitLaws.{any-Permits, anything}
use nix_packages.Operation.Machine.{
  Action, Command, Event, Failure, Ledger, State, agent_seen, cordon_seen, detach_storage, drain,
  logged, modify, not_cordoned, observe, pure, ran, refuse_if, refused, set_ledger, stop_agent,
}
use nix_packages.Operation.Marks.{
  Gives, Gives-after, Gives-before, Gives-if, Gives-run_or, Marked, Step-Marked, gives, ok_parts,
  refused_not,
}
use nix_packages.Operation.Prepare.{check_node_access, drain_node}
use nix_packages.Operation.Runs.{Runs-if, Runs-observe, Runs-pure}
use nix_packages.Operation.Steps.{
  Step, after_restore, flagged, happened, patched, recorded, restored, told,
}
use nix_packages.Operation.WorkloadGates.{node_is_cordoned}
use nix_packages.Operation.World.{World}
use nix_packages.Options.{Options}

abbrev pub marks_cordon : Event → Bool
marks_cordon (ran Command.cordon n) = eqb n 0
marks_cordon (cordon_seen b) = b
marks_cordon e = false

-- The host's storage was detached, its sessions reconciled.
abbrev pub marks_detach : Event → Bool
marks_detach (ran (detach_storage b) n) = b && eqb n 0
marks_detach e = false

abbrev pub marks_drain : Event → Bool
marks_drain (ran (drain t) n) = eqb n 0
marks_drain e = false

-- The agent was stopped, or the node was seen to have none.
abbrev pub marks_agent : Event → Bool
marks_agent (ran stop_agent n) = eqb n 0
marks_agent (agent_seen b) = not b
marks_agent e = false

-- There is an agent, or its absence stands in the trace.
abbrev pub AgentKnown : Ledger → Type 0
AgentKnown l = (l.has_agent ≡ true) ⊎ Marked marks_agent l

abbrev pub DrainKnown : Options → Ledger → Type 0
DrainKnown o l = ((o.skip_drain || o.resume_maintenance) ≡ true) ⊎ Marked marks_drain l

-- What a power action needs of the trace before it.
unfoldable pub is_prepared : Options → List Event → Bool
is_prepared o t =
    any marks_cordon t
    && any marks_detach t
    && any marks_agent t
    && (o.skip_drain || o.resume_maintenance || any marks_drain t)

module _ {p : Event → Bool} {o : Options} where
  pub Step-AgentKnown : (l m : Ledger) → Step p o l m → AgentKnown l → AgentKnown m
  unfolding any found_agent logged record_limit after_restore clear_limit
  Step-AgentKnown l m a (inr k) = inr (Step-Marked marks_agent l m a k)
  Step-AgentKnown l m (told true a c) (inl k) = rw c (inl refl)
  Step-AgentKnown l m (told false a c) (inl k) = rw c (inr refl)
  Step-AgentKnown l m (flagged a b c) (inl k) = inl (c ∙ k)
  Step-AgentKnown l m (happened e a b c) (inl k) = rw c (inl k)
  Step-AgentKnown l m (recorded a b) (inl k) = rw b (inl k)
  Step-AgentKnown l m (patched n a b c) (inl k) = rw c (inl k)
  Step-AgentKnown l m (restored n a b) (inl k) = elim (Bool-cases (eqb n 0)) [
    | inl z ↦ rw (b, after_restore, z) (inl k)
    | inr z ↦ rw (b, after_restore, z) (inl k)
  ]

  pub Step-DrainKnown : (l m : Ledger) → Step p o l m → DrainKnown o l → DrainKnown o m
  Step-DrainKnown l m a (inl k) = inl k
  Step-DrainKnown l m a (inr k) = inr (Step-Marked marks_drain l m a k)

pub weaker :
    {A : Type 0} {m : Action A} {P Q : Ledger → Type 0}
    → Gives m P
    → ((l : Ledger) → P l → Q l)
    → Gives m Q
weaker (gives h) k = gives λ s s' a e. k s'.ledger (h s s' a e)

module _ (o : Options) ⦃F : Floats⦄ (w : World) where
  all-Allowed : Allowed anything o
  all-Allowed = any-Permits.allowed

  all-Prepares : Prepares anything
  all-Prepares c n h = refl

  pub Gives-initialize : Gives (initialize_fence_gate w o) AgentKnown
  unfolding initialize_fence_gate modify set_ledger found_agent logged any pure
  Gives-initialize = Gives-after _ _ λ has.
      Gives-before _ _ anything o Step-AgentKnown
        (gives λ s s' a e.
          let k : AgentKnown (found_agent has s.ledger) = elim (Bool-cases has) [
            | inl b ↦ inl b
            | inr b ↦ inr (rw b refl)
          ] in
          subst (λ (r : Result Failure (Unit {0}) × State). AgentKnown r.1.ledger) e k)
        (λ u. Runs-pure has)

  pub Gives-fence_preflight : Gives (verify_fence_preflight w o) AgentKnown
  unfolding verify_fence_preflight
  Gives-fence_preflight =
      Gives-before _ _ anything o Step-AgentKnown Gives-initialize
        λ has. Runs-if has (Runs-observe _) (Runs-pure tt)

  pub Gives-node_access : Gives (check_node_access w o) AgentKnown
  unfolding check_node_access
  Gives-node_access =
      Gives-before _ _ anything o Step-AgentKnown (Gives-after _ _ λ u. Gives-fence_preflight)
        (λ u. Runs-observe _)

  pub Gives-is_cordoned : Gives (verify_node_is_cordoned w o) (Marked marks_cordon)
  unfolding verify_node_is_cordoned read_cordon refuse_if pure modify set_ledger logged any
  Gives-is_cordoned = gives λ s s' a e.
      let (b, s1, e1, e2) = ok_parts (read_cordon w o) _ s s' a e in
      let (c, s2, e3, e4) = ok_parts (observe (node_is_cordoned w o)) _ s s1 b e1 in
      let (u, s3, e5, e6) =
        ok_parts (modify (set_ledger (logged (cordon_seen c)))) (λ u. pure c) s2 s1 b e4 in
      let (z, same) = refused_not b (refused not_cordoned) s1 s' a e2 in
      let cb : c ≡ b = eq_of_ok (ap (λ r. r.0) e6) in
      let path : set_ledger (logged (cordon_seen c)) s2 ≡ s' =
        ap (λ r. r.1) e5 ∙ ap (λ r. r.1) e6 ∙ same in
      subst (λ s. Marked marks_cordon s.ledger) path (ground (arith, cb, z))

  pub Gives-drain : Gives (drain_node w o) (DrainKnown o)
  unfolding drain_node
  Gives-drain =
      Gives-if o.skip_drain (λ e. gives λ s s' a h. inl (ground (arith, e)))
        (λ e. Gives-after _ _ λ t.
          Gives-before _ _ anything o Step-DrainKnown
            (Gives-before _ _ anything o Step-DrainKnown
              (weaker (Gives-run_or w o marks_drain _ _ (λ n z. z)) (λ l k. inr k))
              (λ u. Runs-observe _))
            (λ u. Runs-observe _))

  module _ (live : o.check_only ≡ false) where
    pub Gives-detach : Gives (wait_for_node_storage_detach w o) (Marked marks_detach)
    unfolding wait_for_node_storage_detach
    Gives-detach =
        Gives-after _ _ λ u. Gives-run_or w o marks_detach _ _ (λ n z. ground (arith, live, z))

    -- The three marks that both ways of starting leave.
    abbrev pub Started : Ledger → Type 0
    Started l = Marked marks_cordon l × Marked marks_detach l × DrainKnown o l

    pub Step-Started : {p : Event → Bool} (l m : Ledger) → Step p o l m → Started l → Started m
    Step-Started l m a k = (
      Step-Marked marks_cordon l m a k.0,
      Step-Marked marks_detach l m a k.1,
      Step-DrainKnown l m a k.2,
    )

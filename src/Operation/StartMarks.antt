-- ===== src/Operation/StartMarks.antt =====
-- The start of reboot and of off: prepareNodeForDisruption, then stopFenceAgent. Where both
-- succeed, the trace is prepared for the power action.
use mathlib.Core.Bool.{Bool, false, not, true, ◌||◌}
use mathlib.Core.Logic.{inl, inr}
use mathlib.Core.Path.{ap, refl, subst, sym, ◌∙◌, ◌≡◌}
use native.Mathlib.Omega.{arith}
use nix_packages.Base.{Bool-cases, Floats, Result, eq_of_ok, err, if◌then◌else◌, ok}
use nix_packages.Operation.ChangeRuns.{Allowed, Prepares, Runs-after_stop, Runs-stop_fence_agent}
use nix_packages.Operation.Changes.{run_command, run_or}
use nix_packages.Operation.Fence.{
  keeping_cordon, keeping_cordon_at, stop_fence_agent, stop_running_agent,
}
use nix_packages.Operation.LimitLaws.{any-Permits, anything}
use nix_packages.Operation.Machine.{
  Failure, Ledger, State, agent_stop, fail, gets, pure, stop_agent, uncordon, ◌>>=◌,
}
use nix_packages.Operation.Marks.{
  Gives, Gives-after, Gives-before, Gives-run_or, Marked, Step-Marked, given, gives, ok_parts,
}
use nix_packages.Operation.PowerLaws.{
  AgentKnown, DrainKnown, Started, Step-Started, is_prepared, marks_agent, marks_cordon,
  marks_detach,
}
use nix_packages.Operation.Prepare.{
  lift_cordon, named_kept, prepare_node_for_disruption, prepare_or_release, release_cordon,
  released_at,
}
use nix_packages.Operation.PrepareMarks.{prepare-AgentKnown, prepare-Started}
use nix_packages.Operation.Runs.{Runs-bind, Runs-observe, Runs-then, Steps-of}
use nix_packages.Operation.Steps.{Step, Steps, Steps-keep}
use nix_packages.Operation.World.{World}
use nix_packages.Options.{Options}

prepared_by :
    (o : Options) (l : Ledger)
    → Marked marks_cordon l
    → Marked marks_detach l
    → Marked marks_agent l
    → DrainKnown o l
    → is_prepared o l.trace ≡ true
unfolding is_prepared
prepared_by o l a b c (inl d) = ground (arith, a, b, c, d)
prepared_by o l a b c (inr d) = ground (arith, a, b, c, d)

module _ (o : Options) ⦃F : Floats⦄ (w : World) (live : o.check_only ≡ false) where
  k : Allowed anything o
  k = any-Permits.allowed

  prepares : Prepares anything
  prepares c n h = refl

  release_fails :
      (f : Failure) (s s' : State) (a : Unit {0}) → release_cordon w o f s ≡ (ok a, s') → ⊥
  unfolding release_cordon lift_cordon fail
  release_fails f s s' a h = elim (Bool-cases (w.interrupted_at s.notes.moment)) [
    | inl e ↦
        let q : release_cordon w o f s ≡ (err f, s) = rw (e, release_cordon) refl in
        cc (ap (λ r. r.0) (sym q ∙ h))
    | inr e ↦ elim (Bool-cases (not s.ledger.releasable || o.leave_cordoned_requested)) [
      | inl z ↦
          let q : release_cordon w o f s ≡ (err (named_kept s.ledger f), s) =
            rw (e, z, release_cordon) refl in
          cc (ap (λ r. r.0) (sym q ∙ h))
      | inr z ↦
          let q : release_cordon w o f s ≡ lift_cordon w o f s = rw (e, z, release_cordon) refl in
          let (n, s1, e1, e2) = ok_parts (run_command w o uncordon) _ s s' a (sym q ∙ h) in
          cc (ap (λ r. r.0) e2)
    ]
  ]

  -- releaseCordon never makes a failed preparation a success.
  released_ok :
      (r : Result Failure (Unit {0}) × State) (s' : State) (a : Unit {0})
      → released_at w o r ≡ (ok a, s')
      → r ≡ (ok a, s')
  unfolding released_at
  released_ok (ok u, s) s' a h = h
  released_ok (err f, s) s' a h = absurd (release_fails f s s' a h)

  kept_ok :
      {A : Type 0} (r : Result Failure A × State) (s' : State) (a : A)
      → keeping_cordon_at r ≡ (ok a, s')
      → r ≡ (ok a, s')
  unfolding keeping_cordon_at
  kept_ok (ok u, s) s' a h = h
  kept_ok (err f, s) s' a h = absurd (cc (ap (λ r. r.0) h))

  agent-kept : (l m : Ledger) → Step anything o l m → Marked marks_agent l → Marked marks_agent m
  agent-kept l m a h = Step-Marked marks_agent l m a h

  stop_command-Agent :
      Gives (keeping_cordon (run_or w o stop_agent agent_stop)) (Marked marks_agent)
  unfolding keeping_cordon
  stop_command-Agent = gives λ s s' a e.
      given (Gives-run_or w o marks_agent stop_agent agent_stop (λ n z. z)) s s' a
        (kept_ok (run_or w o stop_agent agent_stop s) s' a e)

  stop_running-Agent : Gives (stop_running_agent w o) (Marked marks_agent)
  unfolding stop_running_agent
  stop_running-Agent = Gives-after _ _ λ d. Gives-after _ _ λ u.
      Gives-before _ _ anything o agent-kept stop_command-Agent
        λ v. Runs-then (Runs-observe _) (Runs-bind (Runs-observe _) (Runs-after_stop w prepares))

  stopped_at :
      (b : Bool) (s s' : State) (a : Unit {0})
      → (if b then stop_running_agent w o else pure tt) s ≡ (ok a, s')
      → (b ≡ false → Marked marks_agent s.ledger)
      → Marked marks_agent s'.ledger
  unfolding pure
  stopped_at true s s' a e h = given stop_running-Agent s s' a e
  stopped_at false s s' a e h = subst (λ r. Marked marks_agent r.1.ledger) e (h refl)

  no_agent-Marked : (l : Ledger) → AgentKnown l → l.has_agent ≡ false → Marked marks_agent l
  no_agent-Marked l (inl k) e = absurd (cc)
  no_agent-Marked l (inr k) e = k

  stop_agent-Marked :
      (s s' : State) (a : Unit {0})
      → AgentKnown s.ledger
      → stop_fence_agent w o s ≡ (ok a, s')
      → Marked marks_agent s'.ledger
  unfolding stop_fence_agent gets
  stop_agent-Marked s s' a h e =
      let (b, s1, e1, e2) = ok_parts (gets (λ s. s.ledger.has_agent)) _ s s' a e in
      let same : s ≡ s1 = ap (λ r. r.1) e1 in
      let known : s.ledger.has_agent ≡ b = eq_of_ok (ap (λ r. r.0) e1) in
      stopped_at b s1 s' a e2
        λ z. subst (λ s. Marked marks_agent s.ledger) same (no_agent-Marked s.ledger h (known ∙ z))

  pub start_ok-Prepared :
      (s s' : State) (a : Unit {0})
      → (prepare_or_release w o >>= λ _. stop_fence_agent w o) s ≡ (ok a, s')
      → is_prepared o s'.ledger.trace ≡ true
  unfolding is_prepared prepare_or_release
  start_ok-Prepared s s' a e =
      let (b, s1, e1, e2) = ok_parts (prepare_or_release w o) _ s s' a e in
      let e3 = released_ok (prepare_node_for_disruption w o s) s1 b e1 in
      let started = given (prepare-Started o w live) s s1 b e3 in
      let agent = stop_agent-Marked s1 s' a (given (prepare-AgentKnown o w live) s s1 b e3) e2 in
      let steps : Steps anything o s1.ledger s'.ledger =
        subst (λ r. Steps anything o s1.ledger r.1.ledger) e2
          (Steps-of (Runs-stop_fence_agent w prepares k) s1) in
      let later = Steps-keep (Started o w live) (Step-Started o w live) steps started in
      prepared_by o s'.ledger later.0 later.1 agent later.2

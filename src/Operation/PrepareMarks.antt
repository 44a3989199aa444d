-- ===== src/Operation/PrepareMarks.antt =====
-- What a successful prepareNodeForDisruption leaves in the trace.
use mathlib.Core.Bool.{false, true}
use mathlib.Core.Logic.{inl}
use mathlib.Core.Path.{refl, ◌≡◌}
use native.Mathlib.Omega.{arith}
use nix_packages.Base.{Floats}
use nix_packages.Operation.ChangeRuns.{Allowed, Prepares, Runs-storage_detach}
use nix_packages.Operation.LifeRuns.{Runs-after_access, Runs-drain_node, Runs-past_release}
use nix_packages.Operation.LimitLaws.{any-Permits, anything}
use nix_packages.Operation.Machine.{Action, Ledger}
use nix_packages.Operation.Marks.{
  Gives, Gives-after, Gives-before, Gives-if, Gives-run_or, Marked, Step-Marked, gives,
}
use nix_packages.Operation.PowerLaws.{
  AgentKnown, DrainKnown, Gives-detach, Gives-drain, Gives-is_cordoned, Gives-node_access, Started,
  Step-AgentKnown, Step-DrainKnown, Step-Started, marks_cordon, marks_detach, weaker,
}
use nix_packages.Operation.Prepare.{
  cordon_held_flag, cordon_node, own_cordon_flags, prepare_node_for_disruption, start_fresh,
  start_resumed, verify_resumed_maintenance_state,
}
use nix_packages.Operation.Runs.{Runs-modify, Runs-observe}
use nix_packages.Operation.Steps.{Step, flagged}
use nix_packages.Operation.World.{World}
use nix_packages.Options.{Options}

both :
    {A : Type 0} {m : Action A} {P Q : Ledger → Type 0}
    → Gives m P
    → Gives m Q
    → Gives m (λ l. P l × Q l)
both (gives h) (gives k) = gives λ s s' a e. (h s s' a e, k s s' a e)

module _ (o : Options) ⦃F : Floats⦄ (w : World) (live : o.check_only ≡ false) where
  k : Allowed anything o
  k = any-Permits.allowed

  prepares : Prepares anything
  prepares c n h = refl

  cordon-kept : (l m : Ledger) → Step anything o l m → Marked marks_cordon l → Marked marks_cordon m
  cordon-kept l m a h = Step-Marked marks_cordon l m a h

  detach-kept : (l m : Ledger) → Step anything o l m → Marked marks_detach l → Marked marks_detach m
  detach-kept l m a h = Step-Marked marks_detach l m a h

  resumed-Cordon : Gives (verify_resumed_maintenance_state w o) (Marked marks_cordon)
  unfolding verify_resumed_maintenance_state
  resumed-Cordon =
      Gives-before _ _ anything o cordon-kept
        (Gives-before _ _ anything o cordon-kept
          (Gives-before _ _ anything o cordon-kept
            (Gives-before _ _ anything o cordon-kept
              (Gives-before _ _ anything o cordon-kept (Gives-is_cordoned o w) (λ u.
                Runs-modify cordon_held_flag
                  λ l. unfold cordon_held_flag in flagged refl refl refl))
              (λ u. Runs-observe _))
            (λ u. Runs-storage_detach w k))
          (λ u. Runs-observe _))
        (λ u. Runs-observe _)

  resumed-Detach : Gives (verify_resumed_maintenance_state w o) (Marked marks_detach)
  unfolding verify_resumed_maintenance_state
  resumed-Detach =
      Gives-before _ _ anything o detach-kept
        (Gives-before _ _ anything o detach-kept (Gives-after _ _ λ u. Gives-detach o w live)
          (λ u. Runs-observe _))
        (λ u. Runs-observe _)

  start_resumed-Started : o.resume_maintenance ≡ true → Gives (start_resumed w o) (Started o w live)
  unfolding start_resumed
  start_resumed-Started r =
      Gives-before _ _ anything o (Step-Started o w live)
        (weaker (both resumed-Cordon resumed-Detach) (λ l h. (h.0, h.1, inl (ground (arith, r)))))
        (λ u. Runs-observe _)

  cordon_node-Cordon : Gives (cordon_node w o) (Marked marks_cordon)
  unfolding cordon_node
  cordon_node-Cordon =
      Gives-before _ _ anything o cordon-kept (Gives-run_or w o marks_cordon _ _ (λ n z. z))
        (λ u. Runs-modify own_cordon_flags λ l. unfold own_cordon_flags in flagged refl refl refl)

  fresh-Cordon : Gives (start_fresh w o) (Marked marks_cordon)
  unfolding start_fresh
  fresh-Cordon =
      Gives-before _ _ anything o cordon-kept
        (Gives-before _ _ anything o cordon-kept
          (Gives-before _ _ anything o cordon-kept
            (Gives-before _ _ anything o cordon-kept (Gives-after _ _ λ u. cordon_node-Cordon)
              (λ u. Runs-drain_node w k prepares))
            (λ u. Runs-past_release w k prepares))
          (λ u. Runs-storage_detach w k))
        (λ u. Runs-observe _)

  fresh-Drain : Gives (start_fresh w o) (DrainKnown o)
  unfolding start_fresh
  fresh-Drain =
      Gives-before _ _ anything o Step-DrainKnown
        (Gives-before _ _ anything o Step-DrainKnown
          (Gives-before _ _ anything o Step-DrainKnown (Gives-after _ _ λ u. Gives-drain o w)
            (λ u. Runs-past_release w k prepares))
          (λ u. Runs-storage_detach w k))
        (λ u. Runs-observe _)

  fresh-Detach : Gives (start_fresh w o) (Marked marks_detach)
  unfolding start_fresh
  fresh-Detach =
      Gives-before _ _ anything o detach-kept (Gives-after _ _ λ u. Gives-detach o w live)
        (λ u. Runs-observe _)

  start_fresh-Started : Gives (start_fresh w o) (Started o w live)
  start_fresh-Started =
      weaker (both fresh-Cordon (both fresh-Detach fresh-Drain)) (λ l h. (h.0, h.1.0, h.1.1))

  pub prepare-Started : Gives (prepare_node_for_disruption w o) (Started o w live)
  unfolding prepare_node_for_disruption
  prepare-Started =
      Gives-after _ _
        λ u. Gives-if o.resume_maintenance start_resumed-Started (λ e. start_fresh-Started)

  pub prepare-AgentKnown : Gives (prepare_node_for_disruption w o) AgentKnown
  unfolding prepare_node_for_disruption
  prepare-AgentKnown =
      Gives-before _ _ anything o Step-AgentKnown (Gives-node_access o w)
        λ u. Runs-after_access w k prepares

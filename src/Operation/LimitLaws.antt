-- ===== src/Operation/LimitLaws.antt =====
-- The rebuild limit over a whole run: what the trace says of it, against the recorded value.
-- The last patch of the setting, if there was any, did not put "0" back with success.
use Prim.Native.Nat.{ℕ}
use mathlib.Core.Bool.{Bool, false, not, true, ◌&&◌}
use mathlib.Core.List.{List, [], ◌∷◌}
use mathlib.Core.Logic.{inl, inr, ◌⊎◌}
use mathlib.Core.Path.{ap, refl, sym, ◌∙◌, ◌≡◌}
use native.Mathlib.Omega.{arith}
use text.Mathlib.Text.{◌==◌}
use text.Mathlib.TextEquality.{eq_iff}
use nix_packages.Base.{Bool-cases, Floats, Result, eqb, err, ok}
use nix_packages.Operation.ChangeRuns.{restore_status}
use nix_packages.Operation.Changes.{
  clear_limit, ran_command, record_limit, restore_rebuild_limit, run_always,
}
use nix_packages.Operation.Fence.{found_agent}
use nix_packages.Operation.Lifecycle.{cleaned, exit_of, new_state, run, run_operation}
use nix_packages.Operation.Machine.{
  Command, Event, Failure, Ledger, State, agent_seen, annotate_baseline, bind_at, cordon_seen,
  detach_storage, drain, fail, gets, logged, modify, patch_rebuild_limit, power_off_host, promote,
  pure, ran, reboot_host, rebuild_limit, refused, remove_baseline, set_ledger, stop_agent, uncordon,
  ◌>>=◌,
}
use nix_packages.Operation.RunSteps.{Permits, run-Steps}
use nix_packages.Operation.Steps.{
  Step, Steps-keep, after_restore, flagged, happened, is_plain, patched, recorded, restored, told,
}
use nix_packages.Operation.World.{World}
use nix_packages.Options.{Options}

unfoldable pub limit_open : List Event → Bool
limit_open [] = false
limit_open (ran (patch_rebuild_limit v) n ∷ t) = not (v == "0" && eqb n 0)
limit_open (agent_seen b ∷ t) = limit_open t
limit_open (cordon_seen b ∷ t) = limit_open t
limit_open (ran (drain a) n ∷ t) = limit_open t
limit_open (ran (promote a) n ∷ t) = limit_open t
limit_open (ran (annotate_baseline a) n ∷ t) = limit_open t
limit_open (ran (detach_storage b) n ∷ t) = limit_open t
limit_open (ran Command.cordon n ∷ t) = limit_open t
limit_open (ran uncordon n ∷ t) = limit_open t
limit_open (ran remove_baseline n ∷ t) = limit_open t
limit_open (ran stop_agent n ∷ t) = limit_open t
limit_open (ran reboot_host n ∷ t) = limit_open t
limit_open (ran power_off_host n ∷ t) = limit_open t

limit_open-plain :
    (e : Event) (t : List Event) → is_plain e ≡ true → limit_open (e ∷ t) ≡ limit_open t
unfolding limit_open
limit_open-plain (agent_seen b) t h = refl
limit_open-plain (cordon_seen b) t h = refl
limit_open-plain (ran (patch_rebuild_limit v) n) t h = cc
limit_open-plain (ran (drain a) n) t h = refl
limit_open-plain (ran (promote a) n) t h = refl
limit_open-plain (ran (annotate_baseline a) n) t h = refl
limit_open-plain (ran (detach_storage b) n) t h = refl
limit_open-plain (ran Command.cordon n) t h = refl
limit_open-plain (ran uncordon n) t h = refl
limit_open-plain (ran remove_baseline n) t h = refl
limit_open-plain (ran stop_agent n) t h = refl
limit_open-plain (ran reboot_host n) t h = refl
limit_open-plain (ran power_off_host n) t h = refl

-- Nothing is recorded and the limit is as it was, or "0" is recorded.
abbrev pub LimitKnown : Ledger → Type 0
LimitKnown l =
    ((l.rebuild_limit_original ≡ "") × (limit_open l.trace ≡ false))
    ⊎ (l.rebuild_limit_original ≡ "0")

restored-LimitKnown :
    (n : ℕ) (l : Ledger) (b : Bool)
    → eqb n 0 ≡ b
    → l.rebuild_limit_original ≡ "0"
    → LimitKnown (after_restore n l)
unfolding after_restore clear_limit logged limit_open
restored-LimitKnown n l true e k = rw (e, after_restore) (inl (refl, rw (k, e) refl))
restored-LimitKnown n l false e k = rw (e, after_restore) (inr k)

Step-LimitKnown :
    {p : Event → Bool} {o : Options} (l m : Ledger) → Step p o l m → LimitKnown l → LimitKnown m
unfolding logged found_agent record_limit limit_open
Step-LimitKnown l m (happened e a b c) (inl k) =
    rw c (inl (k.0, limit_open-plain e l.trace a ∙ k.1))
Step-LimitKnown l m (happened e a b c) (inr k) = rw c (inr k)
Step-LimitKnown l m (told b a c) (inl k) = rw c (inl (k.0, k.1))
Step-LimitKnown l m (told b a c) (inr k) = rw c (inr k)
Step-LimitKnown l m (flagged a b c) (inl k) = inl (b ∙ k.0, ap limit_open a ∙ k.1)
Step-LimitKnown l m (flagged a b c) (inr k) = inr (b ∙ k)
Step-LimitKnown l m (recorded a b) k = rw b (inr refl)
Step-LimitKnown l m (patched n a b c) k = rw c (inr b)
Step-LimitKnown l m (restored n a b) (inl k) =
    let e : (l.rebuild_limit_original == "") ≡ true = ap (λ x. x == "") k.0 in absurd (cc)
Step-LimitKnown l m (restored n a b) (inr k) = rw b (restored-LimitKnown n l (eqb n 0) refl k)

abbrev pub anything : Event → Bool
anything e = true

pub any-Permits : {o : Options} → Permits anything o
any-Permits = record {
  allowed = record { told_agent = λ b. refl; told_cordon = λ b. refl; detach = λ n. refl };
  prepares = λ live c n h. refl;
  lifts = λ live e n. refl;
  finishes = λ live e n. refl;
  finishes_on = λ live e n. refl;
  reboots = λ live n. refl;
  powers_off = λ live n. refl;
}

module _ ⦃F : Floats⦄ (w : World) (o : Options) where
  -- Where the restore succeeds, nothing is recorded any more.
  restore-clears :
      (s : State)
      → ((restore_rebuild_limit w o s).0 ≡ ok tt)
      → (restore_rebuild_limit w o s).1.ledger.rebuild_limit_original ≡ ""
  unfolding restore_rebuild_limit ◌>>=◌ bind_at gets run_always ran_command modify set_ledger
      clear_limit fail pure
  restore-clears s h = elim (Bool-cases (s.ledger.rebuild_limit_original == "")) [
    | inl e ↦ rw e (ground (arith, eq_iff s.ledger.rebuild_limit_original ""))
    | inr e ↦ elim (Bool-cases (eqb (restore_status w s) 0)) [
      | inl z ↦ rw (e, z) refl
      | inr z ↦
          let k : ◌≡◌ {A = Result Failure (Unit {0})} (err (refused rebuild_limit)) (ok tt) =
            rw (e, z) at h in
          absurd (cc)
    ]
  ]

  cleaned_ok :
      (n : ℕ) (r : Result Failure (Unit {0}) × State)
      → (cleaned w o n r).0 ≡ 0
      → (r.0 ≡ ok tt) × ((cleaned w o n r).1 ≡ r.1)
  unfolding cleaned
  cleaned_ok n (ok u, s) h = (refl, refl)
  cleaned_ok n (err e, s) h = absurd (ground arith)

  limit_known : (time : ℕ) → LimitKnown (run_operation w o (new_state time)).1.ledger
  unfolding new_state limit_open
  limit_known time =
      Steps-keep LimitKnown Step-LimitKnown (run-Steps w any-Permits (new_state time))
        (inl (refl, refl))

  -- A run that exits with status 0 leaves Longhorn's rebuild limit closed again: its last patch of
  -- the setting, if it made any, put "0" back with success, and no value is left recorded.
  pub run-ClosesLimit :
      (time : ℕ)
      → (run_operation w o (new_state time)).0 ≡ 0
      → (limit_open (run_operation w o (new_state time)).1.ledger.trace ≡ false)
        × ((run_operation w o (new_state time)).1.ledger.rebuild_limit_original ≡ "")
  unfolding run_operation
  run-ClosesLimit time h =
      let s' : State = (exit_of w o (run w o (new_state time))).1 in
      let n : ℕ = (exit_of w o (run w o (new_state time))).0 in
      let c = cleaned_ok n (restore_rebuild_limit w o s') h in
      let e : (run_operation w o (new_state time)).1.ledger.rebuild_limit_original ≡ "" =
        ap (λ s. s.ledger.rebuild_limit_original) c.1 ∙ restore-clears s' c.0 in
      elim (limit_known time) [
        | inl k ↦ (k.1, e)
        | inr k ↦ let f : ◌≡◌ {A = Bool} true false = ap (λ x. x == "0") (sym k ∙ e) in absurd (cc)
      ]

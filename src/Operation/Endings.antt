-- ===== src/Operation/Endings.antt =====
-- The loops of the run: each ends with a result of its own, within the fuel that it is given.
use Prim.Native.Nat.{suc, zero, ℕ, ◌*◌, ◌+◌, ◌/◌, ◌<◌}
use Prim.Native.String.{String}
use mathlib.Core.Bool.{Bool, false, true}
use mathlib.Core.List.{List, []}
use mathlib.Core.Logic.{inl, inr}
use mathlib.Core.Option.{Option, none, some}
use mathlib.Core.Path.{refl, subst, ◌≡◌}
use native.Mathlib.Omega.{arith}
use nix_packages.Base.{
  Bool-cases, Floats, Result, add64, eq_of_ok, eqb, err, if◌then◌else◌, le64, ok,
}
use nix_packages.Capacity.Quantity.{CapacityError}
use nix_packages.Kube.{Controller, Workload}
use nix_packages.Operation.Host.{poll_seconds, up_attempts, up_round, wait_for_ssh_up}
use nix_packages.Operation.Machine.{
  Failure, Gate, Notes, Reason, bind_at, capacity, fail, gets, interrupted, lift, pure,
  ready_floor_missed, refuse_if, refused, ssh_missing, ◌>>=◌,
}
use nix_packages.Operation.ReadyFloorGate.{
  ready_floor_round, ready_replicas_of, wait_for_controller_ready_floor, watch_unschedulable,
}
use nix_packages.Operation.Waits.{
  Continues, Ended, Ends, Ends-bind, Ends-pure, continues, continues_settled, ended, ends,
  poll_until-Ends, ran_out,
}
use nix_packages.Operation.World.{
  Probe, Reads, Verdict, World, ask, deadline_after, not_yet, pause, probe, read_at, settled,
  ssh_up, ticked,
}
use nix_packages.Options.{Options}

pub Ends-fail :
    {A : Type 0} (e : Failure) → ran_out {A = A} (err e) ≡ false → Ends (fail {S = Notes} {A = A} e)
unfolding fail
Ends-fail e h = ends λ n. (omega arith, h)

Ends-refuse_if : (b : Bool) (r : Reason) → Ends (refuse_if {S = Notes} b r)
unfolding refuse_if ran_out
Ends-refuse_if b r = ends λ n. (omega arith, ground arith)

Ends-gets : {A : Type 0} (f : Notes → A) → Ends (gets f)
unfolding gets ran_out
Ends-gets f = ends λ n. (omega arith, refl)

Ends-if : {A : Type 0} {x y : Gate A} (b : Bool) → Ends x → Ends y → Ends (if b then x else y)
Ends-if true h k = h
Ends-if false h k = k

Ends-test :
    {A : Type 0} {x y : Gate A} (b : Bool)
    → (b ≡ true → Ends x)
    → (b ≡ false → Ends y)
    → Ends (if b then x else y)
Ends-test true h k = h refl
Ends-test false h k = k refl

Ends-lift : {A : Type 0} (r : Result CapacityError A) → Ends (lift {S = Notes} r)
unfolding lift ran_out
Ends-lift (ok a) = Ends-pure a
Ends-lift (err e) = Ends-fail (capacity e) refl

module _ (w : World) where
  Ends-read_at : {A : Type 0} (f : Reads → A) → Ends (read_at w f)
  unfolding read_at ticked ran_out
  Ends-read_at f = ends λ n. elim (Bool-cases (w.interrupted_at n.moment)) [
    | inl e ↦ rw (e, read_at) (omega arith, refl)
    | inr e ↦ rw (e, read_at) (omega arith, refl)
  ]

  pub Ends-ask : {A : Type 0} (f : Reads → Result CapacityError A) → Ends (ask w f)
  unfolding ask ran_out
  Ends-ask {A} f = Ends-bind (Ends-read_at f) λ r.
      elim r
        as (λ (r : Option (Result CapacityError A)).
          Ends (elim r [ none ↦ fail {S = Notes} {A = A} interrupted | some a ↦ lift a ])) [
            | none ↦ Ends-fail interrupted refl
            | some a ↦ Ends-lift a
          ]

  Ends-probe : (p : Probe) → Ends (probe w p)
  unfolding probe ticked ran_out
  Ends-probe p = ends λ n. elim (Bool-cases (w.interrupted_at n.moment)) [
    | inl e ↦ rw (e, probe) (omega arith, refl)
    | inr e ↦ rw (e, probe) (omega arith, refl)
  ]

  Ends-pause : Ends (pause w)
  unfolding pause ticked ran_out
  Ends-pause = ends λ n. elim (Bool-cases (w.interrupted_at n.moment)) [
    | inl e ↦ rw (e, pause) (omega arith, refl)
    | inr e ↦ rw (e, pause) (omega arith, refl)
  ]

  module _ (o : Options) where
    -- The last timeout that the sum reaches without a wrap is 9223372036854775805.
    up_attempts-Ends :
        (fuel rounds elapsed : ℕ)
        → elapsed ≡ rounds * poll_seconds
        → elapsed < 9223372036854775801
        → o.ssh_timeout_seconds < 9223372036854775806
        → o.ssh_timeout_seconds < elapsed + suc fuel * poll_seconds
        → Ends (up_attempts w o (suc fuel) elapsed)
    unfolding up_attempts up_round ran_out le64 add64
    up_attempts-Ends zero rounds elapsed e b s h = Ends-bind (Ends-probe ssh_up) λ status.
        Ends-if (eqb status 0) (Ends-pure tt) (
          Ends-test (le64 o.ssh_timeout_seconds (add64 elapsed poll_seconds))
            (λ e. Ends-fail (refused ssh_missing) refl) (λ e. absurd (ground arith)))
    up_attempts-Ends (suc fuel) rounds elapsed e b s h = Ends-bind (Ends-probe ssh_up) λ status.
        Ends-if (eqb status 0) (Ends-pure tt) (
          Ends-test (le64 o.ssh_timeout_seconds (add64 elapsed poll_seconds))
            (λ e. Ends-fail (refused ssh_missing) refl)
            (λ early. Ends-bind Ends-pause λ u.
              up_attempts-Ends fuel (suc rounds) (add64 elapsed poll_seconds) (ground arith)
                (ground arith) s (ground arith)))

    -- For every --ssh-timeout up to 9223372036854775805 seconds the wait for SSH never runs out of
    -- the rounds that the model gives it, whatever the answers are: it ends with success, with the
    -- timeout's error or with an interrupt, and not before its start.
    pub wait_for_ssh_up-Ended :
        o.ssh_timeout_seconds < 9223372036854775806
        → (n : Notes) → Ended n.time (wait_for_ssh_up w o n)
    unfolding wait_for_ssh_up
    wait_for_ssh_up-Ended s n =
        let e : o.ssh_timeout_seconds / poll_seconds + 1
            ≡ suc (o.ssh_timeout_seconds / poll_seconds) =
          omega arith in
        rw e (
          ended
            (up_attempts-Ends (o.ssh_timeout_seconds / poll_seconds) 0 0 refl (omega arith) s
              (omega arith))
            n)

  module _ ⦃F : Floats⦄ (o : Options) (x : Workload) (minimum : ℕ) where
    watch-Ends :
        (found : Option Controller) (known : List (String × ℕ))
        → Ends (watch_unschedulable w o x minimum found known)
    unfolding watch_unschedulable
    watch-Ends none known = Ends-pure known
    watch-Ends (some c) known =
        Ends-bind (Ends-ask _)
          λ found. Ends-bind (Ends-gets _) λ now. Ends-bind (Ends-refuse_if _ _) λ u. Ends-pure _

    judged-Continues :
        (b : Bool) (found : Option Controller) (known : List (String × ℕ))
        → Continues {A = Unit {0}} (
            if b
            then settled tt
            else not_yet
                (refused ready_floor_missed)
                (watch_unschedulable w o x minimum found known))
    unfolding ran_out
    judged-Continues true found known = continues_settled tt
    judged-Continues false found known = continues _ _ refl (watch-Ends found known)

    round-Ends : (known : List (String × ℕ)) → Ends (ready_floor_round w o x minimum known)
    unfolding ready_floor_round
    round-Ends known = Ends-bind (Ends-ask _) λ found. Ends-pure _

    pure_result :
        (r : Result Failure (Option Controller) × Notes) (known : List (String × ℕ))
        (v : Verdict (Unit {0}) (List (String × ℕ)))
        → (bind_at r (λ found. pure (
            if le64 minimum (ready_replicas_of found)
            then settled tt
            else not_yet
                (refused ready_floor_missed)
                (watch_unschedulable w o x minimum found known)))).0
          ≡ ok v
        → Continues v
    unfolding bind_at pure
    pure_result (ok found, n) known v e =
        subst (λ (v : Verdict (Unit {0}) (List (String × ℕ))). Continues v) (eq_of_ok e)
          (judged-Continues (le64 minimum (ready_replicas_of found)) found known)
    pure_result (err f, n) known v e = absurd (cc)

    round-Continues :
        (known : List (String × ℕ)) (n : Notes) (v : Verdict (Unit {0}) (List (String × ℕ)))
        → (ready_floor_round w o x minimum known n).0 ≡ ok v
        → Continues v
    unfolding ready_floor_round ◌>>=◌
    round-Continues known n v e = pure_result (ask w _ n) known v e

    -- The wait for a displaced controller ends within its fuel, for every timeout, every required
    -- minimum and every sequence of answers: with success, with an error of its own or with an
    -- interrupt. Meanwhile the clock is not turned back.
    pub wait_for_ready_floor-Ended :
        (n : Notes) → Ended n.time (wait_for_controller_ready_floor w o x minimum n)
    unfolding wait_for_controller_ready_floor deadline_after
    wait_for_ready_floor-Ended n =
        ended
          (Ends-bind (Ends-gets _) λ deadline.
            poll_until-Ends w (ready_floor_round w o x minimum) deadline round-Ends round-Continues
              [])
          n

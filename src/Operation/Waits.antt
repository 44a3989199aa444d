-- ===== src/Operation/Waits.antt =====
-- The polling loops against their fuel.
use Prim.Native.Nat.{suc, zero, ℕ, ◌*◌, ◌+◌, ◌-◌, ◌/◌, ◌<◌, ◌≤◌}
use mathlib.Core.Bool.{Bool, false, true}
use mathlib.Core.Logic.{inl, inr, ◌⊎◌}
use mathlib.Core.Path.{refl, ◌≡◌}
use native.Mathlib.Omega.{arith}
use nix_packages.Base.{Bool-cases, Result, err, leb, leb-false→lt, ok}
use nix_packages.Operation.Machine.{
  Failure, Gate, Notes, bind_at, capacity, could_not_uncordon, fail, gets, interrupted, kept_cordon,
  out_of_fuel, pure, refused, was_uncordoned, ◌>>=◌,
}
use nix_packages.Operation.World.{
  Verdict, World, after_check, expired, not_yet, pause, poll, poll_rounds, poll_until, settled,
  ticked,
}

pub is_fuel : Failure → Bool
is_fuel out_of_fuel = true
is_fuel interrupted = false
is_fuel (refused r) = false
is_fuel (capacity e) = false
is_fuel (kept_cordon f) = false
is_fuel (was_uncordoned f) = false
is_fuel (could_not_uncordon f) = false

-- The result of a loop that ran out of fuel.
unfoldable pub ran_out : {A : Type 0} → Result Failure A → Bool
unfolding is_fuel
ran_out (ok a) = false
ran_out (err e) = is_fuel e

-- From a time on: the clock is not turned back, and the fuel holds.
abbrev pub Ended : {A : Type 0} → ℕ → Result Failure A × Notes → Type 0
Ended t r = (t ≤ r.1.time) × (ran_out r.0 ≡ false)

pub data Ends {A : Type 0} (g : Notes → Result Failure A × Notes) : Type 0 where
  ends : ((n : Notes) → Ended n.time (g n)) → Ends g

pub ended : {A : Type 0} {g : Gate A} → Ends g → (n : Notes) → Ended n.time (g n)
ended (ends h) = h

bind_at-Ended :
    {A B : Type 0} (t : ℕ) (r : Result Failure A × Notes) (f : A → Gate B)
    → Ended t r
    → ((a : A) → r.0 ≡ ok a → Ended r.1.time (f a r.1))
    → Ended t (bind_at r f)
unfolding bind_at ran_out
bind_at-Ended t (ok a, n) f h k = let later = k a refl in (omega (arith, h.0, later.0), later.1)
bind_at-Ended t (err x, n) f h k = h

pub Ends-bind :
    {A B : Type 0} {m : Gate A} {f : A → Gate B} → Ends m → ((a : A) → Ends (f a)) → Ends (m >>= f)
unfolding ◌>>=◌
Ends-bind {A} {B} {m} {f} h k =
    ends λ n. bind_at-Ended n.time (m n) f (ended h n) (λ a e. ended (k a) (m n).1)

pub Ends-pure : {A : Type 0} (a : A) → Ends (pure a)
unfolding pure ran_out
Ends-pure a = ends λ n. (omega arith, refl)

-- What a verdict still has to do ends, and its error is another.
pub data Continues {A C : Type 0} : Verdict A C → Type 0 where
  continues_settled : (a : A) → Continues (settled a)
  continues :
      (e : Failure) (g : Notes → Result Failure C × Notes)
      → ran_out {A = A} (err e) ≡ false
      → Ends g
      → Continues (not_yet e g)

module _ (w : World) where
  -- A pause takes a whole poll interval, or fails.
  paused :
      (n : Notes)
      → ((pause w n ≡ (err interrupted, n)))
        ⊎ ((pause w n).1.time ≡ n.time + poll) × ((pause w n).0 ≡ ok tt)
  unfolding pause ticked
  paused n = elim (Bool-cases (w.interrupted_at n.moment)) [
    | inl e ↦ inl (rw (e, pause) refl)
    | inr e ↦ inr (rw (e, pause) refl, rw (e, pause) refl)
  ]

  module _ {A C : Type 0} (check : C → Gate (Verdict A C)) (deadline : ℕ)
      (ending : (c : C) → Ends (check c))
      (going_on : (c : C) (n : Notes) (v : Verdict A C) → (check c n).0 ≡ ok v → Continues v) where
    -- The pause and the next round, where that round has fuel from a poll interval on.
    paused-Ended :
        (next : Gate A) (n : Notes)
        → ((n' : Notes) → n.time + poll ≤ n'.time → Ended n'.time (next n'))
        → Ended n.time ((pause w >>= λ u. next) n)
    unfolding ◌>>=◌ bind_at ran_out
    paused-Ended next n h = elim (paused n) [
      | inl e ↦ rw e (omega arith, refl)
      | inr q ↦
          bind_at-Ended n.time (pause w n) (λ u. next) (omega (arith, q.0), rw q.1 refl)
            (λ u e. h (pause w n).1 (omega (arith, q.0)))
    ]

    verdict-Ended :
        (next : C → Gate A) (v : Verdict A C) (n : Notes)
        → Continues v
        → (n.time < deadline
            → (c : C) (n' : Notes) → n.time + poll ≤ n'.time
            → Ended n'.time (next c n'))
        → Ended n.time (after_check w deadline next v n)
    unfolding after_check expired gets ◌>>=◌ bind_at fail
    verdict-Ended next (settled a) n v h = ended (Ends-pure a) n
    verdict-Ended next (not_yet e rest) n (continues _ _ f r) h =
        elim (Bool-cases (leb deadline n.time)) [
          | inl z ↦ rw z (omega arith, f)
          | inr z ↦ rw z (
              bind_at-Ended n.time (rest n) (λ c. pause w >>= λ u. next c) (ended r n)
                (λ c e. paused-Ended (next c) (rest n).1 (λ n' later.
                  h (leb-false→lt deadline n.time z) c n' (omega (arith, later, (ended r n).0)))))
        ]

    rounds-Ended :
        (m : ℕ) (c : C) (n : Notes)
        → deadline ≤ n.time + m * poll
        → Ended n.time (poll_rounds w check (suc m) deadline c n)
    unfolding poll_rounds ◌>>=◌
    rounds-Ended zero c n h =
        bind_at-Ended n.time (check c n)
          (after_check w deadline (poll_rounds w check zero deadline)) (ended (ending c) n)
          (λ v e.
            verdict-Ended (poll_rounds w check zero deadline) v (check c n).1 (going_on c n v e)
              (λ early c' n' later. absurd (omega (arith, early, h, (ended (ending c) n).0))))
    rounds-Ended (suc m) c n h =
        bind_at-Ended n.time (check c n)
          (after_check w deadline (poll_rounds w check (suc m) deadline)) (ended (ending c) n)
          (λ v e.
            verdict-Ended (poll_rounds w check (suc m) deadline) v (check c n).1 (going_on c n v e)
              (λ early c' n' later.
                rounds-Ended m c' n' (omega (arith, h, later, (ended (ending c) n).0))))

    pub poll_until-Ends : (c : C) → Ends (poll_until w check deadline c)
    unfolding poll_until
    poll_until-Ends c = ends λ n.
        let rounds = (deadline - n.time) / poll in
        let e : rounds + 2 ≡ suc (rounds + 1) = omega arith in
        rw e (rounds-Ended (rounds + 1) c n (omega arith))

-- ===== src/Operation/Runs.antt =====
-- The rules by which an action's steps follow from those of its parts.
use Prim.Native.Nat.{ℕ}
use mathlib.Core.Bool.{Bool, false, not, true}
use mathlib.Core.Logic.{inl, inr}
use mathlib.Core.Path.{refl, ◌≡◌}
use nix_packages.Base.{Bool-cases, Result, eqb, err, if◌then◌else◌, ok}
use nix_packages.Operation.Changes.{ran_command, run_command, run_or}
use nix_packages.Operation.Fence.{keeping_cordon, keeping_cordon_at}
use nix_packages.Operation.Machine.{
  Action, Command, Event, Failure, Gate, Ledger, Reason, State, bind_at, fail, gets, logged, modify,
  observe, observe_at, pure, ran, refuse_if, set_ledger, ◌>>=◌,
}
use nix_packages.Operation.Steps.{
  Runs, Step, Steps, Steps-refl, Steps-trans, happened, here, is_plain, more, runs,
}
use nix_packages.Operation.World.{World}
use nix_packages.Options.{Options}

module _ {p : Event → Bool} {o : Options} where
  pub Steps-of :
      {A : Type 0} {m : Action A} → Runs p o m → (s : State) → Steps p o s.ledger (m s).1.ledger
  Steps-of (runs h) = h

  bind_at-Steps :
      {A B : Type 0} (l : Ledger) (r : Result Failure A × State) (f : A → Action B)
      → Steps p o l r.1.ledger
      → ((a : A) → Runs p o (f a))
      → Steps p o l (bind_at r f).1.ledger
  unfolding bind_at
  bind_at-Steps l (ok a, s) f h k = Steps-trans h (Steps-of (k a) s)
  bind_at-Steps l (err e, s) f h k = h

  pub Runs-bind :
      {A B : Type 0} {m : Action A} {f : A → Action B}
      → Runs p o m
      → ((a : A) → Runs p o (f a))
      → Runs p o (m >>= f)
  unfolding ◌>>=◌
  Runs-bind {A} {B} {m} {f} h k = runs (λ s. bind_at-Steps s.ledger (m s) f (Steps-of h s) k)

  pub Runs-then :
      {A B : Type 0} {m : Action A} {k : Action B}
      → Runs p o m
      → Runs p o k
      → Runs p o (m >>= λ _. k)
  Runs-then h k = Runs-bind h (λ _. k)

  pub Runs-observe : {A : Type 0} (g : Gate A) → Runs p o (observe g)
  unfolding observe observe_at
  Runs-observe g = runs (λ s. here refl)

  pub Runs-pure : {A : Type 0} (a : A) → Runs p o (pure a)
  unfolding pure
  Runs-pure a = runs (λ s. here refl)

  pub Runs-fail : {A : Type 0} (f : Failure) → Runs p o (fail {S = State} {A = A} f)
  unfolding fail
  Runs-fail f = runs (λ s. here refl)

  pub Runs-refuse_if : (b : Bool) (r : Reason) → Runs p o (refuse_if b r)
  unfolding refuse_if
  Runs-refuse_if b r = runs (λ s. here refl)

  pub Runs-gets : {A : Type 0} (f : State → A) → Runs p o (gets f)
  unfolding gets
  Runs-gets f = runs (λ s. here refl)

  pub Runs-modify :
      (f : Ledger → Ledger) → ((l : Ledger) → Step p o l (f l)) → Runs p o (modify (set_ledger f))
  unfolding modify set_ledger
  Runs-modify f h = runs (λ s. more (Steps-refl s.ledger) (h s.ledger))

  pub Runs-if :
      {A : Type 0} {x y : Action A} (b : Bool)
      → Runs p o x
      → Runs p o y
      → Runs p o (if b then x else y)
  Runs-if true h k = h
  Runs-if false h k = k

  -- The branches may use what the test says.
  pub Runs-test :
      {A : Type 0} {x y : Action A} (b : Bool)
      → (b ≡ true → Runs p o x)
      → (b ≡ false → Runs p o y)
      → Runs p o (if b then x else y)
  Runs-test true h k = h refl
  Runs-test false h k = k refl

  pub Runs-note :
      (e : Event) → is_plain e ≡ true → p e ≡ true → Runs p o (modify (set_ledger (logged e)))
  Runs-note e plain allowed = Runs-modify (logged e) λ l. happened e plain allowed refl

  keeping_cordon_at-Steps :
      {A : Type 0} (l : Ledger) (r : Result Failure A × State)
      → Steps p o l r.1.ledger
      → Steps p o l (keeping_cordon_at r).1.ledger
  unfolding keeping_cordon_at
  keeping_cordon_at-Steps l (ok a, s) h = h
  keeping_cordon_at-Steps l (err e, s) h = h

  pub Runs-keeping_cordon : {A : Type 0} {m : Action A} → Runs p o m → Runs p o (keeping_cordon m)
  unfolding keeping_cordon
  Runs-keeping_cordon {A} {m} h = runs (λ s. keeping_cordon_at-Steps s.ledger (m s) (Steps-of h s))

  module _ (w : World) where
    pub Runs-run_command :
        (c : Command)
        → ((n : ℕ) → is_plain (ran c n) ≡ true)
        → ((n : ℕ) → p (ran c n) ≡ true)
        → Runs p o (run_command w o c)
    unfolding run_command ran_command
    Runs-run_command c plain allowed = runs λ s.
        elim (Bool-cases (w.interrupted_at s.notes.moment)) [
          | inl e ↦ rw e (here refl)
          | inr e ↦ rw e (
              more (here refl) (
                happened (ran c (w.command_status s.notes.moment c))
                  (plain (w.command_status s.notes.moment c))
                  (allowed (w.command_status s.notes.moment c)) refl))
        ]

    pub Runs-run_or :
        (c : Command) (r : Reason)
        → ((n : ℕ) → is_plain (ran c n) ≡ true)
        → ((n : ℕ) → p (ran c n) ≡ true)
        → Runs p o (run_or w o c r)
    unfolding run_or
    Runs-run_or c r plain allowed =
        Runs-bind (Runs-run_command c plain allowed) (λ n. Runs-refuse_if (not (eqb n 0)) r)

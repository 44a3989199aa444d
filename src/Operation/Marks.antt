-- ===== src/Operation/Marks.antt =====
-- What a successful action leaves in the trace. A mark stays, whatever happens later.
-- A successful action's ledger has a property.
use Prim.Native.Nat.{ℕ}
use mathlib.Core.Bool.{Bool, false, not, true}
use mathlib.Core.List.{◌∷◌}
use mathlib.Core.Logic.{inl, inr, ◌⊎◌}
use mathlib.Core.Path.{ap, refl, subst, sym, ◌≡◌}
use native.Mathlib.Omega.{arith}
use nix_packages.Base.{Result, any, eq_of_ok, eqb, err, if◌then◌else◌, minus_one, ok}
use nix_packages.Operation.Changes.{clear_limit, ran_command, record_limit, run_command, run_or}
use nix_packages.Operation.Fence.{found_agent}
use nix_packages.Operation.Machine.{
  Action, Command, Event, Failure, Ledger, Reason, State, bind_at, logged, ran, refuse_if, refused,
  ◌>>=◌,
}
use nix_packages.Operation.Runs.{Steps-of}
use nix_packages.Operation.Steps.{
  Runs, Step, Steps, Steps-keep, after_restore, flagged, happened, patched, recorded, restored,
  told,
}
use nix_packages.Operation.World.{World}
use nix_packages.Options.{Options}

pub data Gives {A : Type 0} (m : State → Result Failure A × State) (Q : Ledger → Type 0)
    : Type 0 where
  gives : ((s s' : State) (a : A) → m s ≡ (ok a, s') → Q s'.ledger) → Gives m Q

pub given :
    {A : Type 0} {m : Action A} {Q : Ledger → Type 0}
    → Gives m Q
    → (s s' : State) (a : A) → m s ≡ (ok a, s')
    → Q s'.ledger
given (gives h) = h

bound_at :
    {A B : Type 0} (r : Result Failure A × State) (f : A → Action B) (s' : State) (b : B)
    → bind_at r f ≡ (ok b, s')
    → (a : A) × (s : State) × (r ≡ (ok a, s)) × (f a s ≡ (ok b, s'))
unfolding bind_at
bound_at (ok a, s) f s' b h = (a, s, refl, h)
bound_at (err e, s) f s' b h = absurd (cc (ap (λ r. r.0) h))

-- A chain that succeeds has parts that do.
pub ok_parts :
    {A B : Type 0} (m : Action A) (f : A → Action B) (s s' : State) (b : B)
    → (m >>= f) s ≡ (ok b, s')
    → (a : A) × (s1 : State) × (m s ≡ (ok a, s1)) × (f a s1 ≡ (ok b, s'))
unfolding ◌>>=◌
ok_parts m f s s' b h = bound_at (m s) f s' b h

module _ {A B : Type 0} {Q : Ledger → Type 0} (m : Action A) (f : A → Action B) where
  pub Gives-after : ((a : A) → Gives (f a) Q) → Gives (m >>= f) Q
  Gives-after h =
      gives λ s s' b e. let (a, s1, e1, e2) = ok_parts m f s s' b e in given (h a) s1 s' b e2

  pub Gives-before :
      (p : Event → Bool) (o : Options)
      → ((l l' : Ledger) → Step p o l l' → Q l → Q l')
      → Gives m Q
      → ((a : A) → Runs p o (f a))
      → Gives (m >>= f) Q
  Gives-before p o kept h k = gives λ s s' b e.
      let (a, s1, e1, e2) = ok_parts m f s s' b e in
      let steps : Steps p o s1.ledger s'.ledger =
        subst (λ (r : Result Failure B × State). Steps p o s1.ledger r.1.ledger) e2
          (Steps-of (k a) s1) in
      Steps-keep Q kept steps (given h s s1 a e1)

pub Gives-if :
    {A : Type 0} {x y : Action A} {Q : Ledger → Type 0} (b : Bool)
    → (b ≡ true → Gives x Q)
    → (b ≡ false → Gives y Q)
    → Gives (if b then x else y) Q
Gives-if true h k = h refl
Gives-if false h k = k refl

-- Some event of the trace is marked.
abbrev pub Marked : (Event → Bool) → Ledger → Type 0
Marked q l = any q l.trace ≡ true

module _ {p : Event → Bool} {o : Options} (q : Event → Bool) where
  pub Step-Marked : (l m : Ledger) → Step p o l m → Marked q l → Marked q m
  unfolding any logged found_agent record_limit after_restore clear_limit
  Step-Marked l m (happened e a b c) k = rw c (ground (arith, k))
  Step-Marked l m (told b a c) k = rw c (ground (arith, k))
  Step-Marked l m (flagged a b c) k = rw a k
  Step-Marked l m (recorded a b) k = rw b k
  Step-Marked l m (patched n a b c) k = rw c (ground (arith, k))
  Step-Marked l m (restored n a b) k = rw b (ground (arith, k))

pub refused_not :
    (b : Bool) (f : Failure) (s s' : State) (a : Unit {0})
    → ◌≡◌ {A = Result Failure (Unit {0}) × State} (if not b then err f else ok tt, s) (ok a, s')
    → (b ≡ true) × (s ≡ s')
refused_not true f s s' a h = (refl, ap (λ r. r.1) h)
refused_not false f s s' a h = absurd (cc (ap (λ r. r.0) h))

ran_or_not :
    (b : Bool) (n k : ℕ) (s t s' : State)
    → ◌≡◌ {A = Result Failure ℕ × State} (if b then (ok minus_one, s) else (ok n, t)) (ok k, s')
    → (k ≡ minus_one) ⊎ ((k ≡ n) × (s' ≡ t))
ran_or_not true n k s t s' h = inl (sym (eq_of_ok (ap (λ r. r.0) h)))
ran_or_not false n k s t s' h = inr (sym (eq_of_ok (ap (λ r. r.0) h)), sym (ap (λ r. r.1) h))

module _ (w : World) (o : Options) where
  -- A command that ended with status 0 stands in the trace.
  ran_ok :
      (c : Command) (s s1 : State) (k : ℕ)
      → run_command w o c s ≡ (ok k, s1)
      → eqb k 0 ≡ true
      → s1.ledger.trace ≡ ran c k ∷ s.ledger.trace
  unfolding run_command ran_command logged
  ran_ok c s s1 k e z = elim (ran_or_not (w.interrupted_at s.notes.moment) _ k s _ s1 e) [
    | inl q ↦ absurd (ground (arith, q, z))
    | inr q ↦ rw (q.1, q.0) refl
  ]

  pub Gives-run_or :
      (q : Event → Bool) (c : Command) (r : Reason)
      → ((n : ℕ) → eqb n 0 ≡ true → q (ran c n) ≡ true)
      → Gives (run_or w o c r) (Marked q)
  unfolding run_or refuse_if any
  Gives-run_or q c r marks = gives λ s s' a e.
      let (n, s1, e1, e2) = ok_parts (run_command w o c) _ s s' a e in
      let (z, same) = refused_not (eqb n 0) (refused r) s1 s' a e2 in
      subst (Marked q) (ap (λ s. s.ledger) same)
        (rw (ran_ok c s s1 n e1 z) (ground (arith, marks n z)))

-- ===== src/Operation/DrainLaws.antt =====
-- drainTimeout: what the chosen timeout covers.
use Prim.Native.Nat.{ℕ, ◌%◌, ◌*◌, ◌+◌, ◌/◌}
use mathlib.Core.Bool.{false, true, ◌&&◌}
use mathlib.Core.List.{List, [], ◌∷◌}
use mathlib.Core.Logic.{inl, inr, ◌↔◌, ◌⊎◌}
use mathlib.Core.Option.{none, some}
use mathlib.Core.Path.{refl, subst, sym, ◌∙◌, ◌≡◌}
use native.Mathlib.Omega.{arith}
use nix_packages.Base.{
  &&-true, Bool-cases, Has, Option-cases, add64, eqb, if◌then◌else◌, le64, lt64, show_int64, word,
  ◌<>◌,
}
use nix_packages.Kube.{Pod, active, has_owner, is_instance_manager, is_mirror}
use nix_packages.Operation.DrainTimeout.{
  choose_timeout, grace_of, is_drained, longest_grace, needed_time, raised_timeout,
}
use nix_packages.Operation.World.{duration_of}
use nix_packages.Options.{Options}

le64_total : (a b : ℕ) → lt64 a b ≡ false → le64 b a ≡ true
unfolding le64 lt64
le64_total a b h = ground arith

le64_trans : (a b c : ℕ) → le64 a b ≡ true → le64 b c ≡ true → le64 a c ≡ true
unfolding le64
le64_trans a b c h k = ground arith

le64_of_lt : (a b : ℕ) → lt64 a b ≡ true → le64 a b ≡ true
unfolding le64 lt64
le64_of_lt a b h = ground arith

le64_self : (a : ℕ) → le64 a a ≡ true
unfolding le64
le64_self a = ground arith

-- One step of the maximum.
abbrev raise_grace : ℕ → Pod → ℕ
raise_grace longest p = if is_drained p && lt64 longest (grace_of p) then grace_of p else longest

raise_grace-le : (longest : ℕ) (p : Pod) → le64 longest (raise_grace longest p) ≡ true
raise_grace-le longest p = elim (Bool-cases (is_drained p && lt64 longest (grace_of p))) [
  | inl e ↦ rw e (le64_of_lt longest (grace_of p) ((&&-true _ _ e).1))
  | inr e ↦ rw e (le64_self longest)
]

raise_grace-covers :
    (longest : ℕ) (p : Pod) → is_drained p ≡ true → le64 (grace_of p) (raise_grace longest p) ≡ true
raise_grace-covers longest p h = elim (Bool-cases (lt64 longest (grace_of p))) [
  | inl e ↦ rw (h, e) (le64_self (grace_of p))
  | inr e ↦ rw (h, e) (le64_total longest (grace_of p) e)
]

longest_grace-le :
    (longest : ℕ) (pods : List Pod) → le64 longest (longest_grace longest pods) ≡ true
unfolding longest_grace
longest_grace-le longest [] = le64_self longest
longest_grace-le longest (p ∷ ps) =
    le64_trans longest (raise_grace longest p) _ (raise_grace-le longest p)
      (longest_grace-le (raise_grace longest p) ps)

longest_grace-covers :
    (longest : ℕ) (pods : List Pod) (p : Pod)
    → Has p pods
    → is_drained p ≡ true
    → le64 (grace_of p) (longest_grace longest pods) ≡ true
unfolding longest_grace
longest_grace-covers longest [] p m h = absurd m
longest_grace-covers longest (q ∷ qs) p (inl e) h =
    le64_trans (grace_of p) (raise_grace longest q) _
      (subst (λ r. le64 (grace_of r) (raise_grace longest q) ≡ true) (sym e)
        (raise_grace-covers longest q (subst (λ r. is_drained r ≡ true) e h)))
      (longest_grace-le (raise_grace longest q) qs)
longest_grace-covers longest (q ∷ qs) p (inr m) h =
    longest_grace-covers (raise_grace longest q) qs p m h

-- The Pods that the drain evicts and waits for.
abbrev pub Drained : Pod → Type 0
Drained p =
    (active p ≡ true)
    × (has_owner p.metadata "DaemonSet" ≡ false)
    × (is_mirror p ≡ false)
    × (is_instance_manager p ≡ false)

-- The grace period of a Pod, 30 seconds where it names none.
abbrev pub HasGrace : Pod → ℕ → Type 0
HasGrace p seconds =
    (p.spec.termination_grace_period_seconds ≡ some seconds)
    ⊎ ((p.spec.termination_grace_period_seconds ≡ none) × (seconds ≡ 30))

-- No drained Pod has a longer grace period, and it is one of theirs, or 0.
abbrev pub Longest : List Pod → ℕ → Type 0
Longest pods longest =
    ((p : Pod) (seconds : ℕ)
      → Has p pods
      → Drained p
      → HasGrace p seconds
      → le64 seconds longest ≡ true)
    × ((longest ≡ 0) ⊎ ((p : Pod) × Has p pods × Drained p × HasGrace p longest))

Drained-iff : (p : Pod) → (is_drained p ≡ true) ↔ Drained p
unfolding is_drained
Drained-iff p = (
  λ h. (ground (arith, h), ground (arith, h), ground (arith, h), ground (arith, h)),
  λ (a, b, c, d). ground (arith, a, b, c, d),
)

grace_of-HasGrace : (p : Pod) → HasGrace p (grace_of p)
unfolding grace_of
grace_of-HasGrace p = elim (Option-cases p.spec.termination_grace_period_seconds) [
  | inl e ↦ inr (e, rw e refl)
  | inr (g, e) ↦ inl (rw e refl)
]

HasGrace-unique : (p : Pod) (seconds : ℕ) → HasGrace p seconds → seconds ≡ grace_of p
unfolding grace_of
HasGrace-unique p seconds (inl e) = rw e refl
HasGrace-unique p seconds (inr (e, s)) = rw (e, s) refl

-- The maximum is where it started, or the grace period of a drained Pod.
longest_grace-reached :
    (longest : ℕ) (pods : List Pod)
    → (longest_grace longest pods ≡ longest)
      ⊎ ((p : Pod) × Has p pods × (is_drained p ≡ true) × (longest_grace longest pods ≡ grace_of p))
unfolding longest_grace
longest_grace-reached longest [] = inl refl
longest_grace-reached longest (q ∷ qs) = elim (longest_grace-reached (raise_grace longest q) qs) [
  | inr (p, m, d, e) ↦ inr (p, inr m, d, e)
  | inl e ↦ elim (Bool-cases (is_drained q && lt64 longest (grace_of q))) [
    | inl t ↦
        let same : raise_grace longest q ≡ grace_of q = rw t refl in
        inr (q, inl refl, (&&-true (is_drained q) _ t).0, e ∙ same)
    | inr f ↦ let same : raise_grace longest q ≡ longest = rw f refl in inl (e ∙ same)
  ]
]

longest_grace-Longest : (pods : List Pod) → Longest pods (longest_grace 0 pods)
longest_grace-Longest pods = (
  λ p seconds m d g.
      subst (λ n. le64 n (longest_grace 0 pods) ≡ true) (sym (HasGrace-unique p seconds g))
        (longest_grace-covers 0 pods p m ((Drained-iff p).1 d)),
  elim (longest_grace-reached 0 pods) [
    | inl e ↦ inl e
    | inr (p, m, d, e) ↦
        inr (p, m, (Drained-iff p).0 d, subst (HasGrace p) (sym e) (grace_of-HasGrace p))
  ],
)

-- The nanoseconds that a drain needs: the grace period and two minutes, as an int64 counts them.
abbrev pub time_for : ℕ → ℕ
time_for longest = ((longest * 1000000000) % word + 120000000000) % word

-- The timeout of the drain is the operator's text where that was given, where it is zero, or where
-- it is no shorter than the time needed, and the time needed in seconds only where none of these
-- holds. The time needed is two minutes more than the longest grace period of a Pod on the node
-- that is active, not a mirror, no Longhorn instance manager and not owned by a DaemonSet, with 30
-- seconds for a Pod that names none. All as the 64-bit arithmetic of the source computes it.
pub choose_timeout-covers :
    (o : Options) (pods : List Pod)
    → (longest : ℕ) × Longest pods longest
      × (((choose_timeout o pods ≡ show_int64 (time_for longest / 1000000000) <> "s")
            × (o.drain_timeout_set ≡ false)
            × (eqb (duration_of o.drain_timeout) 0 ≡ false)
            × (le64 (time_for longest) (duration_of o.drain_timeout) ≡ false))
          ⊎ ((choose_timeout o pods ≡ o.drain_timeout)
              × ((o.drain_timeout_set ≡ true)
                  ⊎ ((eqb (duration_of o.drain_timeout) 0 ≡ true)
                      ⊎ (le64 (time_for longest) (duration_of o.drain_timeout) ≡ true)))))
unfolding choose_timeout needed_time raised_timeout add64
choose_timeout-covers o pods =
    let needed = time_for (longest_grace 0 pods) in
    let timeout = duration_of o.drain_timeout in
    (
      longest_grace 0 pods,
      longest_grace-Longest pods,
      elim (Bool-cases (eqb timeout 0)) [
        | inl z ↦ inr (rw (z, choose_timeout) refl, inr (inl z))
        | inr z ↦ elim (Bool-cases (le64 needed timeout)) [
          | inl l ↦ inr (rw (z, l, choose_timeout) refl, inr (inr l))
          | inr l ↦ elim (Bool-cases o.drain_timeout_set) [
            | inl s ↦ inr (rw (z, l, s, choose_timeout) refl, inl s)
            | inr s ↦ inl (rw (z, l, s, choose_timeout) refl, s, z, l)
          ]
        ]
      ],
    )

-- ===== src/Options/Kept.antt =====
-- About the loop of ParseArgs over the arguments.
use Prim.Native.Nat.{ℕ, ◌<◌}
use Prim.Native.String.{String}
use mathlib.Core.Bool.{Bool, false, not, true, ◌||◌}
use mathlib.Core.List.{List, [], ◌∷◌}
use mathlib.Core.Logic.{inl, inr}
use mathlib.Core.Option.{Option, none, some}
use mathlib.Core.Path.{refl, subst, ◌∙◌, ◌≡◌}
use native.Mathlib.Omega.{arith}
use text.Mathlib.Text.{◌==◌}
use nix_packages.Base.{
  Bool-cases, Result, atoi, codes, eq_of_ok, err, half_word, if◌then◌else◌, lt64, ok, ok_of_bind,
}
use nix_packages.Options.{
  Options, parse_loop, set_flag, set_host, set_ssh_timeout, set_value, slots_of, starts_with_dash,
  takes_value,
}
use nix_packages.Options.Durations.{
  OptionsError, matches_fence_duration, positive_integer, slots_not_positive, valid_context,
}
use nix_packages.Options.Numbers.{atoi-lt, slots_of-positive}

pub record IsKept (action : String) (o : Options) : Type 0 where
  pub same_action : o.action ≡ action
  pub positive_slots : 0 < o.min_free_pod_slots
  pub slots_fit : o.min_free_pod_slots < half_word
  pub whole_timeout : o.ssh_timeout_seconds < half_word

-- An error is no result.
err_ne_ok :
    (P : Options → Type 0) {e : OptionsError} (o : Options)
    → ◌≡◌ {A = Result OptionsError Options} (err e) (ok o)
    → P o
err_ne_ok P o h = cc

-- A test between two results that both keep a property.
if-Keeps :
    (P : Options → Type 0) (b : Bool) {x y : Result OptionsError Options} (o : Options)
    → (x ≡ ok o → P o)
    → (y ≡ ok o → P o)
    → (if b then x else y) ≡ ok o
    → P o
if-Keeps P true o f g h = f h
if-Keeps P false o f g h = g h

module _ (action : String) (o : Options) (kept : IsKept action o) where
  -- A change that leaves the action and the numbers alone.
  moved :
      (p o' : Options)
      → p.action ≡ o.action
      → p.min_free_pod_slots ≡ o.min_free_pod_slots
      → p.ssh_timeout_seconds ≡ o.ssh_timeout_seconds
      → ◌≡◌ {A = Result OptionsError Options} (ok p) (ok o')
      → IsKept action o'
  moved p o' a s t h = subst (IsKept action) (eq_of_ok h) (record {
    same_action = a ∙ kept.same_action;
    positive_slots = omega (arith, s, kept.positive_slots);
    slots_fit = omega (arith, s, kept.slots_fit);
    whole_timeout = omega (arith, t, kept.whole_timeout);
  })

  set_ssh_timeout-IsKept :
      (text : String) (value : Option ℕ) (o' : Options)
      → atoi text ≡ value
      → set_ssh_timeout o value ≡ ok o'
      → IsKept action o'
  unfolding set_ssh_timeout lt64
  set_ssh_timeout-IsKept text none o' e h = cc
  set_ssh_timeout-IsKept text (some n) o' e h = elim (Bool-cases (lt64 n 0)) [
    | inl l ↦ let q = rw (l, set_ssh_timeout) at h in cc
    | inr l ↦ subst (IsKept action) (eq_of_ok (rw (l, set_ssh_timeout) at h)) (record {
      same_action = kept.same_action;
      positive_slots = kept.positive_slots;
      slots_fit = kept.slots_fit;
      whole_timeout = ground (arith, l, atoi-lt text n e);
    })
  ]

  set_slots-IsKept :
      (v : String) (o' : Options)
      → (if positive_integer v
          then ok (record o { min_free_pod_slots = slots_of v })
          else err slots_not_positive)
        ≡ ok o'
      → IsKept action o'
  set_slots-IsKept v o' h = elim (Bool-cases (positive_integer v)) [
    | inl e ↦
        let s = slots_of-positive v e in
        subst (IsKept action) (eq_of_ok (rw e at h)) (record {
          same_action = kept.same_action;
          positive_slots = s.0;
          slots_fit = s.1;
          whole_timeout = kept.whole_timeout;
        })
    | inr e ↦ let q = rw e at h in cc
  ]

  set_value-IsKept : (arg v : String) (o' : Options) → set_value arg v o ≡ ok o' → IsKept action o'
  unfolding set_value
  set_value-IsKept arg v o' =
      let P = IsKept action in
      if-Keeps P (arg == "--node") o' (moved _ o' refl refl refl) (
        if-Keeps P (arg == "--ssh-target") o' (moved _ o' refl refl refl) (
          if-Keeps P (arg == "--context") o'
            (if-Keeps P (valid_context v) o' (moved _ o' refl refl refl) (err_ne_ok P o'))
            (if-Keeps P (arg == "--drain-timeout") o' (moved _ o' refl refl refl) (
              if-Keeps P (arg == "--ready-timeout") o' (moved _ o' refl refl refl) (
                if-Keeps P (arg == "--fence-timeout") o'
                  (if-Keeps P (matches_fence_duration v) o' (moved _ o' refl refl refl)
                    (err_ne_ok P o'))
                  (if-Keeps P (arg == "--settle-timeout") o' (moved _ o' refl refl refl) (
                    if-Keeps P (arg == "--ssh-timeout") o'
                      (set_ssh_timeout-IsKept v (atoi v) o' refl) (set_slots-IsKept v o'))))))))

  set_host-IsKept : (arg : String) (o' : Options) → set_host arg o ≡ ok o' → IsKept action o'
  unfolding set_host
  set_host-IsKept arg o' =
      let P = IsKept action in
      if-Keeps P (starts_with_dash (codes arg)) o' (err_ne_ok P o')
        (if-Keeps P (not (o.host == "")) o' (err_ne_ok P o') (moved _ o' refl refl refl))

  set_flag-IsKept : (arg : String) (o' : Options) → set_flag arg o ≡ ok o' → IsKept action o'
  unfolding set_flag
  set_flag-IsKept arg o' =
      let P = IsKept action in
      if-Keeps P (arg == "--skip-drain") o' (moved _ o' refl refl refl) (
        if-Keeps P (arg == "--force-drain") o' (moved _ o' refl refl refl) (
          if-Keeps P (arg == "--bypass-pdb") o' (moved _ o' refl refl refl) (
            if-Keeps P (arg == "--leave-cordoned") o' (moved _ o' refl refl refl) (
              if-Keeps P (arg == "--resume-maintenance") o' (moved _ o' refl refl refl) (
                if-Keeps P (arg == "--check-only") o' (moved _ o' refl refl refl) (
                  if-Keeps P (arg == "--needed") o' (moved _ o' refl refl refl) (
                    if-Keeps P (arg == "--require-longhorn-backup-target") o'
                      (moved _ o' refl refl refl)
                      (if-Keeps P (arg == "-h" || arg == "--help") o' (err_ne_ok P o') (
                        if-Keeps P (arg == "--version") o' (err_ne_ok P o')
                          (set_host-IsKept arg o'))))))))))

pub parse_loop-IsKept :
    (action : String) (args : List String) (o o' : Options)
    → IsKept action o
    → parse_loop args o ≡ ok o'
    → IsKept action o'
unfolding parse_loop
parse_loop-IsKept action [] o o' i h = subst (IsKept action) (eq_of_ok h) i
parse_loop-IsKept action (arg ∷ []) o o' i h =
    if-Keeps (IsKept action) (takes_value arg) o' (err_ne_ok (IsKept action) o')
      (set_flag-IsKept action o i arg o') h
parse_loop-IsKept action (arg ∷ v ∷ rest) o o' i h =
    if-Keeps (IsKept action) (takes_value arg) o'
      (λ g.
        let (p, q, e) = ok_of_bind (set_value arg v o) _ g in
        parse_loop-IsKept action rest p o' (set_value-IsKept action o i arg v p q) e)
      (λ g.
        let (p, q, e) = ok_of_bind (set_flag arg o) _ g in
        parse_loop-IsKept action (v ∷ rest) p o' (set_flag-IsKept action o i arg p q) e)
      h

-- ===== src/Operation/FenceLaws.antt =====
-- fenceStateFailures against a description of a healthy state.
use Prim.Native.String.{String}
use mathlib.Core.Bool.{false, true}
use mathlib.Core.List.{List, [], ◌∷◌}
use mathlib.Core.Logic.{inl, inr, ◌↔◌, ◌⊎◌}
use mathlib.Core.Option.{none, some}
use mathlib.Core.Path.{ap, refl, ◌≡◌}
use native.Mathlib.Omega.{arith}
use text.Mathlib.TextEquality.{eq_iff}
use nix_packages.Base.{All, Bool-cases, Floats, Option-cases, eq_of_some}
use nix_packages.Operation.FenceStatus.{
  fence_state_failures, known_mode, number_lt, server_name, since_problem, state_problem,
  timing_problem,
}
use nix_packages.Operation.Json.{
  Fields, Json, array, boolean, find_field, get_field, is_false, is_null, is_text, is_true, null,
  number, number_of, object, string,
}

pub is_true-eq : (v : Json) → is_true v ≡ true → v ≡ boolean true
unfolding is_true
is_true-eq (boolean b) h = rw h refl
is_true-eq null h = cc
is_true-eq (number n) h = cc
is_true-eq (string t) h = cc
is_true-eq (array a) h = cc
is_true-eq (object o) h = cc

is_false-eq : (v : Json) → is_false v ≡ true → v ≡ boolean false
unfolding is_false
is_false-eq (boolean true) h = cc
is_false-eq (boolean false) h = refl
is_false-eq null h = cc
is_false-eq (number n) h = cc
is_false-eq (string t) h = cc
is_false-eq (array a) h = cc
is_false-eq (object o) h = cc

pub is_text-eq : (s : String) (v : Json) → is_text s v ≡ true → v ≡ string s
unfolding is_text
is_text-eq s (string t) h = ap string (ground (arith, eq_iff t s))
is_text-eq s null h = cc
is_text-eq s (boolean b) h = cc
is_text-eq s (number n) h = cc
is_text-eq s (array a) h = cc
is_text-eq s (object o) h = cc

-- `since_unfence` is null, or a number that is not below the window.
module _ ⦃F : Floats⦄ where
  abbrev pub Settled : String → Json → Type 0
  Settled window since =
      (since ≡ null) ⊎ ((n : String) × (since ≡ number n) × (number_lt n window ≡ false))

  -- A verified, unfenced and healthy state in a known mode, whose last unfence is long enough ago.
  abbrev pub IsHealthy : Fields → Type 0
  IsHealthy state =
      (get_field "ok" state ≡ boolean true)
      × (get_field "fenced" state ≡ boolean false)
      × (get_field "classification" state ≡ string "healthy")
      × ((get_field "mode" state ≡ string "enforce") ⊎ (get_field "mode" state ≡ string "observe"))
      × ((window : String) × (since : Json) × (get_field "refence_window" state ≡ number window)
          × (find_field "since_unfence" state ≡ some since)
          × (number_lt window "0" ≡ false)
          × Settled window since)

  since-Settled :
      (window : String) (since : Json) → since_problem window since ≡ none → Settled window since
  unfolding since_problem is_null number_of
  since-Settled window null h = inl refl
  since-Settled window (number n) h = inr (n, refl, ground arith)
  since-Settled window (boolean b) h = absurd (cc)
  since-Settled window (string t) h = absurd (cc)
  since-Settled window (array a) h = absurd (cc)
  since-Settled window (object o) h = absurd (cc)

  Timed : Fields → Type 0
  Timed state =
      (window : String) × (since : Json) × (get_field "refence_window" state ≡ number window)
      × (find_field "since_unfence" state ≡ some since)
      × (number_lt window "0" ≡ false)
      × Settled window since

  number_of-eq : (v : Json) (n : String) → number_of v ≡ some n → v ≡ number n
  unfolding number_of
  number_of-eq (number m) n h = ap number (eq_of_some h)
  number_of-eq null n h = cc
  number_of-eq (boolean b) n h = cc
  number_of-eq (string t) n h = cc
  number_of-eq (array a) n h = cc
  number_of-eq (object o) n h = cc

  timing-Timed : (state : Fields) → timing_problem state ≡ none → Timed state
  unfolding timing_problem Timed
  timing-Timed state h = elim (Option-cases (find_field "since_unfence" state)) [
    | inl e ↦ absurd (ground (arith, e, h))
    | inr (since, e) ↦ elim (Option-cases (number_of (get_field "refence_window" state))) [
      | inl f ↦ absurd (ground (arith, e, f, h))
      | inr (window, f) ↦ elim (Bool-cases (number_lt window "0")) [
        | inl z ↦ absurd (ground (arith, e, f, z, h))
        | inr z ↦ (
          window,
          since,
          number_of-eq _ window f,
          e,
          z,
          since-Settled window since (ground (arith, e, f, z, h)),
        )
      ]
    ]
  ]

  known_mode-eq :
      (mode : Json) → known_mode mode ≡ true → (mode ≡ string "enforce") ⊎ (mode ≡ string "observe")
  unfolding known_mode
  known_mode-eq mode h = elim (Bool-cases (is_text "enforce" mode)) [
    | inl e ↦ inl (is_text-eq "enforce" mode e)
    | inr e ↦ inr (is_text-eq "observe" mode (ground (arith, e, h)))
  ]

  state-Healthy : (state : Fields) → state_problem state ≡ none → IsHealthy state
  unfolding state_problem Timed
  state-Healthy state h = elim (Bool-cases (is_true (get_field "ok" state))) [
    | inr a ↦ absurd (ground (arith, a, h))
    | inl a ↦ elim (Bool-cases (is_false (get_field "fenced" state))) [
      | inr b ↦ absurd (ground (arith, a, b, h))
      | inl b ↦ elim (Bool-cases (is_text "healthy" (get_field "classification" state))) [
        | inr c ↦ absurd (ground (arith, a, b, c, h))
        | inl c ↦ elim (Bool-cases (known_mode (get_field "mode" state))) [
          | inr d ↦ absurd (ground (arith, a, b, c, d, h))
          | inl d ↦ (
            is_true-eq _ a,
            is_false-eq _ b,
            is_text-eq "healthy" _ c,
            known_mode-eq _ d,
            timing-Timed state (ground (arith, a, b, c, d, h)),
          )
        ]
      ]
    ]
  ]

  Settled-since :
      (window : String) (since : Json) → Settled window since → since_problem window since ≡ none
  unfolding since_problem is_null number_of
  Settled-since window since (inl e) = rw (e, since_problem) refl
  Settled-since window since (inr (n, e, z)) = rw (e, since_problem, z) refl

  Timed-timing : (state : Fields) → Timed state → timing_problem state ≡ none
  unfolding timing_problem Timed number_of
  Timed-timing state (window, since, f, e, z, s) =
      rw (e, f, timing_problem, z) (Settled-since window since s)

  known_mode-named :
      (mode : Json) → (mode ≡ string "enforce") ⊎ (mode ≡ string "observe") → known_mode mode ≡ true
  unfolding known_mode is_text
  known_mode-named mode (inl e) = rw e refl
  known_mode-named mode (inr e) = rw e refl

  Healthy-state : (state : Fields) → IsHealthy state → state_problem state ≡ none
  unfolding state_problem is_true is_false is_text Timed
  Healthy-state state (a, b, c, d, t) =
      rw (state_problem, a, b, c, known_mode-named (get_field "mode" state) d)
        (Timed-timing state t)

  fence_state_failures_sound :
      (render : Json → String) (states : List Fields)
      → fence_state_failures render states ≡ []
      → All IsHealthy states
  unfolding fence_state_failures
  fence_state_failures_sound render [] h = tt
  fence_state_failures_sound render (s ∷ ss) h = elim (Option-cases (state_problem s)) [
    | inl e ↦ (
      state-Healthy s e,
      fence_state_failures_sound render ss (rw (e, fence_state_failures) at (h)),
    )
    | inr (problem, e) ↦
        let k : (server_name render s, problem) ∷ fence_state_failures render ss ≡ [] =
          rw (e, fence_state_failures) at (h) in
        absurd (cc)
  ]

  healthy_passes :
      (render : Json → String) (states : List Fields)
      → All IsHealthy states
      → fence_state_failures render states ≡ []
  unfolding fence_state_failures
  healthy_passes render [] h = refl
  healthy_passes render (s ∷ ss) h =
      rw (Healthy-state s h.0, healthy_passes render ss h.1, fence_state_failures) refl

  -- The fence preflight finds no failure among the reported states exactly where every state says
  -- that it is verified, not fenced, classified healthy and in the mode enforce or observe, and
  -- gives a refence window that is not negative and a time since the last unfence that is null or
  -- not below that window. A missing or mistyped field is a failure.
  pub fence_state_failures_iff :
      (render : Json → String) (states : List Fields)
      → (fence_state_failures render states ≡ []) ↔ All IsHealthy states
  fence_state_failures_iff render states =
      (fence_state_failures_sound render states, healthy_passes render states)

-- ===== src/Capacity/Budgets/Slots.antt =====
-- About the verdict of the Pod-slot check.
-- Active Pods on the nodes that remain, and Pods that the drain moves.
use Prim.Native.Nat.{ℕ, ◌+◌, ◌<◌, ◌≤◌}
use Prim.Native.String.{String}
use mathlib.Core.Bool.{false, not, true, ◌&&◌, ◌||◌}
use mathlib.Core.List.{List, [], append-nil, append_assoc, map, ◌++◌, ◌∷◌}
use mathlib.Core.Logic.{inl, inr, ◌↔◌}
use mathlib.Core.Option.{some}
use mathlib.Core.Path.{ap, ap₂, refl, subst, sym, ◌∙◌, ◌≡◌}
use native.Mathlib.Omega.{arith}
use text.Mathlib.Text.{◌==◌}
use text.Mathlib.TextEquality.{eq_iff}
use nix_packages.Base.{
  &&-intro, &&-true, Bool-cases, Has, Selects, Selects-keep, add64, any, atoi, contains, is_empty,
  keep, le64, length, ok, selects_later, selects_none, selects_this, sub64, text_at, word,
}
use nix_packages.Capacity.Budgets.{
  check_stable_node_pod_slots, free_after, is_displaced, is_scheduled, slots_verdict, stable_slots,
}
use nix_packages.Kube.{Node, Pod, active, has_owner, is_instance_manager, is_mirror, node_is_ready}

-- The nodes that a check counts on: not the target, schedulable, and Ready.
abbrev pub Stays : String → Node → Type 0
Stays target n =
    ((n.metadata.name == target) ≡ false)
    × (n.spec.unschedulable ≡ false)
    × (any (λ c. c.type == "Ready" && c.status == "True") n.status.conditions ≡ true)

-- The Pod slots that the nodes allocate, added up without a bound.
abbrev pub Slots : List Node → ℕ → Type 0
Slots [] total = total ≡ 0
Slots (n ∷ ns) total =
    (own : ℕ) × (rest : ℕ) × (atoi (text_at "pods" n.status.allocatable) ≡ some own)
    × Slots ns rest
    × (total ≡ own + rest)

-- An active Pod on one of the nodes.
abbrev pub RunsOn : List Node → Pod → Type 0
RunsOn nodes p = (active p ≡ true) × (n : Node) × Has n nodes × (n.metadata.name ≡ p.spec.node_name)

-- An active Pod on the target that the drain moves away.
abbrev pub Moves : String → Pod → Type 0
Moves target p =
    (active p ≡ true)
    × ((p.spec.node_name == target) ≡ true)
    × (has_owner p.metadata "DaemonSet" ≡ false)
    × (is_mirror p ≡ false)
    × (is_instance_manager p ≡ false)

-- An eighth of the int64 range, which no sum below passes.
abbrev pub small : ℕ
small = 2305843009213693952

free_enough :
    (a s d r : ℕ)
    → a < small
    → s < small
    → d < small
    → r < small
    → (le64 r (sub64 (sub64 a s) d) ≡ true) ↔ (s + d + r ≤ a)
unfolding le64 sub64
free_enough a s d r ha hs hd hr = (λ h. ground arith, λ h. ground arith)

slots_verdict_iff :
    (target : String) (required : ℕ) (pods : List Pod) (sums : List String × ℕ)
    → (slots_verdict target required pods sums ≡ ok tt)
      ↔ ((is_empty sums.0 ≡ false) × (le64 required (free_after target pods sums) ≡ true))
unfolding slots_verdict
slots_verdict_iff target required pods sums =
    let test = not (is_empty sums.0) && le64 required (free_after target pods sums) in
    (
      λ h. elim (Bool-cases test) [
        | inl e ↦
            let parts = &&-true (not (is_empty sums.0)) _ e in (ground (arith, parts.0), parts.1)
        | inr e ↦ let q = rw (e, slots_verdict) at h in cc
      ],
      λ h. rw (h.0, h.1, slots_verdict) refl,
    )

pub Stays-iff :
    (target : String) (n : Node)
    → ((n.metadata.name == target || n.spec.unschedulable || not (node_is_ready n)) ≡ false)
      ↔ Stays target n
unfolding node_is_ready
Stays-iff target n = (
  λ h. (ground (arith, h), ground (arith, h), ground (arith, h)),
  λ (a, b, c). ground (arith, a, b, c),
)

map-is_empty : (nodes : List Node) → is_empty (map (λ n. n.metadata.name) nodes) ≡ is_empty nodes
map-is_empty [] = refl
map-is_empty (n ∷ ns) = refl

-- Where the sum stays below 2 ^ 64, the loop reads the nodes that stay and adds up their slots.
stable_slots-Slots :
    (target : String) {nodes stays : List Node} (names : List String) (sum total : ℕ)
    → Selects (Stays target) nodes stays
    → Slots stays total
    → sum + total < word
    → stable_slots target nodes (names, sum)
      ≡ ok (names ++ map (λ n. n.metadata.name) stays, sum + total)
unfolding stable_slots
stable_slots-Slots target names sum total selects_none t b =
    ap₂ (λ xs n. ok (xs, n)) (sym (append-nil names)) (omega (arith, t))
stable_slots-Slots target names sum total (selects_this {x = n} {xs = ns} {ys = stays} h s)
      (own, rest, e, t, q) b =
    let later =
      stable_slots-Slots target (names ++ n.metadata.name ∷ []) (sum + own) rest s t
        (omega (arith, q, b)) in
    let added : add64 sum own ≡ sum + own = unfold add64 in omega (arith, q, b) in
    let whole : sum + own + rest ≡ sum + total = omega (arith, q) in
    rw ((Stays-iff target n).1 h, stable_slots, e, added)
      (later
        ∙ ap₂ (λ xs n. ok (xs, n))
            (append_assoc names (n.metadata.name ∷ []) (map (λ n. n.metadata.name) stays)) whole)
stable_slots-Slots target names sum total (selects_later {x = n} {xs = ns} {ys = stays} h s) t b =
    elim (Bool-cases (n.metadata.name == target || n.spec.unschedulable || not (node_is_ready n))) [
      | inl e ↦ rw (e, stable_slots) (stable_slots-Slots target names sum total s t b)
      | inr e ↦ absurd (h ((Stays-iff target n).0 e))
    ]

named_iff :
    (nodes : List Node) (name : String)
    → (contains (map (λ n. n.metadata.name) nodes) name ≡ true)
      ↔ ((n : Node) × Has n nodes × (n.metadata.name ≡ name))
unfolding contains
named_iff [] name = (λ h. absurd (cc (h)), λ (n, m, e). absurd m)
named_iff (x ∷ xs) name =
    let later = named_iff xs name in
    (
      λ h. elim (Bool-cases (name == x.metadata.name)) [
        | inl e ↦ (x, inl refl, sym (ground (arith, e, eq_iff name x.metadata.name)))
        | inr e ↦ let (n, m, q) = later.0 (ground (arith, e, h)) in (n, inr m, q)
      ],
      λ (n, m, q). elim m [
        | inl e ↦
            let same : name ≡ x.metadata.name = sym q ∙ ap (λ (n : Node). n.metadata.name) e in
            ground (arith, same, eq_iff name x.metadata.name)
        | inr k ↦ ground (arith, later.1 (n, k, q))
      ],
    )

scheduled_iff :
    (nodes : List Node) (p : Pod)
    → (is_scheduled (map (λ n. n.metadata.name) nodes) p ≡ true) ↔ RunsOn nodes p
unfolding is_scheduled
scheduled_iff nodes p = (
  λ h.
      let q = &&-true (active p) _ h in
      let (n, m, e) = (named_iff nodes p.spec.node_name).0 q.1 in (q.0, n, m, e),
  λ (a, n, m, e). &&-intro a ((named_iff nodes p.spec.node_name).1 (n, m, e)),
)

displaced_iff : (target : String) (p : Pod) → (is_displaced target p ≡ true) ↔ Moves target p
unfolding is_displaced
displaced_iff target p = (
  λ h. (
    ground (arith, h),
    ground (arith, h),
    ground (arith, h),
    ground (arith, h),
    ground (arith, h),
  ),
  λ (a, b, c, d, e). ground (arith, a, b, c, d, e),
)

-- Both reads succeed, and each node that stays gives a readable number of Pod slots. Then the check
-- passes exactly when some node stays and their slots cover the active Pods on them, the Pods that
-- the drain moves from the target and the reserve, as long as each number is below an eighth of the
-- int64 range. A node stays if it is not the target, is schedulable and Ready; the drain moves the
-- active Pods that are no mirror, no Longhorn instance manager and not owned by a DaemonSet.
pub check_stable_node_pod_slots_iff :
    (target : String) (required : ℕ) (nodes stays : List Node) (pods scheduled displaced : List Pod)
    (slots : ℕ)
    → Selects (Stays target) nodes stays
    → Slots stays slots
    → Selects (RunsOn stays) pods scheduled
    → Selects (Moves target) pods displaced
    → slots < small
    → length scheduled < small
    → length displaced < small
    → required < small
    → (check_stable_node_pod_slots target required (ok nodes) (ok pods) ≡ ok tt)
      ↔ ((is_empty stays ≡ false) × (length scheduled + length displaced + required ≤ slots))
unfolding check_stable_node_pod_slots free_after
check_stable_node_pod_slots_iff target required nodes stays pods scheduled displaced slots s t a d
      hs ha hd hr =
    let names = map (λ n. n.metadata.name) stays in
    let zero_more : 0 + slots ≡ slots = omega arith in
    let read : stable_slots target nodes ([], 0) ≡ ok (names, slots) =
      stable_slots-Slots target [] 0 slots s t (omega (arith, hs))
      ∙ ap (λ n. ok (names, n)) zero_more in
    let on : keep (is_scheduled names) pods ≡ scheduled =
      Selects-keep (RunsOn stays) (is_scheduled names) (scheduled_iff stays) a in
    let off : keep (is_displaced target) pods ≡ displaced =
      Selects-keep (Moves target) (is_displaced target) (displaced_iff target) d in
    let verdict = slots_verdict_iff target required pods (names, slots) in
    let enough = free_enough slots (length scheduled) (length displaced) required hs ha hd hr in
    let free : free_after target pods (names, slots)
        ≡ sub64 (sub64 slots (length scheduled)) (length displaced) =
      ap₂ (λ (xs ys : List Pod). sub64 (sub64 slots (length xs)) (length ys)) on off in
    let some_stay : is_empty names ≡ is_empty stays = map-is_empty stays in
    (
      λ h.
          let q = verdict.0 (rw read at h) in
          (sym some_stay ∙ q.0, enough.0 (subst (λ n. le64 required n ≡ true) free q.1)),
      λ h. rw read (
          verdict.1
            (some_stay ∙ h.0, subst (λ n. le64 required n ≡ true) (sym free) (enough.1 h.1))),
    )

-- ===== src/Operation/Steps.antt =====
-- The changes that a run makes to its ledger, as a relation: one step for each event, and for each
-- write of the flags and of the recorded rebuild limit. `p` says which events may happen.
-- Events that change nothing but the trace.
use Prim.Native.Nat.{ℕ}
use mathlib.Core.Bool.{Bool, false, true}
use mathlib.Core.Path.{refl, subst, sym, ◌≡◌}
use text.Mathlib.Text.{◌==◌}
use nix_packages.Base.{Result, eqb, if◌then◌else◌}
use nix_packages.Operation.Changes.{clear_limit, record_limit}
use nix_packages.Operation.Fence.{found_agent}
use nix_packages.Operation.Machine.{
  Event, Failure, Ledger, State, agent_seen, annotate_baseline, cordon, cordon_seen, detach_storage,
  drain, logged, patch_rebuild_limit, power_off_host, promote, ran, reboot_host, remove_baseline,
  stop_agent, uncordon,
}
use nix_packages.Options.{Options}

abbrev pub is_plain : Event → Bool
is_plain (agent_seen b) = false
is_plain (cordon_seen b) = true
is_plain (ran (patch_rebuild_limit v) n) = false
is_plain (ran (drain t) n) = true
is_plain (ran (promote t) n) = true
is_plain (ran (annotate_baseline t) n) = true
is_plain (ran (detach_storage b) n) = true
is_plain (ran cordon n) = true
is_plain (ran uncordon n) = true
is_plain (ran remove_baseline n) = true
is_plain (ran stop_agent n) = true
is_plain (ran reboot_host n) = true
is_plain (ran power_off_host n) = true

-- The ledger after a patch that puts the recorded limit back.
unfoldable pub after_restore : ℕ → Ledger → Ledger
after_restore status l =
    let l' = logged (ran (patch_rebuild_limit l.rebuild_limit_original) status) l in
    if eqb status 0 then clear_limit l' else l'

pub data Step (p : Event → Bool) (o : Options) (l m : Ledger) : Type 0 where
  happened : (e : Event) → is_plain e ≡ true → p e ≡ true → m ≡ logged e l → Step p o l m
  told : (b : Bool) → p (agent_seen b) ≡ true → m ≡ found_agent b l → Step p o l m
  flagged :
      m.trace ≡ l.trace
      → m.rebuild_limit_original ≡ l.rebuild_limit_original
      → m.has_agent ≡ l.has_agent
      → Step p o l m
  recorded : o.check_only ≡ false → m ≡ record_limit "0" l → Step p o l m
  patched :
      (status : ℕ)
      → o.check_only ≡ false
      → l.rebuild_limit_original ≡ "0"
      → m ≡ logged (ran (patch_rebuild_limit "2") status) l
      → Step p o l m
  restored :
      (status : ℕ)
      → (l.rebuild_limit_original == "") ≡ false
      → m ≡ after_restore status l
      → Step p o l m

pub data Steps (p : Event → Bool) (o : Options) (l : Ledger) : Ledger → Type 0 where
  here : {m : Ledger} → m ≡ l → Steps p o l m
  more : {m n : Ledger} → Steps p o l m → Step p o m n → Steps p o l n

pub Steps-refl : {p : Event → Bool} {o : Options} (l : Ledger) → Steps p o l l
Steps-refl l = here refl

pub Steps-trans :
    {p : Event → Bool} {o : Options} {l m n : Ledger}
    → Steps p o l m
    → Steps p o m n
    → Steps p o l n
Steps-trans {p} {o} {l} a (here e) = subst (λ k. Steps p o l k) (sym e) a
Steps-trans a (more b c) = more (Steps-trans a b) c

-- What each step keeps, a run of steps keeps.
pub Steps-keep {κ} :
    {p : Event → Bool} {o : Options} (I : Ledger → Type κ)
    → ((l m : Ledger) → Step p o l m → I l → I m)
    → {l m : Ledger} → Steps p o l m
    → I l
    → I m
Steps-keep I kept (here e) h = subst I (sym e) h
Steps-keep I kept (more {m} {n} a b) h = kept m n b (Steps-keep I kept a h)

-- An action makes allowed steps only, whether it fails or not.
pub data Runs {A : Type 0} (p : Event → Bool) (o : Options) (m : State → Result Failure A × State)
    : Type 0 where
  runs : ((s : State) → Steps p o s.ledger (m s).1.ledger) → Runs p o m

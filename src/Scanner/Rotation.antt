-- ===== src/Scanner/Rotation.antt =====
-- The order in which the scan scheduler visits a receiver's targets.
use native.Mathlib.Nat.{mod-lt, mod-add-mod}
use wh_repeater.Common.{
  ℕ, zero, suc, ◌+◌, ◌%◌, ◌<◌, Bool, Option, none, some, List, [], ◌∷◌, length, get_elem?,
  get_elem?-lt, ◌≡◌, ap, sym, ◌∙◌, ◌⊎◌, inl, inr, arith,
}
use wh_repeater.Domain.{ScanTarget, ReceiverConfig}
use wh_repeater.Scanner.{Cursor, target_at, step}
use wh_repeater.Scanner.Retunes.{Observation, watch, record_call}

-- A step leaves the index alone and makes no call, or tunes to the target at the index and goes on
-- to the next one.
Turns : ReceiverConfig → Cursor → Cursor × Option ScanTarget → Type 0
Turns receiver c (c', target) =
    ((target ≡ none) × (c'.index ≡ c.index))
    ⊎ ((target ≡ target_at receiver.targets c.index)
        × (c'.index ≡ (c.index + 1) % length receiver.targets))

step-Turns :
    (receiver : ReceiverConfig) (locked : Bool) (now : ℕ) (c : Cursor)
    → Turns receiver c (step receiver locked now c)
unfolding step Turns
step-Turns receiver locked now c = ground arith

pub target_at-some :
    (targets : List ScanTarget) (i : ℕ)
    → 0 < length targets
    → (t : ScanTarget) × (target_at targets i ≡ some t)
target_at-some targets i h = get_elem?-lt targets (i % length targets) (mod-lt i h)

target_at-shift :
    (targets : List ScanTarget) (i k : ℕ)
    → 0 < length targets
    → target_at targets ((i + 1) % length targets + k) ≡ target_at targets (i + suc k)
target_at-shift targets i k h =
    ap (get_elem? targets)
      (mod-add-mod (i + 1) (length targets) k ∙ ap (λ (j : ℕ). j % length targets) (omega arith))

-- The k-th call of `tune` for a receiver goes to the target that lies k places behind the cursor,
-- counted round the list of its targets; so no target is passed over or repeated.
pub watch-round_robin :
    (receiver : ReceiverConfig) (c : Cursor) (os : List Observation) (k now : ℕ) (t : ScanTarget)
    → 0 < length receiver.targets
    → get_elem? (watch receiver c os).1 k ≡ some (now, t)
    → get_elem? receiver.targets ((c.index + k) % length receiver.targets) ≡ some t
unfolding watch Turns
watch-round_robin receiver c [] k now t h e = cc
watch-round_robin receiver c ((locked, at) ∷ os) k now t h e =
    follow k (step receiver locked at c).1 e (step-Turns receiver locked at c)
      (λ j. watch-round_robin receiver (step receiver locked at c).0 os j now t h)
  where
    follow :
        (j : ℕ) (o : Option ScanTarget)
        → get_elem? (record_call at o (watch receiver (step receiver locked at c).0 os).1) j
          ≡ some (now, t)
        → Turns receiver c ((step receiver locked at c).0, o)
        → ((i : ℕ)
            → get_elem? (watch receiver (step receiver locked at c).0 os).1 i ≡ some (now, t)
            → target_at receiver.targets ((step receiver locked at c).0.index + i) ≡ some t)
        → target_at receiver.targets (c.index + j) ≡ some t
    follow j none f (inl (_, same)) rest =
        ap (λ (x : ℕ). target_at receiver.targets (x + j)) (sym same) ∙ rest j f
    follow j none f (inr (lost, _)) rest =
        let (s, there) = target_at-some receiver.targets c.index h in cc
    follow j (some s) f (inl (none_made, _)) rest = cc
    follow zero (some s) f (inr (here, _)) rest =
        ap (λ (x : ℕ). target_at receiver.targets x) (omega arith)
        ∙ sym here
        ∙ ap some (ground arith)
    follow (suc j) (some s) f (inr (here, moved)) rest =
        sym (target_at-shift receiver.targets c.index j h)
        ∙ ap (λ (x : ℕ). target_at receiver.targets (x + j)) (sym moved)
        ∙ rest j f

-- ===== src/Daemon/Sources/Debounce.antt =====
-- The debounce of the analogue lock over successive rounds.
use wh_repeater.Common.{
  ℕ, ◌+◌, ◌≤◌, Bool, true, false, Option, none, some, List, [], ◌∷◌, leb, All, ◌≡◌, refl, ap, ◌∙◌,
  arith,
}
use wh_repeater.Daemon.Sources.{gate, analogue_sync_debounce}

-- The locks that pass in rounds with the given locks and times.
abbrev pub gate_all : Option ℕ → List (Bool × ℕ) → List Bool
gate_all since [] = []
gate_all since ((locked, now) ∷ rs) =
    (gate since locked now).1 ∷ gate_all (gate since locked now).0 rs

abbrev pub locked_at : List ℕ → List (Bool × ℕ)
locked_at [] = []
locked_at (t ∷ ts) = (true, t) ∷ locked_at ts

abbrev pub since_start : ℕ → List ℕ → List Bool
since_start start [] = []
since_start start (t ∷ ts) = leb (start + analogue_sync_debounce) t ∷ since_start start ts

gate_locked :
    (since t : ℕ)
    → since ≤ t
    → gate (some since) true t ≡ (some since, leb (since + analogue_sync_debounce) t)
unfolding gate
gate_locked since t h = ground arith

gate_all-locked :
    (since : ℕ) (ts : List ℕ)
    → All (λ t. since ≤ t) ts
    → gate_all (some since) (locked_at ts) ≡ since_start since ts
gate_all-locked since [] h = refl
gate_all-locked since (t ∷ ts) h =
    let e = gate_locked since t h.0 in
    let r = gate_all-locked since ts h.1 in
    rw e (ap (◌∷◌ (leb (since + analogue_sync_debounce) t)) r)

-- However long the lock was there before: after a round without lock, rounds with lock at `start` and
-- at later times pass it on exactly from 1.5 seconds after `start`.
pub gate_all_lem :
    (since : Option ℕ) (lost start : ℕ) (ts : List ℕ)
    → All (λ t. start ≤ t) ts
    → gate_all since ((false, lost) ∷ locked_at (start ∷ ts))
      ≡ false ∷ since_start start (start ∷ ts)
unfolding gate
gate_all_lem since lost start ts h =
    let e : gate none true start ≡ (some start, leb (start + analogue_sync_debounce) start) =
      ground arith in
    ap (λ x. false ∷ x.1 ∷ gate_all x.0 (locked_at ts)) e
    ∙ ap (λ x. false ∷ leb (start + analogue_sync_debounce) start ∷ x) (gate_all-locked start ts h)

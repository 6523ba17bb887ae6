-- ===== src/Scanner/Fleet.antt =====
-- `ScanScheduler::tick` over all receivers, seen from one of them.
use mathlib.Core.List.{Memᴰ}
use mathlib.Core.Path.{ap₂}
use wh_repeater.Common.{
  All-mem, subst, ℕ, true, false, Option, none, some, List, [], ◌∷◌, ◌++◌, map, ◌==◌, ==_refl,
  if◌then◌else◌, ◌≡◌, ◌≢◌, refl, ap, sym, ◌∙◌, arith, All, append-nil,
}
use wh_repeater.Domain.{ReceiverId, ReceiverStatus, ScanTarget, ReceiverConfig}
use wh_repeater.Scanner.{
  Cursor, ScanScheduler, no_targets, reports_lock, step, visit, visit_all, tick,
}
use wh_repeater.Scanner.Retunes.{Observation, watch, record_call}

-- No two entries of the configuration are for one receiver.
abbrev pub Distinct : List ReceiverConfig → Type 0
Distinct [] = Unit {0}
Distinct (c ∷ cs) = All (λ d. d.receiver ≢ c.receiver) cs × Distinct cs

-- The targets of the calls for one receiver, in order.
abbrev pub calls_for : ReceiverId → List (ReceiverId × ScanTarget) → List ScanTarget
calls_for id [] = []
calls_for id ((other, t) ∷ calls) =
    let rest = calls_for id calls in if other == id then t ∷ rest else rest

abbrev pub to_list : Option ScanTarget → List ScanTarget
to_list none = []
to_list (some t) = t ∷ []

calls_for-append :
    (id : ReceiverId) (xs ys : List (ReceiverId × ScanTarget))
    → calls_for id (xs ++ ys) ≡ calls_for id xs ++ calls_for id ys
calls_for-append id [] ys = refl
calls_for-append id ((other, t) ∷ xs) ys = ground (arith, calls_for-append id xs ys)

module _ {D : Type 0} (statuses : List (ReceiverStatus D)) (now : ℕ) where
  -- What a round leaves for the receiver `id`: its cursor, and the targets of its calls.
  seen :
      ReceiverId → (ReceiverId → Cursor) × List (ReceiverId × ScanTarget) → Cursor × List ScanTarget
  seen id (cursors, calls) = (cursors id, calls_for id calls)

  visit-other :
      (c : ReceiverConfig) (cursors : ReceiverId → Cursor) (id : ReceiverId)
      → c.receiver ≢ id
      → seen id (visit statuses now c cursors) ≡ (cursors id, [])
  unfolding visit seen
  visit-other c cursors id h = ground arith

  visit_self :
      (c : ReceiverConfig) (cursors : ReceiverId → Cursor)
      → c.enabled ≡ true
      → no_targets c.targets ≡ false
      → let (cursor, target) = step c (reports_lock statuses c.receiver) now (cursors c.receiver) in
        seen c.receiver (visit statuses now c cursors) ≡ (cursor, to_list target)
  unfolding visit seen
  visit_self c cursors h k = ground (arith, ==_refl c.receiver)

  visit_all-other :
      (cs : List ReceiverConfig) (cursors : ReceiverId → Cursor) (id : ReceiverId)
      → All (λ d. d.receiver ≢ id) cs
      → seen id (visit_all statuses now cs cursors) ≡ (cursors id, [])
  unfolding visit_all seen
  visit_all-other [] cursors id h = refl
  visit_all-other (c ∷ cs) cursors id h =
      let first = visit statuses now c cursors in
      ground (
        arith,
        visit-other c cursors id h.0,
        visit_all-other cs first.0 id h.1,
        calls_for-append id first.1 (visit_all statuses now cs first.0).1,
      )

  Stepped : ReceiverConfig → (ReceiverId → Cursor) → Cursor × List ScanTarget
  Stepped c cursors =
      let (cursor, target) = step c (reports_lock statuses c.receiver) now (cursors c.receiver) in
      (cursor, to_list target)

  visit_all-head :
      (c : ReceiverConfig) (cs : List ReceiverConfig) (cursors : ReceiverId → Cursor)
      → All (λ d. d.receiver ≢ c.receiver) cs
      → c.enabled ≡ true
      → no_targets c.targets ≡ false
      → seen c.receiver (visit_all statuses now (c ∷ cs) cursors) ≡ Stepped c cursors
  unfolding visit_all seen Stepped
  visit_all-head c cs cursors d h k =
      let first = visit statuses now c cursors in
      let calls = to_list (step c (reports_lock statuses c.receiver) now (cursors c.receiver)).1 in
      ground (
        arith,
        visit_self c cursors h k,
        visit_all-other cs first.0 c.receiver d,
        calls_for-append c.receiver first.1 (visit_all statuses now cs first.0).1,
        append-nil calls,
      )

  visit_all-receiver :
      (cs : List ReceiverConfig) (cursors : ReceiverId → Cursor) (c : ReceiverConfig)
      → Distinct cs
      → Memᴰ c cs
      → c.enabled ≡ true
      → no_targets c.targets ≡ false
      → seen c.receiver (visit_all statuses now cs cursors) ≡ Stepped c cursors
  unfolding visit_all seen Stepped
  visit_all-receiver [] cursors c d m h k = elim m [ ]
  visit_all-receiver (x ∷ cs) cursors c d (Memᴰ.head e) h k =
      subst (λ y. seen y.receiver (visit_all statuses now (x ∷ cs) cursors) ≡ Stepped y cursors)
        (sym e)
        (visit_all-head x cs cursors d.0 (ap (λ y. y.enabled) (sym e) ∙ h)
          (ap (λ y. no_targets y.targets) (sym e) ∙ k))
  visit_all-receiver (x ∷ cs) cursors c d (Memᴰ.tail m) h k =
      let first = visit statuses now x cursors in
      let apart = All-mem (λ y. y.receiver ≢ x.receiver) cs d.0 m in
      let other = visit-other x cursors c.receiver (λ e. apart (sym e)) in
      ground (
        arith,
        other,
        visit_all-receiver cs first.0 c d.1 m h k,
        calls_for-append c.receiver first.1 (visit_all statuses now cs first.0).1,
      )

-- The history of `tick` calls, each with the statuses that it is given and its time.
abbrev pub Reports : Type 0 → Type 0
Reports D = List (List (ReceiverStatus D) × ℕ)

-- What one receiver shows in each report.
abbrev pub observe : {D : Type 0} → ReceiverId → Reports D → List Observation
observe id [] = []
observe id ((statuses, now) ∷ rs) = (reports_lock statuses id, now) ∷ observe id rs

-- The calls of `tune` for one receiver over a history of ticks, each with its time.
abbrev pub calls_of : {D : Type 0} → ReceiverId → ScanScheduler → Reports D → List (ℕ × ScanTarget)
calls_of id s [] = []
calls_of id s ((statuses, now) ∷ rs) =
    let (s', calls) = tick s statuses now in
    map (λ t. (now, t)) (calls_for id calls) ++ calls_of id s' rs

record_call-to_list :
    (now : ℕ) (o : Option ScanTarget) (calls : List (ℕ × ScanTarget))
    → map (λ t. (now, t)) (to_list o) ++ calls ≡ record_call now o calls
record_call-to_list now none calls = refl
record_call-to_list now (some t) calls = refl

module _ {D : Type 0} (c : ReceiverConfig) (on : c.enabled ≡ true)
    (some_targets : no_targets c.targets ≡ false) where
  tick-seen :
      (s : ScanScheduler) (statuses : List (ReceiverStatus D)) (now : ℕ)
      → Distinct s.receivers
      → Memᴰ c s.receivers
      → let r = step c (reports_lock statuses c.receiver) now (s.cursors c.receiver) in
        ((tick s statuses now).0.cursors c.receiver ≡ r.0)
        × (calls_for c.receiver (tick s statuses now).1 ≡ to_list r.1)
        × ((tick s statuses now).0.receivers ≡ s.receivers)
  unfolding tick seen Stepped
  tick-seen s statuses now d m =
      let e = visit_all-receiver statuses now s.receivers s.cursors c d m on some_targets in
      (
        ap (λ (x : Cursor × List ScanTarget). x.0) e,
        ap (λ (x : Cursor × List ScanTarget). x.1) e,
        refl,
      )

  -- Where no two entries are for one receiver, an enabled receiver with targets is scanned by `tick`
  -- as if it stood alone: over any history of reports the calls of `tune` for it are those of `watch`
  -- at its own locks, and no other entry of the configuration changes them.
  pub tick-watch :
      (s : ScanScheduler) (rs : Reports D)
      → Distinct s.receivers
      → Memᴰ c s.receivers
      → calls_of c.receiver s rs ≡ (watch c (s.cursors c.receiver) (observe c.receiver rs)).1
  unfolding watch
  tick-watch s [] d m = refl
  tick-watch s ((statuses, now) ∷ rs) d m =
      let (cursor, calls, same) = tick-seen s statuses now d m in
      let s' = (tick s statuses now).0 in
      let r = step c (reports_lock statuses c.receiver) now (s.cursors c.receiver) in
      let rest =
        tick-watch s' rs (subst Distinct (sym same) d) (subst (Memᴰ c) (sym same) m)
        ∙ ap (λ x. (watch c x (observe c.receiver rs)).1) cursor in
      ap₂ (λ (x : List ScanTarget) (y : List (ℕ × ScanTarget)). map (λ t. (now, t)) x ++ y) calls
        rest
      ∙ record_call-to_list now r.1 (watch c r.0 (observe c.receiver rs)).1

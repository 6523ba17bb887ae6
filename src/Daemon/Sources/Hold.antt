-- ===== src/Daemon/Sources/Hold.antt =====
-- The hang time of the analogue input.
use wh_repeater.Common.{ℕ, ◌+◌, ◌<◌, ◌≤◌, Option, none, some, List, [], ◌∷◌, All, ◌≡◌, arith}
use wh_repeater.Domain.{ActiveInput, ReceiverId}
use wh_repeater.Daemon.Sources.{analogue, Selection, Round, select, hang_time_for_receiver}

module _ {D : Type 0} where
  -- The inputs of successive rounds, and the selection after them.
  abbrev pub actives : List (Round D) → Selection D → List (Option (ActiveInput D))
  actives [] s = []
  actives (r ∷ rs) s = (select r s).active ∷ actives rs (select r s)

  abbrev pub after : List (Round D) → Selection D → Selection D
  after [] s = s
  after (r ∷ rs) s = after rs (select r s)

  record Holding (a : ActiveInput D) (until : ℕ) (s : Selection D) : Type 0 where
    family : s.family ≡ some analogue
    held : s.held ≡ some a
    until_held : s.held_until ≡ until

  -- A round without analogue lock, before a time.
  abbrev pub Quiet : ReceiverId → ℕ → Round D → Type 0
  Quiet capture until r = (r.analogue_active ≡ none) × (r.capture ≡ capture) × (r.now < until)

  select-starts :
      (r : Round D) (s : Selection D) (a : ActiveInput D)
      → s.family ≡ some analogue
      → r.analogue_active ≡ some a
      → a.receiver ≡ r.capture
      → Holding a (r.now + hang_time_for_receiver r.receivers a.receiver) (select r s)
  unfolding select
  select-starts r s a f e c = ground arith

  select-holds :
      (r : Round D) (s : Selection D) (a : ActiveInput D) (until : ℕ)
      → Holding a until s
      → Quiet a.receiver until r
      → Holding a until (select r s) × ((select r s).active ≡ some a)
  unfolding select
  select-holds r s a until h q = ground arith

  select-releases :
      (r : Round D) (s : Selection D) (a : ActiveInput D) (until : ℕ)
      → Holding a until s
      → r.analogue_active ≡ none
      → until ≤ r.now
      → (select r s).active ≡ r.nim_active
  unfolding select
  select-releases r s a until h e l = ground arith

  select_silent :
      (rs : List (Round D)) (s : Selection D) (a : ActiveInput D) (until : ℕ)
      → Holding a until s
      → All (Quiet a.receiver until) rs
      → Holding a until (after rs s) × All (λ x. x ≡ some a) (actives rs s)
  select_silent [] s a until h q = (h, tt)
  select_silent (r ∷ rs) s a until h q =
      let (h₁, e) = select-holds r s a until h q.0 in
      let (h₂, es) = select_silent rs (select r s) a until h₁ q.1 in (h₂, (e, es))

  -- A round of the analogue family with an analogue lock, on the analogue input's own receiver
  -- number, starts the hang time. In all rounds without lock before its end that input stays the
  -- active one, whatever the tuners offer, and the first round without lock from its end on gives
  -- what the tuners offer then.
  pub actives-held :
      (r : Round D) (rs : List (Round D)) (last : Round D) (s : Selection D) (a : ActiveInput D)
      → s.family ≡ some analogue
      → r.analogue_active ≡ some a
      → a.receiver ≡ r.capture
      → let until = r.now + hang_time_for_receiver r.receivers a.receiver in
        All (Quiet a.receiver until) rs
        → last.analogue_active ≡ none
        → until ≤ last.now
        → All (λ x. x ≡ some a) (actives rs (select r s))
          × ((select last (after rs (select r s))).active ≡ last.nim_active)
  actives-held r rs last s a f e c q n l =
      let until = r.now + hang_time_for_receiver r.receivers a.receiver in
      let (h, es) = select_silent rs (select r s) a until (select-starts r s a f e c) q in
      (es, select-releases last (after rs (select r s)) a until h n l)

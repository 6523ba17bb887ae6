-- ===== src/Arbitrator/Choice.antt =====
-- `SignalArbitrator::choose` over its two paths, the held receiver and the scan.
use mathlib.Core.List.{Memᴰ}
use wh_repeater.Common.{
  Bool, true, false, Option, none, some, List, [], ◌∷◌, ◌==◌, ◌≡◌, ◌∙◌, ◌≢◌, ◌↔◌, refl, sym, ap,
  ◌⊎◌, inl, inr, arith, All, Bool-cases, Option-cases, find_if, ==_iff,
}
use wh_repeater.Domain.{ReceiverId, ReceiverStatus, ScanTarget, ActiveInput, Real}
use wh_repeater.Arbitrator.{
  Config, SignalArbitrator, is_usable, input_of, active_for_receiver, best_of, choose_best, choose,
  choose_held, choose_from, finish, active_input,
}
use wh_repeater.Arbitrator.Best.{
  is_candidate, Unbeaten, best_of-Unbeaten, best_of-member, best_of-none,
}

module _ (real : Real) where
  open real use {Carrier}

  -- What every input that the arbitrator hands out satisfies.
  pub record Sound (config : Config Carrier) (ss : List (ReceiverStatus Carrier))
      (i : ActiveInput Carrier) : Type 0 where
    pub reported : Memᴰ i.status ss
    pub usable : is_usable real config i.status ≡ true
    pub tuned : i.status.target ≡ some i.target
    pub same_receiver : i.receiver ≡ i.status.receiver

  find_if-member :
      (p : ReceiverStatus Carrier → Bool) (s : ReceiverStatus Carrier)
      (ss : List (ReceiverStatus Carrier))
      → find_if p ss ≡ some s
      → Memᴰ s ss × (p s ≡ true)
  find_if-member p s [] h = cc
  find_if-member p s (x ∷ ss) h = elim (Bool-cases (p x)) [
    | inl hit ↦ let e : s ≡ x = ground arith in (Memᴰ.head e, rw e hit)
    | inr miss ↦ let (m, c) = find_if-member p s ss (ground arith) in (Memᴰ.tail m, c)
  ]

  input_of_lem :
      (config : Config Carrier) (s : ReceiverStatus Carrier) (i : ActiveInput Carrier)
      → input_of real config s ≡ some i
      → (is_usable real config s ≡ true)
        × (s.target ≡ some i.target)
        × (i.status ≡ s)
        × (i.receiver ≡ s.receiver)
  input_of_lem config s i h = ground arith

  active_for_receiver-Sound :
      (config : Config Carrier) (ss : List (ReceiverStatus Carrier)) (id : ReceiverId)
      (i : ActiveInput Carrier)
      → active_for_receiver real config ss id ≡ some i
      → Sound config ss i × (i.receiver ≡ id)
  unfolding active_for_receiver
  active_for_receiver-Sound config ss id i h =
      found (Option-cases (find_if (λ s. s.receiver == id) ss))
    where
      found :
          (find_if (λ (s : ReceiverStatus Carrier). s.receiver == id) ss ≡ none)
            ⊎ ((s : ReceiverStatus Carrier) × (find_if
                    (λ (t : ReceiverStatus Carrier). t.receiver == id)
                    ss
                  ≡ some s))
          → Sound config ss i × (i.receiver ≡ id)
      found (inl gone) = cc
      found (inr (s, e)) =
          let (m, c) = find_if-member (λ t. t.receiver == id) s ss e in
          let (u, t, q, r) = input_of_lem config s i (ground (arith, e)) in
          (
            record { reported = rw q m; usable = rw q u; tuned = rw q t; same_receiver = cc },
            ground (arith, (==_iff s.receiver id).0 c),
          )

  is_candidate-target :
      (config : Config Carrier) (s : ReceiverStatus Carrier)
      → is_candidate real config s ≡ true
      → (is_usable real config s ≡ true) × (s.target ≢ none)
  is_candidate-target config s h = ground arith

  finish_lem :
      (a a' : SignalArbitrator Carrier) (r : Option (ReceiverStatus Carrier))
      (i : ActiveInput Carrier)
      → finish real a r ≡ (a', some i)
      → (r ≡ some i.status)
        × (i.status.target ≡ some i.target)
        × (i.receiver ≡ i.status.receiver)
        × (a' ≡ record a { active_receiver = some i.receiver })
  finish_lem a a' none i h = ground arith
  finish_lem a a' (some b) i h = ground arith

  -- What the scan of all statuses hands out.
  pub record Scanned (a a' : SignalArbitrator Carrier) (ss : List (ReceiverStatus Carrier))
      (i : ActiveInput Carrier) : Type 0 where
    pub sound : Sound a.config ss i
    pub unbeaten : Unbeaten real a.config i.status ss
    pub taken : a' ≡ record a { active_receiver = some i.receiver }

  choose_best-Scanned :
      (a a' : SignalArbitrator Carrier) (ss : List (ReceiverStatus Carrier))
      (i : ActiveInput Carrier)
      → choose_best real a ss ≡ (a', some i)
      → Scanned a a' ss i
  unfolding choose_best
  choose_best-Scanned a a' ss i h =
      let (e, t, r, n) = finish_lem a a' (best_of real a.config none ss) i h in
      elim (best_of-member real a.config none i.status ss e) [
        | inl absent ↦ cc
        | inr (m, c) ↦ record {
          sound = record {
            reported = m;
            usable = (is_candidate-target a.config i.status c).0;
            tuned = t;
            same_receiver = r;
          };
          unbeaten = best_of-Unbeaten real a.config none i.status ss e;
          taken = n;
        }
      ]

  Scanned-released :
      (a a' : SignalArbitrator Carrier) (ss : List (ReceiverStatus Carrier))
      (i : ActiveInput Carrier)
      → Scanned (record a { active_receiver = none }) a' ss i
      → Scanned a a' ss i
  Scanned-released a a' ss i s = record { sound = s.sound; unbeaten = s.unbeaten; taken = s.taken }

  -- The held receiver with a usable signal, and nothing else changed.
  pub record Held (a a' : SignalArbitrator Carrier) (ss : List (ReceiverStatus Carrier))
      (i : ActiveInput Carrier) : Type 0 where
    pub sound : Sound a.config ss i
    pub held : a.active_receiver ≡ some i.receiver
    pub kept : a' ≡ a

  choose_held-cases :
      (a a' : SignalArbitrator Carrier) (id : ReceiverId) (ss : List (ReceiverStatus Carrier))
      (i : ActiveInput Carrier)
      → a.active_receiver ≡ some id
      → (o : Option (ActiveInput Carrier)) → active_for_receiver real a.config ss id ≡ o
      → choose_held real a ss o ≡ (a', some i)
      → Held a a' ss i ⊎ Scanned a a' ss i
  choose_held-cases a a' id ss i held none e h =
      inr (Scanned-released a a' ss i (choose_best-Scanned _ a' ss i h))
  choose_held-cases a a' id ss i held (some j) e h =
      let p : j ≡ i = ground arith in
      let (s, r) = active_for_receiver-Sound a.config ss id i (e ∙ ap some p) in
      inl (record { sound = s; held = held ∙ ap some (sym r); kept = ground arith })

  -- Any input that is handed out comes from a reported status with a usable signal, and is either
  -- the receiver that was held, with the state unchanged, or one that no candidate beats, which is
  -- held from then on.
  pub choose-Held_or_Scanned :
      (a a' : SignalArbitrator Carrier) (ss : List (ReceiverStatus Carrier))
      (i : ActiveInput Carrier)
      → choose real a ss ≡ (a', some i)
      → Held a a' ss i ⊎ Scanned a a' ss i
  unfolding choose
  choose-Held_or_Scanned a a' ss i h = elim (Option-cases a.active_receiver) [
    | inl e ↦ inr (choose_best-Scanned a a' ss i (ap (choose_from real a ss) (sym e) ∙ h))
    | inr (id, e) ↦
        choose_held-cases a a' id ss i e (active_for_receiver real a.config ss id) refl
          (ap (choose_from real a ss) (sym e) ∙ h)
  ]

  -- After an input was handed out, its receiver is held and the configuration is the same.
  choose-holds :
      (a a' : SignalArbitrator Carrier) (ss : List (ReceiverStatus Carrier))
      (i : ActiveInput Carrier)
      → choose real a ss ≡ (a', some i)
      → (a'.active_receiver ≡ some i.receiver) × (a'.config ≡ a.config)
  choose-holds a a' ss i h = elim (choose-Held_or_Scanned a a' ss i h) [
    | inl held ↦ (rw held.kept held.held, rw held.kept refl)
    | inr scanned ↦ (rw scanned.taken refl, rw scanned.taken refl)
  ]

  active_for_receiver-first :
      (config : Config Carrier) (ss : List (ReceiverStatus Carrier)) (id : ReceiverId)
      (s : ReceiverStatus Carrier) (t : ScanTarget)
      → find_if (λ u. u.receiver == id) ss ≡ some s
      → is_usable real config s ≡ true
      → s.target ≡ some t
      → active_for_receiver real config ss id ≡ some (active_input real s t)
  unfolding active_for_receiver
  active_for_receiver-first config ss id s t f u e = ground (arith, f)

  -- Once a receiver is chosen, the next poll chooses it again, whatever the other receivers do, as
  -- long as its first reported status is usable and has a target; the state stays as it is.
  pub choose-sticky :
      (a a' : SignalArbitrator Carrier) (ss next : List (ReceiverStatus Carrier))
      (i : ActiveInput Carrier) (s : ReceiverStatus Carrier)
      → choose real a ss ≡ (a', some i)
      → find_if (λ t. t.receiver == i.receiver) next ≡ some s
      → is_candidate real a.config s ≡ true
      → (j : ActiveInput Carrier) × (choose real a' next ≡ (a', some j))
        × (j.receiver ≡ i.receiver)
        × (j.status ≡ s)
  unfolding choose
  choose-sticky a a' ss next i s h f c =
      let (held, same) = choose-holds a a' ss i h in
      elim (Option-cases s.target) [
        | inl gone ↦ absurd ((is_candidate-target a.config s c).1 gone)
        | inr (t, e) ↦ (
          active_input real s t,
          ap (choose_from real a' next) held
              ∙ ap (choose_held real a' next) (
                  active_for_receiver-first a'.config next i.receiver s t f
                    (rw same (is_candidate-target a.config s c).0) e),
          (==_iff s.receiver i.receiver).0
              (find_if-member (λ u. u.receiver == i.receiver) s next f).1,
          refl,
        )
      ]

  NoCandidate : Config Carrier → List (ReceiverStatus Carrier) → Type 0
  NoCandidate config = All (λ s. is_candidate real config s ≡ false)

  not-Sound :
      (config : Config Carrier) (ss : List (ReceiverStatus Carrier)) (i : ActiveInput Carrier)
      → NoCandidate config ss
      → ¬ Sound config ss i
  unfolding NoCandidate
  not-Sound config ss i none_there s = absent ss none_there s.reported
    where
      absent : (xs : List (ReceiverStatus Carrier)) → NoCandidate config xs → ¬ Memᴰ i.status xs
      absent [] q m = elim m [ ]
      absent (x ∷ xs) q (Memᴰ.head e) =
          let here : is_candidate real config i.status ≡ false = rw e q.0 in
          ground (arith, here, s.usable, s.tuned)
      absent (x ∷ xs) q (Memᴰ.tail m) = absent xs q.1 m

  -- Neither path hands out an input, and no receiver is held afterwards.
  Idle : SignalArbitrator Carrier × Option (ActiveInput Carrier) → Type 0
  Idle r = (r.1 ≡ none) × (r.0.active_receiver ≡ none)

  choose_best-none :
      (a : SignalArbitrator Carrier) (ss : List (ReceiverStatus Carrier))
      → a.active_receiver ≡ none
      → ((choose_best real a ss).1 ≡ none → NoCandidate a.config ss)
        × (NoCandidate a.config ss → Idle (choose_best real a ss))
  unfolding choose_best NoCandidate Idle
  choose_best-none a ss free = (
    λ h. elim (Option-cases (best_of real a.config none ss)) [
      | inl e ↦ (best_of-none real a.config ss).0 e
      | inr (b, e) ↦ elim (best_of-member real a.config none b ss e) [
        | inl absent ↦ cc
        | inr (m, c) ↦
            absurd ((is_candidate-target a.config b c).1 (ground (arith, ap (finish real a) e)))
      ]
    ],
    λ q.
        let e = ap (finish real a) ((best_of-none real a.config ss).1 q) in
        (
          ap (λ (r : SignalArbitrator Carrier × Option (ActiveInput Carrier)). r.1) e,
          ap (λ (r : SignalArbitrator Carrier × Option (ActiveInput Carrier)). r.0.active_receiver)
                e
              ∙ free,
        ),
  )

  choose_from-none :
      (a : SignalArbitrator Carrier) (ss : List (ReceiverStatus Carrier)) (o : Option ReceiverId)
      → a.active_receiver ≡ o
      → ((choose_from real a ss o).1 ≡ none → NoCandidate a.config ss)
        × (NoCandidate a.config ss → Idle (choose_from real a ss o))
  choose_from-none a ss none e = choose_best-none a ss e
  choose_from-none a ss (some id) e =
      elim (Option-cases (active_for_receiver real a.config ss id)) [
        | inl gone ↦ rw gone (choose_best-none (record a { active_receiver = none }) ss refl)
        | inr (i, found) ↦ (
          λ h. cc (ap (choose_held real a ss) found),
          λ q.
              absurd
                (not-Sound a.config ss i q (active_for_receiver-Sound a.config ss id i found).0),
        )
      ]

  -- No input is handed out exactly when no reported status is usable with a target, and then no
  -- receiver is held any more.
  pub choose-none :
      (a : SignalArbitrator Carrier) (ss : List (ReceiverStatus Carrier))
      → (((choose real a ss).1 ≡ none) ↔ All (λ s. is_candidate real a.config s ≡ false) ss)
        × ((choose real a ss).1 ≡ none → (choose real a ss).0.active_receiver ≡ none)
  unfolding choose NoCandidate Idle
  choose-none a ss =
      let (there, back) = choose_from-none a ss a.active_receiver refl in
      ((there, λ q. (back q).0), λ h. (back (there h)).1)

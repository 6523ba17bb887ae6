-- ===== src/Arbitrator/Best.antt =====
-- The scan of `SignalArbitrator::choose` over all the statuses.
use mathlib.Core.List.{Memᴰ}
use wh_repeater.Common.{
  Bool, true, false, ◌&&◌, Option, none, some, List, [], ◌∷◌, is_some, ◌≡◌, refl, ◌⊎◌, inl, inr,
  arith, All, Bool-cases, Option-cases, ◌↔◌, ◌≢◌,
}
use wh_repeater.Domain.{ReceiverStatus, Real}
use wh_repeater.Arbitrator.{Config, is_usable, is_better, mer_or_zero, consider, best_of}

module _ (real : Real) where
  open real use {Carrier, lt, lt_irrefl, lt_trans}

  -- A status that the scan does not skip.
  abbrev pub is_candidate : Config Carrier → ReceiverStatus Carrier → Bool
  is_candidate config status = is_usable real config status && is_some status.target

  -- `b` is not beaten by any candidate of the list.
  abbrev pub Unbeaten :
      Config Carrier → ReceiverStatus Carrier → List (ReceiverStatus Carrier) → Type 0
  Unbeaten config b = All (λ s. is_candidate config s ≡ true → is_better real config s b ≡ false)

  is_better_irrefl :
      (config : Config Carrier) (a : ReceiverStatus Carrier) → is_better real config a a ≡ false
  unfolding is_better
  is_better_irrefl config a = ground (arith, lt_irrefl (mer_or_zero real a))

  is_better_trans :
      (config : Config Carrier) (a b c : ReceiverStatus Carrier)
      → is_better real config a b ≡ true
      → is_better real config b c ≡ true
      → is_better real config a c ≡ true
  unfolding is_better
  is_better_trans config a b c h k =
      ground (arith, lt_trans (mer_or_zero real c) (mer_or_zero real b) (mer_or_zero real a))

  consider_skips :
      (config : Config Carrier) (s : ReceiverStatus Carrier)
      (best : Option (ReceiverStatus Carrier))
      → is_candidate config s ≡ false
      → consider real config s best ≡ best
  unfolding consider
  consider_skips config s best h = ground arith

  consider_first :
      (config : Config Carrier) (s : ReceiverStatus Carrier)
      → is_candidate config s ≡ true
      → consider real config s none ≡ some s
  unfolding consider
  consider_first config s h = ground arith

  consider_better :
      (config : Config Carrier) (s b : ReceiverStatus Carrier)
      → is_candidate config s ≡ true
      → is_better real config s b ≡ true
      → consider real config s (some b) ≡ some s
  unfolding consider
  consider_better config s b h k = ground arith

  consider_not_better :
      (config : Config Carrier) (s b : ReceiverStatus Carrier)
      → is_better real config s b ≡ false
      → consider real config s (some b) ≡ some b
  unfolding consider
  consider_not_better config s b h = ground arith

  Climbs : Config Carrier → ReceiverStatus Carrier → ReceiverStatus Carrier → Type 0
  Climbs config b b₀ = (b ≡ b₀) ⊎ (is_better real config b b₀ ≡ true)

  best_of-Climbs :
      (config : Config Carrier) (b₀ b : ReceiverStatus Carrier) (ss : List (ReceiverStatus Carrier))
      → best_of real config (some b₀) ss ≡ some b
      → Climbs config b b₀
  unfolding best_of Climbs
  best_of-Climbs config b₀ b [] h = inl (ground arith)
  best_of-Climbs config b₀ b (s ∷ ss) h = elim (Bool-cases (is_candidate config s)) [
    | inr skipped ↦
        best_of-Climbs config b₀ b ss (rw (consider_skips config s (some b₀) skipped) at h)
    | inl kept ↦ elim (Bool-cases (is_better real config s b₀)) [
      | inr worse ↦ best_of-Climbs config b₀ b ss (rw (consider_not_better config s b₀ worse) at h)
      | inl better ↦
          let step =
            best_of-Climbs config s b ss (rw (consider_better config s b₀ kept better) at h) in
          ground (arith, step, is_better_trans config b s b₀)
    ]
  ]

  not-is_better_of_Climbs :
      (config : Config Carrier) (s b₀ b : ReceiverStatus Carrier)
      → is_better real config s b₀ ≡ false
      → Climbs config b b₀
      → is_better real config s b ≡ false
  unfolding Climbs
  not-is_better_of_Climbs config s b₀ b h (inl e) = rw e h
  not-is_better_of_Climbs config s b₀ b h (inr k) = elim (Bool-cases (is_better real config s b)) [
    | inl up ↦ cc (is_better_trans config s b b₀ up k)
    | inr down ↦ down
  ]

  -- The scan's result is beaten by no candidate that it saw.
  pub best_of-Unbeaten :
      (config : Config Carrier) (best : Option (ReceiverStatus Carrier))
      (b : ReceiverStatus Carrier) (ss : List (ReceiverStatus Carrier))
      → best_of real config best ss ≡ some b
      → Unbeaten config b ss
  unfolding best_of
  best_of-Unbeaten config best b [] h = tt
  best_of-Unbeaten config none b (s ∷ ss) h = (
    λ kept.
        not-is_better_of_Climbs config s s b (is_better_irrefl config s)
          (best_of-Climbs config s b ss (rw (consider_first config s kept) at h)),
    best_of-Unbeaten config (consider real config s none) b ss h,
  )
  best_of-Unbeaten config (some b₀) b (s ∷ ss) h = (
    λ kept. elim (Bool-cases (is_better real config s b₀)) [
      | inl better ↦
          not-is_better_of_Climbs config s s b (is_better_irrefl config s)
            (best_of-Climbs config s b ss (rw (consider_better config s b₀ kept better) at h))
      | inr worse ↦
          not-is_better_of_Climbs config s b₀ b worse
            (best_of-Climbs config b₀ b ss (rw (consider_not_better config s b₀ worse) at h))
    ],
    best_of-Unbeaten config (consider real config s (some b₀)) b ss h,
  )

  consider_cases :
      (config : Config Carrier) (s : ReceiverStatus Carrier)
      (best : Option (ReceiverStatus Carrier))
      → (consider real config s best ≡ best)
        ⊎ ((consider real config s best ≡ some s) × (is_candidate config s ≡ true))
  unfolding consider
  consider_cases config s best = ground arith

  -- The result is what the scan began with, or a candidate of the list.
  pub best_of-member :
      (config : Config Carrier) (best : Option (ReceiverStatus Carrier))
      (b : ReceiverStatus Carrier) (ss : List (ReceiverStatus Carrier))
      → best_of real config best ss ≡ some b
      → (best ≡ some b) ⊎ (Memᴰ b ss × (is_candidate config b ≡ true))
  unfolding best_of
  best_of-member config best b [] h = inl h
  best_of-member config best b (s ∷ ss) h =
      found (consider_cases config s best)
        (best_of-member config (consider real config s best) b ss h)
    where
      found :
          (consider real config s best ≡ best)
            ⊎ ((consider real config s best ≡ some s) × (is_candidate config s ≡ true))
          → (consider real config s best ≡ some b) ⊎ (Memᴰ b ss × (is_candidate config b ≡ true))
          → (best ≡ some b) ⊎ (Memᴰ b (s ∷ ss) × (is_candidate config b ≡ true))
      found step (inr (m, c)) = inr (Memᴰ.tail m, c)
      found (inl same) (inl e) = inl (cc)
      found (inr (taken, c)) (inl e) = let p : b ≡ s = ground arith in inr (Memᴰ.head p, rw p c)

  consider-some :
      (config : Config Carrier) (s b : ReceiverStatus Carrier)
      → consider real config s (some b) ≢ none
  unfolding consider
  consider-some config s b h = ground arith

  pub best_of-some :
      (config : Config Carrier) (b : ReceiverStatus Carrier) (ss : List (ReceiverStatus Carrier))
      → best_of real config (some b) ss ≢ none
  unfolding best_of
  best_of-some config b [] h = cc
  best_of-some config b (s ∷ ss) h = elim (Option-cases (consider real config s (some b))) [
    | inl gone ↦ consider-some config s b gone
    | inr (c, e) ↦ best_of-some config c ss (rw e at h)
  ]

  -- The scan finds nothing exactly when there is no candidate.
  pub best_of-none :
      (config : Config Carrier) (ss : List (ReceiverStatus Carrier))
      → (best_of real config none ss ≡ none) ↔ All (λ s. is_candidate config s ≡ false) ss
  unfolding best_of
  best_of-none config [] = (λ _. tt, λ _. refl)
  best_of-none config (s ∷ ss) = elim (Bool-cases (is_candidate config s)) [
    | inl kept ↦ (
      λ h. absurd (best_of-some config s ss (rw (consider_first config s kept) at h)),
      λ h. cc (h.0),
    )
    | inr skipped ↦ (
      λ h. (skipped, (best_of-none config ss).0 (rw (consider_skips config s none skipped) at h)),
      λ h. rw (consider_skips config s none skipped) ((best_of-none config ss).1 h.1),
    )
  ]

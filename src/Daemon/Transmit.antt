-- ===== src/Daemon/Transmit.antt =====
-- The access notice and the transmitter's switch in the loop of src/daemon.cpp. `mediaForcedTransmit`
-- is what the media pipeline reports, an input of each round; the notice's text is left out.
use wh_repeater.Common.{
  ℕ, ◌+◌, ◌<◌, ◌≤◌, Bool, true, false, not, ◌&&◌, ◌||◌, Option, none, some, is_some, List, [], ◌∷◌,
  leb, if◌then◌else◌, All, ◌≡◌, refl, ap, ◌∙◌, arith,
}
use wh_repeater.Domain.{ReceiverConfig, ActiveInput}
use wh_repeater.Daemon.Sources.{hang_time_for_receiver}

pub record Notice : Type 0 where
  pub shown : Bool
  pub until : ℕ

pub record Switch (D : Type 0) : Type 0 where
  pub receivers : List ReceiverConfig
  pub gateway_mode : Bool
  pub fallback_enabled : Bool
  pub forced : Bool
  pub beacon_allowed : Bool
  pub now : ℕ
  pub active : Option (ActiveInput D)

module _ {D : Type 0} where
  unfoldable pub update_notice : Switch D → Notice → Notice
  update_notice r n = elim (r.active) [
    | some a ↦ record {
      shown = true;
      until = r.now + hang_time_for_receiver r.receivers a.receiver;
    }
    | none ↦ if n.shown && leb n.until r.now then record n { shown = false } else n
  ]

  -- What `setTransmitEnabled` is called with, with the notice of this round.
  unfoldable pub transmit_enabled : Switch D → Notice → Bool
  transmit_enabled r n =
      not r.gateway_mode
      && (r.forced || (is_some r.active || r.fallback_enabled && (r.beacon_allowed || n.shown)))

  -- The switch in successive rounds.
  abbrev pub transmits : List (Switch D) → Notice → List Bool
  transmits [] n = []
  transmits (r ∷ rs) n = transmit_enabled r (update_notice r n) ∷ transmits rs (update_notice r n)

  abbrev pub notice_after : List (Switch D) → Notice → Notice
  notice_after [] n = n
  notice_after (r ∷ rs) n = notice_after rs (update_notice r n)

  -- A round of a local repeater with its fallback on, without input, before a time.
  abbrev pub Idle : ℕ → Switch D → Type 0
  Idle until r =
      (r.active ≡ none) × (r.gateway_mode ≡ false) × (r.fallback_enabled ≡ true) × (r.now < until)

  transmit_enabled_hung :
      (r : Switch D) (n : Notice)
      → n.shown ≡ true
      → Idle n.until r
      → (update_notice r n ≡ n) × (transmit_enabled r (update_notice r n) ≡ true)
  unfolding update_notice transmit_enabled
  transmit_enabled_hung r n s i = ground arith

  transmits_hung :
      (rs : List (Switch D)) (n : Notice)
      → n.shown ≡ true
      → All (Idle n.until) rs
      → (notice_after rs n ≡ n) × All (λ x. x ≡ true) (transmits rs n)
  transmits_hung [] n s h = (refl, tt)
  transmits_hung (r ∷ rs) n s h =
      let (e, t) = transmit_enabled_hung r n s h.0 in
      let (es, ts) = transmits_hung rs n s h.1 in (rw e es, (t, rw e ts))

  notice_starts :
      (r : Switch D) (n : Notice) (a : ActiveInput D)
      → r.active ≡ some a
      → update_notice r n
        ≡ record { shown = true; until = r.now + hang_time_for_receiver r.receivers a.receiver }
  unfolding update_notice
  notice_starts r n a e = rw e refl

  notice_ends :
      (r : Switch D) (n : Notice)
      → n.shown ≡ true
      → r.active ≡ none
      → r.gateway_mode ≡ false
      → r.fallback_enabled ≡ true
      → r.forced ≡ false
      → n.until ≤ r.now
      → transmit_enabled r (update_notice r n) ≡ r.beacon_allowed
  unfolding update_notice transmit_enabled
  notice_ends r n s l g f o u = ground arith

  -- After a round with an input, a local repeater with its fallback on goes on to transmit in all
  -- rounds before the end of the receiver's hang time, beacon schedule or not; in the first round from
  -- its end on that has no input and no forced transmission, it transmits exactly when the beacon is
  -- allowed.
  pub transmits-hang :
      (r : Switch D) (rs : List (Switch D)) (last : Switch D) (n : Notice) (a : ActiveInput D)
      → r.active ≡ some a
      → let until = r.now + hang_time_for_receiver r.receivers a.receiver in
        All (Idle until) rs
        → last.active ≡ none
        → last.gateway_mode ≡ false
        → last.fallback_enabled ≡ true
        → last.forced ≡ false
        → until ≤ last.now
        → let m = notice_after rs (update_notice r n) in
          All (λ x. x ≡ true) (transmits rs (update_notice r n))
          × (transmit_enabled last (update_notice last m) ≡ last.beacon_allowed)
  transmits-hang r rs last n a e q l g f o u =
      let start : Notice = record {
        shown = true;
        until = r.now + hang_time_for_receiver r.receivers a.receiver;
      } in
      let (stays, on) = transmits_hung rs start refl q in
      rw (notice_starts r n a e) (
        on,
        ap (λ m. transmit_enabled last (update_notice last m)) stays
            ∙ notice_ends last start refl l g f o u,
      )

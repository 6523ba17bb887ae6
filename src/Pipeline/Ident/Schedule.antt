-- ===== src/Pipeline/Ident/Schedule.antt =====
-- The ident comes regularly.
use wh_repeater.Common.{
  ℕ, zero, suc, ◌+◌, ◌*◌, ◌<◌, Bool, true, false, not, ◌&&◌, ◌||◌, length, ltb, leb, ◌==◌,
  if◌then◌else◌, ◌≡◌, refl, ◌∙◌, arith, Bool-cases, inl, inr,
}
use wh_repeater.Pipeline.Ident.{
  IdentConfig, IdentState, new_ident, morse_frames, begin_ident, is_identing,
  ident_active_for_frame,
}

-- The muxer asks once for each frame, from frame 0 on, at any sample: the state and the answer at a frame.
pub at_frame : IdentConfig → (ℕ → ℕ) → ℕ → IdentState × Bool
at_frame c samples zero = ident_active_for_frame c (samples 0) 0 (new_ident c)
at_frame c samples (suc n) =
    ident_active_for_frame c (samples (suc n)) (suc n) (at_frame c samples n).0

-- The frames since the last ident's begin, when one begins every so many frames; and whether it is
-- still the first.
pub since : ℕ → ℕ → ℕ
since period zero = 0
since period (suc n) = let k = since period n + 1 in if k == period then 0 else k

pub is_first : ℕ → ℕ → Bool
is_first period zero = true
is_first period (suc n) = is_first period n && not (since period n + 1 == period)

abbrev period_of : IdentConfig → ℕ
period_of c = c.interval * c.frame_rate

-- The state behind a frame.
record Follows (c : IdentConfig) (n : ℕ) (s : IdentState) : Type 0 where
  started : s.ident_start_frame + since (period_of c) n ≡ n
  due : s.next_ident_frame ≡ s.ident_start_frame + period_of c
  ends : s.ident_end_frame ≡ s.ident_start_frame + morse_frames c (is_first (period_of c) n)
  within : since (period_of c) n < period_of c
  later : s.first_ident ≡ false

module _ (c : IdentConfig) (samples : ℕ → ℕ) (on : c.enabled ≡ true) (regular : 0 < c.interval)
    (moving : 0 < c.interval * c.frame_rate) (keyed : 0 < length c.morse_units) where
  enabled_guard : (not c.enabled || c.interval == 0 || length c.morse_units == 0) ≡ false
  enabled_guard = ground arith

  asks : (sample n : ℕ) (s : IdentState) → IdentState
  asks sample n s = if leb s.next_ident_frame n then begin_ident c sample n s else s

  ident_active-asks :
      (sample n : ℕ) (s : IdentState)
      → ident_active_for_frame c sample n s ≡ (asks sample n s, is_identing n (asks sample n s))
  unfolding ident_active_for_frame asks
  ident_active-asks sample n s = rw enabled_guard refl

  asks-Follows :
      (sample n : ℕ) (s : IdentState) → Follows c n s → Follows c (suc n) (asks sample (suc n) s)
  unfolding asks since is_first
  asks-Follows sample n s v = elim (Bool-cases (since (period_of c) n + 1 == period_of c)) [
    | inl e ↦ ground arith
    | inr e ↦ ground arith
  ]

  new_ident-Follows : (sample : ℕ) → Follows c 0 (asks sample 0 (new_ident c))
  unfolding asks since is_first
  new_ident-Follows sample = ground arith

  at_frame-Follows : (n : ℕ) → Follows c n (at_frame c samples n).0
  unfolding at_frame
  at_frame-Follows zero =
      rw (ident_active-asks (samples 0) 0 (new_ident c)) (new_ident-Follows (samples 0))
  at_frame-Follows (suc n) =
      rw (ident_active-asks (samples (suc n)) (suc n) (at_frame c samples n).0)
        (asks-Follows (samples (suc n)) n (at_frame c samples n).0 (at_frame-Follows n))

  answer : (n : ℕ) → (at_frame c samples n).1 ≡ is_identing n (at_frame c samples n).0
  unfolding at_frame
  answer zero = rw (ident_active-asks (samples 0) 0 (new_ident c)) refl
  answer (suc n) = rw (ident_active-asks (samples (suc n)) (suc n) (at_frame c samples n).0) refl

  identing :
      (n : ℕ) (s : IdentState)
      → Follows c n s
      → is_identing n s ≡ ltb (since (period_of c) n) (morse_frames c (is_first (period_of c) n))
  identing n s v = ground arith

  -- Asked once for each frame from the first one on, an ident that is on, of an interval and with a keying, begins with frame 0 and then with each interval's first frame. It is active from its begin for ten seconds the first time, and later for five seconds or as long as its keying takes, and at no other frame.
  pub at_frame_lem :
      (n : ℕ)
      → (at_frame c samples n).1
        ≡ ltb
            (since (c.interval * c.frame_rate) n)
            (morse_frames c (is_first (c.interval * c.frame_rate) n))
  at_frame_lem n = let v = at_frame-Follows n in answer n ∙ identing n (at_frame c samples n).0 v

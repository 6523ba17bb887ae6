-- ===== src/Pipeline/Ident.antt =====
-- When the ident is on, in FallbackMuxer of src/media_pipeline.cpp. Frames and samples count from 0 and
-- stay under 2^63.
pub mod Schedule
use wh_repeater.Common.{
  ℕ, zero, suc, ◌+◌, ◌-◌, ◌*◌, ◌/◌, ◌^◌, Bool, true, false, not, ◌&&◌, ◌||◌, Option, none, some,
  List, [], ◌∷◌, length, get_elem?, ltb, leb, ◌==◌, if◌then◌else◌, max,
}

abbrev pub int64_max : ℕ
int64_max = 2 ^ 63 - 1

abbrev pub audio_sample_rate : ℕ
audio_sample_rate = 48000

pub record IdentConfig : Type 0 where
  pub enabled : Bool
  pub interval : ℕ
  pub frame_rate : ℕ
  pub morse_units : List Bool
  pub morse_unit_samples : ℕ

pub record IdentState : Type 0 where
  pub next_ident_frame : ℕ
  pub ident_start_frame : ℕ
  pub ident_end_frame : ℕ
  pub ident_start_sample : ℕ
  pub first_ident : Bool

abbrev pub new_ident : IdentConfig → IdentState
new_ident c = record {
  next_ident_frame = if ltb 0 c.interval then 0 else int64_max;
  ident_start_frame = int64_max;
  ident_end_frame = 0;
  ident_start_sample = int64_max;
  first_ident = true;
}

-- How many frames an ident takes: ten seconds the first time, then five or as many as its keying.
abbrev pub morse_frames : IdentConfig → Bool → ℕ
morse_frames c true = c.frame_rate * 10
morse_frames c false = max (c.frame_rate * 5) (
    (length c.morse_units * c.morse_unit_samples * c.frame_rate + audio_sample_rate - 1)
    / audio_sample_rate)

-- The next ident begins, at a frame and at the audio's sample.
abbrev pub begin_ident : IdentConfig → ℕ → ℕ → IdentState → IdentState
begin_ident c sample frame s = record {
  next_ident_frame = frame + c.interval * c.frame_rate;
  ident_start_frame = frame;
  ident_end_frame = frame + morse_frames c s.first_ident;
  ident_start_sample = sample;
  first_ident = false;
}

abbrev pub is_identing : ℕ → IdentState → Bool
is_identing frame s = leb s.ident_start_frame frame && ltb frame s.ident_end_frame

unfoldable pub ident_active_for_frame : IdentConfig → ℕ → ℕ → IdentState → IdentState × Bool
ident_active_for_frame c sample frame s =
    if not c.enabled || c.interval == 0 || length c.morse_units == 0
    then (s, false)
    else let s' = (if leb s.next_ident_frame frame then begin_ident c sample frame s else s) in
      (s', is_identing frame s')

abbrev pub is_on : Option Bool → Bool
is_on none = false
is_on (some unit) = unit

unfoldable pub morse_tone_at_sample : IdentConfig → ℕ → IdentState → Bool
morse_tone_at_sample c sample s =
    if ltb sample s.ident_start_sample || length c.morse_units == 0
    then false
    else is_on (get_elem? c.morse_units ((sample - s.ident_start_sample) / c.morse_unit_samples))

-- The keying of an access notice's end, which has times of its own.
pub record NoticeMorse : Type 0 where
  pub pending : Bool
  pub active : Bool
  pub played_for_notice : Bool
  pub start_sample : ℕ
  pub end_sample : ℕ

abbrev pub new_notice : NoticeMorse
new_notice = record {
  pending = false;
  active = false;
  played_for_notice = false;
  start_sample = int64_max;
  end_sample = 0;
}

unfoldable pub arm_notice_morse_if_pending : List Bool → ℕ → ℕ → NoticeMorse → NoticeMorse
arm_notice_morse_if_pending units unit_samples sample s =
    if not s.pending || length units == 0 then s else record {
      pending = false;
      active = true;
      played_for_notice = true;
      start_sample = sample;
      end_sample = sample + length units * unit_samples;
    }

unfoldable pub notice_morse_tone_at_sample : List Bool → ℕ → ℕ → NoticeMorse → Bool
notice_morse_tone_at_sample units unit_samples sample s =
    if not s.active || ltb sample s.start_sample || leb s.end_sample sample || length units == 0
    then false
    else is_on (get_elem? units ((sample - s.start_sample) / unit_samples))

-- ===== src/Config/Rates.antt =====
-- The names and the rates of the transmitter in src/config.cpp. A value that the code refuses with an
-- exception is none.
pub mod Mux
use wh_repeater.Common.{
  ℕ, ◌+◌, ◌-◌, ◌*◌, ◌/◌, ◌%◌, ◌^◌, ◌≤◌, ◌<◌, Bool, true, false, ◌||◌, Option, none, some, List, [],
  ◌∷◌, ltb, leb, ◌==◌, if◌then◌else◌, ◌≡◌, refl, ap, ◌∙◌, ◌⊎◌, inl, inr, arith, text, text_eq,
  text_eq→eq, Bool-cases, All, subst, sym, before, behind,
}
use native.Mathlib.Nat.{mul-le-mul, mul-le-mul_left, div-le_of_le-mul}
use wh_repeater.Domain.{Text, Antenna, top, bottom, DvbSystem, dvbs, dvbs2, unknown}
use wh_repeater.Client.Response.{skip_spaces, unsigned}
use wh_repeater.Pluto.Sink.{PlutoConfig}

abbrev pub any_of : Text → List Text → Bool
any_of value [] = false
any_of value (name ∷ names) = text_eq value name || any_of value names

unfoldable pub parse_antenna : Text → Option Antenna
parse_antenna value =
    if text_eq value (text "top")
    then some top
    else if text_eq value (text "bottom")
    then some bottom
    else none

unfoldable pub parse_system : Text → Option DvbSystem
parse_system value =
    if text_eq value (text "auto")
    then some unknown
    else if text_eq value (text "dvbs")
    then some dvbs
    else if text_eq value (text "dvbs2")
    then some dvbs2
    else none

abbrev pub antenna_name : Antenna → Text
antenna_name top = text "top"
antenna_name bottom = text "bottom"

abbrev pub system_name : DvbSystem → Text
system_name dvbs = text "dvbs"
system_name dvbs2 = text "dvbs2"
system_name unknown = text "auto"

abbrev pub fec_values : List Text
fec_values =
    text "auto"
    ∷ text "1/4"
    ∷ text "1/3"
    ∷ text "2/5"
    ∷ text "1/2"
    ∷ text "3/5"
    ∷ text "2/3"
    ∷ text "3/4"
    ∷ text "4/5"
    ∷ text "5/6"
    ∷ text "7/8"
    ∷ text "8/9"
    ∷ []

unfoldable pub parse_fec : Text → Option Text
parse_fec value =
    if any_of value fec_values
    then some value
    else if text_eq value (text "9/10")
    then some (text "9/10")
    else none

-- `std::stoul`: spaces, a sign and digits; a negative number wraps, one of 2^64 or more is refused.
abbrev pub in_range : Option ℕ → Option ℕ
in_range none = none
in_range (some n) = if leb (2 ^ 64) n then none else some n

abbrev pub negated : Option ℕ → Option ℕ
negated none = none
negated (some n) = some ((2 ^ 64 - n) % 2 ^ 64)

abbrev pub signed : Text → Option ℕ
signed [] = none
signed (c ∷ t) =
    if c == 43
    then in_range (unsigned t)
    else if c == 45
    then negated (in_range (unsigned t))
    else in_range (unsigned (c ∷ t))

abbrev pub stoul : Text → Option ℕ
stoul t = signed (skip_spaces t)

abbrev pub fraction_of : Option ℕ → Option ℕ → Option (ℕ × ℕ)
fraction_of (some n) (some d) =
    let numerator = n % 2 ^ 32 in
    let denominator = d % 2 ^ 32 in
    if numerator == 0 || denominator == 0 || ltb denominator numerator
    then none
    else some (numerator, denominator)
fraction_of _ _ = none

abbrev pub fraction_in : Text → Option Text → Option (ℕ × ℕ)
fraction_in front none = none
fraction_in front (some rest) = fraction_of (stoul front) (stoul rest)

unfoldable pub fec_fraction : Text → Option (ℕ × ℕ)
fec_fraction fec = fraction_in (before 47 fec) (behind 47 fec)

unfoldable pub constellation_bits : Text → Text → Option ℕ
constellation_bits system constellation =
    if text_eq system (text "dvbs")
    then some 2
    else if text_eq constellation (text "qpsk")
    then some 2
    else if text_eq constellation (text "8psk")
    then some 3
    else if text_eq constellation (text "16apsk")
    then some 4
    else if text_eq constellation (text "32apsk")
    then some 5
    else none

abbrev pub u64 : ℕ → ℕ
u64 n = n % 2 ^ 64

abbrev pub floor_divide : ℕ → ℕ → Option ℕ
floor_divide numerator denominator =
    if denominator == 0 then none else some (numerator / denominator)

abbrev pub to_kbps : Option ℕ → Option ℕ
to_kbps none = none
to_kbps (some bps) = some (bps / 1000 % 2 ^ 32)

abbrev pub mux_rate : Bool → ℕ → Option (ℕ × ℕ) → Option ℕ → Option ℕ
mux_rate is_dvbs symbol_rate (some (fec_numerator, fec_denominator)) (some bits) =
    let numerator = u64 (symbol_rate * bits * fec_numerator) in
    to_kbps (
      floor_divide (if is_dvbs then u64 (numerator * 188) else numerator)
        (if is_dvbs then fec_denominator * 204 else fec_denominator))
mux_rate is_dvbs symbol_rate _ _ = none

unfoldable pub calculate_pluto_mux_rate_kbps : PlutoConfig → Option ℕ
calculate_pluto_mux_rate_kbps config =
    mux_rate (text_eq config.system (text "dvbs")) config.symbol_rate_s (fec_fraction config.fec)
      (constellation_bits config.system config.constellation)

abbrev pub video_rate : ℕ → Option ℕ → Option ℕ
video_rate audio none = none
video_rate audio (some rate) = if leb rate audio then some 1 else some (rate - audio)

unfoldable pub calculate_pluto_video_bitrate_kbps : ℕ → PlutoConfig → Option ℕ
calculate_pluto_video_bitrate_kbps audio config =
    video_rate audio (calculate_pluto_mux_rate_kbps config)

-- What is written is read again.
parse_antenna-antenna_name : (a : Antenna) → parse_antenna (antenna_name a) ≡ some a
unfolding parse_antenna
parse_antenna-antenna_name top = refl
parse_antenna-antenna_name bottom = refl

parse_system-system_name : (s : DvbSystem) → parse_system (system_name s) ≡ some s
unfolding parse_system
parse_system-system_name dvbs = refl
parse_system-system_name dvbs2 = refl
parse_system-system_name unknown = refl

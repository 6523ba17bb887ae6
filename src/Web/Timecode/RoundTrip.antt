-- ===== src/Web/Timecode/RoundTrip.antt =====
-- A printed time code of src/api_server.cpp is read as the position it was printed for.
use wh_repeater.Common.{
  ℕ, ◌+◌, ◌*◌, ◌/◌, ◌%◌, ◌<◌, false, some, [], ◌∷◌, ◌++◌, ◌≡◌, refl, ap, ◌∙◌, arith, Lacks,
  Lacks-append, length, All, subst, append-nil, split, before-append, behind-append, split-append,
  split-Lacks,
}
use wh_repeater.Common.Int.{ℤ, pos, negsuc, pos_part}
use wh_repeater.Domain.{Text}
use wh_repeater.Web.Timecode.{
  is_blank, fraction_digits, padded, trim_json, drop_blanks, put_kept, seconds_of, position_of,
  parts_of, parse_timecode, format_total, format_timecode,
}
use wh_repeater.Web.Timecode.Digits.{
  IsDigits, padded-IsDigits, IsDigits-Lacks, length-padded, length-decimal, parse_digits-padded,
  parse_whole-padded, fraction_digits-parse_digits,
}

-- No blanks.
abbrev pub IsSolid : Text → Type 0
IsSolid text = All (λ ch. is_blank ch ≡ false) text

IsDigits-IsSolid : (xs ys : Text) → IsDigits xs → IsSolid ys → IsSolid (xs ++ ys)
IsDigits-IsSolid [] ys h k = k
IsDigits-IsSolid (x ∷ xs) ys h k = (ground arith, IsDigits-IsSolid xs ys h.1 k)

drop_blanks-IsSolid : (xs : Text) → IsSolid xs → drop_blanks xs ≡ xs
drop_blanks-IsSolid [] h = refl
drop_blanks-IsSolid (x ∷ []) h = rw h.0 refl
drop_blanks-IsSolid (x ∷ y ∷ xs) h = ap (put_kept x) (drop_blanks-IsSolid (y ∷ xs) h.1)

trim_json-IsSolid : (xs : Text) → IsSolid xs → trim_json xs ≡ xs
trim_json-IsSolid [] h = refl
trim_json-IsSolid (x ∷ xs) h = rw h.0 (drop_blanks-IsSolid (x ∷ xs) h)

-- Seconds and thousandths as `format_total` prints them.
abbrev pub seconds_text : ℕ → ℕ → Text
seconds_text s f = padded 2 s ++ 46 ∷ padded 3 f

fraction_digits-padded : (f : ℕ) → f < 1000 → fraction_digits 3 0 (padded 3 f) ≡ f
fraction_digits-padded f h =
    let l = length-decimal f h f in
    let e : length (padded 3 f) ≡ 3 = length-padded 3 f ∙ omega arith in
    subst (λ k. fraction_digits k 0 (padded 3 f) ≡ f) e
      (fraction_digits-parse_digits 0 f (padded 3 f) (padded-IsDigits 3 f)
        (parse_digits-padded 3 f))

seconds_of-seconds_text : (s f : ℕ) → f < 1000 → seconds_of (seconds_text s f) ≡ some (s * 1000 + f)
unfolding seconds_of
seconds_of-seconds_text s f h =
    let lacks : Lacks 46 (padded 2 s) = IsDigits-Lacks 46 (padded 2 s) refl (padded-IsDigits 2 s) in
    rw (before-append 46 (padded 2 s) (padded 3 f) lacks) (
      rw (behind-append 46 (padded 2 s) (padded 3 f) lacks)
        (rw (parse_whole-padded s) (ap (λ k. some (s * 1000 + k)) (fraction_digits-padded f h))))

abbrev pub time_text : ℕ → ℕ → ℕ → ℕ → Text
time_text h m s f = padded 2 h ++ 58 ∷ (padded 2 m ++ 58 ∷ seconds_text s f)

position_of-split :
    (h m s f : ℕ)
    → f < 1000
    → position_of (split 58 (time_text h m s f))
      ≡ some (s * 1000 + f + m * 60 * 1000 + h * 60 * 60 * 1000)
unfolding position_of
position_of-split h m s f l =
    let digits : (n : ℕ) → Lacks 58 (padded 2 n) =
      λ n. IsDigits-Lacks 58 (padded 2 n) refl (padded-IsDigits 2 n) in
    let last : Lacks 58 (seconds_text s f) =
      Lacks-append 58 (padded 2 s) (46 ∷ padded 3 f) (digits s)
        (refl, IsDigits-Lacks 58 (padded 3 f) refl (padded-IsDigits 3 f)) in
    rw (split-append 58 (padded 2 h) (padded 2 m ++ 58 ∷ seconds_text s f) (digits h)) (
      rw (split-append 58 (padded 2 m) (seconds_text s f) (digits m)) (
        rw (split-Lacks 58 (seconds_text s f) last) (
          rw (seconds_of-seconds_text s f l)
            (rw (parse_whole-padded m) (rw (parse_whole-padded h) refl)))))

time_text-IsSolid : (h m s f : ℕ) → IsSolid (time_text h m s f)
time_text-IsSolid h m s f = IsDigits-IsSolid (padded 2 h) _ (padded-IsDigits 2 h) (
  refl,
  IsDigits-IsSolid (padded 2 m) _ (padded-IsDigits 2 m) (
    refl,
    IsDigits-IsSolid (padded 2 s) _ (padded-IsDigits 2 s) (
      refl,
      subst IsSolid (append-nil (padded 3 f))
          (IsDigits-IsSolid (padded 3 f) [] (padded-IsDigits 3 f) tt),
    ),
  ),
)

parts_of-append :
    (xs : Text) (c : ℕ) (ys : Text)
    → parts_of (xs ++ c ∷ ys) ≡ position_of (split 58 (xs ++ c ∷ ys))
parts_of-append [] c ys = refl
parts_of-append (x ∷ xs) c ys = refl

pub parse_timecode-format_total : (total : ℕ) → parse_timecode (format_total total) ≡ some total
unfolding parse_timecode format_total
parse_timecode-format_total total =
    let h = total / 3600000 in
    let m = total % 3600000 / 60000 in
    let s = total % 3600000 % 60000 / 1000 in
    let f = total % 3600000 % 60000 % 1000 in
    rw (trim_json-IsSolid (time_text h m s f) (time_text-IsSolid h m s f)) (
      parts_of-append (padded 2 h) 58 (padded 2 m ++ 58 ∷ seconds_text s f)
      ∙ position_of-split h m s f (omega arith)
      ∙ ap some (omega arith))

-- `parseTimecode` reads what `formatTimecode` prints, for every position: it gives the same number of milliseconds again, and 0 for a position before the start. The numbers are not bounded here, as long as the source's fit 63 bits.
pub parse_timecode-format_timecode :
    (position : ℤ) → parse_timecode (format_timecode position) ≡ some (pos_part position)
unfolding format_timecode
parse_timecode-format_timecode (pos total) = parse_timecode-format_total total
parse_timecode-format_timecode (negsuc n) = parse_timecode-format_total 0

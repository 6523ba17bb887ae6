-- ===== src/Client/Response.antt =====
-- The answers that GatewayStatusClient reads, in src/gateway_status_client.cpp.
use wh_repeater.Common.{
  ℕ, ◌+◌, ◌-◌, ◌*◌, Bool, true, false, ◌||◌, ◌&&◌, Option, none, some, [], ◌∷◌, ◌++◌, ◌⊎◌, inl, inr,
  length, ltb, leb, ◌==◌, if◌then◌else◌, text, behind, is_some,
}
use wh_repeater.Domain.{Text}
use wh_repeater.Web.Timecode.{is_digit}

pub record HttpResponse : Type 0 where
  pub status : ℕ
  pub body : Text

pub data Error : Type 0 where
  lookup_failed connect_failed request_timed_out request_failed read_failed : Error
  missing_headers missing_status invalid_status : Error
  was_http : Text → ℕ → Error
  not_json : Text → Error
  missing_active : Error

abbrev pub starts : Text → Text → Option Text
starts [] t = some t
starts (p ∷ pattern) [] = none
starts (p ∷ pattern) (c ∷ t) = if p == c then starts pattern t else none

abbrev pub put_before : ℕ → Option (Text × Text) → Option (Text × Text)
put_before c none = none
put_before c (some (front, rest)) = some (c ∷ front, rest)

-- `find`: what stands before the first occurrence of a pattern, and what stands behind it.
unfoldable pub find_text : Text → Text → Option (Text × Text)
find_text pattern [] = elim (starts pattern []) [ none ↦ none | some rest ↦ some ([], rest) ]
find_text pattern (c ∷ t) =
    let later = put_before c (find_text pattern t) in
    elim (starts pattern (c ∷ t)) [ none ↦ later | some rest ↦ some ([], rest) ]

-- `std::isspace`.
abbrev pub is_space : ℕ → Bool
is_space c = c == 32 || leb 9 c && leb c 13

abbrev pub skip_spaces : Text → Text
skip_spaces [] = []
skip_spaces (c ∷ t) = if is_space c then skip_spaces t else c ∷ t

abbrev pub digits : ℕ → Text → ℕ
digits n [] = n
digits n (c ∷ t) = if is_digit c then digits (n * 10 + (c - 48)) t else n

-- `std::strtol` of a number from 0, which is what the caller accepts: none is no digit or a sign "-".
abbrev pub unsigned : Text → Option ℕ
unsigned [] = none
unsigned (c ∷ t) = if is_digit c then some (digits 0 (c ∷ t)) else none

abbrev pub strtol : Text → Option ℕ
strtol [] = none
strtol (c ∷ t) = if c == 43 then unsigned t else unsigned (c ∷ t)

abbrev pub accept_status : Option ℕ → Text → Error ⊎ HttpResponse
accept_status none body = inl invalid_status
accept_status (some status) body =
    if ltb status 100 || ltb 599 status
    then inl invalid_status
    else inr (record { status = status; body = body })

-- At least three characters stand behind the first space.
abbrev pub parse_status : Option Text → Text → Error ⊎ HttpResponse
parse_status none body = inl missing_status
parse_status (some code) body =
    if ltb (length code) 3
    then inl missing_status
    else accept_status (strtol (skip_spaces code)) body

abbrev pub status_line : Option (Text × Text) → Text
status_line none = []
status_line (some (line, rest)) = line

abbrev pub parse_parts : Text → Option (Text × Text) → Error ⊎ HttpResponse
parse_parts response none = inl missing_headers
parse_parts response (some (headers, body)) =
    parse_status (behind 32 (status_line (find_text (13 ∷ 10 ∷ []) response))) body

unfoldable pub parse_response : Text → Error ⊎ HttpResponse
parse_response response = parse_parts response (find_text (13 ∷ 10 ∷ 13 ∷ 10 ∷ []) response)

abbrev pub bool_at : Text → Option Bool
bool_at t =
    if is_some (starts (text "true") t)
    then some true
    else if is_some (starts (text "false") t)
    then some false
    else none

abbrev pub bool_behind : Option Text → Option Bool
bool_behind none = none
bool_behind (some t) = bool_at (skip_spaces t)

abbrev pub bool_in : Option (Text × Text) → Option Bool
bool_in none = none
bool_in (some (front, rest)) = bool_behind (behind 58 rest)

unfoldable pub json_bool_member : Text → Text → Option Bool
json_bool_member object name = bool_in (find_text (34 ∷ name ++ 34 ∷ []) object)

-- ===== src/Client/Answers.antt =====
-- The answers of src/api_server.cpp (writeResponse), as src/gateway_status_client.cpp reads them.
use wh_repeater.Common.{
  ℕ, ◌+◌, ◌-◌, ◌*◌, ◌≤◌, Bool, true, false, not, ◌||◌, ◌&&◌, Option, none, some, [], ◌∷◌, ◌++◌,
  length, ltb, ◌==◌, if◌then◌else◌, ◌≡◌, refl, ap, ◌∙◌, ◌⊎◌, inr, arith, text, decimal, behind,
  Lacks, Lacks-append, if_else, &&-true,
}
use wh_repeater.Domain.{Text}
use wh_repeater.Web.Timecode.{is_digit}
use wh_repeater.Web.Timecode.Digits.{decimal-IsDigits, IsDigits-Lacks}
use wh_repeater.Client.{crlf}
use wh_repeater.Client.Response.{
  HttpResponse, Error, starts, put_before, find_text, is_space, skip_spaces, digits, strtol,
  accept_status, parse_status, status_line, parse_parts, parse_response,
}

-- The text of `writeResponse`.
abbrev pub response_text : Text → Text → Text → Text
response_text status content_type body =
    (text "HTTP/1.1 " ++ status)
    ++ (crlf
        ++ ((text "Content-Type: " ++ content_type)
            ++ (crlf
                ++ ((text "Content-Length: " ++ decimal (length body) (length body))
                    ++ (crlf
                        ++ (text "Cache-Control: no-store"
                            ++ (crlf
                                ++ (text "Connection: close" ++ (crlf ++ (crlf ++ body))))))))))

abbrev second : Option (Text × Text) → Option Text
second none = none
second (some (front, rest)) = some rest

second-put_before : (c : ℕ) (o : Option (Text × Text)) → second (put_before c o) ≡ second o
second-put_before c none = refl
second-put_before c (some (front, rest)) = refl

find_text-none :
    (pattern : Text) (c : ℕ) (t : Text)
    → starts pattern (c ∷ t) ≡ none
    → find_text pattern (c ∷ t) ≡ put_before c (find_text pattern t)
unfolding find_text
find_text-none pattern c t h = rw (find_text, h) refl

find_text_step :
    (pattern : Text) (c : ℕ) (t : Text)
    → (c == 13) ≡ false
    → find_text (13 ∷ pattern) (c ∷ t) ≡ put_before c (find_text (13 ∷ pattern) t)
find_text_step pattern c t h =
    let e : (13 == c) ≡ false = ground arith in
    find_text-none (13 ∷ pattern) c t (ap (λ b. if b then starts pattern t else none) e)

-- A line without a carriage return is passed over.
second-find_text :
    (pattern line t : Text)
    → Lacks 13 line
    → second (find_text (13 ∷ pattern) (line ++ t)) ≡ second (find_text (13 ∷ pattern) t)
second-find_text pattern [] t h = refl
second-find_text pattern (c ∷ line) t h =
    ap second (find_text_step pattern c (line ++ t) h.0)
    ∙ second-put_before c (find_text (13 ∷ pattern) (line ++ t))
    ∙ second-find_text pattern line t h.1

-- The end of the first line.
find_text_line :
    (line t : Text) → Lacks 13 line → find_text crlf (line ++ (crlf ++ t)) ≡ some (line, t)
unfolding find_text
find_text_line [] t h = refl
find_text_line (c ∷ line) t h =
    find_text_step (10 ∷ []) c (line ++ (crlf ++ t)) h.0
    ∙ ap (put_before c) (find_text_line line t h.1)

abbrev ends : Text
ends = 13 ∷ 10 ∷ 13 ∷ 10 ∷ []

-- A line that another one follows.
find_text_next :
    (line : Text) (c : ℕ) (t : Text)
    → Lacks 13 line
    → (c == 13) ≡ false
    → second (find_text ends (line ++ (crlf ++ (c ∷ t)))) ≡ second (find_text ends (c ∷ t))
find_text_next line c t h k =
    second-find_text (10 ∷ 13 ∷ 10 ∷ []) line (crlf ++ (c ∷ t)) h
    ∙ ap second (
        find_text-none ends 13 (10 ∷ c ∷ t) (
          let e : (13 == c) ≡ false = ground arith in
          ap (λ b. if b then starts (10 ∷ []) t else none) e))
    ∙ second-put_before 13 (find_text ends (10 ∷ c ∷ t))
    ∙ ap second (find_text-none ends 10 (c ∷ t) refl)
    ∙ second-put_before 10 (find_text ends (c ∷ t))

find_text_last :
    (line body : Text)
    → Lacks 13 line
    → second (find_text ends (line ++ (crlf ++ (crlf ++ body)))) ≡ some body
unfolding find_text
find_text_last line body h = second-find_text (10 ∷ 13 ∷ 10 ∷ []) line (crlf ++ (crlf ++ body)) h

parse_parts-second :
    (response body : Text) (o : Option (Text × Text))
    → second o ≡ some body
    → parse_parts response o ≡ parse_status (behind 32 (status_line (find_text crlf response))) body
parse_parts-second response body none e = absurd (cc)
parse_parts-second response body (some (front, rest)) e =
    ap (λ b. parse_status (behind 32 (status_line (find_text crlf response))) b)
      (ap (λ o. elim o [ none ↦ rest | some x ↦ x ]) e)

abbrev pub status_text : ℕ → ℕ → ℕ → Text → Text
status_text a b c reason = (48 + a) ∷ (48 + b) ∷ (48 + c) ∷ 32 ∷ reason

skip_spaces-digit : (a : ℕ) (t : Text) → a ≤ 9 → skip_spaces ((48 + a) ∷ t) ≡ (48 + a) ∷ t
skip_spaces-digit a t h = let e : is_space (48 + a) ≡ false = ground arith in rw e refl

digits_step :
    (n a : ℕ) (t : Text) → a ≤ 9 → digits n ((48 + a) ∷ t) ≡ digits (n * 10 + (48 + a - 48)) t
digits_step n a t h = let e : is_digit (48 + a) ≡ true = ground arith in rw e refl

strtol-digit : (a : ℕ) (t : Text) → a ≤ 9 → strtol ((48 + a) ∷ t) ≡ some (digits 0 ((48 + a) ∷ t))
strtol-digit a t h =
    let e : (48 + a == 43) ≡ false = ground arith in
    let d : is_digit (48 + a) ≡ true = ground arith in rw (e, d) refl

strtol-status_text :
    (a b c : ℕ) (reason : Text)
    → a ≤ 9
    → b ≤ 9
    → c ≤ 9
    → strtol (skip_spaces (status_text a b c reason)) ≡ some (a * 100 + b * 10 + c)
strtol-status_text a b c reason h i j =
    ap strtol (skip_spaces-digit a ((48 + b) ∷ (48 + c) ∷ 32 ∷ reason) h)
    ∙ strtol-digit a ((48 + b) ∷ (48 + c) ∷ 32 ∷ reason) h
    ∙ ap some (
        digits_step 0 a ((48 + b) ∷ (48 + c) ∷ 32 ∷ reason) h
        ∙ digits_step (0 * 10 + (48 + a - 48)) b ((48 + c) ∷ 32 ∷ reason) i
        ∙ digits_step ((0 * 10 + (48 + a - 48)) * 10 + (48 + b - 48)) c (32 ∷ reason) j
        ∙ omega arith)

accept_status_lem :
    (status : ℕ) (body : Text)
    → 100 ≤ status
    → status ≤ 599
    → accept_status (some status) body ≡ inr (record { status = status; body = body })
accept_status_lem status body h k =
    let e : (ltb status 100 || ltb 599 status) ≡ false = ground arith in rw e refl

parse_status-digits :
    (a b c : ℕ) (reason body : Text)
    → 1 ≤ a
    → a ≤ 5
    → b ≤ 9
    → c ≤ 9
    → parse_status (some (status_text a b c reason)) body
      ≡ inr (record { status = a * 100 + b * 10 + c; body = body })
parse_status-digits a b c reason body l h i j =
    if_else
      (λ (r : Error ⊎ HttpResponse).
        r ≡ inr (record { status = a * 100 + b * 10 + c; body = body }))
      (ltb (length (status_text a b c reason)) 3) _ (ground arith)
      (ap (λ n. accept_status n body) (strtol-status_text a b c reason (omega arith) i j)
        ∙ accept_status_lem (a * 100 + b * 10 + c) body (omega arith) (omega arith))

abbrev lacks : ℕ → Text → Bool
lacks c [] = true
lacks c (x ∷ t) = not (x == c) && lacks c t

lacks-Lacks : (c : ℕ) (t : Text) → lacks c t ≡ true → Lacks c t
lacks-Lacks c [] e = tt
lacks-Lacks c (x ∷ t) e =
    let (a, b) = &&-true (not (x == c)) (lacks c t) e in (ground arith, lacks-Lacks c t b)

decimal-Lacks : (n : ℕ) → Lacks 13 (decimal n n)
decimal-Lacks n = IsDigits-Lacks 13 (decimal n n) refl (decimal-IsDigits n n)

-- An answer of the server, of a status from 100 to 599 with a reason and a content type without a
-- carriage return, is read by the client as that status and the same body, whatever bytes the body has.
pub parse_response-response_text :
    (a b c : ℕ) (reason content_type body : Text)
    → 1 ≤ a
    → a ≤ 5
    → b ≤ 9
    → c ≤ 9
    → Lacks 13 reason
    → Lacks 13 content_type
    → parse_response (response_text (status_text a b c reason) content_type body)
      ≡ inr (record { status = a * 100 + b * 10 + c; body = body })
unfolding parse_response
parse_response-response_text a b c reason content_type body l h i j plain plain_type =
    parse_parts-second response body (find_text ends response) passed
    ∙ ap (λ line. parse_status (behind 32 (status_line line)) body)
        (find_text_line (text "HTTP/1.1 " ++ status_text a b c reason) _ first)
    ∙ parse_status-digits a b c reason body l h i j
  where
    response : Text
    response = response_text (status_text a b c reason) content_type body

    first : Lacks 13 (text "HTTP/1.1 " ++ status_text a b c reason)
    first =
        Lacks-append 13 (text "HTTP/1.1 ") (status_text a b c reason)
          (lacks-Lacks 13 (text "HTTP/1.1 ") refl)
          (ground arith, (ground arith, (ground arith, (refl, plain))))

    passed : second (find_text ends response) ≡ some body
    passed =
        find_text_next (text "HTTP/1.1 " ++ status_text a b c reason) _ _ first refl
        ∙ find_text_next (text "Content-Type: " ++ content_type) _ _
            (Lacks-append 13 (text "Content-Type: ") content_type
              (lacks-Lacks 13 (text "Content-Type: ") refl) plain_type)
            refl
        ∙ find_text_next (text "Content-Length: " ++ decimal (length body) (length body)) _ _
            (Lacks-append 13 (text "Content-Length: ") (decimal (length body) (length body))
              (lacks-Lacks 13 (text "Content-Length: ") refl) (decimal-Lacks (length body)))
            refl
        ∙ find_text_next (text "Cache-Control: no-store") _ _
            (lacks-Lacks 13 (text "Cache-Control: no-store") refl) refl
        ∙ find_text_last (text "Connection: close") body
            (lacks-Lacks 13 (text "Connection: close") refl)

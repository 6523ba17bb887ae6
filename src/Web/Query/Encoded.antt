-- ===== src/Web/Query/Encoded.antt =====
-- Query strings with the percent escapes of urlEncode in src/gateway_status_client.cpp, and what
-- src/api_server.cpp reads in them.
use wh_repeater.Common.{
  ℕ, ◌+◌, ◌/◌, ◌%◌, ◌<◌, Bool, false, ◌&&◌, ◌||◌, Option, none, some, List, [], ◌∷◌, Bool-cases,
  inl, inr, ◌++◌, ltb, leb, ◌==◌, if◌then◌else◌, ◌≡◌, refl, ap, ◌∙◌, arith, All, text_eq, split,
  Lacks, Lacks-append, before-append, behind-append, split-append, split-Lacks,
}
use wh_repeater.Domain.{Text}
use wh_repeater.Web.Query.{hex_value, url_decode, find_item, query_parameter}

-- Letters, digits, "-", ".", "_" and "~".
abbrev pub is_unreserved : ℕ → Bool
is_unreserved ch =
    leb 48 ch && leb ch 57
    || leb 65 ch && leb ch 90
    || leb 97 ch && leb ch 122
    || ch == 45
    || ch == 46
    || ch == 95
    || ch == 126

abbrev pub hex_digit : ℕ → ℕ
hex_digit d = if ltb d 10 then 48 + d else 55 + d

-- The percent encoding of RFC 3986.
unfoldable pub url_encode : Text → Text
url_encode [] = []
url_encode (ch ∷ rest) =
    let encoded : Text = url_encode rest in
    if is_unreserved ch
    then ch ∷ encoded
    else 37 ∷ hex_digit (ch / 16) ∷ hex_digit (ch % 16) ∷ encoded

abbrev pub IsBytes : Text → Type 0
IsBytes text = All (λ ch. ch < 256) text

hex_value-hex_digit : (d : ℕ) → d < 16 → hex_value (hex_digit d) ≡ some d
unfolding hex_value
hex_value-hex_digit d h = ground arith

url_decode_plain :
    (ch : ℕ) (rest : Text)
    → (ch == 43) ≡ false
    → (ch == 37) ≡ false
    → url_decode (ch ∷ rest) ≡ ch ∷ url_decode rest
unfolding url_decode
url_decode_plain ch [] h k = rw h refl
url_decode_plain ch (a ∷ []) h k = rw h refl
url_decode_plain ch (a ∷ b ∷ rest) h k = rw h (rw k refl)

url_decode_escape :
    (ch : ℕ) (rest : Text)
    → ch < 256
    → url_decode (37 ∷ hex_digit (ch / 16) ∷ hex_digit (ch % 16) ∷ rest) ≡ ch ∷ url_decode rest
unfolding url_decode
url_decode_escape ch rest h =
    rw (hex_value-hex_digit (ch / 16) (omega arith)) (
      rw (hex_value-hex_digit (ch % 16) (omega arith))
        (ap (λ c. c ∷ url_decode rest) (omega arith)))

url_decode_nil : url_decode [] ≡ []
unfolding url_decode
url_decode_nil = refl

-- `urlDecode` gives every text of bytes back from its percent encoding.
pub url_decode-url_encode : (text : Text) → IsBytes text → url_decode (url_encode text) ≡ text
unfolding url_encode
url_decode-url_encode [] h = url_decode_nil
url_decode-url_encode (ch ∷ rest) h = elim (Bool-cases (is_unreserved ch)) [
  | inl e ↦ rw e (
      url_decode_plain ch (url_encode rest) (ground arith) (ground arith)
      ∙ ap (◌∷◌ ch) (url_decode-url_encode rest h.1))
  | inr e ↦
      rw e
        (url_decode_escape ch (url_encode rest) h.0 ∙ ap (◌∷◌ ch) (url_decode-url_encode rest h.1))
]

hex_digit-Lacks : (d : ℕ) → d < 16 → (hex_digit d == 38) ≡ false
hex_digit-Lacks d h = ground arith

url_encode-Lacks : (text : Text) → IsBytes text → Lacks 38 (url_encode text)
unfolding url_encode
url_encode-Lacks [] h = tt
url_encode-Lacks (ch ∷ rest) h = elim (Bool-cases (is_unreserved ch)) [
  | inl e ↦ rw e (ground arith, url_encode-Lacks rest h.1)
  | inr e ↦ rw e (
    refl,
    (
      hex_digit-Lacks (ch / 16) (omega arith),
      (hex_digit-Lacks (ch % 16) (omega arith), url_encode-Lacks rest h.1),
    ),
  )
]

-- A parameter of a query: its key, which has no separator in it, and its value of bytes.
pub record Parameter : Type 0 where
  pub key : Text
  pub value : Text
  pub key_plain : Lacks 38 key × Lacks 61 key
  pub value_bytes : IsBytes value

abbrev pub item : Parameter → Text
item p = p.key ++ 61 ∷ url_encode p.value

-- "key=value&key=value", from one parameter on.
abbrev pub query : Parameter → List Parameter → Text
query p [] = item p
query p (q ∷ rest) = item p ++ 38 ∷ query q rest

-- The value of the first parameter with a key.
abbrev pub lookup : Text → List Parameter → Option Text
lookup name [] = none
lookup name (p ∷ rest) = if text_eq p.key name then some p.value else lookup name rest

item-Lacks : (p : Parameter) → Lacks 38 (item p)
item-Lacks p =
    Lacks-append 38 p.key (61 ∷ url_encode p.value) p.key_plain.0
      (refl, url_encode-Lacks p.value p.value_bytes)

find_item-item :
    (name : Text) (p : Parameter) (items : List Text)
    → find_item name (item p ∷ items)
      ≡ (if text_eq p.key name then some p.value else find_item name items)
unfolding find_item
find_item-item name p items = rw (before-append 61 p.key (url_encode p.value) p.key_plain.1) (
    rw (behind-append 61 p.key (url_encode p.value) p.key_plain.1)
      (rw (url_decode-url_encode p.value p.value_bytes) refl))

find_item-query :
    (name : Text) (p : Parameter) (rest : List Parameter)
    → find_item name (split 38 (query p rest)) ≡ lookup name (p ∷ rest)
unfolding find_item
find_item-query name p [] = rw (split-Lacks 38 (item p) (item-Lacks p)) (find_item-item name p [])
find_item-query name p (q ∷ rest) = rw (split-append 38 (item p) (query q rest) (item-Lacks p)) (
    find_item-item name p (split 38 (query q rest))
    ∙ ap (λ o. if text_eq p.key name then some p.value else o) (find_item-query name q rest))

-- In a path with a query of percent-encoded parameters, one or more, `queryParameter` finds the value of the first parameter with the key asked for, decoded, and nothing when there is none. The path before the query holds no "?", and the keys neither "&" nor "="; the values are any bytes.
pub query_parameter-query :
    (path name : Text) (p : Parameter) (rest : List Parameter)
    → Lacks 63 path
    → query_parameter (path ++ 63 ∷ query p rest) name ≡ lookup name (p ∷ rest)
unfolding query_parameter
query_parameter-query path name p rest h =
    rw (behind-append 63 path (query p rest) h) (find_item-query name p rest)

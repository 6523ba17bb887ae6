-- ===== src/Config/Examples.antt =====
-- Concrete texts for src/config.cpp.
use wh_repeater.Common.{ℕ, true, some, none, Option, [], ◌∷◌, ◌++◌, ◌≡◌, refl}
use wh_repeater.Domain.{Text}
use wh_repeater.Samples.{text}
use wh_repeater.Config.Json.{
  failed, unsupported_escape, parsed, object, member, end, array, cons, nil, boolean, null, parse,
  parse_value, value_at, skip_space, parse_object, expect, object_rounds, parse_string,
  string_rounds, parse_array, array_rounds, consume_literal,
}
use wh_repeater.Config.Json.Strings.{json_string, parse_string-json_string}
use wh_repeater.Config.Json.Total.{IsSettled, parse-IsSettled}

-- Numbers of one digit.
abbrev digit : Text → Option ℕ
digit [] = none
digit (ch ∷ rest) = some ch

parse-IsSettled_example : IsSettled (parse digit (text "{ \"a\" : [true, null] }"))
parse-IsSettled_example = parse-IsSettled digit (text "{ \"a\" : [true, null] }")

parse_members :
    parse digit (text "{ \"a\" : [true, null] }")
    ≡ parsed (object (member (text "a") (array (cons (boolean true) (cons null nil))) end)) []
unfolding parse parse_value value_at skip_space parse_object expect object_rounds parse_string
    string_rounds parse_array array_rounds consume_literal
parse_members = refl

-- A quote is read again, a bell is not.
parse_string-json_string_example :
    parse_string (json_string (text "a\"b" ++ 7 ∷ []) ++ text ",") ≡ failed unsupported_escape
parse_string-json_string_example = parse_string-json_string (text "a\"b" ++ 7 ∷ []) (text ",")

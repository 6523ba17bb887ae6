-- ===== src/Config/Json.antt =====
-- The JSON parser of src/config.cpp. `std::stod` is a parameter: `none` where it throws. The position in
-- the input is the text that is left.
pub mod Ends
pub mod Total
pub mod Strings
use wh_repeater.Common.{
  ℕ, zero, suc, ◌+◌, Bool, true, false, ◌&&◌, ◌||◌, Option, none, some, List, [], ◌∷◌, ◌++◌, length,
  leb, ◌==◌, is_some, if◌then◌else◌, text_eq,
}
use wh_repeater.Domain.{Text}

mutual
  pub data Json (D : Type 0) : Type 0 where
    null : Json D
    boolean : Bool → Json D
    number : D → Json D
    string : Text → Json D
    array : Items D → Json D
    object : Members D → Json D

  pub data Items (D : Type 0) : Type 0 where
    nil : Items D
    cons : Json D → Items D → Items D

  pub data Members (D : Type 0) : Type 0 where
    end : Members D
    member : Text → Json D → Members D → Members D

-- What is thrown.
pub data JsonError : Type 0 where
  trailing_input unexpected_end unterminated_escape unsupported_escape : JsonError
  unterminated_string invalid_number unexpected_token invalid_literal stod_failed : JsonError

pub data Result (A : Type 0) : Type 0 where
  out_of_fuel : Result A
  failed : JsonError → Result A
  parsed : A → Text → Result A

infixl 5 ◌>>=◌
abbrev pub ◌>>=◌ : {A B : Type 0} → Result A → (A → Text → Result B) → Result B
out_of_fuel >>= f = out_of_fuel
failed e >>= f = failed e
parsed a rest >>= f = f a rest

-- `push_back`.
abbrev pub push_back : {D : Type 0} → Json D → Items D → Items D
push_back v nil = cons v nil
push_back v (cons w items) = cons w (push_back v items)

-- `std::map::emplace`: a key that is there keeps its value.
abbrev pub emplace : {D : Type 0} → Text → Json D → Members D → Members D
emplace key v end = member key v end
emplace key v (member k w members) =
    if text_eq k key then member k w members else member k w (emplace key v members)

-- `std::isspace`, in the C locale.
abbrev pub is_space : ℕ → Bool
is_space ch = ch == 32 || leb 9 ch && leb ch 13

abbrev pub is_digit : ℕ → Bool
is_digit ch = leb 48 ch && leb ch 57

unfoldable pub skip_space : Text → Text
skip_space [] = []
skip_space (ch ∷ rest) = if is_space ch then skip_space rest else ch ∷ rest

-- The text behind a character that stands first.
abbrev pub peek : ℕ → Text → Option Text
peek ch [] = none
peek ch (x ∷ rest) = if x == ch then some rest else none

abbrev pub expected : Option Text → Result Bool
expected none = failed unexpected_token
expected (some rest) = parsed true rest

unfoldable pub expect : ℕ → Text → Result Bool
expect ch text = expected (peek ch (skip_space text))

-- `consumeLiteral`, with the value that its caller returns.
unfoldable pub consume_literal : {A : Type 0} → A → Text → Text → Result A
consume_literal value [] text = parsed value text
consume_literal value (ch ∷ literal) [] = failed invalid_literal
consume_literal value (ch ∷ literal) (x ∷ text) =
    if x == ch then consume_literal value literal text else failed invalid_literal

unfoldable pub escape_of : ℕ → Option ℕ
escape_of ch =
    if ch == 34 || ch == 92 || ch == 47
    then some ch
    else if ch == 98
    then some 8
    else if ch == 102
    then some 12
    else if ch == 110
    then some 10
    else if ch == 114
    then some 13
    else if ch == 116
    then some 9
    else none

abbrev pub escaped : Option ℕ → (ℕ → Result Text) → Result Text
escaped none more = failed unsupported_escape
escaped (some ch) more = more ch

-- The rounds of `parseString` behind its opening quote, with what it has read.
unfoldable pub string_rounds : Text → Text → Result Text
string_rounds value [] = failed unterminated_string
string_rounds value (ch ∷ []) =
    if ch == 34
    then parsed value []
    else if ch == 92
    then failed unterminated_escape
    else failed unterminated_string
string_rounds value (ch ∷ next ∷ rest) =
    let plain : Result Text = string_rounds (value ++ ch ∷ []) (next ∷ rest) in
    let escape : Result Text =
      escaped (escape_of next) (λ c. string_rounds (value ++ c ∷ []) rest) in
    if ch == 34 then parsed value (next ∷ rest) else if ch == 92 then escape else plain

unfoldable pub parse_string : Text → Result Text
parse_string text = expect 34 text >>= (λ _ rest. string_rounds [] rest)

-- The digits at the start of a text, and the rest of it.
unfoldable pub digits : Text → Text × Text
digits [] = ([], [])
digits (ch ∷ rest) =
    let more : Text × Text = digits rest in
    if is_digit ch then (ch ∷ more.0, more.1) else ([], ch ∷ rest)

-- A character that may stand first, and the rest.
abbrev pub optional : ℕ → Text → Text × Text
optional ch [] = ([], [])
optional ch (x ∷ rest) = if x == ch then (x ∷ [], rest) else ([], x ∷ rest)

-- The point and the digits behind it, if the point is there.
abbrev pub fraction : Text → Text × Text
fraction [] = ([], [])
fraction (x ∷ rest) = if x == 46 then (x ∷ (digits rest).0, (digits rest).1) else ([], x ∷ rest)

abbrev pub number_of : {D : Type 0} → Option D → Text → Result (Json D)
number_of none rest = failed stod_failed
number_of (some d) rest = parsed (number d) rest

unfoldable pub parse_number : {D : Type 0} → (Text → Option D) → Text → Result (Json D)
parse_number stod text =
    let sign = optional 45 text in
    let whole = digits sign.1 in
    let part = fraction whole.1 in
    let read = sign.0 ++ whole.0 ++ part.0 in
    if text_eq read [] || text_eq read (45 ∷ [])
    then failed invalid_number
    else number_of (stod read) part.1

-- Behind an element: the end of the array, or a comma and another round.
abbrev pub array_next :
    {D : Type 0}
    → (Items D → Text → Result (Json D))
    → Items D
    → Text
    → Option Text
    → Result (Json D)
array_next more items text (some rest) = parsed (array items) rest
array_next more items text none = expect 44 text >>= (λ _ rest. more items rest)

-- The rounds of `parseArray`; the fuel is a bound on them.
unfoldable pub array_rounds :
    {D : Type 0} → (Text → Result (Json D)) → ℕ → Items D → Text → Result (Json D)
array_rounds value zero items text = out_of_fuel
array_rounds value (suc fuel) items text = value text >>= (λ v rest.
    array_next (array_rounds value fuel) (push_back v items) (skip_space rest)
      (peek 93 (skip_space rest)))

abbrev pub array_start :
    {D : Type 0} → (Text → Result (Json D)) → ℕ → Text → Option Text → Result (Json D)
array_start value fuel text (some rest) = parsed (array nil) rest
array_start value fuel text none = array_rounds value fuel nil text

unfoldable pub parse_array : {D : Type 0} → (Text → Result (Json D)) → ℕ → Text → Result (Json D)
parse_array value fuel text =
    expect 91 text
    >>= (λ _ rest. array_start value fuel (skip_space rest) (peek 93 (skip_space rest)))

abbrev pub object_next :
    {D : Type 0}
    → (Members D → Text → Result (Json D))
    → Members D
    → Text
    → Option Text
    → Result (Json D)
object_next more members text (some rest) = parsed (object members) rest
object_next more members text none = expect 44 text >>= (λ _ rest. more members rest)

-- The rounds of `parseObject`.
unfoldable pub object_rounds :
    {D : Type 0} → (Text → Result (Json D)) → ℕ → Members D → Text → Result (Json D)
object_rounds value zero members text = out_of_fuel
object_rounds value (suc fuel) members text = parse_string text >>= (λ key rest.
    expect 58 (skip_space rest) >>= (λ _ rest'. value rest' >>= (λ v rest''.
      object_next (object_rounds value fuel) (emplace key v members) (skip_space rest'')
        (peek 125 (skip_space rest'')))))

abbrev pub object_start :
    {D : Type 0} → (Text → Result (Json D)) → ℕ → Text → Option Text → Result (Json D)
object_start value fuel text (some rest) = parsed (object end) rest
object_start value fuel text none = object_rounds value fuel end text

unfoldable pub parse_object : {D : Type 0} → (Text → Result (Json D)) → ℕ → Text → Result (Json D)
parse_object value fuel text =
    expect 123 text
    >>= (λ _ rest. object_start value fuel (skip_space rest) (peek 125 (skip_space rest)))

-- The switch of `parseValue`, on a text that begins with no space.
unfoldable pub value_at :
    {D : Type 0} → (Text → Option D) → (Text → Result (Json D)) → ℕ → Text → Result (Json D)
value_at stod value fuel [] = failed unexpected_end
value_at stod value fuel (ch ∷ rest) =
    if ch == 110
    then consume_literal null (110 ∷ 117 ∷ 108 ∷ 108 ∷ []) (ch ∷ rest)
    else if ch == 116
    then consume_literal (boolean true) (116 ∷ 114 ∷ 117 ∷ 101 ∷ []) (ch ∷ rest)
    else if ch == 102
    then consume_literal (boolean false) (102 ∷ 97 ∷ 108 ∷ 115 ∷ 101 ∷ []) (ch ∷ rest)
    else if ch == 34
    then parse_string (ch ∷ rest) >>= (λ value' rest'. parsed (string value') rest')
    else if ch == 91
    then parse_array value fuel (ch ∷ rest)
    else if ch == 123
    then parse_object value fuel (ch ∷ rest)
    else parse_number stod (ch ∷ rest)

-- The fuel bounds the depth, and the rounds at each depth.
unfoldable pub parse_value : {D : Type 0} → (Text → Option D) → ℕ → Text → Result (Json D)
parse_value stod zero text = out_of_fuel
parse_value stod (suc fuel) text = value_at stod (parse_value stod fuel) fuel (skip_space text)

abbrev pub at_end : {A : Type 0} → A → Text → Result A
at_end v [] = parsed v []
at_end v (ch ∷ rest) = failed trailing_input

unfoldable pub parse : {D : Type 0} → (Text → Option D) → Text → Result (Json D)
parse stod text = parse_value stod (length text + 1) text >>= (λ v rest. at_end v (skip_space rest))

-- ===== src/Config/Json/Total.antt =====
-- The JSON parser of src/config.cpp ends on every input.
use wh_repeater.Common.{
  ℕ, zero, suc, ◌+◌, ◌<◌, ◌≤◌, true, false, Option, none, some, [], ◌∷◌, length, ◌==◌, ◌≡◌, refl,
  arith,
}
use wh_repeater.Domain.{Text}
use wh_repeater.Config.Json.{
  Json, Items, Members, Result, out_of_fuel, failed, parsed, ◌>>=◌, skip_space, peek, expect,
  parse_string, push_back, emplace, array_next, array_rounds, array_start, parse_array, object_next,
  object_rounds, object_start, parse_object, value_at, parse_value, at_end, parse, null, boolean,
  nil, end,
}
use wh_repeater.Config.Json.Ends.{
  Shortens, Shortens-le, bind-Shortens, if-Shortens, length-skip_space, peek-length,
  expect-Shortens, literal-Shortens, parse_string-Shortens, parse_number-Shortens,
}

-- A parser of values that shortens every text under a bound.
abbrev pub ShortensUnder : {D : Type 0} → ℕ → (Text → Result (Json D)) → Type 0
ShortensUnder most value = (text : Text) → length text < most → Shortens (length text) (value text)

array_next-Shortens :
    {D : Type 0} (n : ℕ) (more : Items D → Text → Result (Json D)) (items : Items D) (text : Text)
    → length text < n
    → ((rest : Text) → length rest < length text → Shortens n (more items rest))
    → Shortens n (array_next more items text (peek 93 text))
array_next-Shortens n more items text l h = close (peek 93 text) (peek-length 93 text)
  where
    close :
        (o : Option Text)
        → ((rest : Text) → o ≡ some rest → length rest < length text)
        → Shortens n (array_next more items text o)
    close none k =
        bind-Shortens (length text) n (expect 44 text) _ (expect-Shortens 44 text)
          (λ _ rest e. h rest e)
    close (some rest) k = let e = k rest refl in omega arith

array_rounds-Shortens :
    {D : Type 0} (value : Text → Result (Json D)) (most fuel : ℕ) (items : Items D) (text : Text)
    → ShortensUnder most value
    → length text < most
    → length text < fuel
    → Shortens (length text) (array_rounds value fuel items text)
unfolding array_rounds
array_rounds-Shortens value most zero items text v h k = ground arith
array_rounds-Shortens value most (suc fuel) items text v h k =
    bind-Shortens (length text) (length text) (value text) _ (v text h) (λ w rest e.
      let l = length-skip_space rest in
      array_next-Shortens (length text) (array_rounds value fuel) (push_back w items)
        (skip_space rest) (omega arith)
        (λ rest' e'.
          Shortens-le (length rest') (length text)
            (array_rounds value fuel (push_back w items) rest') (omega arith)
            (array_rounds-Shortens value most fuel (push_back w items) rest' v (omega arith)
              (omega arith))))

array_start-Shortens :
    {D : Type 0} (value : Text → Result (Json D)) (most fuel n : ℕ) (text : Text)
    → ShortensUnder most value
    → length text < most
    → length text < fuel
    → length text < n
    → Shortens n (array_start value fuel text (peek 93 text))
array_start-Shortens value most fuel n text v h k l = close (peek 93 text) (peek-length 93 text)
  where
    close :
        (o : Option Text)
        → ((rest : Text) → o ≡ some rest → length rest < length text)
        → Shortens n (array_start value fuel text o)
    close none e =
        Shortens-le (length text) n (array_rounds value fuel nil text) (omega arith)
          (array_rounds-Shortens value most fuel nil text v h k)
    close (some rest) e = let g = e rest refl in omega arith

parse_array-Shortens :
    {D : Type 0} (value : Text → Result (Json D)) (fuel : ℕ) (text : Text)
    → ShortensUnder fuel value
    → length text ≤ fuel
    → Shortens (length text) (parse_array value fuel text)
unfolding parse_array
parse_array-Shortens value fuel text v h =
    bind-Shortens (length text) (length text) (expect 91 text) _ (expect-Shortens 91 text)
      (λ _ rest e.
        let l = length-skip_space rest in
        array_start-Shortens value fuel fuel (length text) (skip_space rest) v (omega arith)
          (omega arith) (omega arith))

object_next-Shortens :
    {D : Type 0} (n : ℕ) (more : Members D → Text → Result (Json D)) (members : Members D)
    (text : Text)
    → length text < n
    → ((rest : Text) → length rest < length text → Shortens n (more members rest))
    → Shortens n (object_next more members text (peek 125 text))
object_next-Shortens n more members text l h = close (peek 125 text) (peek-length 125 text)
  where
    close :
        (o : Option Text)
        → ((rest : Text) → o ≡ some rest → length rest < length text)
        → Shortens n (object_next more members text o)
    close none k =
        bind-Shortens (length text) n (expect 44 text) _ (expect-Shortens 44 text)
          (λ _ rest e. h rest e)
    close (some rest) k = let e = k rest refl in omega arith

object_rounds-Shortens :
    {D : Type 0} (value : Text → Result (Json D)) (most fuel : ℕ) (members : Members D)
    (text : Text)
    → ShortensUnder most value
    → length text < most
    → length text < fuel
    → Shortens (length text) (object_rounds value fuel members text)
unfolding object_rounds
object_rounds-Shortens value most zero members text v h k = ground arith
object_rounds-Shortens value most (suc fuel) members text v h k =
    bind-Shortens (length text) (length text) (parse_string text) _ (parse_string-Shortens text)
      (λ key rest e.
        let l = length-skip_space rest in
        bind-Shortens (length (skip_space rest)) (length text) (expect 58 (skip_space rest)) _
          (expect-Shortens 58 (skip_space rest))
          (λ _ rest' e'.
            bind-Shortens (length rest') (length text) (value rest') _ (v rest' (omega arith))
              (λ w rest'' e''.
                let l'' = length-skip_space rest'' in
                object_next-Shortens (length text) (object_rounds value fuel)
                  (emplace key w members) (skip_space rest'') (omega arith)
                  (λ last d.
                    Shortens-le (length last) (length text)
                      (object_rounds value fuel (emplace key w members) last) (omega arith)
                      (object_rounds-Shortens value most fuel (emplace key w members) last v
                        (omega arith) (omega arith))))))

object_start-Shortens :
    {D : Type 0} (value : Text → Result (Json D)) (most fuel n : ℕ) (text : Text)
    → ShortensUnder most value
    → length text < most
    → length text < fuel
    → length text < n
    → Shortens n (object_start value fuel text (peek 125 text))
object_start-Shortens value most fuel n text v h k l = close (peek 125 text) (peek-length 125 text)
  where
    close :
        (o : Option Text)
        → ((rest : Text) → o ≡ some rest → length rest < length text)
        → Shortens n (object_start value fuel text o)
    close none e =
        Shortens-le (length text) n (object_rounds value fuel end text) (omega arith)
          (object_rounds-Shortens value most fuel end text v h k)
    close (some rest) e = let g = e rest refl in omega arith

parse_object-Shortens :
    {D : Type 0} (value : Text → Result (Json D)) (fuel : ℕ) (text : Text)
    → ShortensUnder fuel value
    → length text ≤ fuel
    → Shortens (length text) (parse_object value fuel text)
unfolding parse_object
parse_object-Shortens value fuel text v h =
    bind-Shortens (length text) (length text) (expect 123 text) _ (expect-Shortens 123 text)
      (λ _ rest e.
        let l = length-skip_space rest in
        object_start-Shortens value fuel fuel (length text) (skip_space rest) v (omega arith)
          (omega arith) (omega arith))

value_at-Shortens :
    {D : Type 0} (stod : Text → Option D) (value : Text → Result (Json D)) (fuel : ℕ) (text : Text)
    → ShortensUnder fuel value
    → length text ≤ fuel
    → Shortens (length text) (value_at stod value fuel text)
unfolding value_at
value_at-Shortens stod value fuel [] v h = tt
value_at-Shortens stod value fuel (ch ∷ rest) v h =
    let text : Text = ch ∷ rest in
    let n = length text in
    if-Shortens n (ch == 110) _ _ (λ _. literal-Shortens null 110 _ ch rest)
      (λ _.
        if-Shortens n (ch == 116) _ _ (λ _. literal-Shortens (boolean true) 116 _ ch rest)
          (λ _.
            if-Shortens n (ch == 102) _ _ (λ _. literal-Shortens (boolean false) 102 _ ch rest)
              (λ _.
                if-Shortens n (ch == 34) _ _
                  (λ _.
                    bind-Shortens n n (parse_string text) _ (parse_string-Shortens text)
                      (λ _ _ e. e))
                  (λ _.
                    if-Shortens n (ch == 91) _ _ (λ _. parse_array-Shortens value fuel text v h)
                      (λ _.
                        if-Shortens n (ch == 123) _ _
                          (λ _. parse_object-Shortens value fuel text v h)
                          (λ _. parse_number-Shortens stod text))))))

parse_value-Shortens :
    {D : Type 0} (stod : Text → Option D) (fuel : ℕ) → ShortensUnder fuel (parse_value stod fuel)
unfolding parse_value
parse_value-Shortens stod zero text h = ground arith
parse_value-Shortens stod (suc fuel) text h =
    let l = length-skip_space text in
    Shortens-le (length (skip_space text)) (length text)
      (value_at stod (parse_value stod fuel) fuel (skip_space text)) l
      (value_at-Shortens stod (parse_value stod fuel) fuel (skip_space text)
        (parse_value-Shortens stod fuel) (omega arith))

-- What parsing a whole text comes to: an error, or a value with nothing left.
abbrev pub IsSettled : {A : Type 0} → Result A → Type 0
IsSettled out_of_fuel = ⊥
IsSettled (failed e) = Unit
IsSettled (parsed a rest) = length rest ≡ 0

at_end-IsSettled : {A : Type 0} (a : A) (text : Text) → IsSettled (at_end a text)
at_end-IsSettled a [] = refl
at_end-IsSettled a (ch ∷ rest) = tt

bind-IsSettled :
    {A B : Type 0} (n : ℕ) (r : Result A) (f : A → Text → Result B)
    → Shortens n r
    → ((a : A) (rest : Text) → IsSettled (f a rest))
    → IsSettled (r >>= f)
bind-IsSettled n out_of_fuel f h k = h
bind-IsSettled n (failed e) f h k = tt
bind-IsSettled n (parsed a rest) f h k = k a rest

-- The parser ends on every text, however it is nested: it throws an error, or returns a value and has then read the text to its end. The fuel of one more than the text's length is never used up, and this holds whatever `std::stod` accepts.
pub parse-IsSettled :
    {D : Type 0} (stod : Text → Option D) (text : Text) → IsSettled (parse stod text)
unfolding parse
parse-IsSettled stod text =
    bind-IsSettled (length text) (parse_value stod (length text + 1) text) _
      (parse_value-Shortens stod (length text + 1) text (omega arith))
      (λ v rest. at_end-IsSettled v (skip_space rest))

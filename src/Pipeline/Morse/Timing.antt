-- ===== src/Pipeline/Morse/Timing.antt =====
-- The keying of src/media_pipeline.cpp has the timing of the Morse code.
use wh_repeater.Common.{
  ℕ, ◌<◌, Bool, true, false, List, [], ◌∷◌, ◌++◌, length, length-append, replicate, ◌==◌, ◌≡◌, refl,
  ap, sym, ◌∙◌, arith, All, append_assoc, append-nil,
}
use wh_repeater.Domain.{Text}
use wh_repeater.Pipeline.Morse.Alphabet.{code_of, IsKeyed, IsKeyed-morse_for}
use wh_repeater.Pipeline.Morse.{
  morse_for, is_space, code_units, gap, add_space, tone_loop, morse_tone_units,
}

-- A character that the loop keys.
abbrev HasCode : ℕ → Type 0
HasCode ch = (is_space ch ≡ false) × ((length (morse_for ch) == 0) ≡ false)

abbrev pub off : ℕ → List Bool
off n = replicate n false

-- What the loop makes of a word with its characters, and of a message with its words.
abbrev loop_word : ℕ → Text → List Bool
loop_word ch [] = code_units (morse_for ch)
loop_word ch (next ∷ rest) = code_units (morse_for ch) ++ (off 3 ++ loop_word next rest)

abbrev loop_message : ℕ → Text → List (ℕ × Text) → List Bool
loop_message ch word [] = loop_word ch word
loop_message ch word ((next, rest) ∷ words) =
    loop_word ch word ++ (off 7 ++ loop_message next rest words)

-- The message as a text, with a space between its words.
abbrev pub message_text : ℕ → Text → List (ℕ × Text) → Text
message_text ch word [] = ch ∷ word
message_text ch word ((next, rest) ∷ words) = ch ∷ (word ++ 32 ∷ message_text next rest words)

tone_loop-keyed :
    (units : List Bool) (had : Bool) (ch : ℕ) (text : Text)
    → HasCode ch
    → tone_loop units had (ch ∷ text)
      ≡ tone_loop (gap had units ++ code_units (morse_for ch)) true text
unfolding tone_loop
tone_loop-keyed units had ch text k = rw k.0 (rw k.1 refl)

tone_loop-word :
    (units : List Bool) (had : Bool) (ch : ℕ) (word text : Text)
    → HasCode ch
    → All HasCode word
    → tone_loop units had (ch ∷ (word ++ text))
      ≡ tone_loop (gap had units ++ loop_word ch word) true text
tone_loop-word units had ch [] text k ks = tone_loop-keyed units had ch text k
tone_loop-word units had ch (next ∷ rest) text k ks =
    tone_loop-keyed units had ch (next ∷ (rest ++ text)) k
    ∙ tone_loop-word (gap had units ++ code_units (morse_for ch)) true next rest text ks.0 ks.1
    ∙ ap (λ u. tone_loop u true text)
        (append_assoc (gap had units ++ code_units (morse_for ch)) (off 3) (loop_word next rest)
          ∙ append_assoc (gap had units) (code_units (morse_for ch)) (off 3 ++ loop_word next rest))

length-code_units : (code : List Bool) → (length code == 0) ≡ false → 0 < length (code_units code)
unfolding code_units
length-code_units [] h = ground arith
length-code_units (symbol ∷ []) h = ground arith
length-code_units (true ∷ next ∷ rest) h = omega arith
length-code_units (false ∷ next ∷ rest) h = omega arith

length-loop_word : (ch : ℕ) (word : Text) → HasCode ch → 0 < length (loop_word ch word)
length-loop_word ch [] k = length-code_units (morse_for ch) k.1
length-loop_word ch (next ∷ rest) k =
    let l = length-code_units (morse_for ch) k.1 in
    let e = length-append (code_units (morse_for ch)) (off 3 ++ loop_word next rest) in omega arith

add_space_some : (units : List Bool) → 0 < length units → add_space units ≡ units ++ off 4
add_space_some [] h = absurd (omega arith)
add_space_some (unit ∷ units) h = refl

tone_loop-space :
    (units : List Bool) (text : Text)
    → 0 < length units
    → tone_loop units true (32 ∷ text) ≡ tone_loop (units ++ off 4) true text
unfolding tone_loop
tone_loop-space units text h = ap (λ u. tone_loop u true text) (add_space_some units h)

tone_loop_end : (units : List Bool) (had : Bool) → tone_loop units had [] ≡ units
unfolding tone_loop
tone_loop_end units had = refl

-- All characters of a message have a code.
abbrev AllHaveCode : List (ℕ × Text) → Type 0
AllHaveCode words = All (λ w. HasCode w.0 × All HasCode w.1) words

-- A gap of four and one of three are one of seven.
gap_of_seven :
    (before word rest : List Bool)
    → gap true ((before ++ word) ++ off 4) ++ rest ≡ before ++ (word ++ (off 7 ++ rest))
gap_of_seven before word rest =
    append_assoc ((before ++ word) ++ off 4) (off 3) rest
    ∙ append_assoc (before ++ word) (off 4) (off 3 ++ rest)
    ∙ append_assoc before word (off 7 ++ rest)

tone_loop-message :
    (units : List Bool) (had : Bool) (ch : ℕ) (word : Text) (words : List (ℕ × Text))
    → HasCode ch
    → All HasCode word
    → AllHaveCode words
    → tone_loop units had (message_text ch word words) ≡ gap had units ++ loop_message ch word words
tone_loop-message units had ch word [] k ks ws =
    ap (λ w. tone_loop units had (ch ∷ w)) (sym (append-nil word))
    ∙ tone_loop-word units had ch word [] k ks
    ∙ tone_loop_end (gap had units ++ loop_word ch word) true
tone_loop-message units had ch word ((next, rest) ∷ words) k ks ws =
    tone_loop-word units had ch word (32 ∷ message_text next rest words) k ks
    ∙ tone_loop-space (gap had units ++ loop_word ch word) (message_text next rest words) (
        let l = length-loop_word ch word k in
        let e = length-append (gap had units) (loop_word ch word) in omega arith)
    ∙ tone_loop-message ((gap had units ++ loop_word ch word) ++ off 4) true next rest words ws.0.0
        ws.0.1 ws.1
    ∙ gap_of_seven (gap had units) (loop_word ch word) (loop_message next rest words)

-- The timing of the Morse code: a dot is one unit and a dash three, the symbols of a character are one
-- unit apart, the characters of a word three, and words seven.
abbrev pub join : ℕ → List (List Bool) → List Bool
join gap [] = []
join gap (part ∷ []) = part
join gap (part ∷ next ∷ parts) = part ++ (off gap ++ join gap (next ∷ parts))

abbrev pub mark : Bool → List Bool
mark true = replicate 3 true
mark false = replicate 1 true

abbrev pub marks : List Bool → List (List Bool)
marks [] = []
marks (symbol ∷ code) = mark symbol ∷ marks code

abbrev pub letters : Text → List (List Bool)
letters [] = []
letters (ch ∷ word) = join 1 (marks (code_of ch)) ∷ letters word

abbrev pub words_of : ℕ → Text → List (ℕ × Text) → List (List Bool)
words_of ch word [] = join 3 (letters (ch ∷ word)) ∷ []
words_of ch word ((next, rest) ∷ words) = join 3 (letters (ch ∷ word)) ∷ words_of next rest words

abbrev pub AllKeyed : List (ℕ × Text) → Type 0
AllKeyed words = All (λ w. IsKeyed w.0 × All IsKeyed w.1) words

code_units-join : (code : List Bool) → code_units code ≡ join 1 (marks code)
unfolding code_units
code_units-join [] = refl
code_units-join (true ∷ []) = refl
code_units-join (false ∷ []) = refl
code_units-join (true ∷ next ∷ rest) =
    ap (λ u. replicate 3 true ++ false ∷ u) (code_units-join (next ∷ rest))
code_units-join (false ∷ next ∷ rest) =
    ap (λ u. replicate 1 true ++ false ∷ u) (code_units-join (next ∷ rest))

letter : (ch : ℕ) → IsKeyed ch → code_units (morse_for ch) ≡ join 1 (marks (code_of ch))
letter ch k =
    let (space, there, code) = IsKeyed-morse_for ch k in
    ap code_units code ∙ code_units-join (code_of ch)

loop_word-join :
    (ch : ℕ) (word : Text)
    → IsKeyed ch
    → All IsKeyed word
    → loop_word ch word ≡ join 3 (letters (ch ∷ word))
loop_word-join ch [] k ks = letter ch k
loop_word-join ch (next ∷ rest) k ks =
    ap (λ u. u ++ (off 3 ++ loop_word next rest)) (letter ch k)
    ∙ ap (λ u. join 1 (marks (code_of ch)) ++ (off 3 ++ u)) (loop_word-join next rest ks.0 ks.1)

loop_message-join :
    (ch : ℕ) (word : Text) (words : List (ℕ × Text))
    → IsKeyed ch
    → All IsKeyed word
    → AllKeyed words
    → loop_message ch word words ≡ join 7 (words_of ch word words)
loop_message-join ch word [] k ks ws = loop_word-join ch word k ks
loop_message-join ch word ((next, rest) ∷ []) k ks ws =
    ap (λ u. u ++ (off 7 ++ loop_word next rest)) (loop_word-join ch word k ks)
    ∙ ap (λ u. join 3 (letters (ch ∷ word)) ++ (off 7 ++ u))
        (loop_word-join next rest ws.0.0 ws.0.1)
loop_message-join ch word ((next, rest) ∷ (third, tail) ∷ words) k ks ws =
    ap (λ u. u ++ (off 7 ++ loop_message next rest ((third, tail) ∷ words)))
      (loop_word-join ch word k ks)
    ∙ ap (λ u. join 3 (letters (ch ∷ word)) ++ (off 7 ++ u))
        (loop_message-join next rest ((third, tail) ∷ words) ws.0.0 ws.0.1 ws.1)

IsKeyed-HasCode : (ch : ℕ) → IsKeyed ch → HasCode ch
IsKeyed-HasCode ch k = let (space, there, code) = IsKeyed-morse_for ch k in (space, there)

word-HaveCode : (word : Text) → All IsKeyed word → All HasCode word
word-HaveCode [] ks = tt
word-HaveCode (ch ∷ word) ks = (IsKeyed-HasCode ch ks.0, word-HaveCode word ks.1)

words-HaveCode : (words : List (ℕ × Text)) → AllKeyed words → AllHaveCode words
words-HaveCode [] ws = tt
words-HaveCode ((ch, word) ∷ words) ws =
    ((IsKeyed-HasCode ch ws.0.0, word-HaveCode word ws.0.1), words-HaveCode words ws.1)

-- A message of words with a space between them, of characters of the Morse tree in either case, is keyed
-- as the tree and the timing of the code say: each character by the way to it, a dot to the left and a
-- dash to the right; a dot of one unit and a dash of three; one unit between symbols, three between
-- characters and seven between words; and seven units of silence at the end.
pub morse_tone_units-message :
    (ch : ℕ) (word : Text) (words : List (ℕ × Text))
    → IsKeyed ch
    → All IsKeyed word
    → AllKeyed words
    → morse_tone_units (message_text ch word words) ≡ join 7 (words_of ch word words) ++ off 7
unfolding morse_tone_units
morse_tone_units-message ch word words k ks ws =
    ap (λ u. u ++ off 7)
      (tone_loop-message [] false ch word words (IsKeyed-HasCode ch k) (word-HaveCode word ks)
          (words-HaveCode words ws)
        ∙ loop_message-join ch word words k ks ws)

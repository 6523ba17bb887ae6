-- ===== src/Mqtt/Reading.antt =====
-- A connection whose bytes come in some way: in chunks of any size, between timeouts and interrupted
-- calls.
use wh_repeater.Common.{
  ℕ, zero, suc, ◌+◌, ◌-◌, ◌*◌, ◌/◌, ◌%◌, ◌≤◌, ◌<◌, true, false, Option, some, List, [], ◌∷◌, ◌++◌,
  length, length-append, length-drop, take, drop, take-append-drop, ltb, ltb→lt, ◌==◌,
  if◌then◌else◌, Bool-cases, Option-cases, inl, inr, ◌⊎◌, ◌≡◌, refl, ap, sym, ◌∙◌, arith,
}
use wh_repeater.Mqtt.{
  Bytes, Arrival, chunk, idle, interrupted, broken, stopped, Connection, is_due, put_back,
  read_byte, next_byte, read_length, read_body, append_remaining_length, mqtt_ping_interval,
}

abbrev pub content : List Arrival → Bytes
content [] = []
content (chunk bs ∷ rest) = bs ++ content rest
content (idle now pinged later ∷ rest) = content rest
content (interrupted ∷ rest) = content rest
content (broken ∷ rest) = content rest
content (stopped ∷ rest) = content rest

-- No error, no request to stop, no failed ping, and no end before the last byte.
abbrev pub Flows : List Arrival → Type 0
Flows [] = Unit
Flows (chunk bs ∷ rest) = (1 ≤ length bs) × Flows rest
Flows (idle now pinged later ∷ rest) = (pinged ≡ true) × Flows rest
Flows (interrupted ∷ rest) = Flows rest
Flows (broken ∷ rest) = ⊥
Flows (stopped ∷ rest) = ⊥

put_back-Flows : (bs : Bytes) (rest : List Arrival) → Flows rest → Flows (put_back bs rest)
put_back-Flows [] rest h = h
put_back-Flows (b ∷ bs) rest h = (omega arith, h)

content-put_back :
    (bs : Bytes) (rest : List Arrival) → content (put_back bs rest) ≡ bs ++ content rest
content-put_back [] rest = refl
content-put_back (b ∷ bs) rest = refl

cons_inj : (a b : ℕ) (as' bs : Bytes) → a ∷ as' ≡ b ∷ bs → (a ≡ b) × (as' ≡ bs)
cons_inj a b as' bs e = (cc, cc)

-- The connection after some bytes.
pub record Left (bs : Bytes) (c : Connection) : Type 0 where
  pub flows : Flows c.input
  pub left : content c.input ≡ bs

pub read_byte-Left :
    (input : List Arrival) (next_ping : Option ℕ) (pings b : ℕ) (bs : Bytes)
    → Flows input
    → content input ≡ b ∷ bs
    → (c : Connection) × (read_byte input next_ping pings ≡ some (b, c)) × Left bs c
unfolding read_byte
read_byte-Left [] np pings b bs h e = absurd (omega (arith, ap length e))
read_byte-Left (chunk [] ∷ rest) np pings b bs h e = absurd (omega (arith, h.0))
read_byte-Left (chunk (x ∷ xs) ∷ rest) np pings b bs h e =
    let (same, others) = cons_inj x b (xs ++ content rest) bs e in
    (
      record { input = put_back xs rest; next_ping = np; pings = pings },
      ap (λ y. some (y, record { input = put_back xs rest; next_ping = np; pings = pings })) same,
      record { flows = put_back-Flows xs rest h.1; left = content-put_back xs rest ∙ others },
    )
read_byte-Left (interrupted ∷ rest) np pings b bs h e = read_byte-Left rest np pings b bs h e
read_byte-Left (broken ∷ rest) np pings b bs h e = absurd h
read_byte-Left (stopped ∷ rest) np pings b bs h e = absurd h
read_byte-Left (idle now pinged later ∷ rest) np pings b bs h e =
    let due = is_due np now in
    let (c, run, left) =
      read_byte-Left rest (if due then some (later + mqtt_ping_interval) else np)
        (if due then pings + 1 else pings) b bs h.1 e in
    (c, (let p = h.0 in ground (arith, run)), left)

-- Two splits of a list: the shorter front is a front of the longer one.
split_front :
    (xs r front bs : Bytes)
    → length front ≤ length xs
    → xs ++ r ≡ front ++ bs
    → (take (length front) xs ≡ front) × (drop (length front) xs ++ r ≡ bs)
split_front xs r [] bs h e = (refl, e)
split_front [] r (b ∷ front) bs h e = absurd (omega (arith, h))
split_front (x ∷ xs) r (b ∷ front) bs h e =
    let (same, others) = cons_inj x b (xs ++ r) (front ++ bs) e in
    let (f, g) = split_front xs r front bs (omega arith) others in
    (ap (λ y. y ∷ take (length front) xs) same ∙ ap (◌∷◌ b) f, g)

pub read_body-Left :
    (n : ℕ) (input : List Arrival) (body bs : Bytes)
    → length body ≡ n
    → Flows input
    → content input ≡ body ++ bs
    → (rest : List Arrival) × (read_body n input ≡ some (body, rest))
      × Flows rest
      × (content rest ≡ bs)
unfolding read_body
read_body-Left zero input [] bs l h e = (input, refl, h, e)
read_body-Left zero input (x ∷ xs) bs l h e = absurd (omega (arith, l))
read_body-Left (suc n) [] body bs l h e =
    absurd (omega (arith, l, ap length e, length-append body bs))
read_body-Left (suc n) (chunk [] ∷ rest) body bs l h e = absurd (omega (arith, h.0))
read_body-Left (suc n) (chunk (x ∷ xs) ∷ rest) body bs l h e =
    elim (Bool-cases (ltb (suc n) (length (x ∷ xs)))) [
      | inl long ↦
          let lt = ltb→lt (suc n) (length (x ∷ xs)) long in
          let (front, back) = split_front (x ∷ xs) (content rest) body bs (omega arith) e in
          (
            put_back (drop (suc n) (x ∷ xs)) rest,
            rw long (
                ap (λ y. some (y, put_back (drop (suc n) (x ∷ xs)) rest))
                  (ap (λ k. take k (x ∷ xs)) (sym l) ∙ front)),
            put_back-Flows (drop (suc n) (x ∷ xs)) rest h.1,
            content-put_back (drop (suc n) (x ∷ xs)) rest
                ∙ ap (λ k. drop k (x ∷ xs) ++ content rest) (sym l)
                ∙ back,
          )
      | inr short ↦
          let le : length (x ∷ xs) ≤ length body = ground arith in
          let (front, back) = split_front body bs (x ∷ xs) (content rest) le (sym e) in
          let d = length-drop (length (x ∷ xs)) body in
          let (after, run, flows, left) =
            read_body-Left (suc n - length (x ∷ xs)) rest (drop (length (x ∷ xs)) body) bs
              (omega arith) h.1 (sym back) in
          let whole : (x ∷ xs) ++ drop (length (x ∷ xs)) body ≡ body =
            ap (λ y. y ++ drop (length (x ∷ xs)) body) (sym front)
            ∙ take-append-drop (length (x ∷ xs)) body in
          (after, rw short (rw run (ap (λ y. some (y, after)) whole)), flows, left)
    ]
read_body-Left (suc n) (interrupted ∷ rest) body bs l h e =
    read_body-Left (suc n) rest body bs l h e
read_body-Left (suc n) (idle now pinged later ∷ rest) body bs l h e =
    read_body-Left (suc n) rest body bs l h.1 e
read_body-Left (suc n) (broken ∷ rest) body bs l h e = absurd h
read_body-Left (suc n) (stopped ∷ rest) body bs l h e = absurd h

-- The four rounds of the length, from the last one up: each knows the numbers below its limit.
abbrev pub ReadsLength : ℕ → ℕ → ℕ → Type 0
ReadsLength fuel multiplier limit =
    (rounds n remaining : ℕ) (size bs : Bytes) (c : Connection)
    → n < limit
    → append_remaining_length rounds n ≡ some size
    → Left (size ++ bs) c
    → (c' : Connection) × (read_length fuel multiplier remaining c
        ≡ some (remaining + n * multiplier, c'))
      × Left bs c'

-- The first byte of a length, and what follows it.
size_cases :
    (rounds n : ℕ) (size : Bytes)
    → append_remaining_length rounds n ≡ some size
    → ((n < 128) × (size ≡ n ∷ []))
      ⊎ ((128 ≤ n)
          × (fewer : ℕ) × (rest : Bytes) × (append_remaining_length fewer (n / 128) ≡ some rest)
          × (size ≡ (n % 128 + 128) ∷ rest))
unfolding append_remaining_length
size_cases zero n size e = absurd (cc)
size_cases (suc rounds) n size e = elim (Bool-cases (n / 128 == 0)) [
  | inl small ↦ inl (ground arith, ground (arith, e, small))
  | inr large ↦ elim (Option-cases (append_remaining_length rounds (n / 128))) [
    | inl out ↦ absurd (ground (arith, e, large, out))
    | inr (rest, more) ↦ inr (ground arith, rounds, rest, more, ground (arith, e, large, more))
  ]
]

length_ends :
    (fuel multiplier remaining v : ℕ) (c c' : Connection)
    → next_byte c ≡ some (v, c')
    → v < 128
    → read_length (suc fuel) multiplier remaining c ≡ some (remaining + v * multiplier, c')
unfolding read_length
length_ends fuel multiplier remaining v c c' run h =
    let low : (v / 128 % 2 == 0) ≡ true = ground arith in
    let same : v % 128 ≡ v = omega arith in
    rw (run, read_length) (rw low (ap (λ k. some (remaining + k * multiplier, c')) same))

length_goes_on :
    (fuel multiplier remaining v : ℕ) (c c' : Connection)
    → next_byte c ≡ some (v + 128, c')
    → v < 128
    → multiplier * 128 ≤ 128 * 128 * 128
    → read_length (suc fuel) multiplier remaining c
      ≡ read_length fuel (multiplier * 128) (remaining + v * multiplier) c'
unfolding read_length
length_goes_on fuel multiplier remaining v c c' run h m =
    let high : ((v + 128) / 128 % 2 == 0) ≡ false = ground arith in
    let same : (v + 128) % 128 ≡ v = omega arith in
    let room : ltb (128 * 128 * 128) (multiplier * 128) ≡ false = ground arith in
    rw (run, read_length)
      (rw high (
        rw room
          (ap (λ k. read_length fuel (multiplier * 128) (remaining + k * multiplier) c') same)))

recombined :
    (n multiplier remaining : ℕ)
    → (remaining + n % 128 * multiplier) + n / 128 * (multiplier * 128) ≡ remaining + n * multiplier
recombined n multiplier remaining =
    let split : n ≡ n % 128 + n / 128 * 128 = omega arith in
    grind (arith, ap (λ (k : ℕ). k * multiplier) split)

reads_last : ReadsLength 1 (128 * 128 * 128) 128
reads_last rounds n remaining size bs c h e left = elim (size_cases rounds n size e) [
  | inl (small, one) ↦
      let (c', run, after) =
        read_byte-Left c.input c.next_ping c.pings n bs left.flows
          (left.left ∙ ap (λ y. y ++ bs) one) in
      (c', length_ends 0 (128 * 128 * 128) remaining n c c' run small, after)
  | inr large ↦ absurd (omega (arith, large.0, h))
]

reads_before :
    (fuel multiplier limit : ℕ)
    → multiplier * 128 ≤ 128 * 128 * 128
    → ReadsLength fuel (multiplier * 128) limit
    → ReadsLength (suc fuel) multiplier (limit * 128)
reads_before fuel multiplier limit m later rounds n remaining size bs c h e left =
    elim (size_cases rounds n size e) [
      | inl (small, one) ↦
          let (c', run, after) =
            read_byte-Left c.input c.next_ping c.pings n bs left.flows
              (left.left ∙ ap (λ y. y ++ bs) one) in
          (c', length_ends fuel multiplier remaining n c c' run small, after)
      | inr (large, fewer, rest, more, first) ↦
          let (c₁, run, after) =
            read_byte-Left c.input c.next_ping c.pings (n % 128 + 128) (rest ++ bs) left.flows
              (left.left ∙ ap (λ y. y ++ bs) first) in
          let (c', run', after') =
            later fewer (n / 128) (remaining + n % 128 * multiplier) rest bs c₁ (omega arith) more
              after in
          let sum : (remaining + n % 128 * multiplier) + n / 128 * (multiplier * 128)
              ≡ remaining + n * multiplier =
            recombined n multiplier remaining in
          (
            c',
            length_goes_on fuel multiplier remaining (n % 128) c c₁ run (omega arith) m
                ∙ run'
                ∙ ap (λ k. some (k, c')) sum,
            after',
          )
    ]

-- Lengths below 2^28 are read back.
pub read_length-Left : ReadsLength 4 1 (128 * 128 * 128 * 128)
read_length-Left = reads_before 3 1 (128 * 128 * 128) (omega arith) (
    reads_before 2 128 (128 * 128) (omega arith)
      (reads_before 1 (128 * 128) 128 (omega arith) reads_last))

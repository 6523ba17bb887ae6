-- ===== src/Mqtt/RoundTrip.antt =====
-- Packets through a connection.
use wh_repeater.Common.{
  ℕ, zero, suc, ◌+◌, ◌*◌, ◌/◌, ◌%◌, ◌^◌, ◌<◌, true, some, List, [], ◌∷◌, ◌++◌, length, ◌==◌,
  Bool-cases, Option-cases, inl, inr, ◌≡◌, refl, ap, ◌∙◌, append_assoc, arith,
}
use wh_repeater.Mqtt.{
  Bytes, Arrival, Connection, next_byte, read_length, read_body, append_remaining_length,
  length_rounds, with_header, mqtt_packet, read_packet,
}
use wh_repeater.Mqtt.Reading.{
  content, Flows, Left, read_byte-Left, read_length-Left, read_body-Left,
}

mqtt_packet_size :
    (header : ℕ) (body packet : Bytes)
    → mqtt_packet header body ≡ some packet
    → (size : Bytes) × (append_remaining_length length_rounds (length body) ≡ some size)
      × (packet ≡ header ∷ (size ++ body))
mqtt_packet_size header body packet e =
    elim (Option-cases (append_remaining_length length_rounds (length body))) [
      | inl out ↦ absurd (ground (arith, e, out))
      | inr (size, made) ↦ (size, made, ground (arith, e, made))
    ]

packet_read :
    (header remaining : ℕ) (body : Bytes) (c c₁ c₂ : Connection) (rest : List Arrival)
    → next_byte c ≡ some (header, c₁)
    → read_length 4 1 0 c₁ ≡ some (remaining, c₂)
    → read_body remaining c₂.input ≡ some (body, rest)
    → read_packet c ≡ some (record { kind = header / 16; body = body }, record c₂ { input = rest })
unfolding read_packet
packet_read header remaining body c c₁ c₂ rest e₁ e₂ e₃ = rw (e₁, read_packet) (rw e₂ (rw e₃ refl))

-- A packet with this header byte and body: a body below 2^28 bytes that comes over the connection,
-- however it is cut up and delayed, is read back whole, its kind from the upper half of the header;
-- and what is left of the connection is the bytes that follow the packet.
pub read_packet-mqtt_packet :
    (header : ℕ) (body packet bs : Bytes) (c : Connection)
    → length body < 2 ^ 28
    → mqtt_packet header body ≡ some packet
    → Flows c.input
    → content c.input ≡ packet ++ bs
    → (c' : Connection) × (read_packet c ≡ some (record { kind = header / 16; body = body }, c'))
      × Left bs c'
read_packet-mqtt_packet header body packet bs c h e flows comes =
    let (size, made, whole) = mqtt_packet_size header body packet e in
    let (c₁, run₁, left₁) =
      read_byte-Left c.input c.next_ping c.pings header ((size ++ body) ++ bs) flows
        (comes ∙ ap (λ y. y ++ bs) whole) in
    let (c₂, run₂, left₂) =
      read_length-Left length_rounds (length body) 0 size (body ++ bs) c₁ (omega arith) made
        (record { flows = left₁.flows; left = left₁.left ∙ append_assoc size body bs }) in
    let (rest, run₃, flows₃, left₃) =
      read_body-Left (length body) c₂.input body bs refl left₂.flows left₂.left in
    let n : 0 + length body * 1 ≡ length body = omega arith in
    (
      record c₂ { input = rest },
      packet_read header (length body) body c c₁ c₂ rest run₁ (run₂ ∙ ap (λ k. some (k, c₂)) n)
          run₃,
      record { flows = flows₃; left = left₃ },
    )

-- A length of 64 bits is written within the ten rounds, so that every packet is.
below : ℕ → ℕ
below zero = 1
below (suc rounds) = 128 * below rounds

append_remaining_length_total :
    (rounds n : ℕ)
    → n < 128 * below rounds
    → (size : Bytes) × (append_remaining_length (suc rounds) n ≡ some size)
unfolding below append_remaining_length
append_remaining_length_total zero n h =
    let small : (n / 128 == 0) ≡ true = ground arith in
    ((n % 128) ∷ [], rw (small, append_remaining_length) refl)
append_remaining_length_total (suc rounds) n h = elim (Bool-cases (n / 128 == 0)) [
  | inl small ↦ ((n % 128) ∷ [], rw (small, append_remaining_length) refl)
  | inr large ↦
      let (rest, e) = append_remaining_length_total rounds (n / 128) (omega arith) in
      ((n % 128 + 128) ∷ rest, ground (arith, large, e))
]

pub mqtt_packet_total :
    (header : ℕ) (body : Bytes)
    → length body < 2 ^ 64
    → (packet : Bytes) × (mqtt_packet header body ≡ some packet)
unfolding below
mqtt_packet_total header body h =
    let (size, e) = append_remaining_length_total 9 (length body) (omega arith) in
    (header ∷ (size ++ body), ap (with_header header body) e)

-- ===== src/Pluto/Order.antt =====
-- What publishMqtt of src/pluto_sink.cpp lets out to the broker.
use wh_repeater.Common.{
  ◌⊎◌, inl, inr, Bool-cases, Bool, true, false, not, &&-true, Option, none, some, List, [], ◌++◌,
  append-nil, if_elim, ◌≡◌, refl, ap, sym, subst, ◌∙◌,
}
use wh_repeater.Domain.{Text}
use wh_repeater.Mqtt.{Bytes, Sending, send_all}
use wh_repeater.Mqtt.Messages.{send_all_lem}
use wh_repeater.Pluto.Publish.{
  Conversation, connect_packet, publish_packet, disconnect_packet, read_mqtt_packet, accepted,
  all_sent, then_send, then_test, publish_mqtt,
}

all_sent-true : (result : Option Bool) → all_sent result ≡ true → result ≡ some true
all_sent-true none e = absurd (cc)
all_sent-true (some true) e = refl
all_sent-true (some false) e = absurd (cc)

then_send-true :
    (sends : List Sending) (packet : Bytes) (w : Bytes × Bool)
    → (then_send sends packet w).1 ≡ true
    → (w.1 ≡ true) × ((then_send sends packet w).0 ≡ w.0 ++ packet)
then_send-true sends packet (out, false) e = absurd (cc)
then_send-true sends packet (out, true) e =
    let (rest, whole, iff) = send_all_lem sends packet in
    let nothing = iff.0 (all_sent-true (send_all sends packet).1 e) in
    (
      refl,
      ap (λ p. out ++ p)
          (sym (append-nil (send_all sends packet).0)
            ∙ ap (λ r. (send_all sends packet).0 ++ r) (sym nothing)
            ∙ whole),
    )

then_test-true :
    (test : Bool) (w : Bytes × Bool)
    → (then_test test w).1 ≡ true
    → (w.1 ≡ true) × (test ≡ true) × ((then_test test w).0 ≡ w.0)
then_test-true test (out, well) e = let (a, b) = &&-true well test e in (a, b, refl)

then_test-false : (w : Bytes × Bool) → then_test false w ≡ (w.0, false)
then_test-false (out, true) = refl
then_test-false (out, false) = refl

publish_mqtt-cases :
    (talk : Conversation) (topic payload : Text)
    → (let (out, ok) = publish_mqtt talk topic payload in
        (ok ≡ true
          → (out ≡ connect_packet ++ publish_packet topic payload ++ disconnect_packet)
            × (accepted (read_mqtt_packet talk.reply) ≡ true))
        × (accepted (read_mqtt_packet talk.reply) ≡ false
            → (ok ≡ false) × ((rest : Bytes) × (out ++ rest ≡ connect_packet))))
unfolding publish_mqtt
publish_mqtt-cases talk topic payload =
    if_elim Orderly (not talk.connects) (λ e. absurd (cc), λ e. (refl, (connect_packet, refl)))
      (whole, front)
  where
    code : Bool
    code = accepted (read_mqtt_packet talk.reply)

    Orderly : Bytes × Bool → Type 0
    Orderly r =
        (r.1 ≡ true
          → (r.0 ≡ connect_packet ++ publish_packet topic payload ++ disconnect_packet)
            × (code ≡ true))
        × (code ≡ false → (r.1 ≡ false) × ((rest : Bytes) × (r.0 ++ rest ≡ connect_packet)))

    connected : Bytes × Bool
    connected = then_send (talk.sends 0) connect_packet ([], true)

    answered : Bool → Bytes × Bool
    answered c = then_test c connected

    published : Bool → Bytes × Bool
    published c = then_send (talk.sends 1) (publish_packet topic payload) (answered c)

    ended : Bool → Bytes × Bool
    ended c = then_send (talk.sends 2) disconnect_packet (published c)

    whole :
        (ended code).1 ≡ true
        → ((ended code).0 ≡ connect_packet ++ publish_packet topic payload ++ disconnect_packet)
          × (code ≡ true)
    whole e =
        let (e1, f1) = then_send-true (talk.sends 2) disconnect_packet (published code) e in
        let (e2, f2) =
          then_send-true (talk.sends 1) (publish_packet topic payload) (answered code) e1 in
        let (e3, c, f3) = then_test-true code connected e2 in
        let (e4, f4) = then_send-true (talk.sends 0) connect_packet ([], true) e3 in
        (
          f1
              ∙ ap (λ o. o ++ disconnect_packet)
                  (f2 ∙ ap (λ o. o ++ publish_packet topic payload) (f3 ∙ f4)),
          c,
        )

    sent : Bytes × Bool → Bytes × Bool
    sent w =
        then_send (talk.sends 2) disconnect_packet
          (then_send (talk.sends 1) (publish_packet topic payload) w)

    Front : Bytes × Bool → Type 0
    Front r = (r.1 ≡ false) × ((rest : Bytes) × (r.0 ++ rest ≡ connect_packet))

    front : code ≡ false → Front (ended code)
    front e =
        let (rest, all, iff) = send_all_lem (talk.sends 0) connect_packet in
        subst (λ c. Front (ended c)) (sym e)
          (subst (λ w. Front (sent w)) (sym (then_test-false connected)) (refl, (rest, all)))

-- The whole conversation, after the broker accepted the connection; or not published, where either the
-- broker accepted the connection or nothing went out but a front of the connection's packet.
abbrev pub Orderly : Conversation → Text → Text → Bytes × Bool → Type 0
Orderly talk topic payload r =
    ((r.1 ≡ true)
      × (r.0 ≡ connect_packet ++ publish_packet topic payload ++ disconnect_packet)
      × (accepted (read_mqtt_packet talk.reply) ≡ true))
    ⊎ ((r.1 ≡ false)
        × ((accepted (read_mqtt_packet talk.reply) ≡ true)
            ⊎ ((rest : Bytes) × (r.0 ++ rest ≡ connect_packet))))

-- Whatever the sockets do: either the message is published, the connection, the message and the end have
-- gone out whole and in this order, and the broker accepted the connection; or the message is not
-- published, and where the broker did not accept the connection, nothing went out but a front of the
-- connection's packet.
pub publish_mqtt_lem :
    (talk : Conversation) (topic payload : Text)
    → Orderly talk topic payload (publish_mqtt talk topic payload)
publish_mqtt_lem talk topic payload =
    let (good, bad) = publish_mqtt-cases talk topic payload in
    elim (Bool-cases (publish_mqtt talk topic payload).1) [
      | inl e ↦ inl (e, (good e).0, (good e).1)
      | inr f ↦ inr (
        f,
        elim (Bool-cases (accepted (read_mqtt_packet talk.reply))) [
          | inl a ↦ inl a
          | inr n ↦ inr (bad n).1
        ],
      )
    ]

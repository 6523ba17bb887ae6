-- ===== src/Router/Relay.antt =====
-- From the driver's packets to the sink.
use wh_repeater.Common.{
  ℕ, ◌-◌, ◌≤◌, not, ◌||◌, some, List, [], ◌∷◌, ◌++◌, length, length-append, drop, All, if_elim, ◌≡◌,
  refl, ap, sym, ◌∙◌, subst, arith, append-nil,
}
use wh_repeater.Domain.{ActiveInput}
use wh_repeater.Nim.Packets.{
  TransportPacket, WhDriverPacket, Ingress, drain_transport_packets,
  max_queued_packets_per_receiver,
}
use wh_repeater.Nim.Packets.Queue.{ingest_all, stream, ingest_all_lem, drain_transport_packets_lem}
use wh_repeater.Nim.Packets.Bounded.{keep_last}
use wh_repeater.Router.{
  TsRouter, Files, max_packets_per_pump, maybe_start_dump, dump_packet, forward, pump_active, pump,
}

-- Rounds of the daemon: what the driver delivers, and then a pump.
pub record Round : Type 0 where
  pub delivered : List WhDriverPacket
  pub files : Files

abbrev pub write_all : {S : Type 0} → (TransportPacket → S → S) → List TransportPacket → S → S
write_all write [] sink = sink
write_all write (packet ∷ packets) sink = write_all write packets (write packet sink)

module _ {D S : Type 0} (write : TransportPacket → S → S) where
  pub pump_round : Round → TsRouter D × Ingress × S → TsRouter D × Ingress × S
  pump_round round (s, nim, sink) = pump write round.files s (ingest_all round.delivered nim) sink

  pub pump_rounds : List Round → TsRouter D × Ingress × S → TsRouter D × Ingress × S
  pump_rounds [] state = state
  pump_rounds (round ∷ rounds) state = pump_rounds rounds (pump_round round state)

-- What the receiver's tuner has delivered in all rounds.
abbrev pub delivered_stream : ℕ → List Round → List TransportPacket
delivered_stream index [] = []
delivered_stream index (round ∷ rounds) =
    stream index round.delivered ++ delivered_stream index rounds

append_all :
    {A : Type 0} (xs ys q : List A) → xs ++ ys ≡ q → length xs ≡ length q → (xs ≡ q) × (ys ≡ [])
append_all xs [] q e l = (sym (append-nil xs) ∙ e, refl)
append_all xs (y ∷ ys) q e l =
    let whole = ap length e in let parts = length-append xs (y ∷ ys) in absurd (omega arith)

forward_lem :
    {D S : Type 0} (write : TransportPacket → S → S) (files : Files)
    (packets : List TransportPacket) (s : TsRouter D) (sink : S)
    → ((forward write files packets (s, sink)).1 ≡ write_all write packets sink)
      × ((forward write files packets (s, sink)).0.active ≡ s.active)
unfolding dump_packet
forward_lem write files [] s sink = (refl, refl)
forward_lem write files (packet ∷ packets) s sink =
    let rest = forward_lem write files packets (dump_packet files packet s) (write packet sink) in
    (
      rest.0,
      rest.1 ∙ if_elim (λ (s' : TsRouter _). s'.active ≡ s.active) (not s.dump_open) refl refl,
    )

write_all-append :
    {S : Type 0} (write : TransportPacket → S → S) (xs ys : List TransportPacket) (sink : S)
    → write_all write (xs ++ ys) sink ≡ write_all write ys (write_all write xs sink)
write_all-append write [] ys sink = refl
write_all-append write (x ∷ xs) ys sink = write_all-append write xs ys (write x sink)

keep_all : (n : ℕ) (xs : List TransportPacket) → length xs ≤ n → keep_last n xs ≡ xs
keep_all n xs h = let e : length xs - n ≡ 0 = omega arith in ap (λ k. drop k xs) e

maybe_start_dump-active :
    {D : Type 0} (files : Files) (s : TsRouter D) → (maybe_start_dump files s).active ≡ s.active
unfolding maybe_start_dump
maybe_start_dump-active {D} files s =
    if_elim Same (s.dump_open || not files.trigger) refl (if_elim Same (not files.opens) refl refl)
  where
    Same : TsRouter D → Type 0
    Same s' = s'.active ≡ s.active

-- A round in which the receiver's queue starts empty.
module _ {D S : Type 0} (write : TransportPacket → S → S) (input : ActiveInput D) where
  record Relays (packets : List TransportPacket) (sink : S) (state : TsRouter D × Ingress × S)
      : Type 0 where
    selected : state.0.active ≡ some input
    emptied : state.1.queues (input.receiver - 1) ≡ []
    written : state.2 ≡ write_all write packets sink

  pump_round-Relays :
      (round : Round) (s : TsRouter D) (nim : Ingress) (sink : S)
      → 1 ≤ input.receiver
      → input.receiver ≤ 4
      → length (stream (input.receiver - 1) round.delivered) ≤ max_queued_packets_per_receiver
      → s.active ≡ some input
      → nim.queues (input.receiver - 1) ≡ []
      → Relays
          (stream (input.receiver - 1) round.delivered)
          sink
          (pump_round write round (s, nim, sink))
  unfolding pump_round pump
  pump_round-Relays round s nim sink low high fits a q =
      subst
        (λ o.
          Relays (stream j round.delivered) sink (pump_active write round.files o s filled sink))
        (sym a)
        (record {
          selected = sent.1 ∙ maybe_start_dump-active round.files s ∙ a;
          emptied = all.1;
          written = sent.0 ∙ ap (λ p. write_all write p sink) (all.0 ∙ queued);
        })
    where
      j : ℕ
      j = input.receiver - 1

      filled : Ingress
      filled = ingest_all round.delivered nim

      drained : List TransportPacket × Ingress
      drained = drain_transport_packets input.receiver max_packets_per_pump filled

      queued : filled.queues j ≡ stream j round.delivered
      queued =
          ingest_all_lem round.delivered nim j (
            subst (λ (w : List TransportPacket). length w ≤ max_queued_packets_per_receiver) (sym q)
              (omega arith))
          ∙ ap (λ w. keep_last max_queued_packets_per_receiver (w ++ stream j round.delivered)) q
          ∙ keep_all max_queued_packets_per_receiver (stream j round.delivered) fits

      all : (drained.0 ≡ filled.queues j) × (drained.1.queues j ≡ [])
      all =
          let (whole, count, others) =
            (drain_transport_packets_lem input.receiver max_packets_per_pump filled).0 low high in
          let l = ap length queued in
          append_all drained.0 (drained.1.queues j) (filled.queues j) whole
            (count ∙ omega (arith, l, fits))

      sent :
          ((forward write round.files drained.0 (maybe_start_dump round.files s, sink)).1
            ≡ write_all write drained.0 sink)
          × ((forward write round.files drained.0 (maybe_start_dump round.files s, sink)).0.active
              ≡ (maybe_start_dump round.files s).active)
      sent = forward_lem write round.files drained.0 (maybe_start_dump round.files s) sink

  pump_rounds-Relays :
      (rounds : List Round) (s : TsRouter D) (nim : Ingress) (sink : S)
      → 1 ≤ input.receiver
      → input.receiver ≤ 4
      → All
          (λ round.
            length (stream (input.receiver - 1) round.delivered) ≤ max_queued_packets_per_receiver)
          rounds
      → s.active ≡ some input
      → nim.queues (input.receiver - 1) ≡ []
      → Relays
          (delivered_stream (input.receiver - 1) rounds)
          sink
          (pump_rounds write rounds (s, nim, sink))
  unfolding pump_rounds
  pump_rounds-Relays [] s nim sink low high fits a q = record {
    selected = a;
    emptied = q;
    written = refl;
  }
  pump_rounds-Relays (round ∷ rounds) s nim sink low high fits a q =
      let now = pump_round-Relays round s nim sink low high fits.0 a q in
      let state = pump_round write round (s, nim, sink) in
      let rest =
        pump_rounds-Relays rounds state.0 state.1 state.2 low high fits.1 now.selected
          now.emptied in
      record {
        selected = rest.selected;
        emptied = rest.emptied;
        written =
            rest.written
            ∙ ap (write_all write (delivered_stream (input.receiver - 1) rounds)) now.written
            ∙ sym (
                write_all-append write (stream (input.receiver - 1) round.delivered)
                  (delivered_stream (input.receiver - 1) rounds) sink);
      }

-- From an empty queue of the active receiver, in rounds that deliver at most 65536 packets of it each: the
-- sink is handed all packets that its tuner has delivered, in order, nulls included, and its queue is
-- empty after each pump.
pub pump_rounds-stream :
    {D S : Type 0} (write : TransportPacket → S → S) (input : ActiveInput D) (rounds : List Round)
    (s : TsRouter D) (nim : Ingress) (sink : S)
    → 1 ≤ input.receiver
    → input.receiver ≤ 4
    → All
        (λ round.
          length (stream (input.receiver - 1) round.delivered) ≤ max_queued_packets_per_receiver)
        rounds
    → s.active ≡ some input
    → nim.queues (input.receiver - 1) ≡ []
    → (let state = pump_rounds write rounds (s, nim, sink) in
        (state.2 ≡ write_all write (delivered_stream (input.receiver - 1) rounds) sink)
        × (state.1.queues (input.receiver - 1) ≡ []))
pump_rounds-stream write input rounds s nim sink low high fits a q =
    let r = pump_rounds-Relays write input rounds s nim sink low high fits a q in
    (r.written, r.emptied)

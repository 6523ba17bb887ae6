-- ===== src/Pluto/Control.antt =====
-- What the transmitter has been told: PlutoSink's messages on the transmitter's two switches.
use wh_repeater.Common.{
  ℕ, ◌%◌, ◌==◌, suc, Bool, true, false, not, ◌&&◌, ◌||◌, Option, none, some, List, [], ◌∷◌, ◌++◌,
  length, if_elim, if◌then◌else◌, ◌≡◌, refl, ap, sym, ◌∙◌, ◌⊎◌, inl, inr, subst, text, text_eq,
  Bool-cases, ==_refl,
}
use wh_repeater.Domain.{Text}
use wh_repeater.Pluto.Publish.{publish_mqtt}
use wh_repeater.Pluto.Sink.{
  PlutoConfig, Network, Message, PlutoSink, new_pluto_sink, is_empty, device_id, topic_of,
  call_topic, flag, controls, transmit_state, publish, publish_control, publish_controls,
  configure_transmitter, publish_transmit_state, switch, set_transmit_enabled,
  reconfigure_transmitter, set_preview_enabled, write_preview_data, write_output, write_mux_data,
  write, Command, writing, writing_mux_data, transmitting, previewing, reconfiguring, run, run_all,
}

-- The payload of the last message on a topic that was published.
abbrev pub latest : Text → List Message → Option Text
latest topic [] = none
latest topic (m ∷ log) =
    if m.published && text_eq topic m.topic then some m.payload else latest topic log

-- Of two connections in a row, one publishes its message.
abbrev pub Answers : Network → Type 0
Answers net =
    (n : ℕ) (topic payload : Text)
    → ((publish_mqtt (net.conversation n topic payload) topic payload).1 ≡ true)
      ⊎ ((publish_mqtt (net.conversation (suc n) topic payload) topic payload).1 ≡ true)

-- The last payload of a sequence of messages on a topic.
abbrev said : Text → List (Text × Text) → Option Text → Option Text
said suffix [] before = before
said suffix ((topic, payload) ∷ more) before =
    said suffix more (if text_eq suffix topic then some payload else before)

-- The device's switches, by what the sink has in `configured_` and `transmitEnabled_`.
record Keeps (config : PlutoConfig) (log : List Message) (configured transmits : Bool)
    : Type 0 where
  ready : transmits ≡ true → configured ≡ true
  muted :
      configured ≡ true
      → latest (topic_of config (text "tx/mute")) log ≡ some (flag (not transmits))
  runs : transmits ≡ true → latest (topic_of config (text "tx/stream/run")) log ≡ some (text "1")

text_eq_append : (p s t : Text) → text_eq (p ++ s) (p ++ t) ≡ text_eq s t
text_eq_append [] s t = refl
text_eq_append (x ∷ p) s t = rw (==_refl x) (text_eq_append p s t)

topic_of_lem :
    (config : PlutoConfig) (s t : Text)
    → text_eq (topic_of config s) (topic_of config t) ≡ text_eq s t
topic_of_lem config s t = text_eq_append (text "cmd/pluto/" ++ device_id config ++ text "/") s t

module _ (config : PlutoConfig) (net : Network) (enabled : config.mqtt_enabled ≡ true)
    (named : is_empty (device_id config) ≡ false) (answers : Answers net) where
  publish_control-latest :
      (suffix topic payload : Text) (log : List Message)
      → latest (topic_of config suffix) (publish_control config net topic payload log)
        ≡ (if text_eq suffix topic then some payload else latest (topic_of config suffix) log)
  unfolding publish_control publish
  publish_control-latest suffix topic payload log =
      simp (enabled, named)
        (elim (Bool-cases
          (publish_mqtt (net.conversation (length log) (topic_of config topic) payload)
            (topic_of config topic) payload).1) [
              | inl y ↦ rw (y, topic_of_lem config suffix topic) refl
              | inr n ↦ elim (answers (length log) (topic_of config topic) payload) [
                | inl y ↦ absurd (cc)
                | inr y ↦ rw (n, y, topic_of_lem config suffix topic) refl
              ]
            ])

  publish_controls-latest :
      (suffix : Text) (messages : List (Text × Text)) (log : List Message)
      → latest (topic_of config suffix) (publish_controls config net messages log)
        ≡ said suffix messages (latest (topic_of config suffix) log)
  publish_controls-latest suffix [] log = refl
  publish_controls-latest suffix ((topic, payload) ∷ more) log =
      publish_controls-latest suffix more (publish_control config net topic payload log)
      ∙ ap (said suffix more) (publish_control-latest suffix topic payload log)

  controls-mute :
      (before : Option Text) → said (text "tx/mute") (controls config) before ≡ some (text "1")
  controls-mute before = elim (Bool-cases (text_eq config.system (text "dvbs"))) [
    | inl e ↦ rw e refl
    | inr e ↦ rw e refl
  ]

  abbrev IsTold : PlutoSink → Type 0
  IsTold s = Keeps config s.log s.configured s.transmit_enabled

  switch-Told : (on : Bool) (s : PlutoSink) → s.configured ≡ true → IsTold (switch config net on s)
  unfolding publish_transmit_state
  switch-Told true s c = record {
    ready = λ e. c;
    muted = λ e. publish_controls-latest (text "tx/mute") (transmit_state true) s.log;
    runs = λ e. publish_controls-latest (text "tx/stream/run") (transmit_state true) s.log;
  }
  switch-Told false s c = record {
    ready = λ e. absurd (cc);
    muted = λ e. publish_controls-latest (text "tx/mute") (transmit_state false) s.log;
    runs = λ e. absurd (cc);
  }

  configure_transmitter-configured :
      (s : PlutoSink) → (configure_transmitter config net s).configured ≡ true
  unfolding configure_transmitter
  configure_transmitter-configured s = elim (Bool-cases s.configured) [
    | inl e ↦ simp (enabled, named, e)
    | inr e ↦ simp (enabled, named, e)
  ]

  configure_transmitter-cases :
      (s : PlutoSink)
      → (configure_transmitter config net s ≡ s)
        ⊎ ((s.configured ≡ false)
            × ((log : List Message) × (configure_transmitter config net s ≡ record s {
              configured = true;
              log = publish_controls config net (controls config) log;
            })))
  unfolding configure_transmitter
  configure_transmitter-cases s = elim (Bool-cases s.configured) [
    | inl e ↦ inl (simp (enabled, named, e))
    | inr e ↦ inr (
      e,
      (
        if not (text_eq config.mqtt_protocol (text "tezuka"))
            then publish net call_topic config.callsign s.log
            else s.log,
        simp (enabled, named, e),
      ),
    )
  ]

  configure_transmitter-Told :
      (s : PlutoSink) → IsTold s → IsTold (configure_transmitter config net s)
  configure_transmitter-Told s told = elim (configure_transmitter-cases s) [
    | inl e ↦ subst IsTold (sym e) told
    | inr (e, (log, f)) ↦ subst IsTold (sym f) (record {
      ready = λ _. refl;
      muted = λ _.
          publish_controls-latest (text "tx/mute") (controls config) log
          ∙ controls-mute (latest (topic_of config (text "tx/mute")) log)
          ∙ ap (λ b. some (flag (not b))) (quiet s told e);
      runs = λ t. absurd (cc (told.ready t));
    })
  ]
    where
      quiet : (s : PlutoSink) → IsTold s → s.configured ≡ false → false ≡ s.transmit_enabled
      quiet s told e = elim (Bool-cases s.transmit_enabled) [
        | inl t ↦ absurd (cc (told.ready t))
        | inr f ↦ sym f
      ]

  write_mux_data-Told :
      (opens_preview opens : Bool) (bytes : List ℕ) (s : PlutoSink)
      → IsTold s
      → IsTold (write_mux_data config net opens_preview opens bytes s).0
  unfolding write_mux_data write_preview_data
  write_mux_data-Told opens_preview opens bytes s told =
      if_elim (λ (r : PlutoSink × Bool). IsTold r.0) (is_empty bytes) told
        (output (write_preview_data config net opens_preview bytes configured) (
          if_elim (λ (r : PlutoSink × Bool). IsTold r.0)
            (not configured.preview_enabled || is_empty bytes) told'
            (if_elim (λ (r : PlutoSink × Bool). IsTold r.0)
              (configured.preview_socket || opens_preview) told' told')))
    where
      configured : PlutoSink
      configured = configure_transmitter config net s

      told' : IsTold configured
      told' = configure_transmitter-Told s told

      output :
          (r : PlutoSink × Bool) → IsTold r.0 → IsTold (write_output config net opens bytes r).0
      output (s, true) h = h
      output (s, false) h =
          if_elim (λ (r : PlutoSink × Bool). IsTold r.0) (not s.transmit_enabled) h
            (if_elim (λ (r : PlutoSink × Bool). IsTold r.0) (s.socket || opens) h h)

  run-Told : (c : Command) (s : PlutoSink) → IsTold s → IsTold (run config net c s)
  unfolding write set_transmit_enabled set_preview_enabled reconfigure_transmitter
  run-Told (writing opens_preview opens packet) s told =
      if_elim (λ (r : PlutoSink × Bool). IsTold r.0) (not (length packet % 188 == 0)) told
        (write_mux_data-Told opens_preview opens packet s told)
  run-Told (writing_mux_data opens_preview opens bytes) s told =
      write_mux_data-Told opens_preview opens bytes s told
  run-Told (transmitting on) s told =
      if_elim IsTold (s.transmit_enabled && on || not s.transmit_enabled && not on) told
        (switch-Told on (configure_transmitter config net s) (configure_transmitter-configured s))
  run-Told (previewing on) s told =
      if_elim IsTold (s.preview_enabled && on || not s.preview_enabled && not on) told told
  run-Told (reconfiguring on) s told =
      switch-Told on (configure_transmitter config net (record s { configured = false }))
        (configure_transmitter-configured (record s { configured = false }))

  run_all-from :
      (commands : List Command) (s : PlutoSink) → IsTold s → IsTold (run_all config net commands s)
  run_all-from [] s told = told
  run_all-from (c ∷ commands) s told =
      run_all-from commands (run config net c s) (run-Told c s told)

-- The sink has not configured the device and does not transmit; or it has, the device has last been told
-- to mute if and only if the sink does not transmit, and if it transmits, to run its stream.
abbrev pub Told : PlutoConfig → List Message → Bool → Bool → Type 0
Told config log configured transmits =
    ((configured ≡ false) × (transmits ≡ false))
    ⊎ ((configured ≡ true)
        × (latest (topic_of config (text "tx/mute")) log ≡ some (flag (not transmits)))
        × ((transmits ≡ false)
            ⊎ (latest (topic_of config (text "tx/stream/run")) log ≡ some (text "1"))))

Keeps-Told :
    (config : PlutoConfig) (log : List Message) (configured transmits : Bool)
    → Keeps config log configured transmits
    → Told config log configured transmits
Keeps-Told config log configured false k = elim (Bool-cases configured) [
  | inl c ↦ inr (c, k.muted c, inl refl)
  | inr n ↦ inl (n, refl)
]
Keeps-Told config log configured true k =
    inr (k.ready refl, k.muted (k.ready refl), inr (k.runs refl))

-- With the broker enabled and a device named, if of two connections in a row one publishes its message,
-- then after any calls of the sink's methods: either the sink has not configured the device and does not
-- transmit; or it has configured it, the device has last been told to mute if and only if the sink does
-- not transmit, and a sink that transmits has last told its stream to run.
pub run_all-Told :
    (config : PlutoConfig) (net : Network) (commands : List Command)
    → config.mqtt_enabled ≡ true
    → is_empty (device_id config) ≡ false
    → Answers net
    → (let s = run_all config net commands new_pluto_sink in
        Told config s.log s.configured s.transmit_enabled)
run_all-Told config net commands enabled named answers =
    let s = run_all config net commands new_pluto_sink in
    Keeps-Told config s.log s.configured s.transmit_enabled (
      run_all-from config net enabled named answers commands new_pluto_sink
        (record { ready = λ e. e; muted = λ e. absurd (cc); runs = λ e. absurd (cc) }))

-- ===== src/Pluto/Sink.antt =====
-- PlutoSink of src/pluto_sink.cpp and include/whrepeater/pluto_sink.hpp, with PlutoConfig of
-- include/whrepeater/config.hpp. Its sockets and the conversations with the broker are a parameter; an
-- operation that may throw returns the state that it leaves, and whether it threw.
use wh_repeater.Common.{
  ℕ, ◌+◌, Bool, true, false, not, ◌&&◌, ◌||◌, List, [], ◌∷◌, ◌++◌, length, ◌%◌, ◌==◌, if◌then◌else◌,
  text, text_eq, decimal,
}
use wh_repeater.Common.Int.{ℤ, pos, negsuc}
use wh_repeater.Domain.{Text}
use wh_repeater.Mqtt.{Bytes}
use wh_repeater.Pluto.Publish.{Conversation, publish_mqtt}
use wh_repeater.Pluto.Gather.{
  Gatherer, new_gatherer, clear, append, send, datagram_size, push_bytes,
}

-- The fields that the sink reads.
pub record PlutoConfig : Type 0 where
  pub address : Text
  pub port : ℕ
  pub mqtt_enabled : Bool
  pub mqtt_protocol : Text
  pub mqtt_device_id : Text
  pub callsign : Text
  pub system : Text
  pub tx_frequency_hz : ℕ
  pub symbol_rate_s : ℕ
  pub tx_gain_db : ℤ
  pub nco_hz : ℤ
  pub digital_gain_db : ℤ
  pub fir_filter : Bool
  pub pilots : Bool
  pub frame : Text
  pub fec_mode : Text
  pub constellation : Text
  pub fec : Text

-- The n-th connection to the broker, where a topic and a payload are published, and what inet_pton says of the two addresses.
pub record Network : Type 0 where
  pub conversation : ℕ → Text → Text → Conversation
  pub valid_address : Bool
  pub valid_preview_address : Bool

-- A call of `publishMqtt`, and its result.
pub record Message : Type 0 where
  pub topic : Text
  pub payload : Text
  pub published : Bool

-- The log of messages has the last first.
pub record PlutoSink : Type 0 where
  pub socket : Bool
  pub preview_socket : Bool
  pub output : Gatherer
  pub preview : Gatherer
  pub configured : Bool
  pub transmit_enabled : Bool
  pub preview_enabled : Bool
  pub log : List Message

abbrev pub new_pluto_sink : PlutoSink
new_pluto_sink = record {
  socket = false;
  preview_socket = false;
  output = new_gatherer;
  preview = new_gatherer;
  configured = false;
  transmit_enabled = false;
  preview_enabled = false;
  log = [];
}

abbrev pub is_empty : {A : Type 0} → List A → Bool
is_empty [] = true
is_empty (x ∷ xs) = false

abbrev pub device_id : PlutoConfig → Text
device_id config = if is_empty config.mqtt_device_id then config.callsign else config.mqtt_device_id

abbrev pub to_string : ℤ → Text
to_string (pos n) = decimal n n
to_string (negsuc n) = text "-" ++ decimal (n + 1) (n + 1)

abbrev pub ts_source_address : PlutoConfig → Text
ts_source_address config = config.address ++ text ":" ++ decimal config.port config.port

abbrev pub topic_of : PlutoConfig → Text → Text
topic_of config suffix = text "cmd/pluto/" ++ device_id config ++ text "/" ++ suffix

abbrev pub call_topic : Text
call_topic = text "cmd/pluto/call"

abbrev pub flag : Bool → Text
flag enabled = if enabled then text "1" else text "0"

-- What is published for the modulation, by the system.
abbrev pub modulation : PlutoConfig → List (Text × Text)
modulation config =
    if text_eq config.system (text "dvbs")
    then (text "tx/stream/mode", text "dvbs") ∷ (text "tx/dvbs2/fec", config.fec) ∷ []
    else (text "tx/stream/mode", text "dvbs2-ts")
      ∷ (text "tx/dvbs2/fec", config.fec)
      ∷ (text "tx/dvbs2/constel", config.constellation)
      ∷ (text "tx/dvbs2/pilots", flag config.pilots)
      ∷ (text "tx/dvbs2/frame", config.frame)
      ∷ (text "tx/dvbs2/fecmode", config.fec_mode)
      ∷ (text "tx/dvbs2/gainvariable", text "-100")
      ∷ (text "tx/dvbs2/agcgain", text "-100")
      ∷ (text "tx/dvbs2/digitalgain", to_string config.digital_gain_db)
      ∷ (text "tx/dvbs2/firfilter", flag config.fir_filter)
      ∷ []

abbrev pub controls : PlutoConfig → List (Text × Text)
controls config =
    (text "tx/gain", to_string config.tx_gain_db)
    ∷ (text "tx/mute", text "1")
    ∷ (text "tx/frequency", decimal config.tx_frequency_hz config.tx_frequency_hz)
    ∷ (text "tx/nco", to_string config.nco_hz)
    ∷ (text "tx/dvbs2/sr", decimal config.symbol_rate_s config.symbol_rate_s)
    ∷ (text "tx/dvbs2/tssourcemode", text "0")
    ∷ (text "tx/dvbs2/tssourceaddress", ts_source_address config)
    ∷ modulation config

abbrev pub transmit_state : Bool → List (Text × Text)
transmit_state true = (text "tx/stream/run", text "1") ∷ (text "tx/mute", text "0") ∷ []
transmit_state false = (text "tx/mute", text "1") ∷ (text "tx/stream/run", text "0") ∷ []

-- The calls of the sink's methods, in any order.
pub data Command : Type 0 where
  writing : Bool → Bool → Bytes → Command
  writing_mux_data : Bool → Bool → Bytes → Command
  transmitting : Bool → Command
  previewing : Bool → Command
  reconfiguring : Bool → Command

module _ (net : Network) where
  -- A call of `publishMqtt`.
  unfoldable pub publish : Text → Text → List Message → List Message
  publish topic payload log =
      record {
        topic = topic;
        payload = payload;
        published = (publish_mqtt (net.conversation (length log) topic payload) topic payload).1;
      }
      ∷ log

abbrev pub succeeded : List Message → Bool
succeeded [] = false
succeeded (m ∷ log) = m.published

module _ (config : PlutoConfig) (net : Network) where
  unfoldable pub publish_control : Text → Text → List Message → List Message
  publish_control suffix payload log =
      if not config.mqtt_enabled || is_empty (device_id config)
      then log
      else let once = publish net (topic_of config suffix) payload log in
        if succeeded once then once else publish net (topic_of config suffix) payload once

  abbrev pub publish_controls : List (Text × Text) → List Message → List Message
  publish_controls [] log = log
  publish_controls ((suffix, payload) ∷ more) log =
      publish_controls more (publish_control suffix payload log)

  -- The call sign comes first, which another protocol expects.
  unfoldable pub configure_transmitter : PlutoSink → PlutoSink
  configure_transmitter s =
      let called =
        if not (text_eq config.mqtt_protocol (text "tezuka"))
        then publish net call_topic config.callsign s.log
        else s.log in
      if s.configured || not config.mqtt_enabled
      then s
      else if is_empty (device_id config)
      then record s { configured = true }
      else record s { configured = true; log = publish_controls (controls config) called }

  unfoldable pub publish_transmit_state : Bool → PlutoSink → PlutoSink
  publish_transmit_state enabled s = record s {
    log = publish_controls (transmit_state enabled) s.log;
  }

  abbrev pub close_output : PlutoSink → PlutoSink
  close_output s = record s { output = clear s.output; socket = false }

  abbrev pub switch : Bool → PlutoSink → PlutoSink
  switch enabled s =
      let s' = if enabled then s else close_output s in
      record (publish_transmit_state enabled s') { transmit_enabled = enabled }

  unfoldable pub set_transmit_enabled : Bool → PlutoSink → PlutoSink
  set_transmit_enabled enabled s =
      if s.transmit_enabled && enabled || not s.transmit_enabled && not enabled
      then s
      else switch enabled (configure_transmitter s)

  unfoldable pub reconfigure_transmitter : Bool → PlutoSink → PlutoSink
  reconfigure_transmitter enabled s =
      switch enabled (configure_transmitter (record s { configured = false }))

  abbrev pub flush_preview_datagram : PlutoSink → Gatherer → Gatherer
  flush_preview_datagram s g =
      if is_empty g.datagram || not s.preview_socket
      then clear g
      else if net.valid_preview_address
      then send g
      else clear g

  unfoldable pub set_preview_enabled : Bool → PlutoSink → PlutoSink
  set_preview_enabled enabled s =
      if s.preview_enabled && enabled || not s.preview_enabled && not enabled then s else record s {
        preview = if enabled then s.preview else flush_preview_datagram s s.preview;
        preview_enabled = enabled;
      }

  unfoldable pub push_preview : PlutoSink → Bytes → Gatherer → Gatherer
  push_preview s [] g = g
  push_preview s (b ∷ bytes) g =
      let g' = append b g in
      push_preview s bytes
        (if length g'.datagram == datagram_size then flush_preview_datagram s g' else g')

  abbrev pub mirror : Bytes → PlutoSink → PlutoSink
  mirror bytes s = record s { preview = push_preview s bytes s.preview }

  -- `opens`: whether the socket is created.
  unfoldable pub write_preview_data : Bool → Bytes → PlutoSink → PlutoSink × Bool
  write_preview_data opens bytes s =
      if not s.preview_enabled || is_empty bytes
      then (s, false)
      else if s.preview_socket || opens
      then (mirror bytes (record s { preview_socket = true }), false)
      else (s, true)

  abbrev pub push_output : Bytes → PlutoSink → PlutoSink × Bool
  push_output bytes s =
      let pushed = push_bytes net.valid_address bytes s.output in
      (record s { socket = true; output = pushed.0 }, pushed.1)

  abbrev pub write_output : Bool → Bytes → PlutoSink × Bool → PlutoSink × Bool
  write_output opens bytes (s, true) = (s, true)
  write_output opens bytes (s, false) =
      if not s.transmit_enabled
      then (record s { output = clear s.output }, false)
      else if s.socket || opens
      then push_output bytes s
      else (s, true)

  unfoldable pub write_mux_data : Bool → Bool → Bytes → PlutoSink → PlutoSink × Bool
  write_mux_data opens_preview opens bytes s =
      if is_empty bytes
      then (s, false)
      else write_output opens bytes
          (write_preview_data opens_preview bytes (configure_transmitter s))

  unfoldable pub write : Bool → Bool → Bytes → PlutoSink → PlutoSink × Bool
  write opens_preview opens packet s =
      if not (length packet % 188 == 0)
      then (s, false)
      else write_mux_data opens_preview opens packet s

  abbrev pub run : Command → PlutoSink → PlutoSink
  run (writing opens_preview opens packet) s = (write opens_preview opens packet s).0
  run (writing_mux_data opens_preview opens bytes) s =
      (write_mux_data opens_preview opens bytes s).0
  run (transmitting enabled) s = set_transmit_enabled enabled s
  run (previewing enabled) s = set_preview_enabled enabled s
  run (reconfiguring enabled) s = reconfigure_transmitter enabled s

  abbrev pub run_all : List Command → PlutoSink → PlutoSink
  run_all [] s = s
  run_all (c ∷ cs) s = run_all cs (run c s)

-- ===== src/Lib.antt =====
-- wh-repeater: the decision logic of a DVB repeater daemon.
--
-- The daemon polls its receivers, retunes those without a lock, chooses the one that drives the
-- output, paces the output media in a process of its own, and answers an HTTP API. A tool beside
-- it inspects the transport stream that it sends.
--
-- Files:
-- - Common: names that all files share, Boolean tests, lists and integers on native numbers.
--   Samples: test data.
-- - Domain: the records of include/whrepeater/types.hpp and include/whrepeater/config.hpp that
--   the others exchange.
-- - Arbitrator: src/signal_arbitrator.cpp. `choose` is SignalArbitrator::choose on an explicit
--   state; Best is its loop, Choice its two paths.
-- - Scanner: src/scan_scheduler.cpp. `tick` is ScanScheduler::tick, with the calls of
--   NimController::tune as its result; Retunes, Rotation and Hang look at one receiver, Fleet at
--   all.
-- - Timing: src/media_timing.cpp, and the audio loop of src/media_pipeline.cpp.
-- - Nim: src/nim_controller.cpp. Packets is SeritNimController's packet reader from the read of
--   a packet to its drain (`ingest_packet`, `drain_transport_packets`), with the counters and
--   queues of the four receivers as functions of the index; Watch is its belief in a lock
--   (`refresh` is validTransportFresh); Tuner is the arithmetic of the tuner and demodulator
--   settings.
-- - Gateway/Sink: src/ts_gateway_sink.cpp. `write`, `flush` and `set_active` on the sink's
--   state, with the sockets as a parameter; Stream follows the bytes that leave, Wire their
--   datagrams.
-- - Gateway/Input: src/pc_gateway_input.cpp. `pump` is PcGatewayInput::pump over the sequence of
--   what recv gives; Relay joins it to the sink on the other machine.
-- - Daemon: the loop of Daemon::runPiGatewayOrLocal in src/daemon.cpp, decision by decision.
--   Schedule is beaconScheduleActive; Sources the debounce (`gate`) and the choice between the
--   tuners and the analogue input (`select`) in local mode; Transmit the access notice and the
--   transmitter's switch; Transitions the record of receiver changes.
-- - Ptt: src/hardware_ptt.cpp. `set_transmit_enabled` is HardwarePtt::setTransmitEnabled on the
--   switch's state, with the GPIO device as a parameter.
-- - Media: src/media_process.cpp. Payload is the encoding of the active input (`active_payload`,
--   `read_active`); State is what the supervisor of the media process, MediaProcess, keeps, and
--   Process its operations: its messages, the replay of its state after a restart
--   (`replay_state`), and the bounded backlog of the transport stream (`write`). What waitpid
--   and send answer, call by call, is a parameter.
-- - Mqtt: src/pluto_mqtt_status.cpp. The packets (`mqtt_packet`), the stream reader
--   (`read_packet` is MqttStream::readPacket on the sequence of what recv gives); Messages the
--   connection attempt (`handshake`) and the publications (`handle_message`); Handshake what the
--   broker's answers make of the attempt.
-- - Inspect: tools/ts_gateway_inspect.cpp. Tables are the program tables (`parse_section`),
--   Packets the packets and datagrams (`inspect_packet`, `receive`). A read outside a buffer is
--   no result.
-- - Web: src/api_server.cpp. Query is its query strings (`query_parameter`), Timecode the
--   positions within a video (`parse_timecode`, `format_timecode`).
-- - Pipeline: src/media_pipeline.cpp and include/whrepeater/media_pipeline.hpp. State is what
--   MediaPipeline keeps and Modes its operations (`tick`, `queue_input`, `enter_fallback`), each
--   a section under its mutex; Input is BlockingTsInput, with the steps of its threads as a
--   relation; Morse is the keying of a text, Ident when the ident is on.
-- - Pluto: src/pluto_sink.cpp. Publish is publishMqtt, a conversation with the broker; Gather
--   the datagrams; Sink PlutoSink and its operations, with the sockets and the conversations as
--   a parameter.
-- - Router: src/ts_router.cpp. `pump` is TsRouter::pump, from the queues of Nim/Packets to a
--   sink, with the copy to a file.
-- - Client: src/gateway_status_client.cpp. `request` is GatewayStatusClient::request with what
--   the network does as a parameter; Response reads the answers, Calls are the methods, Expected
--   what a caller may expect of them; Gpio and Answers join it to src/api_server.cpp on the
--   other machine.
-- - Config/Json: the JSON parser of src/config.cpp (`parse`), with std::stod as a parameter;
--   Strings the strings that it writes (`json_string`). Config/Rates: the names of modulations
--   and codes, and the rate of the multiplex (`calculate_pluto_mux_rate_kbps`). Config/Clocks:
--   parseClockTime, and with it the clocks that the daemon's schedule reads.
--
-- Poll results go from Nim to Arbitrator and Scanner as lists of ReceiverStatus; Scanner answers
-- with the calls of tune that Nim carries out; the packets that Nim drains from the active
-- receiver go to the sinks.
--
-- Numbers: unsigned counters and registers are natural numbers with their wrap-around written
-- out (`u8`, `u16`, `u32`, `u64`); times are natural numbers of milliseconds or microseconds,
-- which do not wrap; double is an ordered type, a parameter. Loops recurse over their data, or
-- on fuel that the definition gives and that is enough for every input: more than the bytes that
-- are left, of which each round takes one or more, in the JSON parser, the stream inspector and
-- the backlog; more than the length for the trimming of the transitions; four rounds for the
-- length of an MQTT packet. The fuel of the audio loop, of the replay after restarts and of the
-- chunks of BlockingTsInput::append is an argument, and their theorems state how much is enough;
-- the fuel of a number's digits is the number.
--
-- Not modelled: locks and threads (the operations are atomic steps), logging, I2C and socket
-- calls (parameters where a result depends on them), the start and the messages of the media
-- process, and the rest of the daemon, the media pipeline, the configuration and the HTTP API.
mod Common
pub mod Domain
mod Samples
pub mod Arbitrator
pub mod Scanner
pub mod Timing
pub mod Nim
pub mod Gateway
pub mod Daemon
pub mod Ptt
pub mod Media
pub mod Mqtt
pub mod Inspect
pub mod Web
pub mod Config
pub mod Pipeline
pub mod Pluto
pub mod Router
pub mod Client

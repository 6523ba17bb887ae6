-- ===== src/Gateway.antt =====
-- src/ts_gateway_sink.cpp and src/pc_gateway_input.cpp: the UDP relay between two daemons.
pub mod Sink
pub mod Input

-- ===== src/Pluto.antt =====
-- src/pluto_sink.cpp: the transmitter. Publish is a message to its broker, Order the order of its packets, Sink the state of PlutoSink,
-- Control and Stream what its operations do.
pub mod Publish
pub mod Order
pub mod Gather
pub mod Sink
pub mod Control
pub mod Stream
mod Examples

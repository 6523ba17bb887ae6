-- ===== src/Inspect.antt =====
-- tools/ts_gateway_inspect.cpp: the stream's tables, its packets, and that no input takes the inspector
-- outside its buffers.
pub mod Tables
pub mod Packets
pub mod Total
pub mod Receives
mod Examples

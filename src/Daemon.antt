-- ===== src/Daemon.antt =====
-- src/daemon.cpp: the decisions of the loop in Daemon::runPiGatewayOrLocal.
pub mod Schedule
pub mod Sources
pub mod Transmit
pub mod Transitions
mod Examples

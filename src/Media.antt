-- ===== src/Media.antt =====
-- src/media_process.cpp: the messages between the daemon and its media process, and the daemon's side
-- of their connection.
pub mod Payload
pub mod State
pub mod Process
mod Examples

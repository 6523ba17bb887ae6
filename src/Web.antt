-- ===== src/Web.antt =====
-- src/api_server.cpp: the texts that the HTTP API reads and writes. Query is its query strings, Timecode
-- the positions within a video.
pub mod Query
pub mod Timecode
mod Examples

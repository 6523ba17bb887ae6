-- ===== src/Pipeline.antt =====
-- src/media_pipeline.cpp: the media process's own decisions. Modes is what it transmits, Input the
-- buffer between its threads, Morse the keying of the ident.
pub mod State
pub mod Modes
pub mod Input
pub mod Morse
pub mod Ident
mod Examples

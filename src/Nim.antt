-- ===== src/Nim.antt =====
-- src/nim_controller.cpp: the receivers of the NIM boards.
pub mod Packets
pub mod Watch
pub mod Tuner

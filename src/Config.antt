-- ===== src/Config.antt =====
-- src/config.cpp: the reader of the configuration file. Json is its JSON parser.
pub mod Json
pub mod Clocks
pub mod Rates
mod Examples
mod RateExamples

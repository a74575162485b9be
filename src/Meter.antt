-- ===== src/Meter.antt =====
-- The P1 telegram parser of sm_parser.h and sm_parser.c, and SmartMeter on top of it.
pub mod Tokenizer
pub mod Values
pub mod Numbers
pub mod Parser

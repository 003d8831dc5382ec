-- ===== src/Parser.antt =====
-- src/parser.rs: the parser of logcat lines, in the modules of its parts. Each parser of a payload
-- reads the tokens that the tokenizer cuts.
pub mod Tokens
pub mod Names
pub mod Activity
pub mod Start
pub mod Died
pub mod Line
pub mod Valid
pub mod Sound
pub mod Printed
pub mod Payload
pub mod Roundtrip

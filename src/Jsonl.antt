-- ===== src/Jsonl.antt =====
-- The line framing of the JSONL protocol: JsonlParser in
-- src/stdiolink/protocol/jsonl_stream_parser.cpp, which Driver::tryReadLine of
-- src/stdiolink/host/driver.cpp repeats. Bytes are numbers; the newline is 10.
pub mod Framing
pub mod Chunks
mod Tests

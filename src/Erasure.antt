-- ===== src/Erasure.antt =====
-- src/erasure_coding: encoder.rs, decoder.rs and streaming.rs.
pub mod Codec
pub mod Encoder
pub mod Decoder
pub mod Split
pub mod Gather
pub mod RoundTrip
pub mod Layout
pub mod Streaming
pub mod Mirror
mod Tests

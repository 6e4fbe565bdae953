-- ===== src/Codec/RoundTrip.antt =====
-- src/codec/v3.rs: what the encoder writes, the decoder reads back.
pub mod Lengths
pub mod Reads
pub mod Chain
pub mod Lists
pub mod Properties
pub mod Connect
pub mod Bodies
pub mod Frames

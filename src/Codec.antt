-- ===== src/Codec.antt =====
-- src/codec/: the MQTT 3.1.1 and 5.0 codec.
pub mod Packet
pub mod Length
pub mod Reader
pub mod Properties
pub mod Connect
pub mod Decode
pub mod Encode
pub mod RoundTrip
mod Examples

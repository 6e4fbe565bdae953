-- ===== src/Gateway.antt =====
-- src/net/mqtt_sn.rs: the gateway for MQTT-SN over UDP.
pub mod Packet
pub mod Frames
pub mod Client
pub mod Topics
pub mod Server
pub mod Handling
pub mod Forwarding
pub mod Counter
pub mod Keeping
pub mod Routing
pub mod Examples

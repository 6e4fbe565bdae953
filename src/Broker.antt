-- ===== src/Broker.antt =====
-- src/broker/: sessions, subscriptions, routing and the handshakes of a connection.
pub mod Topic
pub mod Subscription
pub mod Message
pub mod Qos
pub mod PacketId
pub mod Offline
pub mod Session
pub mod Retain
pub mod Auth
pub mod Router
pub mod Connection

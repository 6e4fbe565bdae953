-- ===== src/Broker/Message.antt =====
-- src/broker/router.rs: the publication on its way to a session, and its PUBLISH packet.
use lumen_mq.Prelude.{ℕ, Bool, false, Option, Bytes, Str}
use lumen_mq.Codec.Packet.{QoS, Packet}

pub record OutboundPublish : Type 0 where
  pub topic : Str
  pub payload : Bytes
  pub qos : QoS
  pub retain : Bool

unfoldable pub build_publish : OutboundPublish → Option ℕ → Packet
build_publish req packet_id = Packet.publish (record {
  dup = false;
  qos = req.qos;
  retain = req.retain;
  topic = req.topic;
  packet_id = packet_id;
  payload = req.payload;
})

-- ===== src/Gateway/Forwarding.antt =====
-- src/net/mqtt_sn.rs: `forward_outbound`, what the router has for a client.
use lumen_mq.Prelude.{ℕ, not, Option, some, none, Str, if◌then◌else◌, eqb, nat_key, list_key}
use lumen_mq.Prelude.Assoc.{lookup}
use lumen_mq.Codec.Packet.{QoS}
use lumen_mq.Broker.Message.{OutboundPublish}
use lumen_mq.Broker.Session.{owns}
use lumen_mq.Gateway.Packet.{SnPacket, qos_to_flags}
use lumen_mq.Gateway.Client.{SnClient, assign_topic_id, allocate_msg_id}
use lumen_mq.Gateway.Server.{Gateway, with_client}

abbrev lowered : QoS → QoS
lowered QoS.exactly_once = QoS.at_least_once
lowered q = q

abbrev msg_id_for : QoS → SnClient → ℕ × SnClient
msg_id_for QoS.at_most_once c = (0, c)
msg_id_for _ c = allocate_msg_id c

-- One message of `forward_outbound`: the PUBLISH, or nothing where the forwarder ends.
unfoldable pub forward_one :
    {D : Type 0} → ℕ → Str → ℕ → OutboundPublish → Gateway D → Option (SnPacket × Gateway D)
unfolding owns assign_topic_id allocate_msg_id
forward_one peer client_id epoch msg g =
    if not (owns client_id epoch g.router.sessions) then none else elim (lookup peer g.clients) [
      | none ↦ none
      | some c ↦
          if not (eqb c.epoch epoch)
          then none
          else let assigned = assign_topic_id msg.topic c in
            let numbered = msg_id_for msg.qos assigned.1 in
            some (
              SnPacket.publish (qos_to_flags (lowered msg.qos)) assigned.0 numbered.0 msg.payload,
              with_client peer numbered.1 g,
            )
    ]

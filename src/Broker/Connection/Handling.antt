-- ===== src/Broker/Connection/Handling.antt =====
-- src/broker/mod.rs: `handle_packet`.
use lumen_mq.Prelude.{ℕ, some, none, nat_key}
use lumen_mq.Prelude.Assoc.{lookup, insert, remove}
use lumen_mq.Prelude.Result.{ok}
use lumen_mq.Utils.{codec, malformed_body}
use lumen_mq.Codec.Packet.{Packet}
use lumen_mq.Broker.Qos.{AckStage, InflightTable, on_pubrel}
use lumen_mq.Broker.Connection.{Env, Run, ◌>>◌, pure, fail, send}
use lumen_mq.Broker.Connection.Publishing.{handle_publish}
use lumen_mq.Broker.Connection.Subscribing.{handle_subscribe, handle_unsubscribe}

pub data Control : Type 0 where
  continues : Control
  disconnects : Control

-- The entry, if there is one, waits for PUBCOMP.
unfoldable pub received : ℕ → ℕ → InflightTable → InflightTable
unfolding lookup insert
received now id table = elim (lookup id table) [
  | none ↦ table
  | some e ↦ insert id (record e { stage = AckStage.wait_pubcomp; last_sent_at = now }) table
]

abbrev settle : {F D : Type 0} → ℕ → Run F D Control
settle id w =
    some (ok Control.continues, record w { outbound_inflight = remove id w.outbound_inflight })

abbrev and_continue : {F D : Type 0} → Run F D (Unit {0}) → Run F D Control
and_continue m = m >> pure Control.continues

abbrev unexpected : {F D : Type 0} → Run F D Control
unexpected = fail (codec (malformed_body "unexpected packet from client"))

unfoldable pub handle_packet : {F D : Type 0} → Env F D → Packet → Run F D Control
unfolding handle_publish handle_subscribe handle_unsubscribe send received on_pubrel remove
handle_packet env (Packet.publish p) = and_continue (handle_publish env p)
handle_packet env (Packet.subscribe s) = and_continue (handle_subscribe env s)
handle_packet env (Packet.unsubscribe u) = and_continue (handle_unsubscribe env u)
handle_packet env Packet.pingreq = and_continue (send env Packet.pingresp)
handle_packet env Packet.disconnect = pure Control.disconnects
handle_packet env (Packet.puback id) = settle id
handle_packet env (Packet.pubrec id) = λ w.
    and_continue (send env (Packet.pubrel id))
      (record w { outbound_inflight = received env.around.now id w.outbound_inflight })
handle_packet env (Packet.pubrel id) = λ w.
    and_continue (send env (Packet.pubcomp id))
      (record w { inbound_qos2 = (on_pubrel id w.inbound_qos2).0 })
handle_packet env (Packet.pubcomp id) = settle id
handle_packet env (Packet.connect c) = unexpected
handle_packet env (Packet.connack c) = unexpected
handle_packet env (Packet.suback s) = unexpected
handle_packet env (Packet.unsuback id) = unexpected
handle_packet env Packet.pingresp = unexpected

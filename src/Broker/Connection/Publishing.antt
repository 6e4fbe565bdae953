-- ===== src/Broker/Connection/Publishing.antt =====
-- src/broker/mod.rs: `handle_publish`.
use lumen_mq.Prelude.{
  ℕ, Bool, true, false, not, ◌&&◌, Option, some, none, if◌then◌else◌, length, nat_key,
}
use lumen_mq.Prelude.Result.{Result, ok, err}
use lumen_mq.Utils.{BrokerError, codec, malformed_body}
use lumen_mq.Codec.Packet.{QoS, Packet, Publish}
use lumen_mq.Broker.Qos.{on_publish}
use lumen_mq.Broker.Router.{publish, route_inbound_publish}
use lumen_mq.Security.Guard.{check_publish}
use lumen_mq.Plugin.Guard.{plugin_publish, forward}
use lumen_mq.Broker.Connection.{Env, Run, ◌>>=◌, pure, fail, send}

abbrev pub is_err : Result BrokerError (Unit {0}) → Bool
is_err (ok u) = false
is_err (err e) = true

-- Whether the security guard rejects it. The guard's buckets change.
unfoldable pub security_rejects : {F D : Type 0} → Env F D → Publish → Run F D Bool
unfolding check_publish
security_rejects env p w =
    let checked =
      check_publish env.floats env.around.now env.client_id (length p.payload) env.max_packet_size
        w.security in
    some (ok (is_err checked.0), record w { security = checked.1 })

-- Whether the plugin rejects it, which is asked where the security guard does not.
abbrev pub plugin_rejects : {F D : Type 0} → Publish → Bool → Run F D Bool
plugin_rejects p security_rejected w =
    some (ok (if security_rejected then false else is_err (plugin_publish p w.plugin)), w)

-- The identifier of a QoS 2 publication noted: true where it is not a duplicate.
unfoldable pub note_inbound : {F D : Type 0} → QoS → Option ℕ → Run F D Bool
unfolding on_publish
note_inbound QoS.at_most_once id = pure true
note_inbound QoS.at_least_once id = pure true
note_inbound QoS.exactly_once none = fail (codec (malformed_body "QoS2 PUBLISH missing packet_id"))
note_inbound QoS.exactly_once (some id) = λ w.
    let seen = on_publish id w.inbound_qos2 in
    some (ok (not seen.1), record w { inbound_qos2 = seen.0 })

-- The routing, and the forwarder's hook behind it.
unfoldable pub route_if : {F D : Type 0} → Env F D → Publish → Bool → Run F D (Unit {0})
unfolding publish forward
route_if env p false w = some (ok tt, w)
route_if env p true w =
    elim (route_inbound_publish env.around env.disk p (some env.client_id) w.router) [
      | none ↦ none
      | some (deliveries, router) ↦
          some
            (ok tt, record w { router = router; plugin = forward p (some env.client_id) w.plugin })
    ]

unfoldable pub acknowledge : {F D : Type 0} → Env F D → QoS → Option ℕ → Run F D (Unit {0})
unfolding send
acknowledge env QoS.at_most_once id = pure tt
acknowledge env QoS.at_least_once none = pure tt
acknowledge env QoS.at_least_once (some id) = send env (Packet.puback id)
acknowledge env QoS.exactly_once none = pure tt
acknowledge env QoS.exactly_once (some id) = send env (Packet.pubrec id)

unfoldable pub handle_publish : {F D : Type 0} → Env F D → Publish → Run F D (Unit {0})
unfolding security_rejects plugin_publish note_inbound route_if acknowledge
handle_publish env p = do
  security_rejected ← security_rejects env p
  plugin_rejected ← plugin_rejects p security_rejected
  first ← note_inbound p.qos p.packet_id
  _ ← route_if env p (first && (not security_rejected && not plugin_rejected))
  acknowledge env p.qos p.packet_id

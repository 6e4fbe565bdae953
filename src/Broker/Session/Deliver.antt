-- ===== src/Broker/Session/Deliver.antt =====
-- src/broker/session.rs: a message sent to a client, or stored for it. The state of a client's
-- channel, which `try_send` finds, is an argument.
use lumen_mq.Prelude.{ℕ, Option, some, none, Str, if◌then◌else◌, nat_key, list_key}
use lumen_mq.Prelude.Assoc.{lookup, insert}
use lumen_mq.Codec.Packet.{QoS}
use lumen_mq.Broker.Message.{OutboundPublish}
use lumen_mq.Broker.Offline.{OfflineQueue, enqueue}
use lumen_mq.Broker.Session.{SessionEntry, SessionManager}

pub data DeliveryOutcome : Type 0 where
  sent : DeliveryOutcome
  enqueued : DeliveryOutcome
  channel_full : DeliveryOutcome
  dropped : DeliveryOutcome
  no_session : DeliveryOutcome

-- What `try_send` finds of a channel.
pub data Channel : Type 0 where
  ready : Channel
  full : Channel
  closed : Channel

abbrev stored :
    Str
    → SessionEntry
    → SessionManager
    → Option OfflineQueue
    → Option (DeliveryOutcome × SessionManager)
stored client_id e m none = none
stored client_id e m (some q) = some (
  DeliveryOutcome.enqueued,
  record m { sessions = insert client_id (record e { offline_queue = some q }) m.sessions },
)

-- The message put into the session's queue, or the outcome where it has none.
unfoldable pub store_or :
    DeliveryOutcome
    → ℕ
    → Str
    → OutboundPublish
    → SessionEntry
    → SessionManager
    → Option (DeliveryOutcome × SessionManager)
unfolding enqueue insert
store_or outcome now client_id msg e m = elim e.offline_queue [
  | none ↦ some (outcome, m)
  | some q ↦ stored client_id e m (enqueue now msg q)
]

unfoldable pub send_or_store :
    ℕ
    → Channel
    → Str
    → OutboundPublish
    → SessionEntry
    → SessionManager
    → Option (DeliveryOutcome × SessionManager)
unfolding store_or
send_or_store now Channel.ready client_id msg e m = some (DeliveryOutcome.sent, m)
send_or_store now Channel.full client_id msg e m =
    store_or DeliveryOutcome.channel_full now client_id msg e m
send_or_store now Channel.closed client_id msg e m =
    store_or DeliveryOutcome.dropped now client_id msg e m

-- `none` where the call does not return, which is so where `enqueue` does not.
unfoldable pub deliver_or_enqueue :
    ℕ
    → (ℕ → Channel)
    → Str
    → OutboundPublish
    → SessionManager
    → Option (DeliveryOutcome × SessionManager)
unfolding lookup send_or_store store_or
deliver_or_enqueue now channels client_id msg m = elim (lookup client_id m.sessions) [
  | none ↦ some (DeliveryOutcome.no_session, m)
  | some e ↦
      if e.connected
      then send_or_store now (channels e.tx) client_id msg e m
      else store_or DeliveryOutcome.dropped now client_id msg e m
]

unfoldable pub delivery_qos : QoS → QoS → QoS
delivery_qos QoS.at_most_once sub = QoS.at_most_once
delivery_qos _ QoS.at_most_once = QoS.at_most_once
delivery_qos QoS.at_least_once sub = QoS.at_least_once
delivery_qos _ QoS.at_least_once = QoS.at_least_once
delivery_qos QoS.exactly_once QoS.exactly_once = QoS.exactly_once

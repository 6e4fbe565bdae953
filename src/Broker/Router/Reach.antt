-- ===== src/Broker/Router/Reach.antt =====
-- src/broker/router.rs: who gets a publication.
use lumen_mq.Prelude.{◌≡◌, ◌⊎◌, true, Str, nat_key, list_key, In}
use lumen_mq.Codec.Packet.{QoS, qos_le}
use lumen_mq.Broker.Subscription.Select.{matches_shared}
use lumen_mq.Broker.Subscription.Delivery.{Subscribed}
use lumen_mq.Broker.Router.{Router, Delivery}

-- The QoS at which a client gets the topic: the greatest of its own filters that match, or that of a
-- membership that was chosen in its group.
abbrev pub Gets : {D : Type 0} → Str → Str → QoS → Router D → Type 0
Gets topic id q r =
    (Subscribed topic id q r.subscriptions
      × ((p : QoS) → Subscribed topic id p r.subscriptions → qos_le p q ≡ true))
    ⊎ In (id, q) (matches_shared topic r.subscriptions).0

-- ===== src/Broker/Router.antt =====
-- src/broker/router.rs: a publication is retained, matched, and delivered to each subscriber. The
-- subscriptions, the sessions, the retained messages and the storage are shared with the broker's
-- connections; the storage is the one that `retain` has. What a delivery came to is returned with the
-- target, where the code writes a log line and counts a metric.
pub mod Fanout
pub mod Outcome
pub mod Reach
pub mod Leaving
pub mod Kept
pub mod Examples
use lumen_mq.Prelude.{
  ℕ, Bool, true, false, Option, some, none, List, [], ◌∷◌, ◌++◌, Str, Bytes, if◌then◌else◌, ◌==◌,
  nat_key, list_key,
}
use lumen_mq.Codec.Packet.{QoS, Publish}
use lumen_mq.Broker.Message.{OutboundPublish}
use lumen_mq.Broker.Retain.{Storage, RetainStore, set}
use lumen_mq.Broker.Session.{SessionManager}
use lumen_mq.Broker.Session.Deliver.{Channel, DeliveryOutcome, deliver_or_enqueue, delivery_qos}
use lumen_mq.Broker.Subscription.{SubscriptionTree, Filters}
use lumen_mq.Broker.Subscription.Select.{matches, matches_shared}

-- The storage's calls for sessions: the state after the call, whether it fails or not.
-- `drain_offline` also returns the messages, or nothing where it fails.
pub record Disk (D : Type 0) : Type 0 where
  pub retained : Storage D
  pub push_offline : Str → OutboundPublish → D → D
  pub drain_offline : Str → D → Option (List OutboundPublish) × D
  pub save_session : Str → Filters → D → D
  pub delete_session : Str → D → D

pub record Router (D : Type 0) : Type 0 where
  pub subscriptions : SubscriptionTree
  pub sessions : SessionManager
  pub retain : RetainStore D

-- What a call finds around it: the time and the clients' channels.
pub record Around : Type 0 where
  pub now : ℕ
  pub channels : ℕ → Channel

pub record Delivery : Type 0 where
  pub client_id : Str
  pub message : OutboundPublish
  pub outcome : DeliveryOutcome

abbrev mapped : {D : Type 0} → (D → D) → Option D → Option D
mapped call none = none
mapped call (some d) = some (call d)

-- A call of the storage, where there is one.
abbrev pub on_disk : {D : Type 0} → (D → D) → Router D → Router D
on_disk call r = record r { retain = record r.retain { storage = mapped call r.retain.storage } }

-- `Option`'s `?`.
abbrev pub then_some {ℓ κ} : {A : Type ℓ} {B : Type κ} → Option A → (A → Option B) → Option B
then_some none f = none
then_some (some a) f = f a

abbrev pub written_through :
    {D : Type 0} → Disk D → Str → OutboundPublish → DeliveryOutcome → Router D → Router D
written_through disk client_id req DeliveryOutcome.enqueued r =
    on_disk (disk.push_offline client_id req) r
written_through disk client_id req _ r = r

-- The message for a subscriber.
abbrev pub outbound : Str → Bytes → QoS → QoS → OutboundPublish
outbound topic payload pub_qos sub_qos = record {
  topic = topic;
  payload = payload;
  qos = delivery_qos pub_qos sub_qos;
  retain = false;
}

-- `none` where `deliver_or_enqueue` does not return.
unfoldable pub deliver_one :
    {D : Type 0} → Around → Disk D → Str → OutboundPublish → Router D → Option (Delivery × Router D)
unfolding deliver_or_enqueue
deliver_one around disk client_id req r =
    then_some (deliver_or_enqueue around.now around.channels client_id req r.sessions) (λ done.
      some (
        record { client_id = client_id; message = req; outcome = done.0 },
        written_through disk client_id req done.0 (record r { sessions = done.1 }),
      ))

abbrev pub is_excluded : Option Str → Str → Bool
is_excluded none client_id = false
is_excluded (some publisher) client_id = publisher == client_id

-- The loop over the targets.
unfoldable pub deliver_all :
    {D : Type 0}
    → Around
    → Disk D
    → Option Str
    → (QoS → OutboundPublish)
    → List (Str × QoS)
    → Router D
    → Option (List Delivery × Router D)
unfolding deliver_one
deliver_all around disk exclude req [] r = some ([], r)
deliver_all around disk exclude req ((client_id, sub_qos) ∷ targets) r =
    elim (is_excluded exclude client_id) [
      | true ↦ deliver_all around disk exclude req targets r
      | false ↦ then_some (deliver_one around disk client_id (req sub_qos) r) (λ done.
          then_some (deliver_all around disk exclude req targets done.1)
            (λ rest. some (done.0 ∷ rest.0, rest.1)))
    ]

abbrev pub retain_first : {D : Type 0} → Disk D → Str → Bytes → QoS → Bool → Router D → Router D
retain_first disk topic payload qos retain r =
    if retain then record r { retain = set disk.retained topic payload qos r.retain } else r

-- `publish`: the deliveries, in the order they were made.
unfoldable pub publish :
    {D : Type 0}
    → Around
    → Disk D
    → Str
    → Bytes
    → QoS
    → Bool
    → Option Str
    → Router D
    → Option (List Delivery × Router D)
unfolding set matches matches_shared deliver_all delivery_qos
publish around disk topic payload qos retain exclude r =
    let r1 = retain_first disk topic payload qos retain r in
    let chosen = matches_shared topic r1.subscriptions in
    deliver_all around disk exclude (outbound topic payload qos)
      (matches topic r1.subscriptions ++ chosen.0) (record r1 { subscriptions = chosen.1 })

abbrev pub route_inbound_publish :
    {D : Type 0}
    → Around
    → Disk D
    → Publish
    → Option Str
    → Router D
    → Option (List Delivery × Router D)
route_inbound_publish around disk p publisher r =
    publish around disk p.topic p.payload p.qos p.retain publisher r

-- ===== src/Broker/Router/Outcome.antt =====
-- src/broker/router.rs: what a publication hands out and what it leaves.
use lumen_mq.Prelude.{
  ◌≡◌, Bool, true, false, not, ◌&&◌, Option, some, none, Str, Bytes, if◌then◌else◌, ◌==◌, is_empty,
  nat_key, list_key, pair_key,
}
use lumen_mq.Codec.Packet.{QoS}
use lumen_mq.Broker.Retain.{RetainedMessage, Storage, can_retain, too_large, get}
use lumen_mq.Broker.Retain.Contents.{left_on}
use lumen_mq.Broker.Subscription.{SubscriptionTree}
use lumen_mq.Broker.Subscription.Index.{member}
use lumen_mq.Broker.Router.{Disk, Router}

-- The storage, where there is one, takes the message, or the deletion of an empty one.
abbrev pub takes : {D : Type 0} → Storage D → Str → Bytes → QoS → Option D → Bool
takes api topic payload qos none = true
takes api topic payload qos (some d) =
    elim (if is_empty payload
      then api.delete_retained topic d
      else api.save_retained topic (record { topic = topic; payload = payload; qos = qos }) d) [
        | none ↦ false
        | some d' ↦ true
      ]

-- The subscriptions are the same but for the counters of the groups.
abbrev pub OnlyCounters : SubscriptionTree → SubscriptionTree → Type 0
OnlyCounters t t' =
    (t'.root ≡ t.root)
    × (t'.reverse ≡ t.reverse)
    × ((key : Str × Str) (id : Str) → member id key t'.shared ≡ member id key t.shared)

-- What is retained under a topic after a publication.
abbrev pub retained_at :
    {D : Type 0} → Disk D → Str → Bytes → QoS → Bool → Router D → Str → Option RetainedMessage
retained_at disk topic payload qos retain r at =
    if (retain && (can_retain topic && not (too_large r.retain.max_payload_bytes payload)))
      && (takes disk.retained topic payload qos r.retain.storage && (topic == at))
    then left_on topic payload qos
    else get at r.retain

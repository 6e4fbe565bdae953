-- ===== src/Broker/Qos.antt =====
-- src/broker/qos.rs: the outbound inflight table with its retransmissions, and the tracker of
-- inbound QoS 2. Time is a number, an argument of each call; `duration_since` stops at zero.
pub mod Retry
pub mod Dedup
mod Examples
use lumen_mq.Prelude.{
  ℕ, ◌+◌, ◌-◌, Bool, true, false, not, Option, some, none, List, [], ◌∷◌, ◌++◌, Bytes, Str, ltb,
  leb, length, if◌then◌else◌, nat_key,
}
use lumen_mq.Prelude.Assoc.{Assoc, lookup, insert, remove}
use lumen_mq.Codec.Packet.{QoS, Packet}

pub data AckStage : Type 0 where
  wait_first_ack wait_pubcomp : AckStage

pub record OutboundInflight : Type 0 where
  pub topic : Str
  pub payload : Bytes
  pub qos : QoS
  pub retain : Bool
  pub stage : AckStage
  pub last_sent_at : ℕ
  pub retry_count : ℕ

unfoldable pub new_inflight : Str → Bytes → QoS → Bool → ℕ → OutboundInflight
new_inflight topic payload qos retain now = record {
  topic = topic;
  payload = payload;
  qos = qos;
  retain = retain;
  stage = wait_first_ack;
  last_sent_at = now;
  retry_count = 0;
}

unfoldable pub packet_at : AckStage → OutboundInflight → ℕ → Bool → Packet
packet_at wait_first_ack e packet_id dup = Packet.publish (record {
  dup = dup;
  qos = e.qos;
  retain = e.retain;
  topic = e.topic;
  packet_id = some packet_id;
  payload = e.payload;
})
packet_at wait_pubcomp e packet_id dup = Packet.pubrel packet_id

-- The packet to send at the entry's stage.
unfoldable pub build_packet : OutboundInflight → ℕ → Bool → Packet
unfolding packet_at
build_packet e packet_id dup = packet_at e.stage e packet_id dup

-- `OutboundInflightTable`.
abbrev pub InflightTable : Type 0
InflightTable = Assoc ℕ OutboundInflight

-- What `retry_expired` finds in one entry.
pub data Visit : Type 0 where
  waits : Visit
  failed : Visit
  resent : OutboundInflight → Packet → Visit

abbrev pub dup_at : AckStage → Bool
dup_at wait_first_ack = true
dup_at wait_pubcomp = false

unfoldable pub visit : ℕ → ℕ → ℕ → ℕ → OutboundInflight → Visit
unfolding build_packet
visit now timeout max_retries pid e =
    if ltb (now - e.last_sent_at) timeout
    then waits
    else if leb max_retries e.retry_count
    then failed
    else resent (record e { retry_count = e.retry_count + 1; last_sent_at = now })
        (build_packet e pid (dup_at e.stage))

pub record Retried : Type 0 where
  pub table : InflightTable
  pub to_resend : List (ℕ × Packet)
  pub failed_ids : List ℕ

abbrev visited : ℕ → OutboundInflight → Visit → Retried → Retried
visited pid e waits r = record r { table = (pid, e) ∷ r.table }
visited pid e failed r = record r { failed_ids = pid ∷ r.failed_ids }
visited pid e (resent e' pkt) r = record r {
  table = (pid, e') ∷ r.table;
  to_resend = (pid, pkt) ∷ r.to_resend;
}

-- The scan, with the removal of what has failed done on the way.
unfoldable pub retry_expired : ℕ → ℕ → ℕ → InflightTable → Retried
unfolding visit
retry_expired now timeout max_retries [] = record { table = []; to_resend = []; failed_ids = [] }
retry_expired now timeout max_retries ((pid, e) ∷ rest) =
    visited pid e (visit now timeout max_retries pid e) (retry_expired now timeout max_retries rest)

-- `InboundQos2Tracker`: the identifiers seen and not yet released.
abbrev pub Seen : Type 0
Seen = Assoc ℕ (Unit {0})

abbrev pub contains : ℕ → Seen → Bool
contains packet_id seen = elim (lookup packet_id seen) [ none ↦ false | some _ ↦ true ]

-- True for a duplicate.
unfoldable pub on_publish : ℕ → Seen → Seen × Bool
on_publish packet_id seen = (insert packet_id tt seen, contains packet_id seen)

-- True where the identifier was there.
unfoldable pub on_pubrel : ℕ → Seen → Seen × Bool
on_pubrel packet_id seen = (remove packet_id seen, contains packet_id seen)

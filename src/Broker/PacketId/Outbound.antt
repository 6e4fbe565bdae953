-- ===== src/Broker/PacketId/Outbound.antt =====
-- src/broker/mod.rs: what `build_outbound_packet` sends and what it records.
use lumen_mq.Prelude.{
  ℕ, ◌≤◌, ◌<◌, ◌≡◌, ◌≢◌, ◌⊎◌, ◌↔◌, refl, false, some, none, length, arith, nat_key, leb, Bool-cases,
  inl, inr, if◌then◌else◌, ◌==◌,
}
use lumen_mq.Prelude.Assoc.{lookup, lookup-insert, length-insert_new, IsMap, insert-IsMap}
use lumen_mq.Codec.Packet.{QoS, Packet, at_most_once, is_qos0}
use lumen_mq.Broker.Message.{OutboundPublish, build_publish}
use lumen_mq.Broker.Qos.{InflightTable, OutboundInflight, wait_first_ack, new_inflight}
use lumen_mq.Broker.PacketId.{allocate_pid, build_outbound_packet}
use lumen_mq.Broker.PacketId.Fresh.{IsCounter, allocate_pid_fresh}

-- The entry that goes with a message: in the first stage, sent now and not sent again yet.
abbrev pub entry_of : OutboundPublish → ℕ → OutboundInflight
entry_of req now = record {
  topic = req.topic;
  payload = req.payload;
  qos = req.qos;
  retain = req.retain;
  stage = wait_first_ack;
  last_sent_at = now;
  retry_count = 0;
}

-- The message as a PUBLISH under an identifier, sent for the first time.
abbrev pub packet_of : OutboundPublish → ℕ → Packet
packet_of req pid = Packet.publish (record {
  dup = false;
  qos = req.qos;
  retain = req.retain;
  topic = req.topic;
  packet_id = some pid;
  payload = req.payload;
})

not_qos0 : (q : QoS) → q ≢ at_most_once → is_qos0 q ≡ false
not_qos0 at_most_once h = absurd (h refl)
not_qos0 _ h = refl

-- A message of QoS 1 or 2, with room in the table and an identifier that is free, is sent as a PUBLISH
-- with its own topic, payload, QoS and retain flag, not marked as a duplicate, under an identifier that
-- no other entry uses; the same message is recorded under it, waiting for the first acknowledgement, as
-- sent at this instant and never again; and every other entry stays.
pub build_outbound_packet_sends :
    (max_inflight : ℕ) (req : OutboundPublish) (now next : ℕ) (inflight : InflightTable) (free : ℕ)
    → IsCounter next
    → req.qos ≢ at_most_once
    → length inflight < max_inflight
    → IsCounter free
    → lookup free inflight ≡ none
    → let out = build_outbound_packet max_inflight req now next inflight in
      (pid : ℕ) × IsCounter pid
      × (lookup pid inflight ≡ none)
      × (out.0 ≡ some (packet_of req pid))
      × ((id : ℕ)
          → lookup id out.2 ≡ (if pid == id then some (entry_of req now) else lookup id inflight))
unfolding build_outbound_packet new_inflight build_publish
build_outbound_packet_sends m req now next inflight free c q room fc ff =
    let (c', le, fresh, full) = allocate_pid_fresh next inflight c in
    let pid = (allocate_pid next inflight).0 in
    let nz : pid ≢ 0 = λ z. full.0 z free fc ff in
    (
      pid,
      (omega arith, le),
      fresh nz,
      ground (arith, not_qos0 req.qos q),
      λ id. ground (arith, not_qos0 req.qos q, lookup-insert pid id (entry_of req now) inflight),
    )

-- The table never grows over its limit, keys stay unique, the counter stays valid, and where
-- nothing is sent the table is as it was.
pub build_outbound_packet_bounds :
    (max_inflight : ℕ) (req : OutboundPublish) (now next : ℕ) (inflight : InflightTable)
    → IsCounter next
    → IsMap inflight
    → length inflight ≤ max_inflight
    → let out = build_outbound_packet max_inflight req now next inflight in
      (length out.2 ≤ max_inflight)
      × IsMap out.2
      × IsCounter out.1
      × (out.0 ≡ none → out.2 ≡ inflight)
unfolding build_outbound_packet new_inflight
build_outbound_packet_bounds m req now next inflight c u le = ground (
  arith,
  allocate_pid_fresh next inflight c,
  length-insert_new (allocate_pid next inflight).0 (entry_of req now) inflight,
  insert-IsMap (allocate_pid next inflight).0 (entry_of req now) inflight u,
)

-- A message is dropped exactly where it is of QoS 1 or 2 and the table is at its limit or every
-- identifier is in use.
pub build_outbound_packet-eq-none :
    (max_inflight : ℕ) (req : OutboundPublish) (now next : ℕ) (inflight : InflightTable)
    → IsCounter next
    → ((build_outbound_packet max_inflight req now next inflight).0 ≡ none) ↔ (
        (req.qos ≢ at_most_once)
        × ((max_inflight ≤ length inflight)
            ⊎ ((id : ℕ) → IsCounter id → lookup id inflight ≢ none)))
unfolding build_outbound_packet
build_outbound_packet-eq-none m req now next inflight c = (dropped, kept)
  where
    full :
        ((allocate_pid next inflight).0 ≡ 0) ↔ ((id : ℕ) → IsCounter id → lookup id inflight ≢ none)
    full = (allocate_pid_fresh next inflight c).3

    dropped :
        (build_outbound_packet m req now next inflight).0 ≡ none
        → (req.qos ≢ at_most_once)
          × ((m ≤ length inflight) ⊎ ((id : ℕ) → IsCounter id → lookup id inflight ≢ none))
    dropped e = elim (Bool-cases (leb m (length inflight))) [
      | inl over ↦ (λ q. ground arith, inl (ground arith))
      | inr under ↦
          let zero_pid : (allocate_pid next inflight).0 ≡ 0 = ground arith in
          (λ q. ground arith, inr (full.0 zero_pid))
    ]

    kept :
        (req.qos ≢ at_most_once)
          × ((m ≤ length inflight) ⊎ ((id : ℕ) → IsCounter id → lookup id inflight ≢ none))
        → (build_outbound_packet m req now next inflight).0 ≡ none
    kept (q, inl over) = ground (arith, not_qos0 req.qos q)
    kept (q, inr all) = let zero_pid = full.1 all in ground (arith, not_qos0 req.qos q, zero_pid)

-- ===== src/Broker/Session/Replay.antt =====
-- src/broker/session.rs: a message that is stored while the client is away is replayed when it comes
-- back.
use lumen_mq.Prelude.{
  ℕ, ◌+◌, ◌-◌, ◌<◌, ◌≡◌, refl, ap, ◌∙◌, true, false, some, List, [], ◌∷◌, ◌++◌, Str, if◌then◌else◌,
  nat_key, list_key, ==_refl, arith, Bool-cases, inl, inr, map, length, drop, lt→leb,
}
use lumen_mq.Prelude.Assoc.{lookup, insert, lookup-insert}
use lumen_mq.Codec.Packet.{QoS, qos_le}
use lumen_mq.Broker.Message.{OutboundPublish}
use lumen_mq.Broker.Offline.{
  OfflineMessage, OfflineQueue, expired, evict_expired, drain, payload_of,
}
use lumen_mq.Broker.Offline.Room.{enqueue_evicted}
use lumen_mq.Broker.Session.{
  SessionEntry, SessionManager, Registration, register, replayed, was_present,
}
use lumen_mq.Broker.Session.Deliver.{
  Channel, DeliveryOutcome, deliver_or_enqueue, store_or, delivery_qos,
}

-- A last message that is not expired stays the last.
evict-last :
    (ttl now : ℕ) (q : List OfflineMessage) (x : OfflineMessage)
    → expired ttl now x ≡ false
    → (ys : List OfflineMessage) × (evict_expired ttl now (q ++ (x ∷ [])) ≡ ys ++ (x ∷ []))
unfolding evict_expired
evict-last ttl now [] x h = ([], rw h refl)
evict-last ttl now (m ∷ q) x h = elim (Bool-cases (expired ttl now m)) [
  | inl e ↦ let (ys, k) = evict-last ttl now q x h in (ys, rw e k)
  | inr e ↦ (m ∷ q, rw e refl)
]

map-last :
    (q : List OfflineMessage) (x : OfflineMessage)
    → map payload_of (q ++ (x ∷ [])) ≡ map payload_of q ++ (x.payload ∷ [])
map-last [] x = refl
map-last (m ∷ q) x = ap (◌∷◌ m.payload) (map-last q x)

-- A message for a persistent session that is offline, with a queue of some capacity, is stored, and
-- a registration of the client before the message expires finds the session and gets the message as
-- the last of the replay.
pub stored_replayed :
    (now later : ℕ) (channels : ℕ → Channel) (msg : OutboundPublish) (r : Registration)
    (e : SessionEntry) (q : OfflineQueue) (m : SessionManager)
    → lookup r.client_id m.sessions ≡ some e
    → e.connected ≡ false
    → e.clean_session ≡ false
    → e.offline_queue ≡ some q
    → 0 < q.max_messages
    → later - now < q.ttl
    → (m' : SessionManager) × (deliver_or_enqueue now channels r.client_id msg m
        ≡ some (DeliveryOutcome.enqueued, m'))
      × ((register later r m').0.session_present ≡ true)
      × (earlier : List OutboundPublish) × ((register later r m').0.replay ≡ earlier ++ (msg ∷ []))
unfolding deliver_or_enqueue store_or register drain
stored_replayed now later channels msg r e q m h off dirty has cap soon =
    let kept = evict_expired q.ttl now q.inner in
    let front = drop (length kept + 1 - q.max_messages) kept in
    let x : OfflineMessage = record { payload = msg; enqueued_at = now } in
    let q' : OfflineQueue = record q { inner = front ++ (x ∷ []) } in
    let e' : SessionEntry = record e { offline_queue = some q' } in
    let m' : SessionManager = record m { sessions = insert r.client_id e' m.sessions } in
    let there : lookup r.client_id m'.sessions ≡ some e' =
      rw (lookup-insert r.client_id r.client_id e' m.sessions, ==_refl {A = Str} r.client_id)
        refl in
    let (ys, last) = evict-last q.ttl later front x (lt→leb q.ttl (later - now) soon) in
    let held : (register later r m').0.replay
        ≡ map payload_of (evict_expired q.ttl later (front ++ (x ∷ []))) =
      ap (replayed later) there ∙ rw dirty refl in
    (
      m',
      ground (arith, h, off, has, enqueue_evicted now msg q cap),
      ap was_present there ∙ rw dirty refl,
      map payload_of ys,
      held ∙ ap (map payload_of) last ∙ map-last ys x,
    )

-- The QoS of a delivery is the lesser of the publication's and the subscription's.
pub delivery_qos-min : (p s : QoS) → delivery_qos p s ≡ (if qos_le p s then p else s)
unfolding delivery_qos qos_le
delivery_qos-min p s = ground arith

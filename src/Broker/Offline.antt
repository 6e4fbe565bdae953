-- ===== src/Broker/Offline.antt =====
-- src/broker/store_msg.rs: the queue that keeps messages for a session while its client is away. An
-- instant is a number of nanoseconds of the monotonic clock, and `duration_since` stops at 0.
pub mod Eviction
pub mod Room
pub mod Examples
use lumen_mq.Prelude.{
  ℕ, zero, suc, ◌-◌, Bool, Option, some, none, List, [], ◌∷◌, ◌++◌, if◌then◌else◌, leb, length, map,
}
use lumen_mq.Broker.Message.{OutboundPublish}

pub record OfflineMessage : Type 0 where
  pub payload : OutboundPublish
  pub enqueued_at : ℕ

-- The messages, the oldest first.
pub record OfflineQueue : Type 0 where
  pub inner : List OfflineMessage
  pub max_messages : ℕ
  pub ttl : ℕ

abbrev pub new_queue : ℕ → ℕ → OfflineQueue
new_queue max_messages ttl = record { inner = []; max_messages = max_messages; ttl = ttl }

abbrev pub expired : ℕ → ℕ → OfflineMessage → Bool
expired ttl now m = leb ttl (now - m.enqueued_at)

-- `evict_expired_locked`.
unfoldable pub evict_expired : ℕ → ℕ → List OfflineMessage → List OfflineMessage
evict_expired ttl now [] = []
evict_expired ttl now (front ∷ q) =
    let rest = evict_expired ttl now q in if expired ttl now front then rest else front ∷ q

abbrev pub pop_front : List OfflineMessage → List OfflineMessage
pop_front [] = []
pop_front (front ∷ q) = q

-- The loop that makes room, on fuel: `none` where it still runs when the fuel is spent.
unfoldable pub make_room : ℕ → ℕ → List OfflineMessage → Option (List OfflineMessage)
make_room zero max_messages q = none
make_room (suc fuel) max_messages q =
    let rest = make_room fuel max_messages (pop_front q) in
    if leb max_messages (length q) then rest else some q

abbrev push_back :
    ℕ → OutboundPublish → OfflineQueue → Option (List OfflineMessage) → Option OfflineQueue
push_back now msg q none = none
push_back now msg q (some room) =
    some (record q { inner = room ++ (record { payload = msg; enqueued_at = now } ∷ []) })

-- `enqueue`: each round of its loop takes a message, so a round more than there are messages is
-- enough.
unfoldable pub enqueue : ℕ → OutboundPublish → OfflineQueue → Option OfflineQueue
unfolding evict_expired make_room
enqueue now msg q =
    let kept = evict_expired q.ttl now q.inner in
    push_back now msg q (make_room (suc (length kept)) q.max_messages kept)

abbrev pub payload_of : OfflineMessage → OutboundPublish
payload_of m = m.payload

-- `drain`: the messages that are not expired, and the empty queue.
unfoldable pub drain : ℕ → OfflineQueue → List OutboundPublish × OfflineQueue
unfolding evict_expired
drain now q = (map payload_of (evict_expired q.ttl now q.inner), record q { inner = [] })

-- `len`: the count, and the queue without what is expired.
unfoldable pub queue_len : ℕ → OfflineQueue → ℕ × OfflineQueue
unfolding evict_expired
queue_len now q =
    let kept = evict_expired q.ttl now q.inner in (length kept, record q { inner = kept })

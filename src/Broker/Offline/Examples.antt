-- ===== src/Broker/Offline/Examples.antt =====
-- The offline queue, run: the tests and the witnesses.
use lumen_mq.Prelude.{keep, ℕ, ◌-◌, ◌+◌, ◌≡◌, refl, [], ◌∷◌, ◌++◌, false, some, arith, length, drop}
use lumen_mq.Codec.Packet.{QoS}
use lumen_mq.Broker.Message.{OutboundPublish}
use lumen_mq.Broker.Offline.{OfflineMessage, OfflineQueue, enqueue, drain, evict_expired, make_room}
use lumen_mq.Broker.Offline.Room.{is_live, enqueue_newest}
use lumen_mq.Broker.Offline.Eviction.{InOrder}

abbrev message : ℕ → OutboundPublish
message n = record { topic = n ∷ []; payload = 1 ∷ []; qos = QoS.at_least_once; retain = false }

abbrev at : ℕ → OfflineMessage
at n = record { payload = message n; enqueued_at = n }

abbrev full_queue : OfflineQueue
full_queue = record { inner = at 1 ∷ at 2 ∷ []; max_messages = 2; ttl = 100 }

oldest_dropped :
    enqueue 3 (message 3) full_queue ≡ some (record full_queue { inner = at 2 ∷ at 3 ∷ [] })
unfolding enqueue evict_expired make_room
oldest_dropped = refl

drained : (drain 101 full_queue).0 ≡ message 2 ∷ []
unfolding drain evict_expired
drained = refl

full_queue-InOrder : InOrder full_queue.inner
full_queue-InOrder = ground arith

enqueue_newest_example :
    let live = keep (is_live 100 3) full_queue.inner in
    enqueue 3 (message 3) full_queue
    ≡ some (record full_queue { inner = drop (length live + 1 - 2) live ++ (at 3 ∷ []) })
enqueue_newest_example = enqueue_newest 3 (message 3) full_queue (omega arith) full_queue-InOrder

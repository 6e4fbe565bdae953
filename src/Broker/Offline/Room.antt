-- ===== src/Broker/Offline/Room.antt =====
-- src/broker/store_msg.rs: what `enqueue` leaves in the queue.
use lumen_mq.Prelude.{
  Bool, keep, ltb, ℕ, zero, suc, ◌+◌, ◌-◌, ◌≤◌, ◌<◌, ◌≡◌, refl, List, [], ◌∷◌, ◌++◌, arith, some,
  none, leb, length, drop, length-append, length-drop, leb→le, lt→leb, Bool-cases, inl, inr, ap,
  sym,
}
use lumen_mq.Broker.Offline.Eviction.{InOrder, fresh, evict_expired-keep}
use lumen_mq.Broker.Message.{OutboundPublish}
use lumen_mq.Broker.Offline.{
  OfflineMessage, OfflineQueue, evict_expired, make_room, pop_front, enqueue,
}

drop-nil : (n : ℕ) → ◌≡◌ {A = List OfflineMessage} (drop n []) []
drop-nil zero = refl
drop-nil (suc n) = refl

-- With fuel for each message and a capacity, the loop ends with the newest messages that leave
-- room for one more.
make_room_newest :
    (fuel max_messages : ℕ) (q : List OfflineMessage)
    → 0 < max_messages
    → length q < fuel
    → make_room fuel max_messages q ≡ some (drop (length q + 1 - max_messages) q)
unfolding make_room
make_room_newest zero max_messages q p h = absurd (omega (arith, h))
make_room_newest (suc fuel) max_messages [] p h =
    rw (lt→leb max_messages 0 p) (ap some (sym (drop-nil (1 - max_messages))))
make_room_newest (suc fuel) max_messages (m ∷ q) p h =
    elim (Bool-cases (leb max_messages (suc (length q)))) [
      | inl e ↦
          let one_more : suc (length q) + 1 - max_messages ≡ suc (length q + 1 - max_messages) =
            omega (arith, leb→le max_messages (suc (length q)) e) in
          rw (e, one_more) (make_room_newest fuel max_messages q p (omega (arith, h)))
      | inr e ↦
          let fits : suc (length q) + 1 - max_messages ≡ 0 = ground (arith, e) in rw (e, fits) refl
    ]

pub enqueue_evicted :
    (now : ℕ) (msg : OutboundPublish) (q : OfflineQueue)
    → 0 < q.max_messages
    → let kept = evict_expired q.ttl now q.inner in
      enqueue now msg q
      ≡ some (record q {
        inner =
            drop (length kept + 1 - q.max_messages) kept
            ++ (record { payload = msg; enqueued_at = now } ∷ []);
      })
unfolding enqueue
enqueue_evicted now msg q p =
    let kept = evict_expired q.ttl now q.inner in
    rw (make_room_newest (suc (length kept)) q.max_messages kept p (omega arith)) refl

-- With a capacity, whatever the queue held, `enqueue` leaves no more messages than the capacity.
pub enqueue_bound :
    (now : ℕ) (msg : OutboundPublish) (q : OfflineQueue)
    → 0 < q.max_messages
    → (q' : OfflineQueue) × (enqueue now msg q ≡ some q')
      × (length q'.inner ≤ q.max_messages)
      × (q'.max_messages ≡ q.max_messages)
enqueue_bound now msg q p =
    let kept = evict_expired q.ttl now q.inner in
    let room = drop (length kept + 1 - q.max_messages) kept in
    let added : List OfflineMessage = record { payload = msg; enqueued_at = now } ∷ [] in
    (
      record q { inner = room ++ added },
      enqueue_evicted now msg q p,
      omega
          (arith, p, length-append room added, length-drop (length kept + 1 - q.max_messages) kept),
      refl,
    )

-- The message is younger than the time that messages are kept.
abbrev pub is_live : ℕ → ℕ → OfflineMessage → Bool
is_live ttl now m = ltb (now - m.enqueued_at) ttl

keep-live :
    (ttl now : ℕ) (q : List OfflineMessage) → keep (fresh ttl now) q ≡ keep (is_live ttl now) q
unfolding keep
keep-live ttl now [] = refl
keep-live ttl now (m ∷ q) = ground (arith, keep-live ttl now q)

-- Where the queue has a capacity and its messages stand in the order of their instants, `enqueue` ends:
-- the queue has the newest of the messages that were kept for less than the time that messages are
-- kept, as many as leave room for one more, and then the new message.
pub enqueue_newest :
    (now : ℕ) (msg : OutboundPublish) (q : OfflineQueue)
    → 0 < q.max_messages
    → InOrder q.inner
    → let live = keep (is_live q.ttl now) q.inner in
      enqueue now msg q
      ≡ some (record q {
        inner =
            drop (length live + 1 - q.max_messages) live
            ++ (record { payload = msg; enqueued_at = now } ∷ []);
      })
enqueue_newest now msg q p v =
    rw (← keep-live q.ttl now q.inner, ← evict_expired-keep q.ttl now q.inner v)
      (enqueue_evicted now msg q p)

-- Without a capacity the loop of `enqueue` never ends.
make_room_forever : (fuel : ℕ) (q : List OfflineMessage) → make_room fuel 0 q ≡ none
unfolding make_room
make_room_forever zero q = refl
make_room_forever (suc fuel) q = ground (arith, make_room_forever fuel (pop_front q))

-- ===== src/Broker/Offline/Eviction.antt =====
-- src/broker/store_msg.rs: popping expired messages off the front leaves no expired message behind.
use lumen_mq.Prelude.{ℕ, ◌-◌, ◌≤◌, ◌<◌, ◌≡◌, Bool, not, List, [], ◌∷◌, arith, All, keep, refl}
use lumen_mq.Broker.Offline.{OfflineMessage, expired, evict_expired}

abbrev NotBefore : ℕ → OfflineMessage → Type 0
NotBefore at m = at ≤ m.enqueued_at

-- The messages stand in the order of their instants.
abbrev pub InOrder : List OfflineMessage → Type 0
InOrder [] = Unit
InOrder (m ∷ q) = All (NotBefore m.enqueued_at) q × InOrder q

abbrev pub fresh : ℕ → ℕ → OfflineMessage → Bool
fresh ttl now m = not (expired ttl now m)

keep-fresh :
    (ttl now at : ℕ) (q : List OfflineMessage)
    → All (NotBefore at) q
    → now - at < ttl
    → keep (fresh ttl now) q ≡ q
unfolding keep
keep-fresh ttl now at [] h b = refl
keep-fresh ttl now at (m ∷ q) h b = ground (arith, keep-fresh ttl now at q h.1 b, h.0)

-- On a queue in the order of its instants, the eviction at the front keeps exactly the messages
-- that are not expired.
pub evict_expired-keep :
    (ttl now : ℕ) (q : List OfflineMessage)
    → InOrder q
    → evict_expired ttl now q ≡ keep (fresh ttl now) q
unfolding evict_expired keep
evict_expired-keep ttl now [] v = refl
evict_expired-keep ttl now (m ∷ q) v =
    ground (arith, evict_expired-keep ttl now q v.1, keep-fresh ttl now m.enqueued_at q v.0)

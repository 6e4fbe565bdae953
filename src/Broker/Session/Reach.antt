-- ===== src/Broker/Session/Reach.antt =====
-- src/broker/session.rs: what holds of the session table after any sequence of calls.
use lumen_mq.Prelude.{ℕ, ◌+◌, ◌^◌, ◌<◌, ◌≡◌, refl, some, Str, [], nat_key, list_key}
use lumen_mq.Prelude.Assoc.{lookup}
use lumen_mq.Broker.Message.{OutboundPublish}
use lumen_mq.Broker.Session.{SessionManager, Registration, register}
use lumen_mq.Broker.Session.Deliver.{Channel, DeliveryOutcome, deliver_or_enqueue}
use lumen_mq.Broker.Session.Leave.{
  remove_session, remove_if_epoch, mark_offline, mark_online, expired_ids, cleanup_expired,
  take_will, clear_will, any, has_epoch,
}
use lumen_mq.Broker.Session.Preserved.{
  WellFormed, register-WellFormed, deliver_or_enqueue-WellFormed,
}
use lumen_mq.Broker.Session.Kept.{
  remove_where-WellFormed, mark_offline-WellFormed, mark_online-WellFormed,
  remove_expired-WellFormed, take_will-WellFormed, clear_will-WellFormed,
}

-- One call. Epochs are counted by 64 bits, and a registration that would wrap them is no step.
pub data Step (m : SessionManager) : SessionManager → Type 0 where
  registers :
      (now : ℕ) (r : Registration) → m.epoch_counter + 1 < 2 ^ 64 → Step m (register now r m).1
  delivers :
      (now : ℕ) (channels : ℕ → Channel) (id : Str) (msg : OutboundPublish)
      (r : DeliveryOutcome × SessionManager)
      → deliver_or_enqueue now channels id msg m ≡ some r
      → Step m r.1
  removes : (id : Str) → Step m (remove_session id m).1
  removes_epoch : (id : Str) (epoch : ℕ) → Step m (remove_if_epoch id epoch m).1
  goes_offline : (now : ℕ) (id : Str) (epoch : ℕ) → Step m (mark_offline now id epoch m)
  goes_online : (id : Str) (epoch : ℕ) → Step m (mark_online id epoch m)
  cleans : (now : ℕ) → Step m (cleanup_expired now m).1
  takes_will : (id : Str) (epoch : ℕ) → Step m (take_will id epoch m).1
  clears_will : (id : Str) (epoch : ℕ) → Step m (clear_will id epoch m)

abbrev pub new_manager : ℕ → ℕ → SessionManager
new_manager max_offline ttl = record {
  sessions = [];
  epoch_counter = 0;
  max_offline_messages = max_offline;
  offline_message_ttl = ttl;
  online_count = 0;
}

pub data Reachable : SessionManager → Type 0 where
  starts : (max_offline ttl : ℕ) → Reachable (new_manager max_offline ttl)
  then_step : {m n : SessionManager} → Reachable m → Step m n → Reachable n

Step-WellFormed : {m n : SessionManager} → WellFormed m → Step m n → WellFormed n
unfolding remove_session remove_if_epoch cleanup_expired
Step-WellFormed {m = m} w (registers now r b) = register-WellFormed now r m b w
Step-WellFormed {m = m} w (delivers now channels id msg r h) =
    deliver_or_enqueue-WellFormed now channels id msg m r w h
Step-WellFormed {m = m} w (removes id) = remove_where-WellFormed any id m w
Step-WellFormed {m = m} w (removes_epoch id epoch) =
    remove_where-WellFormed (has_epoch epoch) id m w
Step-WellFormed {m = m} w (goes_offline now id epoch) = mark_offline-WellFormed now id epoch m w
Step-WellFormed {m = m} w (goes_online id epoch) = mark_online-WellFormed id epoch m w
Step-WellFormed {m = m} w (cleans now) =
    remove_expired-WellFormed now (expired_ids now m.sessions) m w
Step-WellFormed {m = m} w (takes_will id epoch) = take_will-WellFormed id epoch m w
Step-WellFormed {m = m} w (clears_will id epoch) = clear_will-WellFormed id epoch m w

-- Whatever calls were made, each client has one session, under its own id, no session has an epoch
-- that was not given out, and `online_count` is the number of connected sessions modulo 2^64.
pub Reachable-WellFormed : {m : SessionManager} → Reachable m → WellFormed m
unfolding lookup
Reachable-WellFormed (starts max_offline ttl) = record {
  one_each = tt;
  counted = refl;
  own_id = λ id e h. cc;
  given_out = λ id e h. cc;
}
Reachable-WellFormed (then_step r s) = Step-WellFormed (Reachable-WellFormed r) s

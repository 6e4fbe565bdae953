-- ===== src/Broker/Session.antt =====
-- src/broker/session.rs: the sessions of the clients, online and offline. A call runs as one step. An
-- instant is a number of nanoseconds.
pub mod Deliver
pub mod Leave
pub mod Count
pub mod Ownership
pub mod Expiry
pub mod Preserved
pub mod Kept
pub mod Reach
pub mod Replay
pub mod Examples
use lumen_mq.Prelude.{
  ℕ, ◌+◌, ◌-◌, ◌*◌, ◌/◌, ◌%◌, ◌^◌, Bool, true, false, not, ◌&&◌, Option, some, none, List, [], ◌∷◌,
  Str, Bytes, if◌then◌else◌, leb, eqb, nat_key, list_key, length,
}
use lumen_mq.Prelude.Assoc.{Assoc, lookup, insert, remove}
use lumen_mq.Codec.Packet.{QoS}
use lumen_mq.Broker.Message.{OutboundPublish}
use lumen_mq.Broker.Offline.{OfflineQueue, new_queue, enqueue, drain}

pub record WillMessage : Type 0 where
  pub topic : Str
  pub message : Bytes
  pub qos : QoS
  pub retain : Bool

-- `tx` names the channel of the connection, `peer_addr` is the address as a text.
pub record SessionEntry : Type 0 where
  pub client_id : Str
  pub clean_session : Bool
  pub tx : ℕ
  pub will : Option WillMessage
  pub protocol_level : ℕ
  pub peer_addr : Str
  pub connected_at : ℕ
  pub epoch : ℕ
  pub connected : Bool
  pub offline_queue : Option OfflineQueue
  pub session_expiry : Option ℕ
  pub offline_at : Option ℕ

pub record SessionManager : Type 0 where
  pub sessions : Assoc Str SessionEntry
  pub epoch_counter : ℕ
  pub max_offline_messages : ℕ
  pub offline_message_ttl : ℕ
  pub online_count : ℕ

-- `Duration::as_secs`.
abbrev pub as_secs : ℕ → ℕ
as_secs d = d / 1000000000

abbrev outlived : ℕ → ℕ → Option ℕ → Bool
outlived now secs none = false
outlived now secs (some at) = leb secs (as_secs (now - at))

abbrev pub expired_after : ℕ → Option ℕ → Option ℕ → Bool
expired_after now none at = false
expired_after now (some secs) at = if eqb secs 0 then true else outlived now secs at

abbrev pub is_expired : ℕ → SessionEntry → Bool
is_expired now e = if e.connected then false else expired_after now e.session_expiry e.offline_at

-- The request of a connection: the arguments of `register`.
pub record Registration : Type 0 where
  pub client_id : Str
  pub clean_session : Bool
  pub tx : ℕ
  pub will : Option WillMessage
  pub protocol_level : ℕ
  pub peer_addr : Str
  pub session_expiry : Option ℕ

-- `SessionEntry::clean` and `SessionEntry::persistent`.
abbrev pub new_entry : ℕ → ℕ → Registration → SessionManager → SessionEntry
new_entry now epoch r m = record {
  client_id = r.client_id;
  clean_session = r.clean_session;
  tx = r.tx;
  will = r.will;
  protocol_level = r.protocol_level;
  peer_addr = r.peer_addr;
  connected_at = now;
  epoch = epoch;
  connected = true;
  offline_queue =
      if r.clean_session
      then none
      else some (new_queue m.max_offline_messages m.offline_message_ttl);
  session_expiry = if r.clean_session then none else r.session_expiry;
  offline_at = none;
}

-- The atomic counters wrap at 2^64.
abbrev pub add_one : ℕ → ℕ
add_one n = (n + 1) % 2 ^ 64

abbrev pub sub_one : ℕ → ℕ
sub_one n = (n + (2 ^ 64 - 1)) % 2 ^ 64

abbrev drained_of : ℕ → Option OfflineQueue → List OutboundPublish
drained_of now none = []
drained_of now (some q) = (drain now q).0

abbrev pub replayed : ℕ → Option SessionEntry → List OutboundPublish
replayed now none = []
replayed now (some old) = if old.clean_session then [] else drained_of now old.offline_queue

abbrev pub was_present : Option SessionEntry → Bool
was_present none = false
was_present (some old) = not old.clean_session

abbrev pub was_online : Option SessionEntry → Bool
was_online none = false
was_online (some old) = old.connected

-- What `register` returns: the epoch, whether a session was present, and the messages it held.
pub record Registered : Type 0 where
  pub epoch : ℕ
  pub session_present : Bool
  pub replay : List OutboundPublish

unfoldable pub register : ℕ → Registration → SessionManager → Registered × SessionManager
unfolding lookup insert drain
register now r m =
    let epoch = add_one m.epoch_counter in
    let old = lookup r.client_id m.sessions in
    (
      record { epoch = epoch; session_present = was_present old; replay = replayed now old },
      record m {
        sessions = insert r.client_id (new_entry now epoch r m) m.sessions;
        epoch_counter = epoch;
        online_count = if was_online old then m.online_count else add_one m.online_count;
      },
    )

abbrev pub field_of {ℓ} : {A : Type ℓ} → A → (SessionEntry → A) → Option SessionEntry → A
field_of d f none = d
field_of d f (some e) = f e

unfoldable pub owns : Str → ℕ → SessionManager → Bool
unfolding lookup
owns client_id epoch m = field_of false (λ e. eqb e.epoch epoch) (lookup client_id m.sessions)

unfoldable pub is_clean_session : Str → SessionManager → Bool
unfolding lookup
is_clean_session client_id m = field_of false (λ e. e.clean_session) (lookup client_id m.sessions)

unfoldable pub is_online : Str → SessionManager → Bool
unfolding lookup
is_online client_id m = field_of false (λ e. e.connected) (lookup client_id m.sessions)

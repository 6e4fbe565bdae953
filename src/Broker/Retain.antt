-- ===== src/Broker/Retain.antt =====
-- src/broker/retain.rs: the retained messages, in memory and, where there is one, in the storage. The
-- storage is src/storage/ over a database: a parameter with its two calls, whose result is the new
-- state, or nothing where the call fails.
pub mod Contents
pub mod Mirror
pub mod Loaded
pub mod Examples
use lumen_mq.Prelude.{
  ℕ, Bool, true, false, not, ◌&&◌, ◌||◌, Option, some, none, List, [], ◌∷◌, Str, Bytes,
  if◌then◌else◌, ltb, is_empty, length, keep, nat_key, list_key,
}
use lumen_mq.Prelude.Assoc.{Assoc, lookup, insert, remove}
use lumen_mq.Codec.Packet.{QoS, qos_le}
use lumen_mq.Broker.Topic.{has_char, topic_matches_filter}
use lumen_mq.Broker.Message.{OutboundPublish}

pub record RetainedMessage : Type 0 where
  pub topic : Str
  pub payload : Bytes
  pub qos : QoS

-- The calls of the storage, on its state.
pub record Storage (D : Type 0) : Type 0 where
  pub save_retained : Str → RetainedMessage → D → Option D
  pub delete_retained : Str → D → Option D

-- `max_payload_bytes` is 0 where there is no limit.
pub record RetainStore (D : Type 0) : Type 0 where
  pub messages : Assoc Str RetainedMessage
  pub storage : Option D
  pub max_payload_bytes : ℕ

-- The topic is one that can be retained.
unfoldable pub can_retain : Str → Bool
unfolding has_char
can_retain topic = not (is_empty topic || (has_char b'+' topic || has_char b'#' topic))

-- The payload is over the limit.
abbrev pub too_large : ℕ → Bytes → Bool
too_large limit payload = ltb 0 limit && ltb limit (length payload)

-- The change of the memory, made where the storage's call succeeds or there is no storage.
unfoldable pub saved_first :
    {D : Type 0} → (D → Option D) → Assoc Str RetainedMessage → RetainStore D → RetainStore D
saved_first call changed s = elim s.storage [
  | none ↦ record s { messages = changed }
  | some d ↦ elim (call d) [
    | none ↦ s
    | some d' ↦ record s { messages = changed; storage = some d' }
  ]
]

unfoldable pub set : {D : Type 0} → Storage D → Str → Bytes → QoS → RetainStore D → RetainStore D
unfolding can_retain saved_first insert remove
set api topic payload qos s =
    if not (can_retain topic)
    then s
    else if too_large s.max_payload_bytes payload
    then s
    else if is_empty payload
    then saved_first (api.delete_retained topic) (remove topic s.messages) s
    else let msg : RetainedMessage = record { topic = topic; payload = payload; qos = qos } in
      saved_first (api.save_retained topic msg) (insert topic msg s.messages) s

-- The storage after a delete, which may fail.
abbrev deleted : {D : Type 0} → Storage D → Str → Option D → Option D
deleted api topic none = none
deleted api topic (some d) = elim (api.delete_retained topic d) [
  | none ↦ some d
  | some d' ↦ some d'
]

-- `remove`: the memory first.
unfoldable pub remove_retained : {D : Type 0} → Storage D → Str → RetainStore D → RetainStore D
unfolding remove
remove_retained api topic s = record s {
  messages = remove topic s.messages;
  storage = deleted api topic s.storage;
}

unfoldable pub get : {D : Type 0} → Str → RetainStore D → Option RetainedMessage
unfolding lookup
get topic s = lookup topic s.messages

abbrev values : Assoc Str RetainedMessage → List RetainedMessage
values [] = []
values ((k, m) ∷ rest) = m ∷ values rest

abbrev matches_retained : Str → RetainedMessage → Bool
matches_retained filter m = topic_matches_filter m.topic filter

-- `matches`.
unfoldable pub retained_for : {D : Type 0} → Str → RetainStore D → List RetainedMessage
unfolding keep topic_matches_filter
retained_for filter s = keep (matches_retained filter) (values s.messages)

unfoldable pub build_outbound : RetainedMessage → QoS → OutboundPublish
unfolding qos_le
build_outbound msg sub_qos = record {
  topic = msg.topic;
  payload = msg.payload;
  qos = if qos_le msg.qos sub_qos then msg.qos else sub_qos;
  retain = true;
}

-- `load_from_storage`: the messages that the storage gives, each under its topic.
unfoldable pub load_retained : {D : Type 0} → List RetainedMessage → RetainStore D → RetainStore D
unfolding insert
load_retained [] s = s
load_retained (m ∷ saved) s =
    load_retained saved (record s { messages = insert m.topic m s.messages })

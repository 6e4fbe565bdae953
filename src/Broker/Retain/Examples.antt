-- ===== src/Broker/Retain/Examples.antt =====
-- The retained messages, run: the tests and the witnesses.
use lumen_mq.Prelude.{
  ℕ, ◌≡◌, ◌↔◌, refl, List, [], ◌∷◌, Str, true, some, none, nat_key, list_key, In, arith,
}
use lumen_mq.Prelude.Assoc.{Assoc, lookup, insert, remove, lookup-insert, lookup-remove}
use lumen_mq.Codec.Packet.{QoS}
use lumen_mq.Broker.Topic.{has_char, topic_matches_filter}
use lumen_mq.Broker.Topic.Examples.{topic, one_level}
use lumen_mq.Broker.Retain.{
  RetainedMessage, Storage, RetainStore, can_retain, set, get, retained_for, saved_first,
}
use lumen_mq.Broker.Retain.Contents.{WellFormed, retained_for_exact, set-WellFormed}
use lumen_mq.Broker.Retain.Mirror.{StorageLaws, Mirrors, set-Mirrors}

abbrev Disk : Type 0
Disk = Assoc Str RetainedMessage

-- A storage that always succeeds.
abbrev disk : Storage Disk
disk = record {
  save_retained = λ t m d. some (insert t m d);
  delete_retained = λ t d. some (remove t d);
}

disk-StorageLaws : StorageLaws disk lookup
disk-StorageLaws = record {
  find-save = λ t m d d' at e. ground (arith, e, lookup-insert t at m d);
  find-delete = λ t d d' at e. ground (arith, e, lookup-remove t at d);
}

abbrev empty_store : RetainStore Disk
empty_store = record { messages = []; storage = some []; max_payload_bytes = 0 }

abbrev memory_store : RetainStore Disk
memory_store = record { messages = []; storage = none; max_payload_bytes = 0 }

empty_store-WellFormed : WellFormed empty_store
unfolding get lookup
empty_store-WellFormed = record { one_each = tt; own_topic = λ t m h. cc }

empty_store-Mirrors : Mirrors lookup empty_store
unfolding get lookup
empty_store-Mirrors d h at = ground (arith, h)

abbrev hello : List ℕ
hello = b'h' ∷ b'i' ∷ []

abbrev retained : RetainedMessage
retained = record { topic = topic; payload = hello; qos = QoS.at_least_once }

stored_twice : set disk topic hello QoS.at_least_once empty_store ≡ record {
  messages = (topic, retained) ∷ [];
  storage = some ((topic, retained) ∷ []);
  max_payload_bytes = 0;
}
unfolding set can_retain has_char saved_first insert
stored_twice = refl

set-Mirrors_example : Mirrors lookup (set disk topic hello QoS.at_least_once empty_store)
set-Mirrors_example =
    set-Mirrors lookup disk topic hello QoS.at_least_once empty_store disk-StorageLaws
      empty_store-Mirrors

retained_for_exact_example :
    let s = set disk topic hello QoS.at_least_once empty_store in
    In retained (retained_for one_level s)
    ↔ ((get topic s ≡ some retained) × (topic_matches_filter topic one_level ≡ true))
retained_for_exact_example =
    retained_for_exact one_level (set disk topic hello QoS.at_least_once empty_store) retained
      (set-WellFormed disk topic hello QoS.at_least_once empty_store empty_store-WellFormed)

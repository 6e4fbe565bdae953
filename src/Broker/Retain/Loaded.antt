-- ===== src/Broker/Retain/Loaded.antt =====
-- src/broker/retain.rs: the store after `load_from_storage`.
use lumen_mq.Prelude.{
  ◌≡◌, true, false, List, [], ◌∷◌, is_empty, nat_key, list_key, arith, ◌==◌, All, Bool-cases, inl,
  inr,
}
use lumen_mq.Prelude.Assoc.{insert, lookup-insert, insert-IsMap}
use lumen_mq.Broker.Session.Count.{str_iff}
use lumen_mq.Broker.Retain.{RetainedMessage, RetainStore, can_retain, get, load_retained}
use lumen_mq.Broker.Retain.Contents.{WellFormed}

-- A message that `set` would have saved.
abbrev pub Retainable : RetainedMessage → Type 0
Retainable m = (can_retain m.topic ≡ true) × (is_empty m.payload ≡ false)

inserted-WellFormed :
    {D : Type 0} (m : RetainedMessage) (s : RetainStore D)
    → Retainable m
    → WellFormed s
    → WellFormed (record s { messages = insert m.topic m s.messages })
unfolding get
inserted-WellFormed m s good w = record {
  one_each = insert-IsMap m.topic m s.messages w.one_each;
  own_topic = λ topic n h. elim (Bool-cases (m.topic == topic)) [
    | inl b ↦
        ground (arith, b, h, lookup-insert m.topic topic m s.messages, str_iff m.topic topic, good)
    | inr b ↦ w.own_topic topic n (ground (arith, b, h, lookup-insert m.topic topic m s.messages))
  ];
}

pub load_retained-WellFormed :
    {D : Type 0} (saved : List RetainedMessage) (s : RetainStore D)
    → All Retainable saved
    → WellFormed s
    → WellFormed (load_retained saved s)
unfolding load_retained
load_retained-WellFormed [] s good w = w
load_retained-WellFormed (m ∷ saved) s good w =
    load_retained-WellFormed saved (record s { messages = insert m.topic m s.messages }) good.1
      (inserted-WellFormed m s good.0 w)

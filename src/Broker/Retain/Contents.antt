-- ===== src/Broker/Retain/Contents.antt =====
-- src/broker/retain.rs: what is retained, and what a new subscriber gets.
use lumen_mq.Prelude.{
  ◌≡◌, ◌↔◌, ◌⊎◌, inl, inr, sym, ap, ◌∙◌, Bool, true, false, Option, some, none, List, [], ◌∷◌, Str,
  Bytes, if◌then◌else◌, is_empty, keep, In, arith, nat_key, list_key, ◌==◌, ==_refl, Option-cases,
  Bool-cases,
}
use lumen_mq.Prelude.Assoc.{
  Assoc, lookup, insert, remove, lookup-insert, lookup-remove, IsMap, insert-IsMap, remove-IsMap,
}
use lumen_mq.Codec.Packet.{QoS}
use lumen_mq.Broker.Topic.{topic_matches_filter}
use lumen_mq.Broker.Retain.{
  RetainedMessage, Storage, RetainStore, can_retain, too_large, saved_first, set, get, values,
  matches_retained, retained_for,
}

str_iff : (a b : Str) → ((a == b) ≡ true) ↔ (a ≡ b)
str_iff a b = list_key.same_iff a b

-- The message that a publication leaves on its topic.
abbrev pub left_on : Str → Bytes → QoS → Option RetainedMessage
left_on topic payload qos =
    if is_empty payload then none else some (record { topic = topic; payload = payload; qos = qos })

-- Each topic has one message, under its own topic, which can be retained, and no message is empty.
pub record WellFormed {D : Type 0} (s : RetainStore D) : Type 0 where
  pub one_each : IsMap s.messages
  pub own_topic :
      (topic : Str) (m : RetainedMessage)
      → get topic s ≡ some m
      → (m.topic ≡ topic) × (can_retain topic ≡ true) × (is_empty m.payload ≡ false)

In-values :
    (m : RetainedMessage) (s : Assoc Str RetainedMessage) (topic : Str)
    → lookup topic s ≡ some m
    → In m (values s)
unfolding lookup
In-values m [] topic h = cc
In-values m ((k, d) ∷ s) topic h = ground (arith, In-values m s topic, h)

In-keep :
    (p : RetainedMessage → Bool) (m : RetainedMessage) (xs : List RetainedMessage)
    → In m (keep p xs) ↔ (In m xs × (p m ≡ true))
unfolding keep
In-keep p m [] = (λ h. absurd h, λ (h, k). absurd h)
In-keep p m (x ∷ xs) = ground (arith, In-keep p m xs)

values-lookup :
    (m : RetainedMessage) (s : Assoc Str RetainedMessage)
    → IsMap s
    → In m (values s)
    → (topic : Str) × (lookup topic s ≡ some m)
unfolding lookup
values-lookup m [] v h = absurd h
values-lookup m ((k, d) ∷ s) v (inl e) = (k, rw (==_refl {A = Str} k) (ap some (sym e)))
values-lookup m ((k, d) ∷ s) v (inr h) =
    let (topic, there) = values-lookup m s v.1 h in
    let apart : (k == topic) ≡ false = ground (arith, str_iff k topic, v.0, there) in
    (topic, rw apart there)

-- On a well-formed store, a new subscriber's filter finds exactly the messages that are retained
-- on their topic and whose topic the filter matches.
pub retained_for_exact :
    {D : Type 0} (filter : Str) (s : RetainStore D) (m : RetainedMessage)
    → WellFormed s
    → In m (retained_for filter s)
      ↔ ((get m.topic s ≡ some m) × (topic_matches_filter m.topic filter ≡ true))
unfolding retained_for get
retained_for_exact filter s m w = (
  λ h.
      let (i, p) = (In-keep (matches_retained filter) m (values s.messages)).0 h in
      let (topic, there) = values-lookup m s.messages w.one_each i in
      let own = (w.own_topic topic m there).0 in (ap (λ k. lookup k s.messages) own ∙ there, p),
  λ (there, p).
      (In-keep (matches_retained filter) m (values s.messages)).1
        (In-values m s.messages m.topic there, p),
)

-- The memory after a call of the storage: changed, or the store as it was.
pub saved_first-cases :
    {D : Type 0} (call : D → Option D) (changed : Assoc Str RetainedMessage) (s : RetainStore D)
    → ((saved_first call changed s).messages ≡ changed) ⊎ (saved_first call changed s ≡ s)
unfolding saved_first
saved_first-cases call changed s = elim (Option-cases s.storage) [
  | inl n ↦ inl (ground (arith, n))
  | inr (d, n) ↦ elim (Option-cases (call d)) [
    | inl z ↦ inr (ground (arith, n, z))
    | inr (d', z) ↦ inl (ground (arith, n, z))
  ]
]

saved_first-WellFormed :
    {D : Type 0} (call : D → Option D) (changed : Assoc Str RetainedMessage) (s : RetainStore D)
    → WellFormed s
    → WellFormed (record s { messages = changed })
    → WellFormed (saved_first call changed s)
unfolding get
saved_first-WellFormed call changed s w v = elim (saved_first-cases call changed s) [
  | inl e ↦ record {
    one_each = rw e v.one_each;
    own_topic = λ topic m h. v.own_topic topic m (ap (lookup topic) (sym e) ∙ h);
  }
  | inr e ↦ rw e w
]

-- Whatever the storage does, `set` keeps the store well formed.
pub set-WellFormed :
    {D : Type 0} (api : Storage D) (topic : Str) (payload : Bytes) (qos : QoS) (s : RetainStore D)
    → WellFormed s
    → WellFormed (set api topic payload qos s)
unfolding set get
set-WellFormed api topic payload qos s w = elim (Bool-cases (can_retain topic)) [
  | inr bad ↦ rw bad w
  | inl good ↦ elim (Bool-cases (too_large s.max_payload_bytes payload)) [
    | inl big ↦ rw (good, big) w
    | inr small ↦ elim (Bool-cases (is_empty payload)) [
      | inl e ↦
          rw (good, small, e)
            (saved_first-WellFormed (api.delete_retained topic) (remove topic s.messages) s w
              (record {
                one_each = remove-IsMap topic s.messages w.one_each;
                own_topic = λ at m h.
                    ground (arith, lookup-remove topic at s.messages, w.own_topic at m, h);
              }))
      | inr e ↦
          let msg : RetainedMessage = record { topic = topic; payload = payload; qos = qos } in
          rw (good, small, e)
            (saved_first-WellFormed (api.save_retained topic msg) (insert topic msg s.messages) s w
              (record {
                one_each = insert-IsMap topic msg s.messages w.one_each;
                own_topic = λ at m h. ground (
                  arith,
                  lookup-insert topic at msg s.messages,
                  w.own_topic at m,
                  str_iff topic at,
                  good,
                  e,
                  h,
                );
              }))
    ]
  ]
]

-- ===== src/Broker/Retain/Mirror.antt =====
-- src/broker/retain.rs: the memory and the storage hold the same messages, also where a call fails.
use lumen_mq.Prelude.{
  ◌≡◌, Option, some, none, Str, Bytes, if◌then◌else◌, is_empty, arith, nat_key, list_key, ◌==◌,
  Bool-cases, Option-cases, inl, inr,
}
use lumen_mq.Prelude.Assoc.{Assoc, lookup, insert, remove, lookup-insert, lookup-remove}
use lumen_mq.Codec.Packet.{QoS}
use lumen_mq.Broker.Retain.{
  RetainedMessage, Storage, RetainStore, can_retain, too_large, saved_first, set, get,
}

-- What the code relies on of the storage: a message saved is found on its topic, a deleted one is
-- not, and the other topics are left alone.
pub record StorageLaws {D : Type 0} (api : Storage D) (find : Str → D → Option RetainedMessage)
    : Type 0 where
  pub find-save :
      (topic : Str) (m : RetainedMessage) (d d' : D) (at : Str)
      → api.save_retained topic m d ≡ some d'
      → find at d' ≡ (if topic == at then some m else find at d)
  pub find-delete :
      (topic : Str) (d d' : D) (at : Str)
      → api.delete_retained topic d ≡ some d'
      → find at d' ≡ (if topic == at then none else find at d)

module _ {D : Type 0} (find : Str → D → Option RetainedMessage) where
  -- Where there is a storage, it has the memory's messages.
  abbrev pub Mirrors : RetainStore D → Type 0
  Mirrors s = (d : D) → s.storage ≡ some d → (at : Str) → find at d ≡ get at s

  saved_first-Mirrors :
      (call : D → Option D) (changed : Assoc Str RetainedMessage) (s : RetainStore D)
      → Mirrors s
      → ((d d' : D)
          → s.storage ≡ some d
          → call d ≡ some d'
          → (at : Str) → find at d' ≡ lookup at changed)
      → Mirrors (saved_first call changed s)
  unfolding saved_first get
  saved_first-Mirrors call changed s w h d stored at = elim (Option-cases s.storage) [
    | inl n ↦ ground (arith, n, stored)
    | inr (d0, n) ↦ elim (Option-cases (call d0)) [
      | inl z ↦ ground (arith, n, z, stored, w d0 n at)
      | inr (d1, z) ↦ ground (arith, n, z, stored, h d0 d1 n z at)
    ]
  ]

  -- `set` keeps the memory and the storage the same, whether the storage's call succeeds or fails.
  pub set-Mirrors :
      (api : Storage D) (topic : Str) (payload : Bytes) (qos : QoS) (s : RetainStore D)
      → StorageLaws api find
      → Mirrors s
      → Mirrors (set api topic payload qos s)
  unfolding set get
  set-Mirrors api topic payload qos s laws w = elim (Bool-cases (can_retain topic)) [
    | inr bad ↦ rw bad w
    | inl good ↦ elim (Bool-cases (too_large s.max_payload_bytes payload)) [
      | inl big ↦ rw (good, big) w
      | inr small ↦ elim (Bool-cases (is_empty payload)) [
        | inl e ↦
            rw (good, small, e)
              (saved_first-Mirrors (api.delete_retained topic) (remove topic s.messages) s w
                λ d d' n z at. ground (
                  arith,
                  laws.find-delete topic d d' at z,
                  lookup-remove topic at s.messages,
                  w d n at,
                ))
        | inr e ↦
            let msg : RetainedMessage = record { topic = topic; payload = payload; qos = qos } in
            rw (good, small, e)
              (saved_first-Mirrors (api.save_retained topic msg) (insert topic msg s.messages) s w
                λ d d' n z at. ground (
                  arith,
                  laws.find-save topic msg d d' at z,
                  lookup-insert topic at msg s.messages,
                  w d n at,
                ))
      ]
    ]
  ]

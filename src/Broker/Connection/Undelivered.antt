-- ===== src/Broker/Connection/Undelivered.antt =====
-- src/broker/mod.rs: no delivery and no publication brings back a will that was taken.
use lumen_mq.Prelude.{
  ℕ, ◌≡◌, refl, sym, subst, Bool, true, false, Option, some, none, List, [], ◌∷◌, Str, Bytes,
  if◌then◌else◌, eqb, nat_key, list_key, arith, Bool-cases, Option-cases, inl, inr,
}
use lumen_mq.Prelude.Assoc.{lookup, insert, lookup-insert}
use lumen_mq.Codec.Packet.{QoS}
use lumen_mq.Broker.Message.{OutboundPublish}
use lumen_mq.Broker.Offline.{enqueue}
use lumen_mq.Broker.Session.{SessionEntry, SessionManager, WillMessage}
use lumen_mq.Broker.Session.Count.{str_iff}
use lumen_mq.Broker.Session.Deliver.{
  Channel, DeliveryOutcome, store_or, send_or_store, deliver_or_enqueue,
}
use lumen_mq.Broker.Router.{
  Disk, Router, Around, Delivery, written_through, outbound, deliver_one, is_excluded, deliver_all,
  publish,
}
use lumen_mq.Broker.Connection.Closing.{fire}

-- The will that an abnormal end of the connection would publish.
abbrev pub pending : ℕ → Option SessionEntry → Option WillMessage
pending epoch none = none
pending epoch (some e) = if eqb e.epoch epoch then e.will else none

abbrev pub pending_will : Str → ℕ → SessionManager → Option WillMessage
pending_will id epoch m = pending epoch (lookup id m.sessions)

stored-NoWill :
    (epoch : ℕ) (o : DeliveryOutcome) (now : ℕ) (at id : Str) (msg : OutboundPublish)
    (e : SessionEntry) (m : SessionManager) (done : DeliveryOutcome × SessionManager)
    → lookup at m.sessions ≡ some e
    → store_or o now at msg e m ≡ some done
    → pending_will id epoch m ≡ none
    → pending_will id epoch done.1 ≡ none
unfolding store_or
stored-NoWill epoch o now at id msg e m done l h p = elim (Option-cases e.offline_queue) [
  | inl n ↦ let same : m ≡ done.1 = ground (arith, n, h) in rw (← same) p
  | inr (q, n) ↦ elim (Option-cases (enqueue now msg q)) [
    | inl z ↦ absurd (ground (arith, n, z, h))
    | inr (q', z) ↦
        let e' : SessionEntry = record e { offline_queue = some q' } in
        let same : record m { sessions = insert at e' m.sessions } ≡ done.1 =
          ground (arith, n, z, h) in
        rw (← same) (ground (arith, l, p, lookup-insert at id e' m.sessions, str_iff at id))
  ]
]

sent_lem :
    (ch : Channel) (epoch now : ℕ) (at id : Str) (msg : OutboundPublish) (e : SessionEntry)
    (m : SessionManager) (done : DeliveryOutcome × SessionManager)
    → lookup at m.sessions ≡ some e
    → send_or_store now ch at msg e m ≡ some done
    → pending_will id epoch m ≡ none
    → pending_will id epoch done.1 ≡ none
unfolding send_or_store
sent_lem Channel.ready epoch now at id msg e m done l h p =
    let same : m ≡ done.1 = ground (arith, h) in rw (← same) p
sent_lem Channel.full epoch now at id msg e m done l h p =
    stored-NoWill epoch DeliveryOutcome.channel_full now at id msg e m done l h p
sent_lem Channel.closed epoch now at id msg e m done l h p =
    stored-NoWill epoch DeliveryOutcome.dropped now at id msg e m done l h p

pub delivered-NoWill :
    (epoch now : ℕ) (channels : ℕ → Channel) (at id : Str) (msg : OutboundPublish)
    (m : SessionManager) (done : DeliveryOutcome × SessionManager)
    → deliver_or_enqueue now channels at msg m ≡ some done
    → pending_will id epoch m ≡ none
    → pending_will id epoch done.1 ≡ none
unfolding deliver_or_enqueue send_or_store
delivered-NoWill epoch now channels at id msg m done h p =
    elim (Option-cases (lookup at m.sessions)) [
      | inl n ↦ let same : m ≡ done.1 = ground (arith, n, h) in rw (← same) p
      | inr (e, n) ↦ elim (Bool-cases e.connected) [
        | inl c ↦
            sent_lem (channels e.tx) epoch now at id msg e m done n (ground (arith, n, c, h)) p
        | inr c ↦
            stored-NoWill epoch DeliveryOutcome.dropped now at id msg e m done n
              (ground (arith, n, c, h)) p
      ]
    ]

written-sessions :
    {D : Type 0} (disk : Disk D) (id : Str) (req : OutboundPublish) (o : DeliveryOutcome)
    (r : Router D)
    → (written_through disk id req o r).sessions ≡ r.sessions
written-sessions disk id req DeliveryOutcome.sent r = refl
written-sessions disk id req DeliveryOutcome.enqueued r = refl
written-sessions disk id req DeliveryOutcome.channel_full r = refl
written-sessions disk id req DeliveryOutcome.dropped r = refl
written-sessions disk id req DeliveryOutcome.no_session r = refl

-- The will of the session is not pending in the shared parts.
abbrev pub Gone : {D : Type 0} → Str → ℕ → Router D → Type 0
Gone id epoch r = pending_will id epoch r.sessions ≡ none

module _ {D : Type 0} (around : Around) (disk : Disk D) (id : Str) (epoch : ℕ) where
  one-Gone :
      (at : Str) (req : OutboundPublish) (r : Router D) (done : Delivery × Router D)
      → deliver_one around disk at req r ≡ some done
      → Gone id epoch r
      → Gone id epoch done.1
  unfolding deliver_one
  one-Gone at req r done h p =
      elim (Option-cases (deliver_or_enqueue around.now around.channels at req r.sessions)) [
        | inl n ↦ absurd (ground (arith, n, h))
        | inr (d, n) ↦
            let after = record r { sessions = d.1 } in
            let same : written_through disk at req d.0 after ≡ done.1 = ground (arith, n, h) in
            let left =
              delivered-NoWill epoch around.now around.channels at id req r.sessions d n p in
            rw (← same) (
              subst (λ m. pending_will id epoch m ≡ none)
                (sym (written-sessions disk at req d.0 after)) left)
      ]

  all-Gone :
      (exclude : Option Str) (req : QoS → OutboundPublish) (targets : List (Str × QoS))
      (r : Router D) (done : List Delivery × Router D)
      → deliver_all around disk exclude req targets r ≡ some done
      → Gone id epoch r
      → Gone id epoch done.1
  unfolding deliver_all
  all-Gone exclude req [] r done h p = let same : r ≡ done.1 = ground (arith, h) in rw (← same) p
  all-Gone exclude req ((at, q) ∷ targets) r done h p = elim (Bool-cases (is_excluded exclude at)) [
    | inl x ↦ all-Gone exclude req targets r done (ground (arith, x, h)) p
    | inr x ↦ elim (Option-cases (deliver_one around disk at (req q) r)) [
      | inl n ↦ absurd (ground (arith, x, n, h))
      | inr (one, n) ↦ elim (Option-cases (deliver_all around disk exclude req targets one.1)) [
        | inl k ↦ absurd (ground (arith, x, n, k, h))
        | inr (rest, k) ↦
            let same : rest.1 ≡ done.1 = ground (arith, x, n, k, h) in
            rw (← same) (all-Gone exclude req targets one.1 rest k (one-Gone at (req q) r one n p))
      ]
    ]
  ]

  publish-Gone :
      (topic : Str) (payload : Bytes) (qos : QoS) (retain : Bool) (exclude : Option Str)
      (r : Router D) (done : List Delivery × Router D)
      → publish around disk topic payload qos retain exclude r ≡ some done
      → Gone id epoch r
      → Gone id epoch done.1
  unfolding publish
  publish-Gone topic payload qos true exclude r done h p =
      all-Gone exclude (outbound topic payload qos) _ _ done h p
  publish-Gone topic payload qos false exclude r done h p =
      all-Gone exclude (outbound topic payload qos) _ _ done h p

  pub fire-Gone :
      (will : Option WillMessage) (r r' : Router D)
      → fire around disk id will r ≡ some r'
      → Gone id epoch r
      → Gone id epoch r'
  unfolding fire
  fire-Gone none r r' h p = let same : r ≡ r' = ground (arith, h) in rw (← same) p
  fire-Gone (some will) r r' h p =
      elim (Option-cases
        (publish around disk will.topic will.message will.qos will.retain (some id) r)) [
          | inl n ↦ absurd (ground (arith, n, h))
          | inr (done, n) ↦
              let same : done.1 ≡ r' = ground (arith, n, h) in
              rw (← same)
                (publish-Gone will.topic will.message will.qos will.retain (some id) r done n p)
        ]

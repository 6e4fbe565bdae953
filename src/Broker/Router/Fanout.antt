-- ===== src/Broker/Router/Fanout.antt =====
-- src/broker/router.rs: a publication returns, and is handed to the session of each target once.
use lumen_mq.Prelude.{
  ℕ, ◌<◌, ◌≡◌, refl, sym, subst, ◌∙◌, Bool, true, false, Option, some, List, [], ◌∷◌, ◌++◌, Str,
  Bytes, if◌then◌else◌, ◌==◌, nat_key, list_key, map, arith, Option-cases, Bool-cases, inl, inr,
}
use lumen_mq.Prelude.Assoc.{lookup, insert, lookup-insert}
use lumen_mq.Codec.Packet.{QoS}
use lumen_mq.Broker.Message.{OutboundPublish}
use lumen_mq.Broker.Offline.{OfflineQueue}
use lumen_mq.Broker.Offline.Room.{enqueue_bound}
use lumen_mq.Broker.Session.{SessionEntry, SessionManager}
use lumen_mq.Broker.Session.Deliver.{
  Channel, DeliveryOutcome, store_or, send_or_store, deliver_or_enqueue,
}
use lumen_mq.Broker.Subscription.Select.{matches, matches_shared}
use lumen_mq.Codec.Packet.{qos_le}
use lumen_mq.Broker.Session.Replay.{delivery_qos-min}
use lumen_mq.Broker.Router.{
  Disk, Router, Around, Delivery, written_through, outbound, deliver_one, is_excluded, deliver_all,
  retain_first, publish,
}

-- Each session's queue has some capacity, and so will that of a new session.
abbrev pub Roomy : SessionManager → Type 0
Roomy m =
    (0 < m.max_offline_messages)
    × ((id : Str) (e : SessionEntry) (q : OfflineQueue)
        → lookup id m.sessions ≡ some e
        → e.offline_queue ≡ some q
        → 0 < q.max_messages)

-- A call that returns and leaves every queue its capacity.
abbrev Returns : Option (DeliveryOutcome × SessionManager) → Type 0
Returns call = (done : DeliveryOutcome × SessionManager) × (call ≡ some done) × Roomy done.1

stored-Roomy :
    (id : Str) (e : SessionEntry) (q q' : OfflineQueue) (m : SessionManager)
    → Roomy m
    → 0 < q'.max_messages
    → Roomy (record m { sessions = insert id (record e { offline_queue = some q' }) m.sessions })
stored-Roomy id e q q' m w cap = (
  w.0,
  λ at e2 q2 l s. elim (Bool-cases (id == at)) [
    | inl k ↦
        ground (
          arith,
          k,
          cap,
          l,
          s,
          lookup-insert id at (record e { offline_queue = some q' }) m.sessions,
        )
    | inr k ↦
        w.1 at e2 q2
          (ground
            (arith, k, l, lookup-insert id at (record e { offline_queue = some q' }) m.sessions))
          s
  ],
)

store_or-Returns :
    (o : DeliveryOutcome) (now : ℕ) (id : Str) (msg : OutboundPublish) (e : SessionEntry)
    (m : SessionManager)
    → Roomy m
    → lookup id m.sessions ≡ some e
    → Returns (store_or o now id msg e m)
unfolding store_or
store_or-Returns o now id msg e m w l = elim (Option-cases e.offline_queue) [
  | inl n ↦ ((o, m), rw n refl, w)
  | inr (q, n) ↦
      let (q', z, small, same) = enqueue_bound now msg q (w.1 id e q l n) in
      (
        (
          DeliveryOutcome.enqueued,
          record m { sessions = insert id (record e { offline_queue = some q' }) m.sessions },
        ),
        rw (n, z) refl,
        stored-Roomy id e q q' m w (rw same (w.1 id e q l n)),
      )
]

send_or_store-Returns :
    (ch : Channel) (now : ℕ) (id : Str) (msg : OutboundPublish) (e : SessionEntry)
    (m : SessionManager)
    → Roomy m
    → lookup id m.sessions ≡ some e
    → Returns (send_or_store now ch id msg e m)
unfolding send_or_store
send_or_store-Returns Channel.ready now id msg e m w l = ((DeliveryOutcome.sent, m), refl, w)
send_or_store-Returns Channel.full now id msg e m w l =
    store_or-Returns DeliveryOutcome.channel_full now id msg e m w l
send_or_store-Returns Channel.closed now id msg e m w l =
    store_or-Returns DeliveryOutcome.dropped now id msg e m w l

pub deliver_or_enqueue-Roomy :
    (now : ℕ) (channels : ℕ → Channel) (id : Str) (msg : OutboundPublish) (m : SessionManager)
    → Roomy m
    → (done : DeliveryOutcome × SessionManager) × (deliver_or_enqueue now channels id msg m
        ≡ some done)
      × Roomy done.1
unfolding deliver_or_enqueue
deliver_or_enqueue-Roomy now channels id msg m w = elim (Option-cases (lookup id m.sessions)) [
  | inl n ↦ ((DeliveryOutcome.no_session, m), ground (arith, n), w)
  | inr (e, n) ↦ elim (Bool-cases e.connected) [
    | inl c ↦
        let (done, k, roomy) = send_or_store-Returns (channels e.tx) now id msg e m w n in
        (done, ground (arith, n, c, k), roomy)
    | inr c ↦
        let (done, k, roomy) = store_or-Returns DeliveryOutcome.dropped now id msg e m w n in
        (done, ground (arith, n, c, k), roomy)
  ]
]

-- What stays as it was: the subscriptions and the retained messages.
abbrev pub Keeps : {D : Type 0} → Router D → Router D → Type 0
Keeps r r' = (r'.subscriptions ≡ r.subscriptions) × (r'.retain.messages ≡ r.retain.messages)

written-Keeps :
    {D : Type 0} (disk : Disk D) (id : Str) (req : OutboundPublish) (o : DeliveryOutcome)
    (r : Router D)
    → Keeps r (written_through disk id req o r)
      × ((written_through disk id req o r).sessions ≡ r.sessions)
written-Keeps disk id req DeliveryOutcome.sent r = ((refl, refl), refl)
written-Keeps disk id req DeliveryOutcome.enqueued r = ((refl, refl), refl)
written-Keeps disk id req DeliveryOutcome.channel_full r = ((refl, refl), refl)
written-Keeps disk id req DeliveryOutcome.dropped r = ((refl, refl), refl)
written-Keeps disk id req DeliveryOutcome.no_session r = ((refl, refl), refl)

-- The target and the message of a delivery.
abbrev pub handed : Delivery → Str × OutboundPublish
handed d = (d.client_id, d.message)

-- A publication as it goes to a subscriber: at the lower of its own QoS and the subscriber's, and
-- without the retain flag.
abbrev pub copy_at : Str → Bytes → QoS → QoS → OutboundPublish
copy_at topic payload qos own = record {
  topic = topic;
  payload = payload;
  qos = if qos_le qos own then qos else own;
  retain = false;
}

pub outbound_copies :
    (topic : Str) (payload : Bytes) (qos : QoS)
    → outbound topic payload qos ≡ copy_at topic payload qos
outbound_copies topic payload qos = λ i own. record {
  topic = topic;
  payload = payload;
  qos = delivery_qos-min qos own i;
  retain = false;
}

-- The targets that are not the publisher, each with its message.
abbrev pub addressed :
    Option Str → (QoS → OutboundPublish) → List (Str × QoS) → List (Str × OutboundPublish)
addressed exclude req [] = []
addressed exclude req ((id, q) ∷ targets) =
    if is_excluded exclude id
    then addressed exclude req targets
    else (id, req q) ∷ addressed exclude req targets

deliver_one-Keeps :
    {D : Type 0} (around : Around) (disk : Disk D) (id : Str) (req : OutboundPublish) (r : Router D)
    → Roomy r.sessions
    → (d : Delivery) × (r' : Router D) × (deliver_one around disk id req r ≡ some (d, r'))
      × (handed d ≡ (id, req))
      × Keeps r r'
      × Roomy r'.sessions
unfolding deliver_one
deliver_one-Keeps around disk id req r w =
    let (done, e, roomy) =
      deliver_or_enqueue-Roomy around.now around.channels id req r.sessions w in
    let after = record r { sessions = done.1 } in
    let ((s, t), n) = written-Keeps disk id req done.0 after in
    (
      record { client_id = id; message = req; outcome = done.0 },
      written_through disk id req done.0 after,
      rw e refl,
      refl,
      (s, t),
      subst Roomy (sym n) roomy,
    )

pub deliver_all-Keeps :
    {D : Type 0} (around : Around) (disk : Disk D) (exclude : Option Str)
    (req : QoS → OutboundPublish) (targets : List (Str × QoS)) (r : Router D)
    → Roomy r.sessions
    → (ds : List Delivery) × (r' : Router D) × (deliver_all around disk exclude req targets r
        ≡ some (ds, r'))
      × (map handed ds ≡ addressed exclude req targets)
      × Keeps r r'
      × Roomy r'.sessions
unfolding deliver_all
deliver_all-Keeps around disk exclude req [] r w = ([], r, refl, refl, (refl, refl), w)
deliver_all-Keeps around disk exclude req ((id, q) ∷ targets) r w =
    elim (Bool-cases (is_excluded exclude id)) [
      | inl x ↦
          let (ds, r2, e, h, k, w2) = deliver_all-Keeps around disk exclude req targets r w in
          (ds, r2, ground (arith, x, e), ground (arith, x, h), k, w2)
      | inr x ↦
          let (d, r1, e1, h1, (s1, t1), w1) = deliver_one-Keeps around disk id (req q) r w in
          let (ds, r2, e2, h2, (s2, t2), w2) =
            deliver_all-Keeps around disk exclude req targets r1 w1 in
          (d ∷ ds, r2, ground (arith, x, e1, e2), ground (arith, x, h1, h2), (s2 ∙ s1, t2 ∙ t1), w2)
    ]

pub publish_hands :
    {D : Type 0} (around : Around) (disk : Disk D) (topic : Str) (payload : Bytes) (qos : QoS)
    (retain : Bool) (exclude : Option Str) (r : Router D)
    → Roomy r.sessions
    → (ds : List Delivery) × (r' : Router D) × (publish around disk topic payload qos retain exclude
          r
        ≡ some (ds, r'))
      × (map handed ds
          ≡ addressed exclude
              (outbound topic payload qos)
              (matches topic r.subscriptions ++ (matches_shared topic r.subscriptions).0))
      × (r'.subscriptions ≡ (matches_shared topic r.subscriptions).1)
      × (r'.retain.messages ≡ (retain_first disk topic payload qos retain r).retain.messages)
      × Roomy r'.sessions
unfolding publish
publish_hands around disk topic payload qos true exclude r w =
    let r1 = retain_first disk topic payload qos true r in
    let chosen = matches_shared topic r.subscriptions in
    let (ds, r2, e, h, (s, t), w2) =
      deliver_all-Keeps around disk exclude (outbound topic payload qos)
        (matches topic r.subscriptions ++ chosen.0) (record r1 { subscriptions = chosen.1 }) w in
    (ds, r2, e, h, s, t, w2)
publish_hands around disk topic payload qos false exclude r w =
    let chosen = matches_shared topic r.subscriptions in
    let (ds, r2, e, h, (s, t), w2) =
      deliver_all-Keeps around disk exclude (outbound topic payload qos)
        (matches topic r.subscriptions ++ chosen.0) (record r { subscriptions = chosen.1 }) w in
    (ds, r2, e, h, s, t, w2)

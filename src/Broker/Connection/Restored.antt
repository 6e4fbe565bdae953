-- ===== src/Broker/Connection/Restored.antt =====
-- src/broker/mod.rs: loading the storage's sessions keeps the shared parts well formed.
use lumen_mq.Prelude.{
  ℕ, ◌+◌, ◌<◌, ◌^◌, ◌≡◌, refl, sym, ◌∙◌, some, List, [], ◌∷◌, Str, length, nat_key, list_key, arith,
  Bool-cases, Option-cases, inl, inr,
}
use lumen_mq.Prelude.Assoc.{lookup}
use lumen_mq.Prelude.Result.{Result-cases}
use lumen_mq.Codec.Packet.{QoS}
use lumen_mq.Broker.Message.{OutboundPublish}
use lumen_mq.Broker.Offline.{enqueue}
use lumen_mq.Broker.Session.{SessionEntry, SessionManager, Registration, register}
use lumen_mq.Broker.Session.Deliver.{
  Channel, DeliveryOutcome, store_or, send_or_store, deliver_or_enqueue,
}
use lumen_mq.Broker.Session.Leave.{mark_offline}
use lumen_mq.Broker.Session.Preserved.{register-WellFormed, deliver_or_enqueue-WellFormed}
use lumen_mq.Broker.Session.Preserved as Sessions
use lumen_mq.Broker.Session.Kept.{mark_offline-WellFormed}
use lumen_mq.Broker.Subscription.{SubscriptionTree, subscribe}
use lumen_mq.Broker.Subscription.Refinement as Tree
use lumen_mq.Broker.Retain.{get}
use lumen_mq.Broker.Router.{Router, Around, Disk}
use lumen_mq.Broker.Router.Fanout.{Roomy, deliver_or_enqueue-Roomy}
use lumen_mq.Broker.Router.Leaving.{register-Roomy, mark_offline-Roomy}
use lumen_mq.Broker.Router.Kept.{Sound}
use lumen_mq.Broker.Connection.Serving.{subscribe-WellFormed}
use lumen_mq.Broker.Connection.Loading.{
  Snapshot, restore_filters, dormant, restore_session, restore_messages, with_storage,
  load_snapshot, load_snapshots, load_persistent_sessions,
}

stored-Counter :
    (o : DeliveryOutcome) (now : ℕ) (at : Str) (msg : OutboundPublish) (e : SessionEntry)
    (m : SessionManager) (done : DeliveryOutcome × SessionManager)
    → store_or o now at msg e m ≡ some done
    → m.epoch_counter ≡ done.1.epoch_counter
unfolding store_or
stored-Counter o now at msg e m done h = elim (Option-cases e.offline_queue) [
  | inl n ↦ ground (arith, n, h)
  | inr (q, n) ↦ elim (Option-cases (enqueue now msg q)) [
    | inl z ↦ absurd (ground (arith, n, z, h))
    | inr (q', z) ↦ ground (arith, n, z, h)
  ]
]

sent-Counter :
    (ch : Channel) (now : ℕ) (at : Str) (msg : OutboundPublish) (e : SessionEntry)
    (m : SessionManager) (done : DeliveryOutcome × SessionManager)
    → send_or_store now ch at msg e m ≡ some done
    → m.epoch_counter ≡ done.1.epoch_counter
unfolding send_or_store
sent-Counter Channel.ready now at msg e m done h = ground (arith, h)
sent-Counter Channel.full now at msg e m done h =
    stored-Counter DeliveryOutcome.channel_full now at msg e m done h
sent-Counter Channel.closed now at msg e m done h =
    stored-Counter DeliveryOutcome.dropped now at msg e m done h

delivered-Counter :
    (now : ℕ) (channels : ℕ → Channel) (at : Str) (msg : OutboundPublish) (m : SessionManager)
    (done : DeliveryOutcome × SessionManager)
    → deliver_or_enqueue now channels at msg m ≡ some done
    → m.epoch_counter ≡ done.1.epoch_counter
unfolding deliver_or_enqueue send_or_store
delivered-Counter now channels at msg m done h = elim (Option-cases (lookup at m.sessions)) [
  | inl n ↦ ground (arith, n, h)
  | inr (e, n) ↦ elim (Bool-cases e.connected) [
    | inl c ↦ sent-Counter (channels e.tx) now at msg e m done (ground (arith, n, c, h))
    | inr c ↦ stored-Counter DeliveryOutcome.dropped now at msg e m done (ground (arith, n, c, h))
  ]
]

-- The sessions are well formed, and the epochs are counted up to a number.
abbrev Counted : ℕ → SessionManager → Type 0
Counted n m = Sessions.WellFormed m × Roomy m × (m.epoch_counter ≡ n)

messages-Counted :
    (around : Around) (id : Str) (msgs : List OutboundPublish) (n : ℕ) (m : SessionManager)
    → Counted n m
    → (m' : SessionManager) × (restore_messages around id msgs m ≡ some m') × Counted n m'
unfolding restore_messages
messages-Counted around id [] n m w = (m, refl, w)
messages-Counted around id (msg ∷ msgs) n m (w, roomy, c) =
    let (done, e, roomy1) = deliver_or_enqueue-Roomy around.now around.channels id msg m roomy in
    let w1 = deliver_or_enqueue-WellFormed around.now around.channels id msg m done w e in
    let c1 = sym (delivered-Counter around.now around.channels id msg m done e) ∙ c in
    let (m', e', k) = messages-Counted around id msgs n done.1 (w1, roomy1, c1) in
    (m', ground (arith, e, e'), k)

offline-Counter :
    (now : ℕ) (id : Str) (epoch : ℕ) (m : SessionManager)
    → (mark_offline now id epoch m).epoch_counter ≡ m.epoch_counter
unfolding mark_offline
offline-Counter now id epoch m = elim (Option-cases (lookup id m.sessions)) [
  | inl n ↦ ground (arith, n)
  | inr (e, n) ↦ ground (arith, n)
]

registered-Counter :
    (now : ℕ) (r : Registration) (m : SessionManager)
    → m.epoch_counter + 1 < 2 ^ 64
    → (register now r m).1.epoch_counter ≡ m.epoch_counter + 1
unfolding register
registered-Counter now r m b = omega (arith, b)

session-Counted :
    (now tx : ℕ) (peer id : Str) (m : SessionManager)
    → m.epoch_counter + 1 < 2 ^ 64
    → Sessions.WellFormed m
    → Roomy m
    → Counted (m.epoch_counter + 1) (restore_session now tx peer id m)
unfolding restore_session
session-Counted now tx peer id m b w roomy =
    let r = dormant tx peer id in
    let epoch = (register now r m).0.epoch in
    (
      mark_offline-WellFormed now id epoch (register now r m).1 (register-WellFormed now r m b w),
      mark_offline-Roomy now id epoch (register now r m).1 (register-Roomy now r m roomy),
      offline-Counter now id epoch (register now r m).1 ∙ registered-Counter now r m b,
    )

filters-WellFormed :
    (id : Str) (filters : List (Str × QoS)) (t : SubscriptionTree)
    → Tree.WellFormed t
    → Tree.WellFormed (restore_filters id filters t)
unfolding restore_filters
filters-WellFormed id [] t w = w
filters-WellFormed id ((filter, qos) ∷ filters) t w =
    elim (Result-cases (subscribe id filter qos t)) [
      | inl (e, n) ↦ rw (n, restore_filters) (filters-WellFormed id filters t w)
      | inr (t', n) ↦
          rw (n, restore_filters)
            (filters-WellFormed id filters t' (subscribe-WellFormed id filter qos t t' w n))
    ]

module _ {D : Type 0} (around : Around) (disk : Disk D) (tx : ℕ) (peer : Str) where
  snapshot-Sound :
      (snap : Snapshot) (d : D) (r : Router D)
      → r.sessions.epoch_counter + 1 < 2 ^ 64
      → Sound r
      → (one : D × Router D) × (load_snapshot around disk tx peer snap d r ≡ some one)
        × Sound one.1
        × (one.1.sessions.epoch_counter ≡ r.sessions.epoch_counter + 1)
  unfolding load_snapshot
  snapshot-Sound snap d r b s =
      let w = filters-WellFormed snap.client_id snap.subscriptions r.subscriptions s.tree in
      let m = restore_session around.now tx peer snap.client_id r.sessions in
      let counted =
        session-Counted around.now tx peer snap.client_id r.sessions b s.table s.roomy in
      elim (Option-cases (disk.drain_offline snap.client_id d).0) [
        | inl n ↦ (
          (
            (disk.drain_offline snap.client_id d).1,
            record r {
              subscriptions = restore_filters snap.client_id snap.subscriptions r.subscriptions;
              sessions = m;
            },
          ),
          ground (arith, n),
          record { tree = w; table = counted.0; roomy = counted.1; retained = s.retained },
          counted.2,
        )
        | inr (msgs, n) ↦
            let (m', e, k) =
              messages-Counted around snap.client_id msgs (r.sessions.epoch_counter + 1) m
                counted in
            (
              (
                (disk.drain_offline snap.client_id d).1,
                record r {
                  subscriptions = restore_filters snap.client_id snap.subscriptions r.subscriptions;
                  sessions = m';
                },
              ),
              ground (arith, n, e),
              record { tree = w; table = k.0; roomy = k.1; retained = s.retained },
              k.2,
            )
      ]

  with_storage-Sound : (d : D) (r : Router D) → Sound r → Sound (with_storage d r)
  unfolding get
  with_storage-Sound d r s = record {
    tree = s.tree;
    table = s.table;
    roomy = s.roomy;
    retained = record { one_each = s.retained.one_each; own_topic = s.retained.own_topic };
  }

  snapshots-Sound :
      (snaps : List Snapshot) (d : D) (r : Router D)
      → r.sessions.epoch_counter + length snaps < 2 ^ 64
      → Sound r
      → (r' : Router D) × (load_snapshots around disk tx peer snaps d r ≡ some r') × Sound r'
  unfolding load_snapshots
  snapshots-Sound [] d r b s = (with_storage d r, refl, with_storage-Sound d r s)
  snapshots-Sound (snap ∷ snaps) d r b s =
      let (one, e, s1, c) = snapshot-Sound snap d r (omega (arith, b)) s in
      let (r', e', s') = snapshots-Sound snaps one.0 one.1 (omega (arith, b, c)) s1 in
      (r', ground (arith, e, e'), s')

  pub load_persistent_sessions-Sound :
      (snaps : List Snapshot) (r : Router D)
      → r.sessions.epoch_counter + length snaps < 2 ^ 64
      → Sound r
      → (r' : Router D) × (load_persistent_sessions around disk tx peer (some snaps) r ≡ some r')
        × Sound r'
  unfolding load_persistent_sessions
  load_persistent_sessions-Sound snaps r b s = elim (Option-cases r.retain.storage) [
    | inl n ↦ (r, ground (arith, n), s)
    | inr (d, n) ↦ let (r', e, s') = snapshots-Sound snaps d r b s in (r', ground (arith, n, e), s')
  ]

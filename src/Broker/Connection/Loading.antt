-- ===== src/Broker/Connection/Loading.antt =====
-- src/broker/mod.rs: `load_persistent_sessions`, what a start makes of the storage. The snapshots that
-- the storage gives are an argument, as are the dummy channel and the dummy address of the sessions.
use lumen_mq.Prelude.{ℕ, false, Option, some, none, List, [], ◌∷◌, Str, nat_key, list_key}
use lumen_mq.Prelude.Result.{Result, ok, err}
use lumen_mq.Utils.{BrokerError}
use lumen_mq.Codec.Packet.{QoS, mqtt_3_1_1_level}
use lumen_mq.Broker.Message.{OutboundPublish}
use lumen_mq.Broker.Session.{SessionManager, Registration, register}
use lumen_mq.Broker.Session.Deliver.{deliver_or_enqueue}
use lumen_mq.Broker.Session.Leave.{mark_offline}
use lumen_mq.Broker.Subscription.{SubscriptionTree, subscribe}
use lumen_mq.Broker.Router.{Router, Around, Disk, then_some}

-- `SessionSnapshot` of src/storage/mod.rs.
pub record Snapshot : Type 0 where
  pub client_id : Str
  pub subscriptions : List (Str × QoS)

abbrev pub or_same : SubscriptionTree → Result BrokerError SubscriptionTree → SubscriptionTree
or_same t (ok t') = t'
or_same t (err e) = t

-- A filter that is not valid is passed over.
unfoldable pub restore_filters : Str → List (Str × QoS) → SubscriptionTree → SubscriptionTree
unfolding subscribe
restore_filters client_id [] t = t
restore_filters client_id ((filter, qos) ∷ filters) t =
    restore_filters client_id filters (or_same t (subscribe client_id filter qos t))

abbrev pub dormant : ℕ → Str → Str → Registration
dormant tx peer client_id = record {
  client_id = client_id;
  clean_session = false;
  tx = tx;
  will = none;
  protocol_level = mqtt_3_1_1_level;
  peer_addr = peer;
  session_expiry = none;
}

-- The session made, and marked as offline.
unfoldable pub restore_session : ℕ → ℕ → Str → Str → SessionManager → SessionManager
unfolding register mark_offline
restore_session now tx peer client_id m =
    let registered = register now (dormant tx peer client_id) m in
    mark_offline now client_id registered.0.epoch registered.1

unfoldable pub restore_messages :
    Around → Str → List OutboundPublish → SessionManager → Option SessionManager
unfolding deliver_or_enqueue
restore_messages around client_id [] m = some m
restore_messages around client_id (msg ∷ msgs) m =
    then_some (deliver_or_enqueue around.now around.channels client_id msg m)
      (λ done. restore_messages around client_id msgs done.1)

abbrev pub with_storage : {D : Type 0} → D → Router D → Router D
with_storage d r = record r { retain = record r.retain { storage = some d } }

-- One round of the loop, on the state of the storage.
unfoldable pub load_snapshot :
    {D : Type 0} → Around → Disk D → ℕ → Str → Snapshot → D → Router D → Option (D × Router D)
unfolding restore_filters restore_session restore_messages
load_snapshot around disk tx peer snap d r =
    let tree = restore_filters snap.client_id snap.subscriptions r.subscriptions in
    let m = restore_session around.now tx peer snap.client_id r.sessions in
    let drained = disk.drain_offline snap.client_id d in
    elim drained.0 [
      | none ↦ some (drained.1, record r { subscriptions = tree; sessions = m })
      | some msgs ↦
          then_some (restore_messages around snap.client_id msgs m)
            (λ m'. some (drained.1, record r { subscriptions = tree; sessions = m' }))
    ]

unfoldable pub load_snapshots :
    {D : Type 0} → Around → Disk D → ℕ → Str → List Snapshot → D → Router D → Option (Router D)
unfolding load_snapshot
load_snapshots around disk tx peer [] d r = some (with_storage d r)
load_snapshots around disk tx peer (snap ∷ snaps) d r =
    then_some (load_snapshot around disk tx peer snap d r)
      (λ one. load_snapshots around disk tx peer snaps one.0 one.1)

-- The snapshots are none where the storage fails.
unfoldable pub load_persistent_sessions :
    {D : Type 0} → Around → Disk D → ℕ → Str → Option (List Snapshot) → Router D → Option (Router D)
unfolding load_snapshots
load_persistent_sessions around disk tx peer none r = some r
load_persistent_sessions around disk tx peer (some snaps) r = elim r.retain.storage [
  | none ↦ some r
  | some d ↦ load_snapshots around disk tx peer snaps d r
]

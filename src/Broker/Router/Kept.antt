-- ===== src/Broker/Router/Kept.antt =====
-- src/broker/: what the calls of a connection leave well formed in the shared parts.
use lumen_mq.Prelude.{
  ◌≡◌, refl, Bool, true, false, Option, some, List, [], ◌∷◌, ◌++◌, Str, Bytes, nat_key, list_key,
  pair_key, arith, Option-cases, Bool-cases, inl, inr, is_empty,
}
use lumen_mq.Prelude.Assoc.{lookup}
use lumen_mq.Codec.Packet.{QoS}
use lumen_mq.Broker.Message.{OutboundPublish}
use lumen_mq.Broker.Topic.{parse_shared_filter, topic_matches_filter}
use lumen_mq.Broker.Retain.{get}
use lumen_mq.Broker.Retain.Contents.{set-WellFormed}
use lumen_mq.Broker.Retain.Contents as Retained
use lumen_mq.Broker.Session.Deliver.{DeliveryOutcome}
use lumen_mq.Broker.Session.Preserved.{deliver_or_enqueue-WellFormed}
use lumen_mq.Broker.Session.Preserved as Sessions
use lumen_mq.Broker.Subscription.{SubscriptionTree, Groups, subscriptions_of}
use lumen_mq.Broker.Subscription.Select.{matches, matches_shared, select_members, next_member}
use lumen_mq.Broker.Subscription.Index.{member}
use lumen_mq.Broker.Subscription.Refinement.{subscription}
use lumen_mq.Broker.Subscription.Refinement as Tree
use lumen_mq.Broker.Router.{
  Disk, Router, Around, Delivery, on_disk, written_through, outbound, deliver_one, is_excluded,
  deliver_all, retain_first, publish,
}
use lumen_mq.Broker.Router.Fanout.{Roomy, deliver_or_enqueue-Roomy}

-- The shared parts are well formed, and each queue has some capacity.
pub record Sound {D : Type 0} (r : Router D) : Type 0 where
  pub tree : Tree.WellFormed r.subscriptions
  pub table : Sessions.WellFormed r.sessions
  pub roomy : Roomy r.sessions
  pub retained : Retained.WellFormed r.retain

-- A choice of the groups moves their counters only.
pub member-select :
    (topic id : Str) (key : Str × Str) (groups : Groups)
    → member id key (select_members topic groups).1 ≡ member id key groups
unfolding select_members lookup next_member
member-select topic id key [] = refl
member-select topic id key ((k, entry) ∷ groups) = ground (
  arith,
  member-select topic id key groups,
  topic_matches_filter topic k.1,
  is_empty entry.members,
)

pub matches_shared-WellFormed :
    (topic : Str) (t : SubscriptionTree)
    → Tree.WellFormed t
    → Tree.WellFormed (matches_shared topic t).1
unfolding matches_shared subscription subscriptions_of
matches_shared-WellFormed topic t w = elim (Bool-cases (is_empty topic)) [
  | inl e ↦ rw (e, matches_shared) w
  | inr e ↦
      rw (e, matches_shared)
        (record {
          index_agrees = λ id f. elim (Option-cases (parse_shared_filter f)) [
            | inl n ↦ ground (arith, n, w.index_agrees id f)
            | inr (key, n) ↦
                ground (arith, n, w.index_agrees id f, member-select topic id key t.shared)
          ];
          paths_are_maps = w.paths_are_maps;
          paths_are_filters = w.paths_are_filters;
        })
]

-- The storage is no part of what is well formed.
pub on_disk-Sound : {D : Type 0} (call : D → D) (r : Router D) → Sound r → Sound (on_disk call r)
unfolding get
on_disk-Sound call r w = record {
  tree = w.tree;
  table = w.table;
  roomy = w.roomy;
  retained = record { one_each = w.retained.one_each; own_topic = w.retained.own_topic };
}

written-Sound :
    {D : Type 0} (disk : Disk D) (id : Str) (req : OutboundPublish) (o : DeliveryOutcome)
    (r : Router D)
    → Sound r
    → Sound (written_through disk id req o r)
written-Sound disk id req DeliveryOutcome.sent r w = w
written-Sound disk id req DeliveryOutcome.enqueued r w =
    on_disk-Sound (disk.push_offline id req) r w
written-Sound disk id req DeliveryOutcome.channel_full r w = w
written-Sound disk id req DeliveryOutcome.dropped r w = w
written-Sound disk id req DeliveryOutcome.no_session r w = w

deliver_one-Sound :
    {D : Type 0} (around : Around) (disk : Disk D) (id : Str) (req : OutboundPublish) (r : Router D)
    → Sound r
    → (done : Delivery × Router D) × (deliver_one around disk id req r ≡ some done) × Sound done.1
unfolding deliver_one
deliver_one-Sound around disk id req r w =
    let (done, e, roomy) =
      deliver_or_enqueue-Roomy around.now around.channels id req r.sessions w.roomy in
    let after = record r { sessions = done.1 } in
    (
      (
        record { client_id = id; message = req; outcome = done.0 },
        written_through disk id req done.0 after,
      ),
      rw e refl,
      written-Sound disk id req done.0 after (record {
        tree = w.tree;
        table =
            deliver_or_enqueue-WellFormed around.now around.channels id req r.sessions done w.table
              e;
        roomy = roomy;
        retained = w.retained;
      }),
    )

deliver_all-Sound :
    {D : Type 0} (around : Around) (disk : Disk D) (exclude : Option Str)
    (req : QoS → OutboundPublish) (targets : List (Str × QoS)) (r : Router D)
    → Sound r
    → (done : List Delivery × Router D) × (deliver_all around disk exclude req targets r
        ≡ some done)
      × Sound done.1
unfolding deliver_all
deliver_all-Sound around disk exclude req [] r w = (([], r), refl, w)
deliver_all-Sound around disk exclude req ((id, q) ∷ targets) r w =
    elim (Bool-cases (is_excluded exclude id)) [
      | inl x ↦
          let (done, e, w') = deliver_all-Sound around disk exclude req targets r w in
          (done, ground (arith, x, e), w')
      | inr x ↦
          let (one, e1, w1) = deliver_one-Sound around disk id (req q) r w in
          let (rest, e2, w2) = deliver_all-Sound around disk exclude req targets one.1 w1 in
          ((one.0 ∷ rest.0, rest.1), ground (arith, x, e1, e2), w2)
    ]

retain_first-Sound :
    {D : Type 0} (disk : Disk D) (topic : Str) (payload : Bytes) (qos : QoS) (retain : Bool)
    (r : Router D)
    → Sound r
    → Sound (retain_first disk topic payload qos retain r)
retain_first-Sound disk topic payload qos true r w = record {
  tree = w.tree;
  table = w.table;
  roomy = w.roomy;
  retained = set-WellFormed disk.retained topic payload qos r.retain w.retained;
}
retain_first-Sound disk topic payload qos false r w = w

pub publish-Sound :
    {D : Type 0} (around : Around) (disk : Disk D) (topic : Str) (payload : Bytes) (qos : QoS)
    (retain : Bool) (exclude : Option Str) (r : Router D)
    → Sound r
    → (done : List Delivery × Router D) × (publish around disk topic payload qos retain exclude r
        ≡ some done)
      × Sound done.1
unfolding publish
publish-Sound around disk topic payload qos retain exclude r w =
    let r1 = retain_first disk topic payload qos retain r in
    let w1 = retain_first-Sound disk topic payload qos retain r w in
    let chosen = matches_shared topic r1.subscriptions in
    deliver_all-Sound around disk exclude (outbound topic payload qos)
      (matches topic r1.subscriptions ++ chosen.0) (record r1 { subscriptions = chosen.1 })
      (record {
        tree = matches_shared-WellFormed topic r1.subscriptions w1.tree;
        table = w1.table;
        roomy = w1.roomy;
        retained = w1.retained;
      })

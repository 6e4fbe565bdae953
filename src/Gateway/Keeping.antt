-- ===== src/Gateway/Keeping.antt =====
-- src/net/mqtt_sn.rs: what a well-formed gateway is, and that the end of a session keeps it so.
use lumen_mq.Prelude.{
  ℕ, ◌≡◌, subst, Bool, some, List, Str, eqb, nat_key, list_key, arith, Bool-cases, inl, inr,
}
use lumen_mq.Prelude.Assoc.{lookup, lookup-insert}
use lumen_mq.Broker.Session.{owns}
use lumen_mq.Broker.Session.Leave.{remove_session, any}
use lumen_mq.Broker.Session.Kept.{mark_offline-WellFormed, remove_where-WellFormed}
use lumen_mq.Broker.Subscription.Removal.{unsubscribe_all_updates}
use lumen_mq.Broker.Router.{Router}
use lumen_mq.Broker.Router.Leaving.{mark_offline-Roomy, remove_where-Roomy}
use lumen_mq.Broker.Router.Kept.{Sound}
use lumen_mq.Gateway.Packet.{SnPacket}
use lumen_mq.Gateway.Client.{SnClient, new_client, touch}
use lumen_mq.Gateway.Topics.{Paired}
use lumen_mq.Gateway.Server.{Gateway, Reply, with_client}
use lumen_mq.Gateway.Handling.{cleanup_session}

-- The shared parts are well formed, and each client's topics and identifiers are paired.
pub record SoundGateway {D : Type 0} (g : Gateway D) : Type 0 where
  pub shared : Sound g.router
  pub paired : (peer : ℕ) (c : SnClient) → lookup peer g.clients ≡ some c → Paired c

pub touch-Paired : (now : ℕ) (c : SnClient) → Paired c → Paired (touch now c)
touch-Paired now c w = record {
  there = w.there;
  back = w.back;
  valid = w.valid;
  next_valid = w.next_valid;
}

pub new_client-Paired :
    (now : ℕ) (id : Str) (epoch : ℕ) (clean : Bool) (secs peer : ℕ)
    → Paired (new_client now id epoch clean secs peer)
unfolding lookup
new_client-Paired now id epoch clean secs peer = record {
  there = λ t i h. cc;
  back = λ t i h. cc;
  valid = λ t i h. cc;
  next_valid = omega arith;
}

pub with_client-Sound :
    {D : Type 0} (peer : ℕ) (c : SnClient) (g : Gateway D)
    → SoundGateway g
    → Paired c
    → SoundGateway (with_client peer c g)
with_client-Sound peer c g w p = record {
  shared = w.shared;
  paired = λ at d h. elim (Bool-cases (eqb peer at)) [
    | inl e ↦
        let same : c ≡ d = ground (arith, e, h, lookup-insert peer at c g.clients) in
        subst Paired same p
    | inr e ↦ w.paired at d (ground (arith, e, h, lookup-insert peer at c g.clients))
  ];
}

pub with_router-Sound :
    {D : Type 0} (r : Router D) (n : ℕ) (g : Gateway D)
    → SoundGateway g
    → Sound r
    → SoundGateway (record g { router = r; connections = n })
with_router-Sound r n g w s = record { shared = s; paired = w.paired }

-- A call that returns, and keeps the gateway sound.
abbrev pub Handled : {D : Type 0} → Reply D → Type 0
Handled {D} reply = (done : List SnPacket × Gateway D) × (reply ≡ some done) × SoundGateway done.1

pub cleanup_session-Sound :
    {D : Type 0} (now : ℕ) (id : Str) (epoch : ℕ) (clean : Bool) (g : Gateway D)
    → SoundGateway g
    → SoundGateway (cleanup_session now id epoch clean g)
unfolding cleanup_session remove_session
cleanup_session-Sound now id epoch clean g w = elim (Bool-cases (owns id epoch g.router.sessions)) [
  | inr o ↦ rw (o, cleanup_session) w
  | inl o ↦ elim (Bool-cases clean) [
    | inl c ↦
        rw (o, c, cleanup_session)
          (record {
            shared = record {
              tree = (unsubscribe_all_updates id g.router.subscriptions w.shared.tree).0;
              table = remove_where-WellFormed any id g.router.sessions w.shared.table;
              roomy = remove_where-Roomy any id g.router.sessions w.shared.roomy;
              retained = w.shared.retained;
            };
            paired = w.paired;
          })
    | inr c ↦
        rw (o, c, cleanup_session)
          (record {
            shared = record {
              tree = w.shared.tree;
              table = mark_offline-WellFormed now id epoch g.router.sessions w.shared.table;
              roomy = mark_offline-Roomy now id epoch g.router.sessions w.shared.roomy;
              retained = w.shared.retained;
            };
            paired = w.paired;
          })
  ]
]

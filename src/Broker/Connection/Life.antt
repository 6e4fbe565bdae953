-- ===== src/Broker/Connection/Life.antt =====
-- src/broker/mod.rs: the shared parts over the life of the broker.
use lumen_mq.Prelude.{
  Option, List, ℕ, ◌+◌, ◌<◌, ◌^◌, ◌≡◌, sym, subst, Bool, some, [], Str, inl, inr, arith, nat_key,
  list_key, length, All,
}
use lumen_mq.Prelude.Assoc.{lookup}
use lumen_mq.Codec.Packet.{Connect}
use lumen_mq.Broker.Auth.{AuthConfig}
use lumen_mq.Broker.Retain.{RetainedMessage, get, load_retained}
use lumen_mq.Broker.Session.{register}
use lumen_mq.Broker.Session.Reach.{new_manager, Reachable, Reachable-WellFormed}
use lumen_mq.Broker.Session.Preserved.{register-WellFormed}
use lumen_mq.Broker.Subscription.{new_tree}
use lumen_mq.Broker.Subscription.Effects.{new_tree-WellFormed}
use lumen_mq.Broker.Router.{Router, Around, Disk}
use lumen_mq.Broker.Router.Leaving.{register-Roomy}
use lumen_mq.Broker.Router.Kept.{Sound}
use lumen_mq.Broker.Connection.{World, Env}
use lumen_mq.Broker.Retain.Loaded.{Retainable, load_retained-WellFormed}
use lumen_mq.Broker.Connection.Loading.{Snapshot, load_persistent_sessions}
use lumen_mq.Broker.Connection.Restored.{load_persistent_sessions-Sound}
use lumen_mq.Broker.Connection.Opening.{registration, with_id, answer_connect}
use lumen_mq.Broker.Connection.Admission.{answer_connect-cases}
use lumen_mq.Broker.Connection.Closing.{sweep}
use lumen_mq.Broker.Connection.Looping.{Event, loop_round}
use lumen_mq.Broker.Connection.Soundness.{sweep-Sound}
use lumen_mq.Broker.Connection.Rounds.{loop_round-Sound}

-- The shared parts at the start, with the storage, where there is one, and the retained messages that
-- it gives.
abbrev pub new_router : (D : Type 0) → Option D → List RetainedMessage → ℕ → ℕ → ℕ → Router D
new_router D storage saved max_offline ttl max_payload = record {
  subscriptions = new_tree;
  sessions = new_manager max_offline ttl;
  retain =
      load_retained saved
        (record { messages = []; storage = storage; max_payload_bytes = max_payload });
}

-- What the shared parts can come to: the sessions of the storage are loaded, connections
-- open, each runs rounds of its main loop with whatever it has kept itself, in any order among the
-- connections, and the sweeper runs.
pub data Lives (F D : Type 0) : Router D → Type 0 where
  starts :
      (storage : Option D) (saved : List RetainedMessage) (max_offline ttl max_payload : ℕ)
      → All Retainable saved
      → 0 < max_offline
      → Lives F D (new_router D storage saved max_offline ttl max_payload)
  loads :
      (around : Around) (disk : Disk D) (tx : ℕ) (peer : Str) (snaps : List Snapshot)
      (r r' : Router D)
      → Lives F D r
      → r.sessions.epoch_counter + length snaps < 2 ^ 64
      → load_persistent_sessions around disk tx peer (some snaps) r ≡ some r'
      → Lives F D r'
  opens :
      (cfg : AuthConfig) (auto : Str) (now tx : ℕ) (peer : Str) (c : Connect) (r : Router D)
      → Lives F D r
      → r.sessions.epoch_counter + 1 < 2 ^ 64
      → Lives F D ((answer_connect cfg auto now tx peer c r).1)
  rounds :
      (env : Env F D) (event : Event) (w w' : World F D) (goes_on : Bool)
      → Lives F D w.router
      → loop_round env event w ≡ some (goes_on, w')
      → Lives F D w'.router
  sweeps : (now : ℕ) (disk : Disk D) (r : Router D) → Lives F D r → Lives F D (sweep now disk r)

new_router-Sound :
    (D : Type 0) (storage : Option D) (saved : List RetainedMessage)
    (max_offline ttl max_payload : ℕ)
    → All Retainable saved
    → 0 < max_offline
    → Sound (new_router D storage saved max_offline ttl max_payload)
unfolding lookup get
new_router-Sound D storage saved max_offline ttl max_payload good some_room = record {
  tree = new_tree-WellFormed;
  table = Reachable-WellFormed (Reachable.starts max_offline ttl);
  roomy = (some_room, λ id e q h k. cc);
  retained =
      load_retained-WellFormed saved _ good (record { one_each = tt; own_topic = λ topic m h. cc });
}

registered-Sound :
    {D : Type 0} (now tx : ℕ) (peer : Str) (c : Connect) (r : Router D)
    → r.sessions.epoch_counter + 1 < 2 ^ 64
    → Sound r
    → Sound (record r { sessions = (register now (registration tx peer c) r.sessions).1 })
registered-Sound now tx peer c r b w = record {
  tree = w.tree;
  table = register-WellFormed now (registration tx peer c) r.sessions b w.table;
  roomy = register-Roomy now (registration tx peer c) r.sessions w.roomy;
  retained = w.retained;
}

-- From a start on what a storage may hold, whatever sessions are loaded from it, whatever connections
-- open, whatever happens in the rounds of their main loops, in any order, and whenever the sweeper
-- runs: where the retained messages loaded are some that can be retained, the offline queues have some
-- capacity and the epochs do not wrap, the subscriptions, the sessions and the retained messages of the
-- broker are well formed.
pub Lives-Sound : {F D : Type 0} (r : Router D) → Lives F D r → Sound r
Lives-Sound {D = D} r (Lives.starts storage saved max_offline ttl max_payload good some_room) =
    new_router-Sound D storage saved max_offline ttl max_payload good some_room
Lives-Sound r (Lives.loads around disk tx peer snaps r0 r' lives b h) =
    let (r1, e, s) =
      load_persistent_sessions-Sound around disk tx peer snaps r0 b (Lives-Sound r0 lives) in
    let same : r1 ≡ r' = ground (arith, e, h) in subst Sound same s
Lives-Sound r (Lives.opens cfg auto now tx peer c r0 lives b) =
    elim (answer_connect-cases cfg auto now tx peer c r0) [
      | inl (code, e, p, bad) ↦
          let same : r0 ≡ (answer_connect cfg auto now tx peer c r0).1 = ground (arith, e) in
          subst Sound same (Lives-Sound r0 lives)
      | inr (reg, present, e, resumed, same, good) ↦
          subst Sound (sym same)
            (registered-Sound now tx peer (with_id auto c) r0 b (Lives-Sound r0 lives))
    ]
Lives-Sound r (Lives.rounds env event w w' goes_on lives h) =
    let (on, w2, e, s) = loop_round-Sound env event w (Lives-Sound w.router lives) in
    let same : w2.router ≡ w'.router = ground (arith, e, h) in subst Sound same s
Lives-Sound r (Lives.sweeps now disk r0 lives) = sweep-Sound now disk r0 (Lives-Sound r0 lives)

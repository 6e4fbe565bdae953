-- ===== src/Broker/Connection/Examples.antt =====
-- src/broker/mod.rs, run: the witnesses of the theorems on connections.
use lumen_mq.Prelude.{
  ◌↔◌, ℕ, ◌<◌, ◌≡◌, ◌⊎◌, refl, Bool, true, some, none, List, [], ◌∷◌, ◌++◌, Str, if◌then◌else◌,
  ◌==◌, nat_key, list_key, arith, list_same,
}
use lumen_mq.Prelude.Assoc.{lookup, insert}
use lumen_mq.Prelude.Result.{ok}
use lumen_mq.Codec.Packet.{QoS, Packet, Connect, SubscribeTopic, connack_error}
use lumen_mq.Broker.Auth.{AuthMode, AuthConfig}
use lumen_mq.Broker.Topic.{
  split, has_char, check_levels, validate_filter, parse_shared_filter, split_once,
}
use lumen_mq.Broker.Topic.Examples.{topic, one_level}
use lumen_mq.Broker.Subscription.Refinement as Tree
use lumen_mq.Broker.Subscription.Refinement.{subscription}
use lumen_mq.Broker.Subscription.Examples.{tree, tree-WellFormed, client}
use lumen_mq.Broker.Session.{Registered, WillMessage, register, owns}
use lumen_mq.Broker.Session.Leave.{mark_offline, clear_will}
use lumen_mq.Broker.Session.Reach.{Reachable-WellFormed, registers, starts, then_step, new_manager}
use lumen_mq.Broker.Subscription.{subscribe}
use lumen_mq.Broker.Session.Examples.{
  request, empty_manager, online_manager, online_manager-WellFormed,
}
use lumen_mq.Broker.Retain.{RetainedMessage, can_retain, load_retained, get}
use lumen_mq.Broker.Router.{Router}
use lumen_mq.Broker.Router.Kept.{Sound}
use lumen_mq.Broker.Router.Leaving.{register-Roomy}
use lumen_mq.Broker.Router.Examples.{
  no_disk, idle, one_client, one_client-Sound, online_manager-Roomy,
}
use lumen_mq.Security.Examples.{whole, open_guard}
use lumen_mq.Plugin.Guard.{disabled_plugin}
use lumen_mq.Plugin.Examples.{hello}
use lumen_mq.Broker.Connection.{World, Env}
use lumen_mq.Broker.Connection.Publishing.{handle_publish}
use lumen_mq.Broker.Connection.Closing.{cleanup, on_abnormal_disconnect, sweep}
use lumen_mq.Broker.Connection.Opening.{registration, with_id, open_session, answer_connect}
use lumen_mq.Broker.Connection.Looping.{Event, loop_round}
use lumen_mq.Broker.Connection.Acks.{acks, noted, refuses, routed_unless, handle_publish_answers}
use lumen_mq.Broker.Connection.Once.{Handled, handle_publishes_once}
use lumen_mq.Broker.Connection.Admission.{id_of, Resumes, Admissible, answer_connect-cases}
use lumen_mq.Broker.Connection.Takeover.{open_session_takes_over, cleanup_owned}
use lumen_mq.Broker.Connection.Undelivered.{pending_will}
use lumen_mq.Broker.Connection.Wills.{WillTaken, Published, ends_without_will}
use lumen_mq.Broker.Connection.Rounds.{loop_round-Sound}
use lumen_mq.Broker.Connection.Loading.{
  Snapshot, dormant, restore_filters, restore_session, restore_messages, load_snapshot,
  load_snapshots, load_persistent_sessions,
}
use lumen_mq.Broker.Connection.Life.{Lives, new_router, Lives-Sound}

abbrev env : Env ℕ (Unit {0})
env = record {
  client_id = client;
  epoch = 1;
  clean = true;
  max_packet_size = 1000;
  max_inflight = 10;
  max_subs = 2;
  retry_timeout = 1000;
  max_retries = 3;
  keep_alive = 60;
  around = idle;
  floats = whole;
  disk = no_disk;
  breaks_after = 100;
}

abbrev world : World ℕ (Unit {0})
world = record {
  router = one_client;
  security = open_guard;
  plugin = disabled_plugin;
  my_filters = [];
  next_pid = 1;
  outbound_inflight = [];
  inbound_qos2 = [];
  sent = [];
  last_activity = 10;
}

abbrev hello_again : Connect
hello_again = record {
  protocol_level = 5;
  clean_session = true;
  keep_alive = 60;
  client_id = client;
  will = none;
  username = none;
  password = none;
  properties = none;
}

abbrev open_to_all : AuthConfig
open_to_all = record { mode = AuthMode.anonymous; allow_anonymous = true; users = [] }

abbrev farewell : WillMessage
farewell = record { topic = topic; message = b'x' ∷ []; qos = QoS.at_least_once; retain = true }

-- The client of the samples, with a will.
abbrev mortal : Router (Unit {0})
mortal = record one_client {
  sessions = (register 7 (record request { will = some farewell }) empty_manager).1;
}

mortal-Sound : Sound mortal
unfolding get lookup
mortal-Sound = record {
  tree = tree-WellFormed;
  table = Reachable-WellFormed (
      then_step (starts 10 1000)
        (registers 7 (record request { will = some farewell }) (omega arith)));
  roomy =
      register-Roomy 7 (record request { will = some farewell }) empty_manager
        (omega arith, λ id e q h k. cc);
  retained = record { one_each = tt; own_topic = λ t m h. cc };
}

handle_publish_answers_example :
    (w' : World ℕ (Unit {0})) × (handle_publish env hello world ≡ some (ok tt, w'))
    × (w'.sent ≡ [] ++ acks QoS.exactly_once 7)
    × (w'.inbound_qos2 ≡ noted QoS.exactly_once 7 [])
    × (routed_unless env (refuses env hello 7 world) hello one_client ≡ some w'.router)
handle_publish_answers_example =
    handle_publish_answers env hello 7 world online_manager-Roomy refl (omega arith)

handle_publishes_once_example :
    Handled env 7
      (hello ∷ hello ∷ [])
      world
      (routed_unless env (refuses env hello 7 world) hello one_client)
handle_publishes_once_example =
    handle_publishes_once env 7 hello (hello ∷ []) world online_manager-Roomy
      ((refl, refl), ((refl, refl), tt)) (omega arith)

abbrev asked : List SubscribeTopic
asked =
    record { topic_filter = topic; qos = QoS.exactly_once }
    ∷ record { topic_filter = b'#' ∷ b'/' ∷ []; qos = QoS.at_most_once }
    ∷ []

answer_connect-cases_example :
    let answered = answer_connect open_to_all [] 8 2 [] hello_again one_client in
    ((code : ℕ) × (answered ≡ ((connack_error code, none), one_client))
      × (0 < code)
      × ¬ Admissible open_to_all [] hello_again)
    ⊎ ((registered : Registered) × (present : Bool) × (answered.0 ≡ (
      Packet.connack (record { session_present = present; return_code = 0; protocol_level = 5 }),
      some registered,
    ))
        × ((present ≡ true) ↔ Resumes (id_of [] hello_again) hello_again one_client)
        × (answered.1 ≡ record one_client {
          sessions = (register 8 (registration 2 [] (with_id [] hello_again)) online_manager).1;
        })
        × Admissible open_to_all [] hello_again)
answer_connect-cases_example = answer_connect-cases open_to_all [] 8 2 [] hello_again one_client

open_session_takes_over_example :
    let opened = open_session 8 2 [] hello_again one_client in
    (owns client opened.0.0.epoch opened.1.sessions ≡ true)
    × (cleanup 10 no_disk client 1 true opened.1 ≡ opened.1)
    × (cleanup 10 no_disk client 1 true
          (record opened.1 { sessions = clear_will client 1 opened.1.sessions })
        ≡ opened.1)
    × (on_abnormal_disconnect idle no_disk client 1 true opened.1 ≡ some opened.1)
unfolding owns lookup list_same
open_session_takes_over_example =
    open_session_takes_over 8 2 [] hello_again one_client 1 idle no_disk true
      online_manager-WellFormed (omega arith) refl

cleanup_owned_example :
    let r' = cleanup 10 no_disk client 1 true one_client in
    ((at : Str)
      → lookup at r'.sessions.sessions
        ≡ (if client == at then none else lookup at online_manager.sessions))
    × ((at f : Str)
        → subscription at f r'.subscriptions
          ≡ (if client == at then none else subscription at f tree))
unfolding owns lookup list_same
cleanup_owned_example = cleanup_owned 10 no_disk client 1 one_client tree-WellFormed refl

ends_without_will_example :
    (r1 : Router (Unit {0})) × WillTaken client 1 mortal r1
    × (r' : Router (Unit {0})) × Published idle no_disk client
        (pending_will client 1 mortal.sessions)
        r1
        r'
    × (on_abnormal_disconnect idle no_disk client 1 true mortal
        ≡ some (cleanup 10 no_disk client 1 true r'))
    × (pending_will client 1 (cleanup 10 no_disk client 1 true r').sessions ≡ none)
    × (pending_will client 1
          (cleanup 10 no_disk client 1 true
            (record mortal { sessions = clear_will client 1 mortal.sessions })).sessions
        ≡ none)
ends_without_will_example = ends_without_will idle no_disk client 1 true mortal mortal-Sound

has_a_will : pending_will client 1 mortal.sessions ≡ some farewell
unfolding register lookup insert list_same
has_a_will = refl

loop_round-Sound_example :
    (goes_on : Bool) × (w' : World ℕ (Unit {0})) × (loop_round env
        (Event.receives (Packet.publish hello))
        world
      ≡ some (goes_on, w'))
    × Sound w'.router
loop_round-Sound_example =
    loop_round-Sound env (Event.receives (Packet.publish hello)) world one_client-Sound

-- A start with a storage that holds a retained message and the session of one client.
abbrev stored : RetainedMessage
stored = record { topic = topic; payload = b'x' ∷ []; qos = QoS.at_least_once }

abbrev started : Router (Unit {0})
started = new_router (Unit {0}) (some tt) (stored ∷ []) 10 1000 0

abbrev snapshots : List Snapshot
snapshots = record { client_id = client; subscriptions = (one_level, QoS.at_least_once) ∷ [] } ∷ []

abbrev reloaded : Router (Unit {0})
reloaded = record started {
  subscriptions = tree;
  sessions = mark_offline 10 client 1 (register 10 (dormant 3 [] client) (new_manager 10 1000)).1;
}

loaded : load_persistent_sessions idle no_disk 3 [] (some snapshots) started ≡ some reloaded
unfolding load_persistent_sessions load_snapshots load_snapshot restore_filters restore_session
    restore_messages subscribe validate_filter check_levels split has_char parse_shared_filter
    split_once list_same register load_retained
loaded = refl

abbrev swept : Router (Unit {0})
swept = sweep 20 no_disk (answer_connect open_to_all [] 8 2 [] hello_again reloaded).1

Lives-Sound_example : Sound swept
unfolding can_retain has_char load_retained register mark_offline lookup insert list_same
Lives-Sound_example = Lives-Sound {F = ℕ} swept (
    Lives.sweeps 20 no_disk (answer_connect open_to_all [] 8 2 [] hello_again reloaded).1 (
      Lives.opens open_to_all [] 8 2 [] hello_again reloaded
        (Lives.loads idle no_disk 3 [] snapshots started reloaded
          (Lives.starts (some tt) (stored ∷ []) 10 1000 0 ((refl, refl), tt) (omega arith))
          (omega arith) loaded)
        (omega arith)))

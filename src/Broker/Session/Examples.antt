-- ===== src/Broker/Session/Examples.antt =====
-- The session table, run: the tests and the witnesses.
use lumen_mq.Prelude.{
  ◌⊎◌, ◌≡◌, refl, subst, List, [], ◌∷◌, ◌++◌, Str, true, false, some, none, arith, nat_key,
  list_key, list_same,
}
use lumen_mq.Prelude.Assoc.{lookup, insert, remove}
use lumen_mq.Codec.Packet.{QoS}
use lumen_mq.Broker.Message.{OutboundPublish}
use lumen_mq.Broker.Offline.{new_queue}
use lumen_mq.Broker.Session.{SessionEntry, SessionManager, Registration, register, new_entry}
use lumen_mq.Broker.Session.Deliver.{Channel, DeliveryOutcome, deliver_or_enqueue}
use lumen_mq.Broker.Session.Leave.{mark_offline, cleanup_expired, expired_ids, remove_expired}
use lumen_mq.Broker.Session.Preserved.{WellFormed}
use lumen_mq.Broker.Session.Reach.{
  Reachable, registers, goes_offline, starts, then_step, new_manager, Reachable-WellFormed,
}
use lumen_mq.Broker.Session.Expiry.{Overdue, cleanup_expired_exact}
use lumen_mq.Broker.Session.Replay.{stored_replayed}

abbrev client : Str
client = b'c' ∷ []

abbrev pub request : Registration
request = record {
  client_id = client;
  clean_session = false;
  tx = 1;
  will = none;
  protocol_level = 5;
  peer_addr = [];
  session_expiry = some 60;
}

abbrev pub empty_manager : SessionManager
empty_manager = new_manager 10 1000

abbrev pub online_manager : SessionManager
online_manager = record empty_manager {
  sessions = (client, new_entry 7 1 request empty_manager) ∷ [];
  epoch_counter = 1;
  online_count = 1;
}

abbrev away : SessionEntry
away = record (new_entry 7 1 request empty_manager) { connected = false; offline_at = some 9 }

abbrev away_manager : SessionManager
away_manager = record online_manager { sessions = (client, away) ∷ []; online_count = 0 }

pub registered : (register 7 request empty_manager).1 ≡ online_manager
unfolding register lookup insert
registered = refl

gone_away : mark_offline 9 client 1 online_manager ≡ away_manager
unfolding mark_offline lookup insert list_same
gone_away = refl

reached : Reachable (mark_offline 9 client 1 (register 7 request empty_manager).1)
reached =
    then_step (then_step (starts 10 1000) (registers 7 request (omega arith)))
      (goes_offline 9 client 1)

Reachable-WellFormed_example :
    WellFormed (mark_offline 9 client 1 (register 7 request empty_manager).1)
Reachable-WellFormed_example = Reachable-WellFormed reached

pub online_manager-WellFormed : WellFormed online_manager
online_manager-WellFormed =
    subst WellFormed registered
      (Reachable-WellFormed (then_step (starts 10 1000) (registers 7 request (omega arith))))

away_manager-WellFormed : WellFormed away_manager
unfolding mark_offline lookup insert list_same register
away_manager-WellFormed = subst WellFormed gone_away (
    Reachable-WellFormed (
      then_step (then_step (starts 10 1000) (registers 7 request (omega arith)))
        (goes_offline 9 client 1)))

cleanup_expired_exact_example :
    let after = lookup client (cleanup_expired 60000000009 away_manager).1.sessions in
    ((e : SessionEntry) × (lookup client away_manager.sessions ≡ some e)
      × Overdue 60000000009 e
      × (after ≡ none))
    ⊎ ((after ≡ lookup client away_manager.sessions)
        × ¬ (
            (e : SessionEntry) × (lookup client away_manager.sessions ≡ some e)
            × Overdue 60000000009 e))
cleanup_expired_exact_example =
    cleanup_expired_exact 60000000009 away_manager client away_manager-WellFormed

cleaned :
    cleanup_expired 60000000009 away_manager ≡ (client ∷ [], record away_manager { sessions = [] })
unfolding cleanup_expired expired_ids remove_expired lookup remove list_same
cleaned = refl

not_yet : cleanup_expired 60000000008 away_manager ≡ ([], away_manager)
unfolding cleanup_expired expired_ids remove_expired lookup remove list_same
not_yet = refl

abbrev message : OutboundPublish
message = record { topic = b't' ∷ []; payload = 1 ∷ []; qos = QoS.at_least_once; retain = false }

stored_replayed_example :
    (m' : SessionManager) × (deliver_or_enqueue 20 (λ _. Channel.closed) client message away_manager
      ≡ some (DeliveryOutcome.enqueued, m'))
    × ((register 30 request m').0.session_present ≡ true)
    × (earlier : List OutboundPublish) × ((register 30 request m').0.replay
        ≡ earlier ++ (message ∷ []))
unfolding lookup list_same
stored_replayed_example =
    stored_replayed 20 30 (λ _. Channel.closed) message request away (new_queue 10 1000)
      away_manager refl refl refl refl (omega arith) (omega arith)

-- ===== src/Gateway/Handling.antt =====
-- src/net/mqtt_sn.rs: a packet of a client, a client that sleeps, leaves or is silent for too long.
use lumen_mq.Prelude.{
  ℕ, ◌+◌, ◌-◌, ◌*◌, ◌/◌, Bool, true, false, not, Option, some, none, List, [], ◌∷◌, Str,
  if◌then◌else◌, ltb, leb, eqb, max, nat_key, list_key,
}
use lumen_mq.Prelude.Assoc.{Assoc, lookup, remove}
use lumen_mq.Broker.Session.{owns, sub_one}
use lumen_mq.Broker.Session.Leave.{remove_session, mark_offline}
use lumen_mq.Broker.Subscription.{unsubscribe_all}
use lumen_mq.Gateway.Packet.{SnPacket}
use lumen_mq.Gateway.Client.{SnClient, touch}
use lumen_mq.Gateway.Server.{
  Gateway, SnEnv, Reply, answer, with_client, handle_sn_connect, handle_register, handle_sn_publish,
  handle_sn_subscribe, handle_sn_unsubscribe,
}

abbrev pub touched : {D : Type 0} → SnEnv D → ℕ → Gateway D → Gateway D
touched env peer g = elim (lookup peer g.clients) [
  | none ↦ g
  | some c ↦ with_client peer (touch env.around.now c) g
]

-- `cleanup_session`.
unfoldable pub cleanup_session : {D : Type 0} → ℕ → Str → ℕ → Bool → Gateway D → Gateway D
unfolding owns unsubscribe_all remove_session mark_offline
cleanup_session now client_id epoch clean g =
    if not (owns client_id epoch g.router.sessions) then g else record g {
      router =
          if clean
          then record g.router {
            subscriptions = unsubscribe_all client_id g.router.subscriptions;
            sessions = (remove_session client_id g.router.sessions).1;
          }
          else record g.router { sessions = mark_offline now client_id epoch g.router.sessions };
      connections = sub_one g.connections;
    }

-- A DISCONNECT with a duration. `mark_offline` looks at the epoch itself.
unfoldable pub fall_asleep : {D : Type 0} → SnEnv D → ℕ → ℕ → Gateway D → Gateway D
unfolding owns mark_offline
fall_asleep env peer duration g = elim (lookup peer g.clients) [
  | none ↦ g
  | some c ↦
      with_client peer
        (record c { sleeping = true; sleep_until = some (env.around.now + duration * 1000000000) })
        (record g {
          router =
              if owns c.client_id c.epoch g.router.sessions
              then record g.router {
                sessions = mark_offline env.around.now c.client_id c.epoch g.router.sessions;
              }
              else g.router;
          connections = sub_one g.connections;
        })
]

unfoldable pub leave_gateway : {D : Type 0} → SnEnv D → ℕ → Gateway D → Gateway D
unfolding cleanup_session
leave_gateway env peer g = elim (lookup peer g.clients) [
  | none ↦ g
  | some c ↦
      cleanup_session env.around.now c.client_id c.epoch c.clean
        (record g { clients = remove peer g.clients })
]

-- `handle`.
unfoldable pub handle : {D : Type 0} → SnEnv D → ℕ → SnPacket → Gateway D → Reply D
unfolding handle_sn_connect handle_register handle_sn_publish handle_sn_subscribe
    handle_sn_unsubscribe fall_asleep leave_gateway
handle env peer (SnPacket.connect flags protocol_id duration client_id) g =
    handle_sn_connect env peer flags protocol_id duration client_id g
handle env peer (SnPacket.register flags topic_id msg_id topic_name) g =
    handle_register env peer msg_id topic_name g
handle env peer (SnPacket.publish flags topic_id msg_id payload) g =
    handle_sn_publish env peer flags topic_id msg_id payload g
handle env peer (SnPacket.subscribe flags msg_id topic) g =
    handle_sn_subscribe env peer flags msg_id topic g
handle env peer (SnPacket.unsubscribe flags msg_id topic) g =
    handle_sn_unsubscribe env peer msg_id topic g
handle env peer SnPacket.pingreq g = answer SnPacket.pingresp (touched env peer g)
handle env peer (SnPacket.disconnect (some duration)) g = some ([], fall_asleep env peer duration g)
handle env peer (SnPacket.disconnect none) g = some ([], leave_gateway env peer g)
handle env peer (SnPacket.puback flags topic_id msg_id code) g = some ([], touched env peer g)
handle env peer (SnPacket.connack code) g = some ([], g)
handle env peer (SnPacket.regack flags topic_id msg_id code) g = some ([], g)
handle env peer (SnPacket.suback flags topic_id msg_id code) g = some ([], g)
handle env peer (SnPacket.unsuback msg_id) g = some ([], g)
handle env peer SnPacket.pingresp g = some ([], g)
handle env peer (SnPacket.unknown msg_type) g = some ([], g)

abbrev past : ℕ → Option ℕ → Bool
past now none = false
past now (some until) = leb until now

-- A client that sleeps longer than it said, or is silent for 1.5 times its keep-alive.
unfoldable pub is_overdue : ℕ → SnClient → Bool
is_overdue now c =
    if c.sleeping
    then past now c.sleep_until
    else if eqb c.keep_alive_secs 0
    then false
    else ltb ((max c.keep_alive_secs 1 * 3 + 1) / 2 * 1000000000) (now - c.last_seen)

-- The clients that are swept: the first loop of the sweeper.
abbrev pub overdue : ℕ → Assoc ℕ SnClient → List SnClient
overdue now [] = []
overdue now ((peer, c) ∷ clients) =
    if is_overdue now c then c ∷ overdue now clients else overdue now clients

abbrev pub sweep_all : {D : Type 0} → ℕ → List SnClient → Gateway D → Gateway D
sweep_all now [] g = g
sweep_all now (c ∷ expired) g = sweep_all now expired (
    cleanup_session now c.client_id c.epoch c.clean
      (record g { clients = remove c.peer g.clients }))

-- A tick of the sweeper.
unfoldable pub sweep_clients : {D : Type 0} → ℕ → Gateway D → Gateway D
unfolding is_overdue cleanup_session
sweep_clients now g = sweep_all now (overdue now g.clients) g

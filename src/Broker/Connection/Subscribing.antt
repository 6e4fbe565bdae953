-- ===== src/Broker/Connection/Subscribing.antt =====
-- src/broker/mod.rs: `handle_subscribe` and the case of UNSUBSCRIBE.
use lumen_mq.Prelude.{
  ℕ, Bool, true, false, not, ◌&&◌, Option, some, none, List, [], ◌∷◌, Str, if◌then◌else◌, leb,
  length, keep, ◌==◌, nat_key, list_key,
}
use lumen_mq.Prelude.Result.{Result, ok, err}
use lumen_mq.Utils.{BrokerError, connection_closed}
use lumen_mq.Codec.Packet.{QoS, Packet, Subscribe, SubscribeTopic, Unsubscribe, qos_as_u8}
use lumen_mq.Broker.Message.{OutboundPublish}
use lumen_mq.Broker.PacketId.{build_outbound_packet}
use lumen_mq.Broker.Retain.{RetainedMessage, retained_for, build_outbound}
use lumen_mq.Broker.Subscription.{subscribe, unsubscribe}
use lumen_mq.Plugin.Guard.{plugin_subscribe}
use lumen_mq.Broker.Connection.{World, Env, Run, ◌>>◌, pure, send}
use lumen_mq.Broker.Connection.Closing.{persist_session_snapshot}

-- `HashSet::contains`, `insert` and `remove` of the connection's filters.
unfoldable pub mem_filter : Str → List Str → Bool
mem_filter f [] = false
mem_filter f (g ∷ gs) = let rest = mem_filter f gs in if g == f then true else rest

unfoldable pub add_filter : Str → List Str → List Str
unfolding mem_filter
add_filter f fs = if mem_filter f fs then fs else f ∷ fs

differs_from : Str → Str → Bool
differs_from f g = not (g == f)

unfoldable pub drop_filter : Str → List Str → List Str
unfolding keep differs_from
drop_filter f fs = keep (differs_from f) fs

-- 0x80.
abbrev pub suback_failure : ℕ
suback_failure = 128

-- A topic's return code, and the filter with its QoS where it was accepted.
abbrev pub Answer : Type 0
Answer = ℕ × Option (Str × QoS)

-- One round of the loop over the topics.
unfoldable pub subscribe_topic :
    {F D : Type 0} → Env F D → SubscribeTopic → World F D → Answer × World F D
unfolding mem_filter plugin_subscribe subscribe add_filter qos_as_u8
subscribe_topic env t w =
    if not (mem_filter t.topic_filter w.my_filters) && leb env.max_subs (length w.my_filters)
    then ((suback_failure, none), w)
    else elim (plugin_subscribe t.topic_filter w.plugin) [
      | err e ↦ ((suback_failure, none), w)
      | ok u ↦ elim (subscribe env.client_id t.topic_filter t.qos w.router.subscriptions) [
        | err e ↦ ((suback_failure, none), w)
        | ok tree ↦ (
          (qos_as_u8 t.qos, some (t.topic_filter, t.qos)),
          record w {
            router = record w.router { subscriptions = tree };
            my_filters = add_filter t.topic_filter w.my_filters;
          },
        )
      ]
    ]

unfoldable pub subscribe_topics :
    {F D : Type 0} → Env F D → List SubscribeTopic → World F D → List Answer × World F D
unfolding subscribe_topic
subscribe_topics env [] w = ([], w)
subscribe_topics env (t ∷ topics) w =
    let one = subscribe_topic env t w in
    let rest = subscribe_topics env topics one.1 in (one.0 ∷ rest.0, rest.1)

abbrev pub codes : List Answer → List ℕ
codes [] = []
codes ((code, filter) ∷ answers) = code ∷ codes answers

abbrev pub accepted_filters : List Answer → List (Str × QoS)
accepted_filters [] = []
accepted_filters ((code, none) ∷ answers) = accepted_filters answers
accepted_filters ((code, some f) ∷ answers) = f ∷ accepted_filters answers

-- `build_outbound_packet` on the connection's counter and table.
unfoldable pub next_outbound :
    {F D : Type 0} → Env F D → OutboundPublish → World F D → Option Packet × World F D
unfolding build_outbound_packet
next_outbound env req w =
    let built =
      build_outbound_packet env.max_inflight req env.around.now w.next_pid w.outbound_inflight in
    (built.0, record w { next_pid = built.1; outbound_inflight = built.2 })

-- The send, with the error of a retained delivery.
abbrev pub closed_during :
    {F D : Type 0}
    → Option (Result BrokerError (Unit {0}) × World F D)
    → Option (Result BrokerError (Unit {0}) × World F D)
closed_during none = none
closed_during (some (ok u, w)) = some (ok u, w)
closed_during (some (err e, w)) =
    some (err (connection_closed "sink closed during retained delivery"), w)

-- A retained message: skipped where no packet can be built.
unfoldable pub send_retained : {F D : Type 0} → Env F D → QoS → RetainedMessage → Run F D (Unit {0})
unfolding next_outbound send build_outbound
send_retained env sub_qos msg w =
    let built = next_outbound env (build_outbound msg sub_qos) w in
    elim built.0 [
      | none ↦ some (ok tt, built.1)
      | some packet ↦ closed_during (send env packet built.1)
    ]

unfoldable pub send_all_retained :
    {F D : Type 0} → Env F D → QoS → List RetainedMessage → Run F D (Unit {0})
unfolding send_retained
send_all_retained env sub_qos [] = pure tt
send_all_retained env sub_qos (msg ∷ msgs) =
    send_retained env sub_qos msg >> send_all_retained env sub_qos msgs

unfoldable pub deliver_retained : {F D : Type 0} → Env F D → List (Str × QoS) → Run F D (Unit {0})
unfolding send_all_retained retained_for
deliver_retained env [] = pure tt
deliver_retained env ((filter, sub_qos) ∷ accepted) = λ w.
    (send_all_retained env sub_qos (retained_for filter w.router.retain)
        >> deliver_retained env accepted)
      w

abbrev pub persist : {F D : Type 0} → Env F D → Run F D (Unit {0})
persist env w =
    some (ok tt, record w { router = persist_session_snapshot env.disk env.client_id w.router })

unfoldable pub handle_subscribe : {F D : Type 0} → Env F D → Subscribe → Run F D (Unit {0})
unfolding subscribe_topics send deliver_retained persist_session_snapshot
handle_subscribe env s w =
    let answered = subscribe_topics env s.topics w in
    (send env (Packet.suback (record { packet_id = s.packet_id; return_codes = codes answered.0 }))
        >> deliver_retained env (accepted_filters answered.0)
        >> persist env)
      answered.1

-- The loop over the filters of an UNSUBSCRIBE.
unfoldable pub unsubscribe_topics : {F D : Type 0} → Env F D → List Str → World F D → World F D
unfolding unsubscribe drop_filter
unsubscribe_topics env [] w = w
unsubscribe_topics env (f ∷ filters) w =
    let left = unsubscribe env.client_id f w.router.subscriptions in
    unsubscribe_topics env filters (record w {
      router = record w.router { subscriptions = left.0 };
      my_filters = drop_filter f w.my_filters;
    })

unfoldable pub handle_unsubscribe : {F D : Type 0} → Env F D → Unsubscribe → Run F D (Unit {0})
unfolding unsubscribe_topics send persist_session_snapshot
handle_unsubscribe env u w =
    (send env (Packet.unsuback u.packet_id) >> persist env)
      (unsubscribe_topics env u.topic_filters w)

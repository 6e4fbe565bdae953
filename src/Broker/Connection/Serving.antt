-- ===== src/Broker/Connection/Serving.antt =====
-- src/broker/mod.rs: SUBSCRIBE, UNSUBSCRIBE and every other packet, on well-formed shared parts.
use lumen_mq.Prelude.{
  ◌≡◌, refl, subst, not, ◌&&◌, List, [], ◌∷◌, ◌++◌, Str, leb, ltb, length, nat_key, list_key, arith,
  Option-cases, Bool-cases, inl, inr,
}
use lumen_mq.Prelude.Result.{ok, err, Result-cases}
use lumen_mq.Utils.{connection_closed}
use lumen_mq.Codec.Packet.{Packet, QoS, Subscribe, SubscribeTopic, Unsubscribe}
use lumen_mq.Broker.Topic.{validate_filter}
use lumen_mq.Broker.Retain.{RetainedMessage, retained_for, build_outbound}
use lumen_mq.Broker.Subscription.{SubscriptionTree, subscribe}
use lumen_mq.Broker.Subscription.Refinement as Tree
use lumen_mq.Broker.Subscription.Effects.{subscribe-Updates, subscribe_rejects, real_filter}
use lumen_mq.Broker.Subscription.Removal.{unsubscribe-Removes}
use lumen_mq.Broker.Router.{Router}
use lumen_mq.Broker.Router.Kept.{Sound}
use lumen_mq.Broker.Connection.{World, Env, send}
use lumen_mq.Plugin.Guard.{plugin_subscribe}
use lumen_mq.Broker.Connection.Subscribing.{
  mem_filter, subscribe_topic, subscribe_topics, accepted_filters, next_outbound, closed_during,
  send_retained, send_all_retained, deliver_retained, persist, handle_subscribe, unsubscribe_topics,
  handle_unsubscribe,
}
use lumen_mq.Broker.Connection.Handling.{handle_packet}
use lumen_mq.Broker.Connection.Soundness.{persist-Sound}
use lumen_mq.Broker.Connection.Steady.{Steady, run_on-Steady, send-Steady, handle_publish-Steady}

pub subscribe-WellFormed :
    (id f : Str) (q : QoS) (t t' : SubscriptionTree)
    → Tree.WellFormed t
    → subscribe id f q t ≡ ok t'
    → Tree.WellFormed t'
subscribe-WellFormed id f q t t' w h = elim (Result-cases (validate_filter (real_filter f))) [
  | inl (e, n) ↦ absurd (ground (arith, h, subscribe_rejects id f q t e n))
  | inr (u, n) ↦
      let (t2, e, w2, k) = subscribe-Updates id f q t w n in
      let same : t2 ≡ t' = ground (arith, e, h) in subst Tree.WellFormed same w2
]

pub with_tree-Sound :
    {D : Type 0} (r : Router D) (t : SubscriptionTree)
    → Sound r
    → Tree.WellFormed t
    → Sound (record r { subscriptions = t })
with_tree-Sound r t s w = record {
  tree = w;
  table = s.table;
  roomy = s.roomy;
  retained = s.retained;
}

module _ {F D : Type 0} (env : Env F D) where
  subscribe_topic-Sound :
      (t : SubscribeTopic) (w : World F D)
      → Sound w.router
      → Sound (subscribe_topic env t w).1.router
  unfolding subscribe_topic
  subscribe_topic-Sound t w s =
      elim (Result-cases (subscribe env.client_id t.topic_filter t.qos w.router.subscriptions)) [
        | inl (e, n) ↦
            elim (Bool-cases (
              not (mem_filter t.topic_filter w.my_filters)
              && leb env.max_subs (length w.my_filters))) [
                | inl b ↦ rw (b, subscribe_topic) s
                | inr b ↦ elim (Result-cases (plugin_subscribe t.topic_filter w.plugin)) [
                  | inl (e', m) ↦ rw (b, m, subscribe_topic) s
                  | inr (u, m) ↦ rw (b, m, n, subscribe_topic) s
                ]
              ]
        | inr (tree, n) ↦
            elim (Bool-cases (
              not (mem_filter t.topic_filter w.my_filters)
              && leb env.max_subs (length w.my_filters))) [
                | inl b ↦ rw (b, subscribe_topic) s
                | inr b ↦ elim (Result-cases (plugin_subscribe t.topic_filter w.plugin)) [
                  | inl (e', m) ↦ rw (b, m, subscribe_topic) s
                  | inr (u, m) ↦
                      rw (b, m, n, subscribe_topic)
                        (with_tree-Sound w.router tree s (
                          subscribe-WellFormed env.client_id t.topic_filter t.qos
                            w.router.subscriptions tree s.tree n))
                ]
              ]
      ]

  subscribe_topics-Sound :
      (topics : List SubscribeTopic) (w : World F D)
      → Sound w.router
      → Sound (subscribe_topics env topics w).1.router
  unfolding subscribe_topics
  subscribe_topics-Sound [] w s = s
  subscribe_topics-Sound (t ∷ topics) w s =
      subscribe_topics-Sound topics (subscribe_topic env t w).1 (subscribe_topic-Sound t w s)

  closed-Steady :
      (packet : Packet) (w : World F D)
      → Sound w.router
      → Steady (closed_during (send env packet w))
  unfolding send
  closed-Steady packet w s = elim (Bool-cases (ltb (length w.sent) env.breaks_after)) [
    | inl b ↦ ((ok tt, record w { sent = w.sent ++ (packet ∷ []) }), ground (arith, b), s)
    | inr b ↦
        ((err (connection_closed "sink closed during retained delivery"), w), ground (arith, b), s)
  ]

  retained-Steady :
      (q : QoS) (msg : RetainedMessage) (w : World F D)
      → Sound w.router
      → Steady (send_retained env q msg w)
  unfolding send_retained next_outbound
  retained-Steady q msg w s = elim (Option-cases (next_outbound env (build_outbound msg q) w).0) [
    | inl n ↦ rw (n, send_retained) (_, refl, s)
    | inr (packet, n) ↦
        rw (n, send_retained)
          (closed-Steady packet (next_outbound env (build_outbound msg q) w).1 s)
  ]

  all_retained-Steady :
      (q : QoS) (msgs : List RetainedMessage) (w : World F D)
      → Sound w.router
      → Steady (send_all_retained env q msgs w)
  unfolding send_all_retained
  all_retained-Steady q [] w s = (_, refl, s)
  all_retained-Steady q (msg ∷ msgs) w s =
      run_on-Steady _ _ (retained-Steady q msg w s) (λ u w1 s1. all_retained-Steady q msgs w1 s1)

  deliver_retained-Steady :
      (accepted : List (Str × QoS)) (w : World F D)
      → Sound w.router
      → Steady (deliver_retained env accepted w)
  unfolding deliver_retained
  deliver_retained-Steady [] w s = (_, refl, s)
  deliver_retained-Steady ((filter, q) ∷ accepted) w s =
      run_on-Steady _ _ (all_retained-Steady q (retained_for filter w.router.retain) w s)
        (λ u w1 s1. deliver_retained-Steady accepted w1 s1)

  persist-Steady : (w : World F D) → Sound w.router → Steady (persist env w)
  persist-Steady w s = (_, refl, persist-Sound env.disk env.client_id w.router s)

  handle_subscribe-Steady :
      (u : Subscribe) (w : World F D) → Sound w.router → Steady (handle_subscribe env u w)
  unfolding handle_subscribe
  handle_subscribe-Steady u w s =
      run_on-Steady _ _
        (run_on-Steady _ _ (send-Steady env _ _ (subscribe_topics-Sound u.topics w s)) (λ x w1 s1.
          deliver_retained-Steady (accepted_filters (subscribe_topics env u.topics w).0) w1 s1))
        (λ x w1 s1. persist-Steady w1 s1)

  unsubscribe_topics-Sound :
      (filters : List Str) (w : World F D)
      → Sound w.router
      → Sound (unsubscribe_topics env filters w).router
  unfolding unsubscribe_topics
  unsubscribe_topics-Sound [] w s = s
  unsubscribe_topics-Sound (f ∷ filters) w s =
      let (flag, kept, gone) = unsubscribe-Removes env.client_id f w.router.subscriptions s.tree in
      unsubscribe_topics-Sound filters _ (with_tree-Sound w.router _ s kept)

  handle_unsubscribe-Steady :
      (u : Unsubscribe) (w : World F D) → Sound w.router → Steady (handle_unsubscribe env u w)
  unfolding handle_unsubscribe
  handle_unsubscribe-Steady u w s =
      run_on-Steady _ _ (send-Steady env _ _ (unsubscribe_topics-Sound u.topic_filters w s))
        (λ x w1 s1. persist-Steady w1 s1)

  pub handle_packet-Steady :
      (packet : Packet) (w : World F D) → Sound w.router → Steady (handle_packet env packet w)
  unfolding handle_packet
  handle_packet-Steady (Packet.publish p) w s =
      run_on-Steady _ _ (handle_publish-Steady env p w s) (λ x w1 s1. (_, refl, s1))
  handle_packet-Steady (Packet.subscribe u) w s =
      run_on-Steady _ _ (handle_subscribe-Steady u w s) (λ x w1 s1. (_, refl, s1))
  handle_packet-Steady (Packet.unsubscribe u) w s =
      run_on-Steady _ _ (handle_unsubscribe-Steady u w s) (λ x w1 s1. (_, refl, s1))
  handle_packet-Steady Packet.pingreq w s =
      run_on-Steady _ _ (send-Steady env Packet.pingresp w s) (λ x w1 s1. (_, refl, s1))
  handle_packet-Steady Packet.disconnect w s = (_, refl, s)
  handle_packet-Steady (Packet.puback id) w s = (_, refl, s)
  handle_packet-Steady (Packet.pubrec id) w s =
      run_on-Steady _ _ (send-Steady env (Packet.pubrel id) _ s) (λ x w1 s1. (_, refl, s1))
  handle_packet-Steady (Packet.pubrel id) w s =
      run_on-Steady _ _ (send-Steady env (Packet.pubcomp id) _ s) (λ x w1 s1. (_, refl, s1))
  handle_packet-Steady (Packet.pubcomp id) w s = (_, refl, s)
  handle_packet-Steady (Packet.connect c) w s = (_, refl, s)
  handle_packet-Steady (Packet.connack c) w s = (_, refl, s)
  handle_packet-Steady (Packet.suback c) w s = (_, refl, s)
  handle_packet-Steady (Packet.unsuback c) w s = (_, refl, s)
  handle_packet-Steady Packet.pingresp w s = (_, refl, s)

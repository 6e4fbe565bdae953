-- ===== src/Broker/Connection/Codes.antt =====
-- src/broker/mod.rs: the loop of `handle_subscribe` over the topics.
use lumen_mq.Prelude.{
  ◌≡◌, ◌≢◌, ◌≤◌, ◌⊎◌, max, some, none, List, [], ◌∷◌, Str, if◌then◌else◌, length, ◌==◌, nat_key,
  list_key,
}
use lumen_mq.Codec.Packet.{QoS, SubscribeTopic, qos_as_u8}
use lumen_mq.Broker.Subscription.{SubscriptionTree}
use lumen_mq.Broker.Subscription.Refinement.{subscription, WellFormed}
use lumen_mq.Broker.Subscription.Effects.{Updates}
use lumen_mq.Broker.Connection.{World, Env}
use lumen_mq.Broker.Connection.Subscribing.{add_filter, suback_failure, Answer, subscribe_topic}

-- A topic's answer is a refusal, or grants the QoS asked for.
abbrev pub Fits : SubscribeTopic → Answer → Type 0
Fits t a = (a ≡ (suback_failure, none)) ⊎ (a ≡ (qos_as_u8 t.qos, some (t.topic_filter, t.qos)))

-- One answer for each topic, in the topics' order.
abbrev pub EachFits : List SubscribeTopic → List Answer → Type 0
EachFits [] [] = Unit
EachFits (t ∷ topics) (a ∷ answers) = Fits t a × EachFits topics answers
EachFits _ _ = ⊥

module _ {F D : Type 0} (env : Env F D) where
  -- The client has a subscription at the filter.
  abbrev pub HasSubscription : SubscriptionTree → Str × QoS → Type 0
  HasSubscription t f = subscription env.client_id f.0 t ≢ none

  -- The other clients' entries are the same.
  abbrev pub OthersKept : SubscriptionTree → SubscriptionTree → Type 0
  OthersKept t t' =
      (id f : Str)
      → (if env.client_id == id then none else subscription id f t')
        ≡ (if env.client_id == id then none else subscription id f t)

  abbrev Granted : SubscribeTopic → World F D → Type 0
  Granted t w =
      (tree : SubscriptionTree) × (subscribe_topic env t w ≡ (
        (qos_as_u8 t.qos, some (t.topic_filter, t.qos)),
        record w {
          router = record w.router { subscriptions = tree };
          my_filters = add_filter t.topic_filter w.my_filters;
        },
      ))
      × WellFormed tree
      × Updates env.client_id t.topic_filter (some t.qos) w.router.subscriptions tree
      × (length (add_filter t.topic_filter w.my_filters) ≤ max env.max_subs (length w.my_filters))

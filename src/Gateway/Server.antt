-- ===== src/Gateway/Server.antt =====
-- src/net/mqtt_sn.rs: the handlers of CONNECT, REGISTER, PUBLISH, SUBSCRIBE and UNSUBSCRIBE at the
-- gateway. The counter of connections of src/monitor/metrics.rs is kept as its 64 bits, which is how
-- the test of the limit reads it. What is returned is sent to the peer.
use lumen_mq.Prelude.{
  ℕ, ◌%◌, Bool, true, false, not, ◌&&◌, Option, some, none, List, [], ◌∷◌, Str, Bytes,
  if◌then◌else◌, leb, eqb, is_empty, has_bit, nat_key, list_key,
}
use lumen_mq.Prelude.Assoc.{Assoc, lookup, insert}
use lumen_mq.Prelude.Result.{ok, err}
use lumen_mq.Codec.Packet.{QoS, is_qos0}
use lumen_mq.Broker.Session.{register, add_one}
use lumen_mq.Broker.Subscription.{subscribe, unsubscribe}
use lumen_mq.Broker.Router.{Router, Around, Disk, publish}
use lumen_mq.Gateway.Packet.{
  SnPacket, rc_accepted, rc_congestion, rc_invalid_topic_id, rc_not_supported, rc_rejected,
  flags_to_qos, qos_to_flags, to_be, from_be,
}
use lumen_mq.Gateway.Client.{
  SnClient, new_client, touch, assign_topic_id, topic_name_of, forget_topic,
}

pub record Gateway (D : Type 0) : Type 0 where
  pub router : Router D
  pub clients : Assoc ℕ SnClient
  pub connections : ℕ

-- What a call finds, and the settings that it reads. `tx` and `peer_addr` are the channel and the
-- address of a new session.
pub record SnEnv (D : Type 0) : Type 0 where
  pub around : Around
  pub disk : Disk D
  pub lossy : Bytes → Str
  pub allow_anonymous : Bool
  pub max_connections : ℕ
  pub tx : ℕ
  pub peer_addr : Str

-- The packets to send, and the state; `none` where a call does not return.
abbrev pub Reply : Type 0 → Type 0
Reply D = Option (List SnPacket × Gateway D)

abbrev pub answer : {D : Type 0} → SnPacket → Gateway D → Reply D
answer packet g = some (packet ∷ [], g)

abbrev pub with_client : {D : Type 0} → ℕ → SnClient → Gateway D → Gateway D
with_client peer c g = record g { clients = insert peer c g.clients }

-- The checks of a CONNECT: the code of a refusal.
abbrev pub refusal : {D : Type 0} → SnEnv D → ℕ → Str → Gateway D → Option ℕ
refusal env protocol_id client_id g =
    if not (eqb protocol_id 1)
    then some rc_not_supported
    else if not env.allow_anonymous
    then some rc_not_supported
    else if is_empty client_id
    then some rc_rejected
    else if leb env.max_connections g.connections
    then some rc_congestion
    else none

-- The session and the client of a CONNECT. The messages stored for the client are not used.
unfoldable pub admit : {D : Type 0} → SnEnv D → ℕ → Bool → ℕ → Str → Gateway D → Gateway D
unfolding register
admit env peer clean duration client_id g =
    let registered =
      register env.around.now
        (record {
          client_id = client_id;
          clean_session = clean;
          tx = env.tx;
          will = none;
          protocol_level = 4;
          peer_addr = env.peer_addr;
          session_expiry = none;
        })
        g.router.sessions in
    with_client peer
      (new_client env.around.now client_id registered.0.epoch clean
        (if eqb duration 0 then 60 else duration) peer)
      (record g {
        router = record g.router { sessions = registered.1 };
        connections = add_one g.connections;
      })

unfoldable pub handle_sn_connect :
    {D : Type 0} → SnEnv D → ℕ → ℕ → ℕ → ℕ → Str → Gateway D → Reply D
unfolding admit has_bit
handle_sn_connect env peer flags protocol_id duration client_id g =
    elim (refusal env protocol_id client_id g) [
      | some code ↦ answer (SnPacket.connack code) g
      | none ↦
          answer (SnPacket.connack rc_accepted)
            (admit env peer (has_bit flags 4) duration client_id g)
    ]

unfoldable pub handle_register : {D : Type 0} → SnEnv D → ℕ → ℕ → Str → Gateway D → Reply D
unfolding assign_topic_id
handle_register env peer msg_id topic_name g = elim (lookup peer g.clients) [
  | none ↦ answer (SnPacket.regack 0 0 msg_id rc_not_supported) g
  | some c ↦
      let assigned = assign_topic_id topic_name (touch env.around.now c) in
      answer (SnPacket.regack 0 assigned.0 msg_id rc_accepted) (with_client peer assigned.1 g)
]

-- The name of a publication's topic: the one registered, or the two letters of a short one.
abbrev pub name_of : (Bytes → Str) → ℕ → ℕ → Option Str → Option Str
name_of lossy flags topic_id (some name) = some name
name_of lossy flags topic_id none =
    if eqb (flags % 4) 2 && not (eqb topic_id 0) then some (lossy (to_be topic_id)) else none

abbrev pub puback_if : {D : Type 0} → Bool → ℕ → ℕ → ℕ → Gateway D → Reply D
puback_if false topic_id msg_id code g = some ([], g)
puback_if true topic_id msg_id code g = answer (SnPacket.puback 0 topic_id msg_id code) g

abbrev pub is_qos1 : QoS → Bool
is_qos1 QoS.at_least_once = true
is_qos1 _ = false

unfoldable pub route_sn :
    {D : Type 0} → SnEnv D → Str → ℕ → ℕ → ℕ → Bytes → QoS → Option Str → Gateway D → Reply D
unfolding publish has_bit
route_sn env client_id flags topic_id msg_id payload qos none g =
    puback_if (not (is_qos0 qos)) topic_id msg_id rc_invalid_topic_id g
route_sn env client_id flags topic_id msg_id payload qos (some name) g =
    elim (publish env.around env.disk name payload qos (has_bit flags 16) (some client_id)
      g.router) [
        | none ↦ none
        | some (deliveries, router) ↦
            puback_if (is_qos1 qos) topic_id msg_id rc_accepted (record g { router = router })
      ]

unfoldable pub handle_sn_publish :
    {D : Type 0} → SnEnv D → ℕ → ℕ → ℕ → ℕ → Bytes → Gateway D → Reply D
unfolding flags_to_qos route_sn
handle_sn_publish env peer flags topic_id msg_id payload g = elim (flags_to_qos flags) [
  | err code ↦ puback_if (not (eqb topic_id 0)) topic_id msg_id code g
  | ok qos ↦ elim (lookup peer g.clients) [
    | none ↦ some ([], g)
    | some c ↦
        route_sn env c.client_id flags topic_id msg_id payload qos
          (name_of env.lossy flags topic_id (topic_name_of topic_id c))
          (with_client peer (touch env.around.now c) g)
  ]
]

-- The identifier in the answer to a SUBSCRIBE: a short topic is its own.
abbrev pub topic_id_for : ℕ → Str → SnClient → ℕ × SnClient
topic_id_for flags (hi ∷ lo ∷ []) c =
    if eqb (flags % 4) 2 then (from_be hi lo, c) else assign_topic_id (hi ∷ lo ∷ []) c
topic_id_for flags topic c = assign_topic_id topic c

unfoldable pub handle_sn_subscribe :
    {D : Type 0} → SnEnv D → ℕ → ℕ → ℕ → Bytes → Gateway D → Reply D
unfolding flags_to_qos subscribe assign_topic_id
handle_sn_subscribe env peer flags msg_id topic g = elim (flags_to_qos flags) [
  | err code ↦ answer (SnPacket.suback 0 0 msg_id code) g
  | ok qos ↦ elim (lookup peer g.clients) [
    | none ↦ answer (SnPacket.suback 0 0 msg_id rc_not_supported) g
    | some c ↦
        let name = env.lossy topic in
        let c' = touch env.around.now c in
        elim (subscribe c.client_id name qos g.router.subscriptions) [
          | err e ↦ answer (SnPacket.suback 0 0 msg_id rc_not_supported) (with_client peer c' g)
          | ok tree ↦
              let assigned = topic_id_for flags name c' in
              answer (SnPacket.suback (qos_to_flags qos) assigned.0 msg_id rc_accepted) (
                with_client peer assigned.1
                  (record g { router = record g.router { subscriptions = tree } }))
        ]
  ]
]

unfoldable pub handle_sn_unsubscribe : {D : Type 0} → SnEnv D → ℕ → ℕ → Bytes → Gateway D → Reply D
unfolding unsubscribe forget_topic
handle_sn_unsubscribe env peer msg_id topic g = elim (lookup peer g.clients) [
  | none ↦ answer (SnPacket.unsuback msg_id) g
  | some c ↦
      let name = env.lossy topic in
      answer (SnPacket.unsuback msg_id) (
        with_client peer (forget_topic name (touch env.around.now c)) (record g {
          router = record g.router {
            subscriptions = (unsubscribe c.client_id name g.router.subscriptions).0;
          };
        }))
]

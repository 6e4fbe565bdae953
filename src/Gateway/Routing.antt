-- ===== src/Gateway/Routing.antt =====
-- src/net/mqtt_sn.rs: every packet is handled, and the gateway stays well formed.
use lumen_mq.Prelude.{
  ℕ, ◌+◌, ◌*◌, ◌%◌, has_bit, ◌<◌, ◌^◌, ◌≡◌, refl, Bool, true, false, not, Option, some, none, List,
  [], ◌∷◌, Str, Bytes, eqb, nat_key, list_key, arith, Bool-cases, Option-cases, inl, inr,
}
use lumen_mq.Prelude.Assoc.{lookup, lookup-remove}
use lumen_mq.Prelude.Result.{Result-cases}
use lumen_mq.Codec.Packet.{QoS, is_qos0}
use lumen_mq.Broker.Session.{owns}
use lumen_mq.Broker.Session.Leave.{mark_offline}
use lumen_mq.Broker.Session.Preserved.{register-WellFormed}
use lumen_mq.Broker.Session.Kept.{mark_offline-WellFormed}
use lumen_mq.Broker.Subscription.{subscribe}
use lumen_mq.Broker.Subscription.Removal.{unsubscribe-Removes}
use lumen_mq.Broker.Router.Leaving.{register-Roomy, mark_offline-Roomy}
use lumen_mq.Broker.Router.Kept.{Sound, publish-Sound}
use lumen_mq.Broker.Connection.Serving.{subscribe-WellFormed, with_tree-Sound}
use lumen_mq.Gateway.Packet.{SnPacket, flags_to_qos}
use lumen_mq.Gateway.Client.{SnClient, topic_name_of}
use lumen_mq.Gateway.Topics.{Paired, assign_topic_id-Paired, forget_topic-Paired}
use lumen_mq.Gateway.Server.{
  Gateway, SnEnv, refusal, admit, handle_sn_connect, handle_register, name_of, puback_if, is_qos1,
  route_sn, handle_sn_publish, topic_id_for, handle_sn_subscribe, handle_sn_unsubscribe,
}
use lumen_mq.Gateway.Handling.{touched, fall_asleep, leave_gateway, handle}
use lumen_mq.Gateway.Keeping.{
  SoundGateway, touch-Paired, new_client-Paired, with_client-Sound, with_router-Sound, Handled,
  cleanup_session-Sound,
}

module _ {D : Type 0} (env : SnEnv D) where
  connect-Handled :
      (peer flags protocol_id duration : ℕ) (id : Str) (g : Gateway D)
      → SoundGateway g
      → g.router.sessions.epoch_counter + 1 < 2 ^ 64
      → Handled (handle_sn_connect env peer flags protocol_id duration id g)
  unfolding handle_sn_connect admit
  connect-Handled peer flags protocol_id duration id g w b =
      elim (Option-cases (refusal env protocol_id id g)) [
        | inr (code, n) ↦ rw (n, handle_sn_connect) (_, refl, w)
        | inl n ↦
            rw (n, handle_sn_connect)
              (
                _,
                refl,
                with_client-Sound peer _ _
                    (record {
                      shared = record {
                        tree = w.shared.tree;
                        table =
                            register-WellFormed env.around.now _ g.router.sessions b w.shared.table;
                        roomy = register-Roomy env.around.now _ g.router.sessions w.shared.roomy;
                        retained = w.shared.retained;
                      };
                      paired = w.paired;
                    })
                    (new_client-Paired _ _ _ _ _ _),
              )
      ]

  register-Handled :
      (peer msg_id : ℕ) (name : Str) (g : Gateway D)
      → SoundGateway g
      → Handled (handle_register env peer msg_id name g)
  unfolding handle_register
  register-Handled peer msg_id name g w = elim (Option-cases (lookup peer g.clients)) [
    | inl n ↦ rw (n, handle_register) (_, refl, w)
    | inr (c, n) ↦
        rw (n, handle_register)
          (
            _,
            refl,
            with_client-Sound peer _ g w
                (assign_topic_id-Paired name _ (touch-Paired env.around.now c (w.paired peer c n))),
          )
  ]

  puback-Handled :
      (b : Bool) (topic_id msg_id code : ℕ) (g : Gateway D)
      → SoundGateway g
      → Handled (puback_if b topic_id msg_id code g)
  puback-Handled true topic_id msg_id code g w = (_, refl, w)
  puback-Handled false topic_id msg_id code g w = (_, refl, w)

  route-Handled :
      (id : Str) (flags topic_id msg_id : ℕ) (payload : Bytes) (qos : QoS) (name : Option Str)
      (g : Gateway D)
      → SoundGateway g
      → Handled (route_sn env id flags topic_id msg_id payload qos name g)
  unfolding route_sn
  route-Handled id flags topic_id msg_id payload qos none g w =
      puback-Handled (not (is_qos0 qos)) topic_id msg_id _ g w
  route-Handled id flags topic_id msg_id payload qos (some name) g w =
      let (done, e, s) =
        publish-Sound env.around env.disk name payload qos (has_bit flags 16) (some id) g.router
          w.shared in
      rw (e, route_sn)
        (puback-Handled (is_qos1 qos) topic_id msg_id _ _
          (with_router-Sound done.1 g.connections g w s))

  publish-Handled :
      (peer flags topic_id msg_id : ℕ) (payload : Bytes) (g : Gateway D)
      → SoundGateway g
      → Handled (handle_sn_publish env peer flags topic_id msg_id payload g)
  unfolding handle_sn_publish
  publish-Handled peer flags topic_id msg_id payload g w =
      elim (Result-cases (flags_to_qos flags)) [
        | inl (code, n) ↦
            rw (n, handle_sn_publish)
              (puback-Handled (not (eqb topic_id 0)) topic_id msg_id code g w)
        | inr (qos, n) ↦ elim (Option-cases (lookup peer g.clients)) [
          | inl m ↦ rw (n, m, handle_sn_publish) (_, refl, w)
          | inr (c, m) ↦
              rw (n, m, handle_sn_publish)
                (route-Handled c.client_id flags topic_id msg_id payload qos
                  (name_of env.lossy flags topic_id (topic_name_of topic_id c)) _
                  (with_client-Sound peer _ g w
                    (touch-Paired env.around.now c (w.paired peer c m))))
        ]
      ]

  topic_id_for-Paired :
      (flags : ℕ) (topic : Str) (c : SnClient) → Paired c → Paired (topic_id_for flags topic c).1
  topic_id_for-Paired flags [] c w = assign_topic_id-Paired [] c w
  topic_id_for-Paired flags (a ∷ []) c w = assign_topic_id-Paired (a ∷ []) c w
  topic_id_for-Paired flags (a ∷ b ∷ []) c w = elim (Bool-cases (eqb (flags % 4) 2)) [
    | inl e ↦ rw e w
    | inr e ↦ rw e (assign_topic_id-Paired (a ∷ b ∷ []) c w)
  ]
  topic_id_for-Paired flags (a ∷ b ∷ d ∷ rest) c w = assign_topic_id-Paired (a ∷ b ∷ d ∷ rest) c w

  subscribe-Handled :
      (peer flags msg_id : ℕ) (topic : Bytes) (g : Gateway D)
      → SoundGateway g
      → Handled (handle_sn_subscribe env peer flags msg_id topic g)
  unfolding handle_sn_subscribe
  subscribe-Handled peer flags msg_id topic g w = elim (Result-cases (flags_to_qos flags)) [
    | inl (code, n) ↦ rw (n, handle_sn_subscribe) (_, refl, w)
    | inr (qos, n) ↦ elim (Option-cases (lookup peer g.clients)) [
      | inl m ↦ rw (n, m, handle_sn_subscribe) (_, refl, w)
      | inr (c, m) ↦
          let p = touch-Paired env.around.now c (w.paired peer c m) in
          elim (Result-cases (subscribe c.client_id (env.lossy topic) qos g.router.subscriptions)) [
            | inl (e, k) ↦
                rw (n, m, k, handle_sn_subscribe) (_, refl, with_client-Sound peer _ g w p)
            | inr (tree, k) ↦
                rw (n, m, k, handle_sn_subscribe)
                  (
                    _,
                    refl,
                    with_client-Sound peer _ _
                        (with_router-Sound (record g.router { subscriptions = tree }) g.connections
                          g w
                          (with_tree-Sound g.router tree w.shared (
                            subscribe-WellFormed c.client_id (env.lossy topic) qos
                              g.router.subscriptions tree w.shared.tree k)))
                        (topic_id_for-Paired flags (env.lossy topic) _ p),
                  )
          ]
    ]
  ]

  unsubscribe-Handled :
      (peer msg_id : ℕ) (topic : Bytes) (g : Gateway D)
      → SoundGateway g
      → Handled (handle_sn_unsubscribe env peer msg_id topic g)
  unfolding handle_sn_unsubscribe
  unsubscribe-Handled peer msg_id topic g w = elim (Option-cases (lookup peer g.clients)) [
    | inl n ↦ rw (n, handle_sn_unsubscribe) (_, refl, w)
    | inr (c, n) ↦
        let (flag, kept, gone) =
          unsubscribe-Removes c.client_id (env.lossy topic) g.router.subscriptions w.shared.tree in
        rw (n, handle_sn_unsubscribe)
          (
            _,
            refl,
            with_client-Sound peer _ _
                (with_router-Sound _ g.connections g w (with_tree-Sound g.router _ w.shared kept))
                (forget_topic-Paired (env.lossy topic) _
                  (touch-Paired env.around.now c (w.paired peer c n))),
          )
  ]

  touched-Sound : (peer : ℕ) (g : Gateway D) → SoundGateway g → SoundGateway (touched env peer g)
  touched-Sound peer g w = elim (Option-cases (lookup peer g.clients)) [
    | inl n ↦ rw (n, touched) w
    | inr (c, n) ↦
        rw (n, touched)
          (with_client-Sound peer _ g w (touch-Paired env.around.now c (w.paired peer c n)))
  ]

  asleep-Sound :
      (peer duration : ℕ) (g : Gateway D)
      → SoundGateway g
      → SoundGateway (fall_asleep env peer duration g)
  unfolding fall_asleep
  asleep-Sound peer duration g w = elim (Option-cases (lookup peer g.clients)) [
    | inl n ↦ rw (n, fall_asleep) w
    | inr (c, n) ↦
        let p = w.paired peer c n in
        let asleep : Paired (record c {
          sleeping = true;
          sleep_until = some (env.around.now + duration * 1000000000);
        }) =
          record { there = p.there; back = p.back; valid = p.valid; next_valid = p.next_valid } in
        let off : Sound (record g.router {
          sessions = mark_offline env.around.now c.client_id c.epoch g.router.sessions;
        }) =
          record {
            tree = w.shared.tree;
            table =
                mark_offline-WellFormed env.around.now c.client_id c.epoch g.router.sessions
                  w.shared.table;
            roomy =
                mark_offline-Roomy env.around.now c.client_id c.epoch g.router.sessions
                  w.shared.roomy;
            retained = w.shared.retained;
          } in
        elim (Bool-cases (owns c.client_id c.epoch g.router.sessions)) [
          | inl o ↦
              rw (n, o, fall_asleep)
                (with_client-Sound peer _ _ (with_router-Sound _ _ g w off) asleep)
          | inr o ↦
              rw (n, o, fall_asleep)
                (with_client-Sound peer _ _ (with_router-Sound _ _ g w w.shared) asleep)
        ]
  ]

  leave-Sound :
      (peer : ℕ) (g : Gateway D) → SoundGateway g → SoundGateway (leave_gateway env peer g)
  unfolding leave_gateway
  leave-Sound peer g w = elim (Option-cases (lookup peer g.clients)) [
    | inl n ↦ rw (n, leave_gateway) w
    | inr (c, n) ↦
        rw (n, leave_gateway)
          (cleanup_session-Sound env.around.now c.client_id c.epoch c.clean _ (record {
            shared = w.shared;
            paired = λ at d h. w.paired at d (ground (arith, h, lookup-remove peer at g.clients));
          }))
  ]

  -- From a sound gateway, and as long as the epochs do not wrap, every packet of every peer is handled
  -- to its end, and leaves the gateway sound: the subscriptions, the sessions and the retained messages
  -- are well formed, each queue has some capacity, and for each client of the gateway the topics and the
  -- identifiers are paired.
  pub handle-Sound :
      (peer : ℕ) (packet : SnPacket) (g : Gateway D)
      → SoundGateway g
      → g.router.sessions.epoch_counter + 1 < 2 ^ 64
      → (done : List SnPacket × Gateway D) × (handle env peer packet g ≡ some done)
        × SoundGateway done.1
  unfolding handle
  handle-Sound peer (SnPacket.connect flags protocol_id duration id) g w b =
      connect-Handled peer flags protocol_id duration id g w b
  handle-Sound peer (SnPacket.register flags topic_id msg_id name) g w b =
      register-Handled peer msg_id name g w
  handle-Sound peer (SnPacket.publish flags topic_id msg_id payload) g w b =
      publish-Handled peer flags topic_id msg_id payload g w
  handle-Sound peer (SnPacket.subscribe flags msg_id topic) g w b =
      subscribe-Handled peer flags msg_id topic g w
  handle-Sound peer (SnPacket.unsubscribe flags msg_id topic) g w b =
      unsubscribe-Handled peer msg_id topic g w
  handle-Sound peer SnPacket.pingreq g w b = (_, refl, touched-Sound peer g w)
  handle-Sound peer (SnPacket.disconnect (some duration)) g w b =
      (_, refl, asleep-Sound peer duration g w)
  handle-Sound peer (SnPacket.disconnect none) g w b = (_, refl, leave-Sound peer g w)
  handle-Sound peer (SnPacket.puback flags topic_id msg_id code) g w b =
      (_, refl, touched-Sound peer g w)
  handle-Sound peer (SnPacket.connack code) g w b = (_, refl, w)
  handle-Sound peer (SnPacket.regack flags topic_id msg_id code) g w b = (_, refl, w)
  handle-Sound peer (SnPacket.suback flags topic_id msg_id code) g w b = (_, refl, w)
  handle-Sound peer (SnPacket.unsuback msg_id) g w b = (_, refl, w)
  handle-Sound peer SnPacket.pingresp g w b = (_, refl, w)
  handle-Sound peer (SnPacket.unknown msg_type) g w b = (_, refl, w)

-- ===== src/Broker/Connection/Acks.antt =====
-- src/broker/mod.rs: a PUBLISH is acknowledged and noted, whether it is routed or refused.
use lumen_mq.Prelude.{
  ℕ, ◌≡◌, ◌<◌, refl, subst, append-nil, Bool, true, false, not, ◌&&◌, ◌||◌, Option, some, none,
  List, [], ◌∷◌, ◌++◌, if◌then◌else◌, length, lt→ltb, nat_key, arith,
}
use lumen_mq.Prelude.Result.{ok}
use lumen_mq.Codec.Packet.{QoS, Packet, Publish}
use lumen_mq.Broker.Qos.{Seen, contains, on_publish}
use lumen_mq.Broker.Router.{Router, route_inbound_publish}
use lumen_mq.Broker.Router.Fanout.{Roomy, publish_hands}
use lumen_mq.Security.Guard.{check_publish}
use lumen_mq.Plugin.Guard.{plugin_publish}
use lumen_mq.Broker.Connection.{World, Env, send}
use lumen_mq.Broker.Connection.Publishing.{
  is_err, security_rejects, note_inbound, route_if, acknowledge, handle_publish,
}

-- The answer to a publication with an identifier.
abbrev pub acks : QoS → ℕ → List Packet
acks QoS.at_most_once id = []
acks QoS.at_least_once id = Packet.puback id ∷ []
acks QoS.exactly_once id = Packet.pubrec id ∷ []

-- The identifiers noted after a publication.
abbrev pub noted : QoS → ℕ → Seen → Seen
noted QoS.exactly_once id seen = (on_publish id seen).0
noted _ id seen = seen

abbrev is_seen : QoS → ℕ → Seen → Bool
is_seen QoS.exactly_once id seen = contains id seen
is_seen _ id seen = false

through_lem :
    (a b c : Bool) → not (not c && (not a && not (if a then false else b))) ≡ (a || (b || c))
through_lem true b true = refl
through_lem true b false = refl
through_lem false true true = refl
through_lem false true false = refl
through_lem false false true = refl
through_lem false false false = refl

module _ {F D : Type 0} (env : Env F D) where
  -- The security guard, the plugin or, for QoS 2, an identifier not yet released stands against it.
  abbrev pub refuses : Publish → ℕ → World F D → Bool
  refuses p id w =
      is_err
        (check_publish env.floats env.around.now env.client_id (length p.payload)
          env.max_packet_size w.security).0
      || (is_err (plugin_publish p w.plugin) || is_seen p.qos id w.inbound_qos2)

  -- The shared parts after the publication: as they were where it is refused, and otherwise as the
  -- router leaves them.
  abbrev pub routed_unless : Bool → Publish → Router D → Option (Router D)
  routed_unless true p r = some r
  routed_unless false p r =
      elim (route_inbound_publish env.around env.disk p (some env.client_id) r) [
        | none ↦ none
        | some done ↦ some done.1
      ]

  noted_lem :
      (q : QoS) (id : ℕ) (w : World F D)
      → note_inbound q (some id) w
        ≡ some (
          ok (not (is_seen q id w.inbound_qos2)),
          record w { inbound_qos2 = noted q id w.inbound_qos2 },
        )
  unfolding note_inbound on_publish
  noted_lem QoS.at_most_once id w = refl
  noted_lem QoS.at_least_once id w = refl
  noted_lem QoS.exactly_once id w = refl

  acknowledged_lem :
      (q : QoS) (id : ℕ) (w : World F D)
      → length w.sent < env.breaks_after
      → acknowledge env q (some id) w ≡ some (ok tt, record w { sent = w.sent ++ acks q id })
  unfolding acknowledge send
  acknowledged_lem QoS.at_most_once id w b = rw (append-nil w.sent) refl
  acknowledged_lem QoS.at_least_once id w b = rw (lt→ltb (length w.sent) env.breaks_after b) refl
  acknowledged_lem QoS.exactly_once id w b = rw (lt→ltb (length w.sent) env.breaks_after b) refl

  routed_lem :
      (p : Publish) (b : Bool) (w : World F D)
      → Roomy w.router.sessions
      → (w' : World F D) × (route_if env p b w ≡ some (ok tt, w'))
        × (routed_unless (not b) p w.router ≡ some w'.router)
        × (w'.sent ≡ w.sent)
        × (w'.inbound_qos2 ≡ w.inbound_qos2)
  unfolding route_if
  routed_lem p false w roomy = (w, refl, refl, refl, refl)
  routed_lem p true w roomy =
      let (ds, r', e, h, t, k, kept) =
        publish_hands env.around env.disk p.topic p.payload p.qos p.retain (some env.client_id)
          w.router roomy in
      rw (e, route_if) (_, refl, ground (arith, e), refl, refl)

  -- Where each queue has some capacity and the peer still takes a packet, a PUBLISH with an identifier
  -- is handled without an error: it is answered by PUBACK at QoS 1, by PUBREC at QoS 2 and not at
  -- QoS 0; at QoS 2 the identifier is noted; and the shared parts change as the router changes them
  -- if neither the security guard, nor the plugin, nor a QoS 2 identifier that is not yet released
  -- stands against it, and otherwise not at all.
  pub handle_publish_answers :
      (p : Publish) (id : ℕ) (w : World F D)
      → Roomy w.router.sessions
      → p.packet_id ≡ some id
      → length w.sent < env.breaks_after
      → (w' : World F D) × (handle_publish env p w ≡ some (ok tt, w'))
        × (w'.sent ≡ w.sent ++ acks p.qos id)
        × (w'.inbound_qos2 ≡ noted p.qos id w.inbound_qos2)
        × (routed_unless (refuses p id w) p w.router ≡ some w'.router)
  unfolding handle_publish security_rejects
  handle_publish_answers p id w roomy n b =
      let checked =
        check_publish env.floats env.around.now env.client_id (length p.payload) env.max_packet_size
          w.security in
      let w1 : World F D = record w { security = checked.1 } in
      let w2 : World F D = record w1 { inbound_qos2 = noted p.qos id w.inbound_qos2 } in
      let refused = if is_err checked.0 then false else is_err (plugin_publish p w.plugin) in
      let through =
        not (is_seen p.qos id w.inbound_qos2) && (not (is_err checked.0) && not refused) in
      let (w3, e, r, s, q) = routed_lem p through w2 roomy in
      let room : length w3.sent < env.breaks_after = rw s b in
      let answer = acknowledged_lem p.qos id w3 room in
      let same : not through ≡ refuses p id w =
        through_lem (is_err checked.0) (is_err (plugin_publish p w.plugin))
          (is_seen p.qos id w.inbound_qos2) in
      (
        record w3 { sent = w3.sent ++ acks p.qos id },
        ground (arith, n, noted_lem p.qos id w1, e, answer),
        rw s refl,
        q,
        subst (λ x. routed_unless x p w.router ≡ some w3.router) same r,
      )

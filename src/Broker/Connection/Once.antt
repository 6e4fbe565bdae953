-- ===== src/Broker/Connection/Once.antt =====
-- src/broker/mod.rs: a QoS 2 publication that is sent again before it is released.
use lumen_mq.Prelude.{
  ℕ, ◌+◌, ◌≤◌, ◌≡◌, ◌∙◌, refl, ap, append_assoc, sym, subst, Bool, true, false, Option, some, List,
  [], ◌∷◌, ◌++◌, length, length-append, append-nil, All, arith, eqb_iff, nat_key,
}
use lumen_mq.Prelude.Result.{ok}
use lumen_mq.Codec.Packet.{QoS, Packet, Publish}
use lumen_mq.Broker.Qos.{Seen, contains}
use lumen_mq.Broker.Qos.Dedup.{contains-insert}
use lumen_mq.Broker.Router.{Router}
use lumen_mq.Broker.Router.Fanout.{Roomy, publish_hands}
use lumen_mq.Broker.Connection.{World, Env, Run, ◌>>◌, pure}
use lumen_mq.Broker.Connection.Publishing.{handle_publish}
use lumen_mq.Broker.Connection.Acks.{noted, refuses, routed_unless, handle_publish_answers}

-- The publication has QoS 2 and the identifier.
abbrev pub IsUnder : ℕ → Publish → Type 0
IsUnder id p = (p.qos ≡ QoS.exactly_once) × (p.packet_id ≡ some id)

-- A PUBREC for each publication.
abbrev pub pubrecs : ℕ → List Publish → List Packet
pubrecs id [] = []
pubrecs id (p ∷ ps) = Packet.pubrec id ∷ pubrecs id ps

seen_noted : (id : ℕ) (seen : Seen) → contains id (noted QoS.exactly_once id seen) ≡ true
seen_noted id seen = ground (arith, contains-insert id id seen, eqb_iff id id)

appended :
    (xs ys : List Packet) (id : ℕ) (ps : List Publish)
    → ys ≡ xs ++ (Packet.pubrec id ∷ [])
    → ys ++ pubrecs id ps ≡ xs ++ (Packet.pubrec id ∷ pubrecs id ps)
appended xs ys id ps h =
    ap (λ x. x ++ pubrecs id ps) h ∙ append_assoc xs (Packet.pubrec id ∷ []) (pubrecs id ps)

module _ {F D : Type 0} (env : Env F D) where
  -- PUBLISH packets handled one after the other.
  unfoldable pub handle_publishes : List Publish → Run F D (Unit {0})
  unfolding handle_publish
  handle_publishes [] = pure tt
  handle_publishes (p ∷ ps) = handle_publish env p >> handle_publishes ps

  seen_refuses :
      (p : Publish) (id : ℕ) (w : World F D)
      → p.qos ≡ QoS.exactly_once
      → contains id w.inbound_qos2 ≡ true
      → refuses env p id w ≡ true
  seen_refuses p id w q c = ground (arith, q, c)

  routed-Roomy :
      (b : Bool) (p : Publish) (r r' : Router D)
      → Roomy r.sessions
      → routed_unless env b p r ≡ some r'
      → Roomy r'.sessions
  routed-Roomy true p r r' w h =
      let same : r ≡ r' = ground (arith, h) in subst (λ x. Roomy x.sessions) same w
  routed-Roomy false p r r' w h =
      let (ds, r2, e, l, s, t, w2) =
        publish_hands env.around env.disk p.topic p.payload p.qos p.retain (some env.client_id) r
          w in
      let same : r2 ≡ r' = ground (arith, e, h) in subst (λ x. Roomy x.sessions) same w2

  -- What is left by publications under an identifier.
  abbrev pub Handled : ℕ → List Publish → World F D → Option (Router D) → Type 0
  Handled id ps w router =
      (w' : World F D) × (handle_publishes ps w ≡ some (ok tt, w'))
      × (w'.sent ≡ w.sent ++ pubrecs id ps)
      × (router ≡ some w'.router)

  duplicates_lem :
      (id : ℕ) (ps : List Publish) (w : World F D)
      → Roomy w.router.sessions
      → All (IsUnder id) ps
      → contains id w.inbound_qos2 ≡ true
      → length w.sent + length ps ≤ env.breaks_after
      → Handled id ps w (some w.router)
  unfolding handle_publishes
  duplicates_lem id [] w roomy same c b = (w, refl, sym (append-nil w.sent), refl)
  duplicates_lem id (p ∷ ps) w roomy ((q, n), same) c b =
      let (w1, e, s, i, r) = handle_publish_answers env p id w roomy n (omega (arith, b)) in
      let kept : w.router ≡ w1.router = ground (arith, r, seen_refuses p id w q c) in
      let sent1 : w1.sent ≡ w.sent ++ (Packet.pubrec id ∷ []) = ground (arith, s, q) in
      let c1 : contains id w1.inbound_qos2 ≡ true = rw (i, q) (seen_noted id w.inbound_qos2) in
      let room : length w1.sent + length ps ≤ env.breaks_after =
        rw sent1 (omega (arith, b, length-append w.sent (Packet.pubrec id ∷ []))) in
      let (w2, e2, s2, r2) =
        duplicates_lem id ps w1 (subst (λ x. Roomy x.sessions) kept roomy) same c1 room in
      (w2, ground (arith, e, e2), s2 ∙ appended w.sent w1.sent id ps sent1, ap some kept ∙ r2)

  -- Where each queue has some capacity and the peer takes the answers, a QoS 2 publication and any
  -- number of publications under its identifier after it, with no PUBREL between them, are all handled
  -- and each answered by a PUBREC. They change the shared parts together as the first one does alone:
  -- as the router does, or not at all where the security guard, the plugin or an identifier that is
  -- held already stands against it. So none after the first is routed, not even if the first was
  -- refused.
  pub handle_publishes_once :
      (id : ℕ) (p : Publish) (ps : List Publish) (w : World F D)
      → Roomy w.router.sessions
      → All (IsUnder id) (p ∷ ps)
      → length w.sent + length (p ∷ ps) ≤ env.breaks_after
      → Handled id (p ∷ ps) w (routed_unless env (refuses env p id w) p w.router)
  unfolding handle_publishes
  handle_publishes_once id p ps w roomy ((q, n), same) b =
      let (w1, e, s, i, r) = handle_publish_answers env p id w roomy n (omega (arith, b)) in
      let roomy1 = routed-Roomy (refuses env p id w) p w.router w1.router roomy r in
      let sent1 : w1.sent ≡ w.sent ++ (Packet.pubrec id ∷ []) = ground (arith, s, q) in
      let c1 : contains id w1.inbound_qos2 ≡ true = rw (i, q) (seen_noted id w.inbound_qos2) in
      let room : length w1.sent + length ps ≤ env.breaks_after =
        rw sent1 (omega (arith, b, length-append w.sent (Packet.pubrec id ∷ []))) in
      let (w2, e2, s2, r2) = duplicates_lem id ps w1 roomy1 same c1 room in
      (w2, ground (arith, e, e2), s2 ∙ appended w.sent w1.sent id ps sent1, r ∙ r2)

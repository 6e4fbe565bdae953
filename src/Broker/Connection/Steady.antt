-- ===== src/Broker/Connection/Steady.antt =====
-- src/broker/mod.rs: `handle_publish` returns, and keeps the shared parts well formed.
use lumen_mq.Prelude.{
  ℕ, ◌≡◌, refl, sym, subst, Bool, true, false, not, ◌&&◌, Option, some, none, [], ◌∷◌, ◌++◌, ltb,
  length, nat_key, list_key, arith, Bool-cases, inl, inr,
}
use lumen_mq.Prelude.Result.{Result, ok, err}
use lumen_mq.Utils.{BrokerError, io}
use lumen_mq.Codec.Packet.{Packet, QoS, Publish}
use lumen_mq.Broker.Router.Kept.{Sound, publish-Sound}
use lumen_mq.Broker.Connection.{World, Env, Run, run_on, send}
use lumen_mq.Broker.Connection.Publishing.{
  security_rejects, plugin_rejects, note_inbound, route_if, acknowledge, handle_publish,
}

-- A handler that returns and leaves the shared parts sound.
abbrev pub Steady : {F D A : Type 0} → Option (Result BrokerError A × World F D) → Type 0
Steady {F} {D} {A} call =
    (done : Result BrokerError A × World F D) × (call ≡ some done) × Sound done.1.router

run_on_done :
    {F D A B : Type 0} (done : Result BrokerError A × World F D) (f : A → Run F D B)
    → Sound done.1.router
    → ((a : A) (w : World F D) → Sound w.router → Steady (f a w))
    → Steady (run_on (some done) f)
run_on_done (ok a, w) f s k = k a w s
run_on_done (err e, w) f s k = ((err e, w), refl, s)

pub run_on-Steady :
    {F D A B : Type 0} (call : Option (Result BrokerError A × World F D)) (f : A → Run F D B)
    → Steady call
    → ((a : A) (w : World F D) → Sound w.router → Steady (f a w))
    → Steady (run_on call f)
run_on-Steady call f (done, e, s) k =
    subst (λ c. Steady (run_on c f)) (sym e) (run_on_done done f s k)

module _ {F D : Type 0} (env : Env F D) where
  pub send-Steady : (packet : Packet) (w : World F D) → Sound w.router → Steady (send env packet w)
  unfolding send
  send-Steady packet w s = elim (Bool-cases (ltb (length w.sent) env.breaks_after)) [
    | inl b ↦ ((ok tt, record w { sent = w.sent ++ (packet ∷ []) }), ground (arith, b), s)
    | inr b ↦ ((err (io "broken pipe"), w), ground (arith, b), s)
  ]

  security-Steady :
      (p : Publish) (w : World F D) → Sound w.router → Steady (security_rejects env p w)
  unfolding security_rejects
  security-Steady p w s = (_, refl, s)

  note-Steady :
      (q : QoS) (id : Option ℕ) (w : World F D) → Sound w.router → Steady (note_inbound q id w)
  unfolding note_inbound
  note-Steady QoS.at_most_once id w s = (_, refl, s)
  note-Steady QoS.at_least_once id w s = (_, refl, s)
  note-Steady QoS.exactly_once none w s = (_, refl, s)
  note-Steady QoS.exactly_once (some id) w s = (_, refl, s)

  route-Steady :
      (p : Publish) (b : Bool) (w : World F D) → Sound w.router → Steady (route_if env p b w)
  unfolding route_if
  route-Steady p false w s = (_, refl, s)
  route-Steady p true w s =
      let (done, e, s') =
        publish-Sound env.around env.disk p.topic p.payload p.qos p.retain (some env.client_id)
          w.router s in
      rw (e, route_if) (_, refl, s')

  acknowledge-Steady :
      (q : QoS) (id : Option ℕ) (w : World F D) → Sound w.router → Steady (acknowledge env q id w)
  unfolding acknowledge
  acknowledge-Steady QoS.at_most_once id w s = (_, refl, s)
  acknowledge-Steady QoS.at_least_once none w s = (_, refl, s)
  acknowledge-Steady QoS.at_least_once (some id) w s = send-Steady (Packet.puback id) w s
  acknowledge-Steady QoS.exactly_once none w s = (_, refl, s)
  acknowledge-Steady QoS.exactly_once (some id) w s = send-Steady (Packet.pubrec id) w s

  pub handle_publish-Steady :
      (p : Publish) (w : World F D) → Sound w.router → Steady (handle_publish env p w)
  unfolding handle_publish
  handle_publish-Steady p w s = run_on-Steady _ _ (security-Steady p w s) (λ rejected w1 s1.
      run_on-Steady (plugin_rejects p rejected w1) _ (_, refl, s1)
        (λ refused w2 s2. run_on-Steady _ _ (note-Steady p.qos p.packet_id w2 s2) (λ first w3 s3.
          run_on-Steady _ _ (route-Steady p (first && (not rejected && not refused)) w3 s3)
            (λ u w4 s4. acknowledge-Steady p.qos p.packet_id w4 s4))))

-- ===== src/Broker/Connection/Rounds.antt =====
-- src/broker/mod.rs: a round of the main loop returns, and keeps the shared parts well formed.
use lumen_mq.Prelude.{
  ℕ, ◌≡◌, refl, sym, subst, Bool, Option, some, none, List, [], ◌∷◌, nat_key, list_key, Bool-cases,
  inl, inr,
}
use lumen_mq.Prelude.Result.{Result, ok, err}
use lumen_mq.Utils.{BrokerError}
use lumen_mq.Codec.Packet.{Packet}
use lumen_mq.Broker.Qos.{retry_expired}
use lumen_mq.Broker.Session.Kept.{clear_will-WellFormed}
use lumen_mq.Broker.Router.Leaving.{clear_will-Roomy}
use lumen_mq.Broker.Router.Kept.{Sound}
use lumen_mq.Broker.Connection.{World, Env}
use lumen_mq.Broker.Connection.Subscribing.{next_outbound}
use lumen_mq.Broker.Connection.Handling.{Control}
use lumen_mq.Broker.Connection.Looping.{
  Event, Round, after_goodbye, controlled, send_built, is_keep_alive_expired, leave_cleanly,
  leave_abnormally, forget_will, send_all, after, loop_round,
}
use lumen_mq.Broker.Connection.Steady.{Steady, run_on-Steady, send-Steady}
use lumen_mq.Broker.Connection.Serving.{handle_packet-Steady}
use lumen_mq.Broker.Connection.Soundness.{cleanup-Sound, on_abnormal_disconnect-Sound}

-- A round that returns and leaves the shared parts sound.
abbrev SteadyRound : {F D : Type 0} → Round F D → Type 0
SteadyRound {F} {D} round = (done : Bool × World F D) × (round ≡ some done) × Sound done.1.router

module _ {F D : Type 0} (env : Env F D) where
  leave_cleanly-Steady : (w : World F D) → Sound w.router → SteadyRound (leave_cleanly env w)
  unfolding leave_cleanly
  leave_cleanly-Steady w s =
      (_, refl, cleanup-Sound env.around.now env.disk env.client_id env.epoch env.clean w.router s)

  leave_abnormally-Steady : (w : World F D) → Sound w.router → SteadyRound (leave_abnormally env w)
  unfolding leave_abnormally
  leave_abnormally-Steady w s =
      let (r, e, s') =
        on_abnormal_disconnect-Sound env.around env.disk env.client_id env.epoch env.clean w.router
          s in
      rw (e, leave_abnormally) (_, refl, s')

  after_done :
      {A : Type 0} (done : Result BrokerError A × World F D) (next : A → World F D → Round F D)
      → Sound done.1.router
      → ((a : A) (w : World F D) → Sound w.router → SteadyRound (next a w))
      → SteadyRound (after env (some done) next)
  after_done (ok a, w) next s k = k a w s
  after_done (err e, w) next s k = leave_abnormally-Steady w s

  after-Steady :
      {A : Type 0} (call : Option (Result BrokerError A × World F D))
      (next : A → World F D → Round F D)
      → Steady call
      → ((a : A) (w : World F D) → Sound w.router → SteadyRound (next a w))
      → SteadyRound (after env call next)
  after-Steady call next (done, e, s) k =
      subst (λ c. SteadyRound (after env c next)) (sym e) (after_done done next s k)

  goodbye-Steady :
      (call : Option (Result BrokerError (Unit {0}) × World F D))
      → Steady call
      → SteadyRound (after_goodbye env call)
  goodbye-Steady call (done, e, s) =
      subst (λ c. SteadyRound (after_goodbye env c)) (sym e) (leave_cleanly-Steady done.1 s)

  controlled-Steady :
      (c : Control) (w : World F D) → Sound w.router → SteadyRound (controlled env c w)
  controlled-Steady Control.continues w s = (_, refl, s)
  controlled-Steady Control.disconnects w s = leave_cleanly-Steady (forget_will env w) (record {
    tree = s.tree;
    table = clear_will-WellFormed env.client_id env.epoch w.router.sessions s.table;
    roomy = clear_will-Roomy env.client_id env.epoch w.router.sessions s.roomy;
    retained = s.retained;
  })

  send_all-Steady :
      (packets : List (ℕ × Packet)) (w : World F D)
      → Sound w.router
      → Steady (send_all env packets w)
  unfolding send_all
  send_all-Steady [] w s = (_, refl, s)
  send_all-Steady ((pid, packet) ∷ packets) w s =
      run_on-Steady _ _ (send-Steady env packet w s) (λ x w1 s1. send_all-Steady packets w1 s1)

  built-Steady :
      (built : Option Packet) (w : World F D)
      → Sound w.router
      → SteadyRound (send_built env built w)
  built-Steady none w s = (_, refl, s)
  built-Steady (some packet) w s =
      after-Steady _ _ (send-Steady env packet w s) (λ x w1 s1. (_, refl, s1))

  round-Steady :
      (event : Event) (w : World F D) → Sound w.router → SteadyRound (loop_round env event w)
  unfolding loop_round next_outbound
  round-Steady Event.shuts_down w s = goodbye-Steady _ (send-Steady env Packet.disconnect w s)
  round-Steady Event.beats w s =
      elim (Bool-cases (is_keep_alive_expired env.keep_alive env.around.now w.last_activity)) [
        | inl b ↦ rw (b, loop_round) (leave_abnormally-Steady w s)
        | inr b ↦ rw (b, loop_round) (_, refl, s)
      ]
  round-Steady Event.retries w s =
      after-Steady _ _
        (send_all-Steady
          (retry_expired env.around.now env.retry_timeout env.max_retries
            w.outbound_inflight).to_resend
          _ s)
        (λ x w1 s1. (_, refl, s1))
  round-Steady (Event.receives packet) w s =
      after-Steady _ _ (handle_packet-Steady env packet _ s) controlled-Steady
  round-Steady Event.breaks_codec w s = leave_abnormally-Steady w s
  round-Steady Event.ends w s = leave_abnormally-Steady w s
  round-Steady (Event.delivers req) w s =
      built-Steady (next_outbound env req w).0 (next_outbound env req w).1 s

  -- Whatever happens in a round of the main loop, from well-formed shared parts and queues that have
  -- some capacity: the round returns, and leaves the subscriptions, the sessions and the retained
  -- messages well formed and the queues some capacity.
  pub loop_round-Sound :
      (event : Event) (w : World F D)
      → Sound w.router
      → (goes_on : Bool) × (w' : World F D) × (loop_round env event w ≡ some (goes_on, w'))
        × Sound w'.router
  loop_round-Sound event w s = let (done, e, s') = round-Steady event w s in (done.0, done.1, e, s')

-- ===== src/Broker/Connection/Looping.antt =====
-- src/broker/mod.rs: the main loop of `handle_connection_inner`; src/net/conn_context.rs: the keep-alive
-- test. One round for one event; `select!` chooses among those that are ready, in the code's order.
use lumen_mq.Prelude.{
  ℕ, ◌+◌, ◌-◌, ◌*◌, ◌/◌, Bool, true, false, Option, some, none, List, [], ◌∷◌, if◌then◌else◌, ltb,
  eqb, nat_key,
}
use lumen_mq.Prelude.Result.{Result, ok, err}
use lumen_mq.Utils.{BrokerError}
use lumen_mq.Codec.Packet.{Packet}
use lumen_mq.Broker.Message.{OutboundPublish}
use lumen_mq.Broker.Qos.{retry_expired}
use lumen_mq.Broker.Session.Leave.{clear_will}
use lumen_mq.Broker.Connection.{World, Env, Run, ◌>>◌, pure, send}
use lumen_mq.Broker.Connection.Closing.{cleanup, on_abnormal_disconnect}
use lumen_mq.Broker.Connection.Subscribing.{next_outbound}
use lumen_mq.Broker.Connection.Handling.{Control, handle_packet}

pub data Event : Type 0 where
  shuts_down : Event
  beats : Event
  retries : Event
  receives : Packet → Event
  breaks_codec : Event
  ends : Event
  delivers : OutboundPublish → Event

-- 1.5 times the keep-alive, in whole seconds and one more; no limit at 0.
unfoldable pub is_keep_alive_expired : ℕ → ℕ → ℕ → Bool
is_keep_alive_expired keep_alive now last_activity =
    if eqb keep_alive 0
    then false
    else ltb ((keep_alive * 3 / 2 + 1) * 1000000000) (now - last_activity)

-- Whether the loop goes on, and the state.
abbrev pub Round : Type 0 → Type 0 → Type 0
Round F D = Option (Bool × World F D)

unfoldable pub leave_cleanly : {F D : Type 0} → Env F D → World F D → Round F D
unfolding cleanup
leave_cleanly env w = some (
  false,
  record w { router = cleanup env.around.now env.disk env.client_id env.epoch env.clean w.router },
)

unfoldable pub leave_abnormally : {F D : Type 0} → Env F D → World F D → Round F D
unfolding on_abnormal_disconnect
leave_abnormally env w =
    elim (on_abnormal_disconnect env.around env.disk env.client_id env.epoch env.clean w.router) [
      | none ↦ none
      | some router ↦ some (false, record w { router = router })
    ]

abbrev pub forget_will : {F D : Type 0} → Env F D → World F D → World F D
forget_will env w = record w {
  router = record w.router { sessions = clear_will env.client_id env.epoch w.router.sessions };
}

unfoldable pub send_all : {F D : Type 0} → Env F D → List (ℕ × Packet) → Run F D (Unit {0})
unfolding send
send_all env [] = pure tt
send_all env ((pid, packet) ∷ packets) = send env packet >> send_all env packets

-- The round after a handler: on an error the connection is left.
abbrev pub after :
    {F D A : Type 0}
    → Env F D
    → Option (Result BrokerError A × World F D)
    → (A → World F D → Round F D)
    → Round F D
after env none next = none
after env (some (err e, w)) next = leave_abnormally env w
after env (some (ok a, w)) next = next a w

abbrev pub go_on : {F D : Type 0} → World F D → Round F D
go_on w = some (true, w)

abbrev pub controlled : {F D : Type 0} → Env F D → Control → World F D → Round F D
controlled env Control.continues w = go_on w
controlled env Control.disconnects w = leave_cleanly env (forget_will env w)

abbrev pub send_built : {F D : Type 0} → Env F D → Option Packet → World F D → Round F D
send_built env none w = go_on w
send_built env (some packet) w = after env (send env packet w) (λ _. go_on)

-- The answer to a shutdown may fail to be sent.
abbrev pub after_goodbye :
    {F D : Type 0} → Env F D → Option (Result BrokerError (Unit {0}) × World F D) → Round F D
after_goodbye env none = none
after_goodbye env (some (r, w)) = leave_cleanly env w

unfoldable pub loop_round : {F D : Type 0} → Env F D → Event → World F D → Round F D
unfolding leave_cleanly leave_abnormally clear_will send_all handle_packet next_outbound send
    is_keep_alive_expired retry_expired
loop_round env shuts_down w = after_goodbye env (send env Packet.disconnect w)
loop_round env beats w =
    if is_keep_alive_expired env.keep_alive env.around.now w.last_activity
    then leave_abnormally env w
    else go_on w
loop_round env retries w =
    let retried =
      retry_expired env.around.now env.retry_timeout env.max_retries w.outbound_inflight in
    after env (send_all env retried.to_resend (record w { outbound_inflight = retried.table }))
      (λ _. go_on)
loop_round env (receives packet) w =
    after env (handle_packet env packet (record w { last_activity = env.around.now }))
      (controlled env)
loop_round env breaks_codec w = leave_abnormally env w
loop_round env ends w = leave_abnormally env w
loop_round env (delivers req) w =
    let built = next_outbound env req w in send_built env built.0 built.1

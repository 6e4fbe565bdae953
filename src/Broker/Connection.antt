-- ===== src/Broker/Connection.antt =====
-- src/broker/mod.rs: a connection that has been accepted. Its handlers run on the broker's shared parts
-- and on what the connection keeps; a call here runs as one step, and other connections come between
-- two calls. Log lines and metrics are left out.
pub mod Publishing
pub mod Subscribing
pub mod Closing
pub mod Handling
pub mod Looping
pub mod Opening
pub mod Soundness
pub mod Steady
pub mod Serving
pub mod Rounds
pub mod Loading
pub mod Restored
pub mod Life
pub mod Acks
pub mod Once
pub mod Codes
pub mod Admission
pub mod Takeover
pub mod Undelivered
pub mod Wills
pub mod Examples
use lumen_mq.Prelude.{
  ℕ, Bool, true, false, Option, some, none, List, [], ◌∷◌, ◌++◌, Str, if◌then◌else◌, ltb, length,
}
use lumen_mq.Prelude.Result.{Result, ok, err}
use lumen_mq.Utils.{BrokerError, io}
use lumen_mq.Codec.Packet.{Packet}
use lumen_mq.Broker.Qos.{InflightTable, Seen}
use lumen_mq.Broker.Router.{Router, Around, Disk}
use lumen_mq.Security.Limiter.{Floats}
use lumen_mq.Security.Guard.{SecurityGuard}
use lumen_mq.Plugin.Guard.{PluginGuard}

-- `BrokerState`, with what the connection keeps: its filters, the next packet identifier, the
-- handshakes in both directions, the packets sent, and when the last one came.
pub record World (F D : Type 0) : Type 0 where
  pub router : Router D
  pub security : SecurityGuard F
  pub plugin : PluginGuard
  pub my_filters : List Str
  pub next_pid : ℕ
  pub outbound_inflight : InflightTable
  pub inbound_qos2 : Seen
  pub sent : List Packet
  pub last_activity : ℕ

-- What the connection was opened with, the settings of src/config/settings.rs that the handlers
-- read, and what they find: the peer takes `breaks_after` packets in all, and then sending fails.
pub record Env (F D : Type 0) : Type 0 where
  pub client_id : Str
  pub epoch : ℕ
  pub clean : Bool
  pub max_packet_size : ℕ
  pub max_inflight : ℕ
  pub max_subs : ℕ
  pub retry_timeout : ℕ
  pub max_retries : ℕ
  pub keep_alive : ℕ
  pub around : Around
  pub floats : Floats F
  pub disk : Disk D
  pub breaks_after : ℕ

-- A handler: `none` where a call in it does not return; otherwise its result, and the state, which
-- an error does not undo.
abbrev pub Run : Type 0 → Type 0 → Type 0 → Type 0
Run F D A = World F D → Option (Result BrokerError A × World F D)

abbrev pub run_on :
    {F D A B : Type 0}
    → Option (Result BrokerError A × World F D)
    → (A → Run F D B)
    → Option (Result BrokerError B × World F D)
run_on none f = none
run_on (some (err e, w)) f = some (err e, w)
run_on (some (ok a, w)) f = f a w

infixl 5 ◌>>=◌ ◌>>◌
abbrev pub ◌>>=◌ : {F D A B : Type 0} → Run F D A → (A → Run F D B) → Run F D B
m >>= f = λ w. run_on (m w) f

abbrev pub ◌>>◌ : {F D A B : Type 0} → Run F D A → Run F D B → Run F D B
m >> k = λ w. run_on (m w) (λ _. k)

abbrev pub pure : {F D A : Type 0} → A → Run F D A
pure a = λ w. some (ok a, w)

abbrev pub fail : {F D A : Type 0} → BrokerError → Run F D A
fail e = λ w. some (err e, w)

-- `sink.send`.
unfoldable pub send : {F D : Type 0} → Env F D → Packet → Run F D (Unit {0})
send env packet w =
    if ltb (length w.sent) env.breaks_after
    then some (ok tt, record w { sent = w.sent ++ (packet ∷ []) })
    else some (err (io "broken pipe"), w)

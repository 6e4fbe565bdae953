-- ===== src/Broker/Connection/Opening.antt =====
-- src/broker/mod.rs: a connection from its CONNECT to the main loop. The generator of client ids, the
-- peer's address as a text and the new channel are arguments.
use lumen_mq.Prelude.{
  ℕ, Bool, true, not, ◌&&◌, Option, some, none, List, [], ◌∷◌, Str, if◌then◌else◌, eqb, is_empty,
}
use lumen_mq.Prelude.Result.{Result, ok, err}
use lumen_mq.Utils.{AuthError}
use lumen_mq.Codec.Packet.{
  Packet, Connect, ConnectProperties, LastWill, connack_error, mqtt_3_1_1_level, mqtt_5_level,
}
use lumen_mq.Broker.Message.{OutboundPublish}
use lumen_mq.Broker.Auth.{AuthConfig, AuthIdentity, authenticate}
use lumen_mq.Broker.Session.{Registration, Registered, WillMessage, register}
use lumen_mq.Broker.Router.{Router}
use lumen_mq.Broker.Connection.{Env, Run, ◌>>◌, send}
use lumen_mq.Broker.Connection.Subscribing.{next_outbound}
use lumen_mq.Broker.Connection.Closing.{clear_disk_offline}

-- The return codes of `connack_code`.
abbrev pub auth_code : AuthError → ℕ
auth_code AuthError.bad_credentials = 4
auth_code AuthError.unauthorized_client_id = 2
auth_code AuthError.anonymous_forbidden = 5
auth_code AuthError.too_many_connections = 3

abbrev pub is_supported : ℕ → Bool
is_supported level = if eqb level mqtt_3_1_1_level then true else eqb level mqtt_5_level

-- The client's id, or the one that the broker gives to a clean session without one.
abbrev pub with_id : Str → Connect → Connect
with_id auto c = if is_empty c.client_id then record c { client_id = auto } else c

abbrev authenticated : Connect → Result AuthError AuthIdentity → Result ℕ Connect
authenticated c (ok identity) = ok c
authenticated c (err e) = err (auth_code e)

-- The checks of a CONNECT: the one that is let in, or the code of the refusal.
unfoldable pub screen : AuthConfig → Str → Connect → Result ℕ Connect
unfolding authenticate
screen cfg auto c =
    if not (is_supported c.protocol_level)
    then err 1
    else if is_empty c.client_id && not c.clean_session
    then err 2
    else let c' = with_id auto c in
      authenticated c' (authenticate cfg c'.client_id c'.username c'.password)

abbrev pub will_from : Option LastWill → Option WillMessage
will_from none = none
will_from (some w) =
    some (record { topic = w.topic; message = w.message; qos = w.qos; retain = w.retain })

abbrev expiry_of : Option ConnectProperties → Option ℕ
expiry_of none = none
expiry_of (some p) = p.session_expiry_interval

abbrev pub registration : ℕ → Str → Connect → Registration
registration tx peer c = record {
  client_id = c.client_id;
  clean_session = c.clean_session;
  tx = tx;
  will = will_from c.will;
  protocol_level = c.protocol_level;
  peer_addr = peer;
  session_expiry = expiry_of c.properties;
}

-- The session taken or made, and the CONNACK.
unfoldable pub open_session :
    {D : Type 0} → ℕ → ℕ → Str → Connect → Router D → (Registered × Packet) × Router D
unfolding register
open_session now tx peer c r =
    let registered = register now (registration tx peer c) r.sessions in
    (
      (
        registered.0,
        Packet.connack (record {
          session_present = registered.0.session_present && not c.clean_session;
          return_code = 0;
          protocol_level = c.protocol_level;
        }),
      ),
      record r { sessions = registered.1 },
    )

-- What comes of a CONNECT: the packet that answers it, and, where it is let in, its session.
unfoldable pub answer_connect :
    {D : Type 0}
    → AuthConfig
    → Str
    → ℕ
    → ℕ
    → Str
    → Connect
    → Router D
    → (Packet × Option Registered) × Router D
unfolding screen open_session connack_error
answer_connect cfg auto now tx peer c r = elim (screen cfg auto c) [
  | err code ↦ ((connack_error code, none), r)
  | ok c' ↦ let opened = open_session now tx peer c' r in ((opened.0.1, some opened.0.0), opened.1)
]

-- The messages that were stored while the client was away, with no shutdown and no missed heartbeat
-- between two of them; a message without room in the inflight table is dropped.
unfoldable pub replay_offline : {F D : Type 0} → Env F D → List OutboundPublish → Run F D (Unit {0})
unfolding next_outbound send clear_disk_offline
replay_offline env [] w =
    some (ok tt, record w { router = clear_disk_offline env.disk env.client_id w.router })
replay_offline env (msg ∷ msgs) w =
    let built = next_outbound env msg w in
    let rest = replay_offline env msgs in
    elim built.0 [ none ↦ rest built.1 | some packet ↦ (send env packet >> rest) built.1 ]

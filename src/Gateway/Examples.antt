-- ===== src/Gateway/Examples.antt =====
-- The gateway, run: the tests and the witnesses.
use lumen_mq.Prelude.{
  ℕ, ◌≡◌, inl, inr, ◌-◌, ◌^◌, refl, subst, Bool-cases, true, false, some, List, [], ◌∷◌, Str, Bytes,
  length, list_same, nat_key, list_key, arith, eqb,
}
use lumen_mq.Prelude.Assoc.{lookup}
use lumen_mq.Prelude.Result.{ok}
use lumen_mq.Broker.Topic.Examples.{topic, one_level}
use lumen_mq.Broker.Session.{owns}
use lumen_mq.Broker.Subscription.Examples.{client}
use lumen_mq.Broker.Router.Examples.{no_disk, idle, one_client, one_client-Sound}
use lumen_mq.Gateway.Packet.{SnPacket, rc_congestion, parse_packet, encode_packet, content, framed}
use lumen_mq.Gateway.Frames.{declared_length, parse-encode}
use lumen_mq.Gateway.Client.{SnClient, new_client, assign_topic_id}
use lumen_mq.Gateway.Topics.{Paired, Assigned, assign_topic_id-Assigned}
use lumen_mq.Gateway.Server.{Gateway, SnEnv, answer, handle_sn_connect}
use lumen_mq.Gateway.Handling.{handle, fall_asleep, sweep_clients}
use lumen_mq.Gateway.Keeping.{SoundGateway}
use lumen_mq.Gateway.Routing.{handle-Sound}
use lumen_mq.Gateway.Counter.{sweep-fall_asleep}

-- A UTF-8 decoder for texts that are UTF-8.
abbrev same_text : Bytes → Str
same_text bs = bs

abbrev register_topic : SnPacket
register_topic = SnPacket.register 0 258 7 topic

parse-encode_example :
    (parse_packet same_text (encode_packet register_topic) ≡ ok register_topic)
    × (declared_length (encode_packet register_topic) ≡ length (encode_packet register_topic))
unfolding content
parse-encode_example = parse-encode same_text register_topic refl (omega arith)

encoded : encode_packet register_topic ≡ 10 ∷ 0x0A ∷ 0 ∷ 1 ∷ 2 ∷ 0 ∷ 7 ∷ topic
unfolding encode_packet content framed
encoded = refl

abbrev sensor : SnClient
sensor = new_client 5 client 1 false 60 3

sensor-Paired : Paired sensor
unfolding lookup
sensor-Paired = record {
  there = λ t i h. cc;
  back = λ t i h. cc;
  valid = λ t i h. cc;
  next_valid = omega arith;
}

assign_topic_id-Assigned_example : Assigned topic sensor (assign_topic_id topic sensor)
unfolding lookup
assign_topic_id-Assigned_example =
    assign_topic_id-Assigned topic sensor 1 sensor-Paired (inr (refl, omega arith, omega arith))

abbrev gateway : Gateway (Unit {0})
gateway = record { router = one_client; clients = (3, sensor) ∷ []; connections = 1 }

gateway-SoundGateway : SoundGateway gateway
unfolding lookup
gateway-SoundGateway = record {
  shared = one_client-Sound;
  paired = λ peer c h. elim (Bool-cases (eqb 3 peer)) [
    | inl e ↦ let same : sensor ≡ c = ground (arith, e, h) in subst Paired same sensor-Paired
    | inr e ↦ absurd (ground (arith, e, h))
  ];
}

abbrev surrounding : ℕ → SnEnv (Unit {0})
surrounding now = record {
  around = record idle { now = now };
  disk = no_disk;
  lossy = same_text;
  allow_anonymous = true;
  max_connections = 1000;
  tx = 2;
  peer_addr = [];
}

handle-Sound_example :
    (done : List SnPacket × Gateway (Unit {0})) × (handle
        (surrounding 10)
        3
        (SnPacket.subscribe 32 9 one_level)
        gateway
      ≡ some done)
    × SoundGateway done.1
handle-Sound_example =
    handle-Sound (surrounding 10) 3 (SnPacket.subscribe 32 9 one_level) gateway gateway-SoundGateway
      (omega arith)

sweep-fall_asleep_example :
    let swept = sweep_clients 9000000000 (fall_asleep (surrounding 10) 3 8 gateway) in
    (swept.clients ≡ [])
    × (swept.connections ≡ 2 ^ 64 - 1)
    × (handle_sn_connect (surrounding 9000000000) 4 4 1 60 (b'n' ∷ []) swept
        ≡ answer (SnPacket.connack rc_congestion) swept)
unfolding owns lookup list_same
sweep-fall_asleep_example =
    sweep-fall_asleep (surrounding 10) (surrounding 9000000000) sensor 8 gateway 4 4 60 (b'n' ∷ [])
      refl refl refl (omega arith) (omega arith) refl refl

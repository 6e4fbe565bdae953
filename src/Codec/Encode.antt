-- ===== src/Codec/Encode.antt =====
-- src/codec/v3.rs: the encoder. A writer returns the bytes that it appends; an or of disjoint bits
-- is written as a sum.
use lumen_mq.Prelude.{
  ℕ, ◌+◌, ◌*◌, ◌/◌, ◌%◌, ltb, eqb, List, [], ◌∷◌, ◌++◌, Bytes, Str, if◌then◌else◌, length, bit,
  Bool, true, false, Option, some, none,
}
use lumen_mq.Prelude.Result.{Result, ok, err, ◌>>=◌}
use lumen_mq.Utils.{CodecError, malformed_body, invalid_remaining_length}
use lumen_mq.Codec.Packet.{
  PacketType, Packet, Connect, Connack, Publish, Subscribe, SubscribeTopic, Unsubscribe, LastWill,
  ConnectProperties, packet_type_as_u8, qos_as_u8, mqtt_5_level,
}
use lumen_mq.Codec.Length.{encode_remaining_length}
use lumen_mq.Codec.Connect.{mqtt_name}

abbrev Write : Type 0
Write = Result CodecError Bytes

abbrev pub put_u16 : ℕ → Bytes
put_u16 n = n / 256 % 256 ∷ n % 256 ∷ []

unfoldable pub put_u32 : ℕ → Bytes
put_u32 n = n / 16777216 % 256 ∷ n / 65536 % 256 ∷ n / 256 % 256 ∷ n % 256 ∷ []

unfoldable pub put_string : Str → Write
put_string s =
    if ltb 65535 (length s)
    then err (malformed_body "string too long")
    else ok (put_u16 (length s) ++ s)

unfoldable pub put_binary : Bytes → Write
put_binary b =
    if ltb 65535 (length b)
    then err (malformed_body "binary too long")
    else ok (put_u16 (length b) ++ b)

abbrev pub is_some {ℓ} : {A : Type ℓ} → Option A → Bool
is_some none = false
is_some (some a) = true

unfoldable pub will_flags : Option LastWill → ℕ
unfolding qos_as_u8
will_flags none = 0
will_flags (some w) = 4 + qos_as_u8 w.qos * 8 + bit w.retain * 32

unfoldable pub connect_flags : Connect → ℕ
unfolding will_flags
connect_flags c =
    bit c.clean_session * 2
    + will_flags c.will
    + bit (is_some c.username) * 128
    + bit (is_some c.password) * 64

unfoldable pub props_body : Option ConnectProperties → Bytes
unfolding put_u32
props_body none = []
props_body (some p) = elim p.session_expiry_interval [ none ↦ [] | some sei ↦ 0x11 ∷ put_u32 sei ]

unfoldable pub encode_properties : ℕ → Option ConnectProperties → Bytes
unfolding props_body encode_remaining_length
encode_properties level props =
    if eqb level mqtt_5_level
    then encode_remaining_length (length (props_body props)) ++ props_body props
    else []

unfoldable pub encode_will : ℕ → Option LastWill → Write
unfolding put_string put_binary encode_remaining_length
encode_will level none = ok []
encode_will level (some w) = do
  topic ← put_string w.topic
  message ← put_binary w.message
  ok ((if eqb level mqtt_5_level then encode_remaining_length 0 else []) ++ (topic ++ message))

unfoldable pub encode_username : Option Str → Write
unfolding put_string
encode_username none = ok []
encode_username (some u) = put_string u

unfoldable pub encode_password : Option Bytes → Write
unfolding put_binary
encode_password none = ok []
encode_password (some p) = put_binary p

unfoldable pub encode_connect : Connect → Write
unfolding put_string connect_flags encode_properties encode_will encode_username encode_password
encode_connect c = do
  name ← put_string mqtt_name
  id ← put_string c.client_id
  will ← encode_will c.protocol_level c.will
  username ← encode_username c.username
  password ← encode_password c.password
  ok (
      name
      ++ (c.protocol_level
          ∷ connect_flags c
          ∷ (put_u16 c.keep_alive
              ++ (encode_properties c.protocol_level c.properties
                  ++ (id ++ (will ++ (username ++ password)))))))

unfoldable pub encode_connack : Connack → Bytes
unfolding encode_remaining_length
encode_connack c =
    bit c.session_present
    ∷ c.return_code
    ∷ (if eqb c.protocol_level mqtt_5_level then encode_remaining_length 0 else [])

abbrev pub id_bytes : Option ℕ → Bytes
id_bytes none = []
id_bytes (some id) = put_u16 id

unfoldable pub publish_flags : Publish → ℕ
unfolding qos_as_u8
publish_flags p = bit p.dup * 8 + qos_as_u8 p.qos * 2 + bit p.retain

unfoldable pub encode_publish : Publish → Write
unfolding put_string
encode_publish p = do topic ← put_string p.topic; ok (topic ++ (id_bytes p.packet_id ++ p.payload))

unfoldable pub encode_topics : List SubscribeTopic → Write
unfolding put_string qos_as_u8
encode_topics [] = ok []
encode_topics (t ∷ ts) = do
  topic_filter ← put_string t.topic_filter
  rest ← encode_topics ts
  ok (topic_filter ++ qos_as_u8 t.qos ∷ rest)

unfoldable pub encode_filters : List Str → Write
unfolding put_string
encode_filters [] = ok []
encode_filters (f ∷ fs) = do
  topic_filter ← put_string f
  rest ← encode_filters fs
  ok (topic_filter ++ rest)

unfoldable pub encode_subscribe : Subscribe → Write
unfolding encode_topics
encode_subscribe s = do topics ← encode_topics s.topics; ok (put_u16 s.packet_id ++ topics)

unfoldable pub encode_unsubscribe : Unsubscribe → Write
unfolding encode_filters
encode_unsubscribe u = do
  topic_filters ← encode_filters u.topic_filters
  ok (put_u16 u.packet_id ++ topic_filters)

-- The body with the packet type and the flags of the fixed header.
unfoldable pub encode_packet_body : Packet → Result CodecError (Bytes × PacketType × ℕ)
unfolding encode_connect encode_connack encode_publish publish_flags encode_subscribe
    encode_unsubscribe
encode_packet_body (Packet.connect c) = do b ← encode_connect c; ok (b, PacketType.connect, 0)
encode_packet_body (Packet.connack c) = ok (encode_connack c, PacketType.connack, 0)
encode_packet_body (Packet.publish p) = do
  b ← encode_publish p
  ok (b, PacketType.publish, publish_flags p)
encode_packet_body (Packet.puback id) = ok (put_u16 id, PacketType.puback, 0)
encode_packet_body (Packet.pubrec id) = ok (put_u16 id, PacketType.pubrec, 0)
encode_packet_body (Packet.pubrel id) = ok (put_u16 id, PacketType.pubrel, 2)
encode_packet_body (Packet.pubcomp id) = ok (put_u16 id, PacketType.pubcomp, 0)
encode_packet_body (Packet.subscribe s) = do b ← encode_subscribe s; ok (b, PacketType.subscribe, 2)
encode_packet_body (Packet.suback s) =
    ok (put_u16 s.packet_id ++ s.return_codes, PacketType.suback, 0)
encode_packet_body (Packet.unsubscribe u) = do
  b ← encode_unsubscribe u
  ok (b, PacketType.unsubscribe, 2)
encode_packet_body (Packet.unsuback id) = ok (put_u16 id, PacketType.unsuback, 0)
encode_packet_body Packet.pingreq = ok ([], PacketType.pingreq, 0)
encode_packet_body Packet.pingresp = ok ([], PacketType.pingresp, 0)
encode_packet_body Packet.disconnect = ok ([], PacketType.disconnect, 0)

-- The fixed header before a body.
unfoldable pub frame : Bytes → PacketType → ℕ → Bytes
unfolding packet_type_as_u8 encode_remaining_length
frame body ptype flags =
    (packet_type_as_u8 ptype * 16 + flags % 16) ∷ (encode_remaining_length (length body) ++ body)

-- `Encoder::encode`: the bytes that are appended.
unfoldable pub encode : Packet → Write
unfolding encode_packet_body frame
encode item = do
  (body, ptype, flags) ← encode_packet_body item
  if ltb 0x0fff_ffff (length body)
      then err (invalid_remaining_length (length body))
      else ok (frame body ptype flags)

-- ===== src/Codec/Connect.antt =====
-- src/codec/v3.rs: the parsers of CONNECT and CONNACK.
use lumen_mq.Prelude.{
  ℕ, ◌/◌, ◌%◌, ltb, eqb, [], ◌∷◌, Bytes, Str, if◌then◌else◌, has_bit, ◌||◌, Option, some, none,
  ◌==◌, list_key, nat_key,
}
use lumen_mq.Prelude.Result.{Result, ok, err}
use lumen_mq.Utils.{CodecError, malformed_body, invalid_protocol, unsupported_version}
use lumen_mq.Codec.Packet.{QoS, Packet, LastWill, mqtt_3_1_level, mqtt_3_1_1_level, mqtt_5_level}
use lumen_mq.Codec.Reader.{
  Read, pure, ◌>>=◌, ◌>>◌, remaining, lift, need, read_u8, read_u16, read_string, read_binary,
  read_vbi, skip,
}
use lumen_mq.Codec.Properties.{decode_properties, skip_will_properties}

-- "MQTT" and "MQIsdp".
abbrev pub mqtt_name : Str
mqtt_name = b'M' ∷ b'Q' ∷ b'T' ∷ b'T' ∷ []

abbrev pub mqisdp_name : Str
mqisdp_name = b'M' ∷ b'Q' ∷ b'I' ∷ b's' ∷ b'd' ∷ b'p' ∷ []

unfoldable pub will_qos_of : ℕ → Result CodecError QoS
will_qos_of n =
    if eqb n 0
    then ok QoS.at_most_once
    else if eqb n 1
    then ok QoS.at_least_once
    else if eqb n 2
    then ok QoS.exactly_once
    else err (malformed_body "invalid will qos")

unfoldable pub decode_will : ℕ → ℕ → Read (Option LastWill)
unfolding will_qos_of skip_will_properties
decode_will level flags =
    if has_bit flags 4
    then (do
      will_qos ← lift (will_qos_of (flags / 8 % 4))
      skip_will_properties level
      topic ← read_string
      message ← read_binary
      pure (
          some (record {
            topic = topic;
            message = message;
            qos = will_qos;
            retain = has_bit flags 32;
          })))
    else pure none

unfoldable pub decode_username : ℕ → Read (Option Str)
decode_username flags = if has_bit flags 128 then (do u ← read_string; pure (some u)) else pure none

unfoldable pub decode_password : ℕ → Read (Option Bytes)
decode_password flags = if has_bit flags 64 then (do p ← read_binary; pure (some p)) else pure none

unfoldable pub check_protocol_name : Str → Result CodecError (Unit {0})
check_protocol_name name =
    if name == mqtt_name || name == mqisdp_name
    then ok tt
    else err (invalid_protocol "unknown protocol name")

unfoldable pub check_protocol_level : ℕ → Result CodecError (Unit {0})
check_protocol_level level =
    if eqb level mqtt_3_1_1_level || (eqb level mqtt_3_1_level || eqb level mqtt_5_level)
    then ok tt
    else err (unsupported_version level)

unfoldable pub decode_connect : Read Packet
unfolding check_protocol_name check_protocol_level decode_properties decode_will decode_username
    decode_password
decode_connect = do
  protocol_name ← read_string
  lift (check_protocol_name protocol_name)
  protocol_level ← read_u8
  lift (check_protocol_level protocol_level)
  flags ← read_u8
  keep_alive ← read_u16
  properties ← decode_properties protocol_level
  client_id ← read_string
  will ← decode_will protocol_level flags
  username ← decode_username flags
  password ← decode_password flags
  pure (
      Packet.connect (record {
        protocol_level = protocol_level;
        keep_alive = keep_alive;
        client_id = client_id;
        clean_session = has_bit flags 2;
        will = will;
        username = username;
        password = password;
        properties = properties;
      }))

unfoldable pub connack_level : Read ℕ
connack_level r =
    if ltb 0 (remaining r)
    then (do
      props_len ← read_vbi
      need props_len (malformed_body "connack properties truncated")
      skip props_len
      pure mqtt_5_level)
        r
    else ok (mqtt_3_1_1_level, r)

unfoldable pub decode_connack : Read Packet
unfolding connack_level
decode_connack = do
  flags ← read_u8
  return_code ← read_u8
  level ← connack_level
  pure (
      Packet.connack (record {
        session_present = has_bit flags 1;
        return_code = return_code;
        protocol_level = level;
      }))

-- ===== src/Codec/Packet.antt =====
-- src/codec/packet.rs: packet types, QoS levels and packets.
use lumen_mq.Prelude.{ℕ, Bool, true, false, Option, List, Bytes, Str, if◌then◌else◌, eqb, leb}
use lumen_mq.Prelude.Result.{Result, ok, err}
use lumen_mq.Utils.{CodecError, invalid_packet_type, malformed_body}

pub data PacketType : Type 0 where
  connect connack publish puback pubrec pubrel pubcomp subscribe suback : PacketType
  unsubscribe unsuback pingreq pingresp disconnect : PacketType

unfoldable pub packet_type_as_u8 : PacketType → ℕ
packet_type_as_u8 PacketType.connect = 1
packet_type_as_u8 PacketType.connack = 2
packet_type_as_u8 PacketType.publish = 3
packet_type_as_u8 PacketType.puback = 4
packet_type_as_u8 PacketType.pubrec = 5
packet_type_as_u8 PacketType.pubrel = 6
packet_type_as_u8 PacketType.pubcomp = 7
packet_type_as_u8 PacketType.subscribe = 8
packet_type_as_u8 PacketType.suback = 9
packet_type_as_u8 PacketType.unsubscribe = 10
packet_type_as_u8 PacketType.unsuback = 11
packet_type_as_u8 PacketType.pingreq = 12
packet_type_as_u8 PacketType.pingresp = 13
packet_type_as_u8 PacketType.disconnect = 14

unfoldable pub packet_type_from_u8 : ℕ → Result CodecError PacketType
packet_type_from_u8 v =
    if eqb v 1
    then ok PacketType.connect
    else if eqb v 2
    then ok PacketType.connack
    else if eqb v 3
    then ok PacketType.publish
    else if eqb v 4
    then ok PacketType.puback
    else if eqb v 5
    then ok PacketType.pubrec
    else if eqb v 6
    then ok PacketType.pubrel
    else if eqb v 7
    then ok PacketType.pubcomp
    else if eqb v 8
    then ok PacketType.subscribe
    else if eqb v 9
    then ok PacketType.suback
    else if eqb v 10
    then ok PacketType.unsubscribe
    else if eqb v 11
    then ok PacketType.unsuback
    else if eqb v 12
    then ok PacketType.pingreq
    else if eqb v 13
    then ok PacketType.pingresp
    else if eqb v 14
    then ok PacketType.disconnect
    else err (invalid_packet_type v)

pub data QoS : Type 0 where
  at_most_once at_least_once exactly_once : QoS

unfoldable pub qos_as_u8 : QoS → ℕ
qos_as_u8 at_most_once = 0
qos_as_u8 at_least_once = 1
qos_as_u8 exactly_once = 2

unfoldable pub qos_from_u8 : ℕ → Result CodecError QoS
qos_from_u8 v =
    if eqb v 0
    then ok at_most_once
    else if eqb v 1
    then ok at_least_once
    else if eqb v 2
    then ok exactly_once
    else err (malformed_body "invalid qos")

-- The derived order of the levels.
unfoldable pub qos_le : QoS → QoS → Bool
unfolding qos_as_u8
qos_le a b = leb (qos_as_u8 a) (qos_as_u8 b)

-- `self == QoS::AtMostOnce`.
abbrev pub is_qos0 : QoS → Bool
is_qos0 at_most_once = true
is_qos0 _ = false

abbrev pub mqtt_3_1_level : ℕ
mqtt_3_1_level = 3

abbrev pub mqtt_3_1_1_level : ℕ
mqtt_3_1_1_level = 4

abbrev pub mqtt_5_level : ℕ
mqtt_5_level = 5

pub record ConnectProperties : Type 0 where
  pub session_expiry_interval : Option ℕ

pub record LastWill : Type 0 where
  pub topic : Str
  pub message : Bytes
  pub qos : QoS
  pub retain : Bool

pub record Connect : Type 0 where
  pub protocol_level : ℕ
  pub keep_alive : ℕ
  pub client_id : Str
  pub clean_session : Bool
  pub will : Option LastWill
  pub username : Option Str
  pub password : Option Bytes
  pub properties : Option ConnectProperties

pub record Connack : Type 0 where
  pub session_present : Bool
  pub return_code : ℕ
  pub protocol_level : ℕ

pub record Publish : Type 0 where
  pub dup : Bool
  pub qos : QoS
  pub retain : Bool
  pub topic : Str
  pub packet_id : Option ℕ
  pub payload : Bytes

pub record SubscribeTopic : Type 0 where
  pub topic_filter : Str
  pub qos : QoS

pub record Subscribe : Type 0 where
  pub packet_id : ℕ
  pub topics : List SubscribeTopic

pub record Suback : Type 0 where
  pub packet_id : ℕ
  pub return_codes : List ℕ

pub record Unsubscribe : Type 0 where
  pub packet_id : ℕ
  pub topic_filters : List Str

pub data Packet : Type 0 where
  connect : Connect → Packet
  connack : Connack → Packet
  publish : Publish → Packet
  puback pubrec pubrel pubcomp : ℕ → Packet
  subscribe : Subscribe → Packet
  suback : Suback → Packet
  unsubscribe : Unsubscribe → Packet
  unsuback : ℕ → Packet
  pingreq pingresp disconnect : Packet

unfoldable pub packet_type : Packet → PacketType
packet_type (Packet.connect x) = PacketType.connect
packet_type (Packet.connack x) = PacketType.connack
packet_type (Packet.publish x) = PacketType.publish
packet_type (Packet.puback x) = PacketType.puback
packet_type (Packet.pubrec x) = PacketType.pubrec
packet_type (Packet.pubrel x) = PacketType.pubrel
packet_type (Packet.pubcomp x) = PacketType.pubcomp
packet_type (Packet.subscribe x) = PacketType.subscribe
packet_type (Packet.suback x) = PacketType.suback
packet_type (Packet.unsubscribe x) = PacketType.unsubscribe
packet_type (Packet.unsuback x) = PacketType.unsuback
packet_type Packet.pingreq = PacketType.pingreq
packet_type Packet.pingresp = PacketType.pingresp
packet_type Packet.disconnect = PacketType.disconnect

unfoldable pub accepted : Bool → Connack
accepted present = record { session_present = present; return_code = 0; protocol_level = 4 }

unfoldable pub accepted_5 : Bool → Connack
accepted_5 present = record { session_present = present; return_code = 0; protocol_level = 5 }

unfoldable pub connack_error : ℕ → Packet
connack_error code =
    Packet.connack (record { session_present = false; return_code = code; protocol_level = 4 })

unfoldable pub connack_accepted : Bool → Packet
unfolding accepted
connack_accepted present = Packet.connack (accepted present)

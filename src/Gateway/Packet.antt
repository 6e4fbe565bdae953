-- ===== src/Gateway/Packet.antt =====
-- src/net/mqtt_sn.rs: the packets of MQTT-SN, `parse_packet` and `encode_packet`.
-- `String::from_utf8_lossy` is the standard library's, and an argument.
use lumen_mq.Prelude.{
  ℕ, suc, ◌+◌, ◌*◌, ◌/◌, ◌%◌, ◌^◌, Option, some, none, [], ◌∷◌, ◌++◌, Str, String, Bytes,
  if◌then◌else◌, ltb, leb, eqb, length,
}
use lumen_mq.Prelude.Result.{Result, ok, err}
use lumen_mq.Codec.Packet.{QoS}

pub data SnPacket : Type 0 where
  connect : (flags protocol_id duration : ℕ) → Str → SnPacket
  connack : (return_code : ℕ) → SnPacket
  register : (flags topic_id msg_id : ℕ) → Str → SnPacket
  regack : (flags topic_id msg_id return_code : ℕ) → SnPacket
  publish : (flags topic_id msg_id : ℕ) → Bytes → SnPacket
  puback : (flags topic_id msg_id return_code : ℕ) → SnPacket
  subscribe : (flags msg_id : ℕ) → Bytes → SnPacket
  suback : (flags topic_id msg_id return_code : ℕ) → SnPacket
  unsubscribe : (flags msg_id : ℕ) → Bytes → SnPacket
  unsuback : (msg_id : ℕ) → SnPacket
  pingreq pingresp : SnPacket
  disconnect : Option ℕ → SnPacket
  unknown : (msg_type : ℕ) → SnPacket

abbrev pub rc_accepted : ℕ
rc_accepted = 0

abbrev pub rc_congestion : ℕ
rc_congestion = 1

abbrev pub rc_invalid_topic_id : ℕ
rc_invalid_topic_id = 2

abbrev pub rc_not_supported : ℕ
rc_not_supported = 3

abbrev pub rc_rejected : ℕ
rc_rejected = 255

-- Bits 5 and 6.
unfoldable pub flags_to_qos : ℕ → Result ℕ QoS
flags_to_qos flags =
    let q = flags / 32 % 4 in
    if eqb q 0
    then ok QoS.at_most_once
    else if eqb q 1
    then ok QoS.at_least_once
    else if eqb q 2
    then ok QoS.exactly_once
    else err rc_not_supported

abbrev pub qos_to_flags : QoS → ℕ
qos_to_flags QoS.at_most_once = 0
qos_to_flags QoS.at_least_once = 32
qos_to_flags QoS.exactly_once = 64

-- `u16::from_be_bytes` and `to_be_bytes`.
abbrev pub from_be : ℕ → ℕ → ℕ
from_be hi lo = hi * 256 + lo

abbrev pub to_be : ℕ → Bytes
to_be n = n / 256 ∷ n % 256 ∷ []

-- The bodies by their types.
abbrev pub connect_of : (Bytes → Str) → Bytes → Result String SnPacket
connect_of lossy (flags ∷ protocol_id ∷ d1 ∷ d2 ∷ rest) =
    ok (SnPacket.connect flags protocol_id (from_be d1 d2) (lossy rest))
connect_of lossy _ = err "connect body too short"

abbrev pub connack_of : Bytes → Result String SnPacket
connack_of (code ∷ rest) = ok (SnPacket.connack code)
connack_of [] = err "connack body empty"

abbrev pub register_of : (Bytes → Str) → Bytes → Result String SnPacket
register_of lossy (flags ∷ t1 ∷ t2 ∷ m1 ∷ m2 ∷ rest) =
    ok (SnPacket.register flags (from_be t1 t2) (from_be m1 m2) (lossy rest))
register_of lossy _ = err "register body too short"

abbrev pub publish_of : Bytes → Result String SnPacket
publish_of (flags ∷ t1 ∷ t2 ∷ m1 ∷ m2 ∷ rest) =
    ok (SnPacket.publish flags (from_be t1 t2) (from_be m1 m2) rest)
publish_of _ = err "publish body too short"

-- REGACK, PUBACK and SUBACK.
abbrev pub ack_of : String → (ℕ → ℕ → ℕ → ℕ → SnPacket) → Bytes → Result String SnPacket
ack_of short make (flags ∷ t1 ∷ t2 ∷ m1 ∷ m2 ∷ code ∷ rest) =
    ok (make flags (from_be t1 t2) (from_be m1 m2) code)
ack_of short make _ = err short

-- SUBSCRIBE and UNSUBSCRIBE.
abbrev pub topic_of : String → (ℕ → ℕ → Bytes → SnPacket) → Bytes → Result String SnPacket
topic_of short make (flags ∷ m1 ∷ m2 ∷ rest) = ok (make flags (from_be m1 m2) rest)
topic_of short make _ = err short

abbrev pub unsuback_of : Bytes → Result String SnPacket
unsuback_of (m1 ∷ m2 ∷ rest) = ok (SnPacket.unsuback (from_be m1 m2))
unsuback_of _ = err "unsuback body too short"

abbrev pub disconnect_of : Bytes → Result String SnPacket
disconnect_of (d1 ∷ d2 ∷ rest) = ok (SnPacket.disconnect (some (from_be d1 d2)))
disconnect_of _ = ok (SnPacket.disconnect none)

unfoldable pub parse_body : (Bytes → Str) → ℕ → Bytes → Result String SnPacket
parse_body lossy msg_type body =
    if eqb msg_type 0x04
    then connect_of lossy body
    else if eqb msg_type 0x05
    then connack_of body
    else if eqb msg_type 0x0A
    then register_of lossy body
    else if eqb msg_type 0x0B
    then ack_of "regack body too short" SnPacket.regack body
    else if eqb msg_type 0x0C
    then publish_of body
    else if eqb msg_type 0x0D
    then ack_of "puback body too short" SnPacket.puback body
    else if eqb msg_type 0x11
    then topic_of "subscribe body too short" SnPacket.subscribe body
    else if eqb msg_type 0x12
    then ack_of "suback body too short" SnPacket.suback body
    else if eqb msg_type 0x13
    then topic_of "unsubscribe body too short" SnPacket.unsubscribe body
    else if eqb msg_type 0x14
    then unsuback_of body
    else if eqb msg_type 0x15
    then ok SnPacket.pingreq
    else if eqb msg_type 0x16
    then ok SnPacket.pingresp
    else if eqb msg_type 0x17
    then disconnect_of body
    else ok (SnPacket.unknown msg_type)

abbrev pub parse_header : (Bytes → Str) → Bytes → Result String SnPacket
parse_header lossy [] = err "empty header"
parse_header lossy (msg_type ∷ body) = parse_body lossy msg_type body

-- Behind 0x01: the length in two bytes, and the packet.
abbrev pub parse_long : (Bytes → Str) → ℕ → Bytes → Result String SnPacket
parse_long lossy size (l1 ∷ l2 ∷ b ∷ rest) =
    if ltb size (from_be l1 l2) then err "incomplete long packet" else parse_header lossy (b ∷ rest)
parse_long lossy size _ = err "incomplete long packet"

-- The packet is all that stands behind the length; the length only must not be greater than the size.
unfoldable pub parse_packet : (Bytes → Str) → Bytes → Result String SnPacket
unfolding parse_body
parse_packet lossy [] = err "packet too short"
parse_packet lossy (first ∷ []) = err "packet too short"
parse_packet lossy (first ∷ b ∷ rest) =
    if eqb first 0x01
    then parse_long lossy (suc (suc (length rest))) (b ∷ rest)
    else if ltb (suc (suc (length rest))) first
    then err "incomplete packet"
    else parse_header lossy (b ∷ rest)

abbrev fields : ℕ → ℕ → ℕ → Bytes → Bytes
fields flags topic_id msg_id rest = flags ∷ (to_be topic_id ++ (to_be msg_id ++ rest))

-- What stands behind the length; nothing for the types that the gateway does not send.
unfoldable pub content : SnPacket → Bytes
content (SnPacket.connack code) = 0x05 ∷ code ∷ []
content (SnPacket.regack flags topic_id msg_id code) =
    0x0B ∷ fields flags topic_id msg_id (code ∷ [])
content (SnPacket.suback flags topic_id msg_id code) =
    0x12 ∷ fields flags topic_id msg_id (code ∷ [])
content (SnPacket.puback flags topic_id msg_id code) =
    0x0D ∷ fields flags topic_id msg_id (code ∷ [])
content (SnPacket.unsuback msg_id) = 0x14 ∷ to_be msg_id
content SnPacket.pingresp = 0x16 ∷ []
content (SnPacket.disconnect none) = 0x17 ∷ []
content (SnPacket.disconnect (some d)) = 0x17 ∷ to_be d
content (SnPacket.publish flags topic_id msg_id payload) =
    0x0C ∷ fields flags topic_id msg_id payload
content (SnPacket.register flags topic_id msg_id name) = 0x0A ∷ fields flags topic_id msg_id name
content (SnPacket.connect flags protocol_id duration id) = []
content (SnPacket.subscribe flags msg_id topic) = []
content (SnPacket.unsubscribe flags msg_id topic) = []
content SnPacket.pingreq = []
content (SnPacket.unknown msg_type) = []

-- The length in one byte, or in two behind 0x01, cut to 16 bits.
unfoldable pub framed : Bytes → Bytes
framed [] = []
framed (b ∷ bs) =
    let total = suc (suc (length bs)) in
    if leb total 0xFF then total ∷ b ∷ bs else 0x01 ∷ (to_be ((total + 2) % 2 ^ 16) ++ (b ∷ bs))

unfoldable pub encode_packet : SnPacket → Bytes
unfolding content framed
encode_packet p = framed (content p)

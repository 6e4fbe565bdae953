-- ===== src/Codec/Decode.antt =====
-- src/codec/v3.rs: the parsers of the other packet bodies, and the decoder of a frame.
use lumen_mq.Prelude.{
  ℕ, zero, suc, ◌+◌, ◌/◌, ◌%◌, ltb, eqb, List, [], ◌∷◌, Bytes, if◌then◌else◌, length, take, drop,
  has_bit, Bool, ◌&&◌, Option, some, none, is_empty, list_key, nat_key,
}
use lumen_mq.Prelude.Result.{Result, ok, err}
use lumen_mq.Prelude.Result
use lumen_mq.Utils.{CodecError, malformed_body, invalid_flags, incomplete}
use lumen_mq.Codec.Packet.{
  PacketType, QoS, Packet, SubscribeTopic, packet_type_as_u8, packet_type_from_u8, qos_from_u8,
  is_qos0,
}
use lumen_mq.Codec.Reader.{
  Reader, reader, Read, pure, fail, ◌>>=◌, ◌>>◌, remaining, lift, read_u8, read_u16, read_bytes,
  read_string,
}
use lumen_mq.Codec.Length.{decode_remaining_length}
use lumen_mq.Codec.Connect.{decode_connect, decode_connack}

unfoldable pub validate_packet_id : ℕ → Result CodecError ℕ
validate_packet_id pid =
    if eqb pid 0 then err (malformed_body "packet id must not be zero") else ok pid

unfoldable pub expected_flags : PacketType → Option ℕ
expected_flags PacketType.publish = none
expected_flags PacketType.pubrel = some 2
expected_flags PacketType.subscribe = some 2
expected_flags PacketType.unsubscribe = some 2
expected_flags _ = some 0

unfoldable pub validate_flags : PacketType → ℕ → Result CodecError (Unit {0})
unfolding expected_flags packet_type_as_u8
validate_flags ptype flags = elim (expected_flags ptype) [
  | none ↦ ok tt
  | some expected ↦
      if eqb flags expected then ok tt else err (invalid_flags (packet_type_as_u8 ptype) flags)
]

unfoldable pub decode_packet_id : QoS → Read (Option ℕ)
unfolding validate_packet_id
decode_packet_id qos =
    if is_qos0 qos
    then pure none
    else (do id ← read_u16; pid ← lift (validate_packet_id id); pure (some pid))

unfoldable pub read_all : Read Bytes
read_all r = read_bytes (remaining r) r

unfoldable pub check_dup : QoS → Bool → Result CodecError (Unit {0})
check_dup qos dup =
    if is_qos0 qos && dup then err (malformed_body "DUP=1 is invalid for QoS0 PUBLISH") else ok tt

unfoldable pub decode_publish : ℕ → Read Packet
unfolding qos_from_u8 check_dup decode_packet_id read_all
decode_publish flags = do
  qos ← lift (qos_from_u8 (flags / 2 % 4))
  lift (check_dup qos (has_bit flags 8))
  topic ← read_string
  packet_id ← decode_packet_id qos
  payload ← read_all
  pure (
      Packet.publish (record {
        dup = has_bit flags 8;
        qos = qos;
        retain = has_bit flags 1;
        topic = topic;
        packet_id = packet_id;
        payload = payload;
      }))

unfoldable pub read_topic : Read SubscribeTopic
unfolding qos_from_u8
read_topic = do
  topic_filter ← read_string
  qos_byte ← read_u8
  qos ← lift (qos_from_u8 (qos_byte % 4))
  pure (record { topic_filter = topic_filter; qos = qos })

-- `while r.remaining() > 0`, with an element that reads at least one byte.
unfoldable pub read_many : {A : Type 0} → Read A → ℕ → Read (List A)
read_many read zero r = if ltb 0 (remaining r) then err incomplete else ok ([], r)
read_many read (suc fuel) r =
    let more = (do a ← read; rest ← read_many read fuel; pure (a ∷ rest)) r in
    if ltb 0 (remaining r) then more else ok ([], r)

unfoldable pub read_to_end : {A : Type 0} → Read A → Read (List A)
unfolding read_many
read_to_end read r = read_many read (remaining r) r

unfoldable pub read_packet_id : Read ℕ
unfolding validate_packet_id
read_packet_id = do id ← read_u16; lift (validate_packet_id id)

unfoldable pub decode_subscribe : Read Packet
unfolding read_packet_id read_topic read_to_end
decode_subscribe = do
  packet_id ← read_packet_id
  topics ← read_to_end read_topic
  if is_empty topics
      then fail (malformed_body "subscribe with no topic")
      else pure (Packet.subscribe (record { packet_id = packet_id; topics = topics }))

unfoldable pub decode_suback : Read Packet
unfolding read_packet_id read_to_end
decode_suback = do
  packet_id ← read_packet_id
  return_codes ← read_to_end read_u8
  pure (Packet.suback (record { packet_id = packet_id; return_codes = return_codes }))

unfoldable pub decode_unsubscribe : Read Packet
unfolding read_packet_id read_to_end
decode_unsubscribe = do
  packet_id ← read_packet_id
  topic_filters ← read_to_end read_string
  if is_empty topic_filters
      then fail (malformed_body "unsubscribe with no topic")
      else pure
          (Packet.unsubscribe (record { packet_id = packet_id; topic_filters = topic_filters }))

-- The parser for a packet type; flags are checked where the source checks them.
unfoldable pub decode_body : PacketType → ℕ → Read Packet
unfolding decode_connect decode_connack decode_publish decode_subscribe decode_suback
    decode_unsubscribe read_packet_id validate_flags
decode_body PacketType.connect flags = decode_connect
decode_body PacketType.connack flags = decode_connack
decode_body PacketType.publish flags = decode_publish flags
decode_body PacketType.puback flags = do id ← read_packet_id; pure (Packet.puback id)
decode_body PacketType.pubrec flags = do id ← read_packet_id; pure (Packet.pubrec id)
decode_body PacketType.pubrel flags = do
  lift (validate_flags PacketType.pubrel flags)
  id ← read_packet_id
  pure (Packet.pubrel id)
decode_body PacketType.pubcomp flags = do id ← read_packet_id; pure (Packet.pubcomp id)
decode_body PacketType.subscribe flags = do
  lift (validate_flags PacketType.subscribe flags)
  decode_subscribe
decode_body PacketType.suback flags = decode_suback
decode_body PacketType.unsubscribe flags = do
  lift (validate_flags PacketType.unsubscribe flags)
  decode_unsubscribe
decode_body PacketType.unsuback flags = do id ← read_packet_id; pure (Packet.unsuback id)
decode_body PacketType.pingreq flags = do
  lift (validate_flags PacketType.pingreq flags)
  pure Packet.pingreq
decode_body PacketType.pingresp flags = do
  lift (validate_flags PacketType.pingresp flags)
  pure Packet.pingresp
decode_body PacketType.disconnect flags = do
  lift (validate_flags PacketType.disconnect flags)
  pure Packet.disconnect

-- The packet of a body; what the parser leaves unread is dropped.
abbrev pub parsed : Result CodecError (Packet × Reader) → Result CodecError Packet
parsed (ok (p, r)) = ok p
parsed (err e) = err e

unfoldable pub decode_packet : ℕ → Bytes → Result CodecError Packet
unfolding packet_type_from_u8 decode_body
decode_packet first payload =
    Result.◌>>=◌ (packet_type_from_u8 (first / 16))
      λ ptype. parsed (decode_body ptype (first % 16) (reader 0 payload))

abbrev pub head_byte : Bytes → ℕ
head_byte [] = 0
head_byte (b ∷ bs) = b

-- What `decode` does once the length is known: the frame is split off, the rest stays.
unfoldable pub decode_frame :
    ℕ → Bytes → Option (ℕ × ℕ) → Result CodecError (Option (Packet × Bytes))
unfolding decode_packet
decode_frame max_packet_size src none = ok none
decode_frame max_packet_size src (some (remaining_len, header_len)) =
    let total = header_len + remaining_len in
    if ltb max_packet_size total
    then err (malformed_body "packet length exceeds max")
    else if ltb (length src) total
    then ok none
    else Result.◌>>=◌ (decode_packet (head_byte src) (drop header_len (take total src)))
        λ p. ok (some (p, drop total src))

-- `Decoder::decode`: `none` where the buffer does not hold a whole packet yet.
unfoldable pub decode : ℕ → Bytes → Result CodecError (Option (Packet × Bytes))
unfolding decode_frame decode_remaining_length
decode max_packet_size src =
    if ltb (length src) 2
    then ok none
    else Result.◌>>=◌ (decode_remaining_length src) (decode_frame max_packet_size src)

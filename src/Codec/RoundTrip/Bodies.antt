-- ===== src/Codec/RoundTrip/Bodies.antt =====
-- src/codec/v3.rs: each packet body, written and read.
use lumen_mq.Prelude.{
  ℕ, ◌+◌, ◌/◌, ◌%◌, ◌<◌, ◌≡◌, ◌≢◌, ◌⊎◌, inl, inr, refl, List, [], ◌∷◌, ◌++◌, Bytes, arith, length,
  is_utf8, true, false, Bool, Option, some, none, append-nil, All, if◌then◌else◌, has_bit, is_empty,
}
use lumen_mq.Prelude.Result.{ok}
use lumen_mq.Utils.{CodecError}
use lumen_mq.Codec.Packet.{
  QoS, at_most_once, at_least_once, exactly_once, Packet, Connack, Publish, Subscribe, Suback,
  Unsubscribe, qos_as_u8, qos_from_u8,
}
use lumen_mq.Codec.Reader.{pure, fail, ◌>>=◌, read_u8, read_bytes, read_vbi, skip}
use lumen_mq.Codec.Connect.{decode_connack, connack_level}
use lumen_mq.Codec.Decode.{
  validate_packet_id, check_dup, decode_packet_id, read_all, decode_publish, read_packet_id,
  decode_subscribe, decode_suback, decode_unsubscribe,
}
use lumen_mq.Codec.Length.{encode_remaining_length}
use lumen_mq.Codec.Encode.{
  put_u16, put_string, id_bytes, publish_flags, encode_connack, encode_publish, encode_subscribe,
  encode_unsubscribe, encode_topics, encode_filters,
}
use lumen_mq.Codec.RoundTrip.Reads.{read_bytes-append}
use lumen_mq.Codec.RoundTrip.Chain.{
  one_ok, Reads, Ends, Reads-bind, Ends-bind, Ends-of_Reads, Ends-last, Reads-pure, Reads-pure_eq,
  Reads-lift, read_u16-Reads, read_string-Reads,
}
use lumen_mq.Codec.RoundTrip.Lists.{read_to_end-Ends, codes-Writes, filters-Writes, topics-Writes}
use lumen_mq.Codec.RoundTrip.Connect.{IsConnect}

-- An identifier that is in use: a u16 that is not zero.
abbrev pub IsId : ℕ → Type 0
IsId n = (0 < n) × (n < 65536)

abbrev pub IdFits : QoS → Option ℕ → Type 0
IdFits at_most_once none = Unit
IdFits at_most_once (some id) = ⊥
IdFits _ none = ⊥
IdFits _ (some id) = IsId id

pub record IsPublish (p : Publish) : Type 0 where
  pub topic_utf8 : is_utf8 p.topic ≡ true
  pub id_fits : IdFits p.qos p.packet_id
  pub dup_fits : p.dup ≡ true → p.qos ≢ at_most_once

pub record IsSubscribe (s : Subscribe) : Type 0 where
  pub id : IsId s.packet_id
  pub some_topic : s.topics ≢ []
  pub topics_utf8 : All (λ t. is_utf8 t.topic_filter ≡ true) s.topics

pub record IsUnsubscribe (u : Unsubscribe) : Type 0 where
  pub id : IsId u.packet_id
  pub some_topic : u.topic_filters ≢ []
  pub filters_utf8 : All (λ f. is_utf8 f ≡ true) u.topic_filters

-- The packets that the protocol allows, by the types of their fields and the rules on identifiers,
-- DUP and topics.
abbrev pub IsPacket : Packet → Type 0
IsPacket (Packet.connect c) = IsConnect c
IsPacket (Packet.connack c) = (c.protocol_level ≡ 4) ⊎ (c.protocol_level ≡ 5)
IsPacket (Packet.publish p) = IsPublish p
IsPacket (Packet.puback id) = IsId id
IsPacket (Packet.pubrec id) = IsId id
IsPacket (Packet.pubrel id) = IsId id
IsPacket (Packet.pubcomp id) = IsId id
IsPacket (Packet.subscribe s) = IsSubscribe s
IsPacket (Packet.suback s) = IsId s.packet_id
IsPacket (Packet.unsubscribe u) = IsUnsubscribe u
IsPacket (Packet.unsuback id) = IsId id
IsPacket Packet.pingreq = Unit
IsPacket Packet.pingresp = Unit
IsPacket Packet.disconnect = Unit

validate_packet_id-ok : (id : ℕ) → IsId id → validate_packet_id id ≡ ok id
unfolding validate_packet_id
validate_packet_id-ok id h = ground arith

read_packet_id-Reads : (id : ℕ) → IsId id → Reads read_packet_id (put_u16 id) id
unfolding read_packet_id
read_packet_id-Reads id h =
    Reads-bind _ {cs = []} (read_u16-Reads id h.1) (Reads-lift (validate_packet_id-ok id h))

-- A body that is one identifier.
pub id-Ends :
    (make : ℕ → Packet) (id : ℕ)
    → IsId id
    → Ends (do i ← read_packet_id; pure (make i)) (put_u16 id) (make id)
id-Ends make id h =
    Ends-of_Reads (Reads-bind _ {cs = []} (read_packet_id-Reads id h) (Reads-pure (make id)))

pub connack-Ends :
    (c : Connack)
    → (c.protocol_level ≡ 4) ⊎ (c.protocol_level ≡ 5)
    → Ends decode_connack (encode_connack c) (Packet.connack c)
unfolding decode_connack connack_level encode_connack encode_remaining_length read_u8 read_vbi
    read_bytes skip has_bit
connack-Ends c (inl h) = record { run = λ p. (p + 2, ground arith) }
connack-Ends c (inr h) = record { run = λ p. (p + 3, ground arith) }

pub publish_flags-parts :
    (p : Publish)
    → (publish_flags p < 16)
      × (qos_from_u8 (publish_flags p / 2 % 4) ≡ ok p.qos)
      × (has_bit (publish_flags p) 8 ≡ p.dup)
      × (has_bit (publish_flags p) 1 ≡ p.retain)
unfolding publish_flags qos_as_u8 qos_from_u8 has_bit
publish_flags-parts p = ground arith

decode_packet_id-Reads :
    (q : QoS) (id : Option ℕ) → IdFits q id → Reads (decode_packet_id q) (id_bytes id) id
unfolding decode_packet_id
decode_packet_id-Reads at_most_once none h = Reads-pure none
decode_packet_id-Reads at_most_once (some id) h = absurd h
decode_packet_id-Reads at_least_once none h = absurd h
decode_packet_id-Reads at_least_once (some id) h =
    Reads-bind _ {cs = []} (read_u16-Reads id h.1)
      (Reads-bind _ {cs = []} (Reads-lift (validate_packet_id-ok id h)) (Reads-pure (some id)))
decode_packet_id-Reads exactly_once none h = absurd h
decode_packet_id-Reads exactly_once (some id) h =
    Reads-bind _ {cs = []} (read_u16-Reads id h.1)
      (Reads-bind _ {cs = []} (Reads-lift (validate_packet_id-ok id h)) (Reads-pure (some id)))

read_all-Ends : (bs : Bytes) → Ends read_all bs bs
unfolding read_all
read_all-Ends bs = record {
  run = λ p. (p + length bs, rw append-nil at (read_bytes-append p bs []));
}

check_dup-ok : (q : QoS) (d : Bool) → (d ≡ true → q ≢ at_most_once) → check_dup q d ≡ ok tt
unfolding check_dup
check_dup-ok at_most_once true h = absurd (h refl refl)
check_dup-ok at_most_once false h = refl
check_dup-ok at_least_once d h = refl
check_dup-ok exactly_once d h = refl

pub publish-Ends :
    (p : Publish) (out : Bytes)
    → IsPublish p
    → encode_publish p ≡ ok out
    → Ends (decode_publish (publish_flags p)) out (Packet.publish p)
unfolding decode_publish encode_publish
publish-Ends p out v e =
    let (lt, fq, fd, fr) = publish_flags-parts p in
    let dup : check_dup p.qos (has_bit (publish_flags p) 8) ≡ ok tt =
      rw fd (check_dup-ok p.qos p.dup v.dup_fits) in
    let (t, et, o) =
      one_ok (put_string p.topic) (λ t. t ++ (id_bytes p.packet_id ++ p.payload)) out e in
    rw o (
      Ends-bind _ {bs = []} (Reads-lift fq) (
        Ends-bind _ {bs = []} (Reads-lift dup) (
          Ends-bind _ (read_string-Reads p.topic t et v.topic_utf8) (
            Ends-bind _ (decode_packet_id-Reads p.qos p.packet_id v.id_fits)
              (Ends-last _ (read_all-Ends p.payload) (Reads-pure_eq (rw (fd, fr))))))))

not_empty : {A : Type 0} (xs : List A) → xs ≢ [] → is_empty xs ≡ false
not_empty [] h = absurd (h refl)
not_empty (x ∷ xs) h = refl

-- The last step of a body with a list, which must not be empty.
guarded :
    {A : Type 0} (xs : List A) (e : CodecError) (make : List A → Packet)
    → xs ≢ []
    → Reads (if is_empty xs then fail e else pure (make xs)) [] (make xs)
guarded xs e make h = rw (not_empty xs h) (Reads-pure (make xs))

pub subscribe-Ends :
    (s : Subscribe) (out : Bytes)
    → IsSubscribe s
    → encode_subscribe s ≡ ok out
    → Ends decode_subscribe out (Packet.subscribe s)
unfolding decode_subscribe encode_subscribe
subscribe-Ends s out v e =
    let (t, et, o) = one_ok (encode_topics s.topics) (λ t. put_u16 s.packet_id ++ t) out e in
    rw o (
      Ends-bind _ (read_packet_id-Reads s.packet_id v.id) (
        Ends-last _ (read_to_end-Ends (topics-Writes s.topics t v.topics_utf8 et)) (
          guarded s.topics _
            (λ ts. Packet.subscribe (record { packet_id = s.packet_id; topics = ts }))
            v.some_topic)))

pub unsubscribe-Ends :
    (u : Unsubscribe) (out : Bytes)
    → IsUnsubscribe u
    → encode_unsubscribe u ≡ ok out
    → Ends decode_unsubscribe out (Packet.unsubscribe u)
unfolding decode_unsubscribe encode_unsubscribe
unsubscribe-Ends u out v e =
    let (t, et, o) =
      one_ok (encode_filters u.topic_filters) (λ t. put_u16 u.packet_id ++ t) out e in
    rw o (
      Ends-bind _ (read_packet_id-Reads u.packet_id v.id) (
        Ends-last _ (read_to_end-Ends (filters-Writes u.topic_filters t v.filters_utf8 et)) (
          guarded u.topic_filters _
            (λ fs. Packet.unsubscribe (record { packet_id = u.packet_id; topic_filters = fs }))
            v.some_topic)))

pub suback-Ends :
    (s : Suback)
    → IsId s.packet_id
    → Ends decode_suback (put_u16 s.packet_id ++ s.return_codes) (Packet.suback s)
unfolding decode_suback
suback-Ends s h =
    Ends-bind _ (read_packet_id-Reads s.packet_id h)
      (Ends-last _ (read_to_end-Ends (codes-Writes s.return_codes)) (Reads-pure (Packet.suback s)))

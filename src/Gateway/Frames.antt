-- ===== src/Gateway/Frames.antt =====
-- src/net/mqtt_sn.rs: what the gateway encodes is parsed again as it was, with its length in front.
use lumen_mq.Prelude.{
  ℕ, suc, ◌+◌, ◌/◌, ◌%◌, ◌^◌, ◌≡◌, ◌≢◌, ◌<◌, refl, ◌∙◌, true, some, none, [], ◌∷◌, Str, Bytes,
  if◌then◌else◌, leb, eqb, length, arith, Bool-cases, inl, inr,
}
use lumen_mq.Prelude.Result.{ok}
use lumen_mq.Gateway.Packet.{
  SnPacket, parse_body, parse_header, parse_packet, content, framed, encode_packet, from_be,
}

-- The length that stands in front of a packet.
abbrev pub declared_length : Bytes → ℕ
declared_length [] = 0
declared_length (first ∷ []) = first
declared_length (first ∷ b ∷ []) = first
declared_length (first ∷ l1 ∷ l2 ∷ rest) = if eqb first 0x01 then from_be l1 l2 else first

-- The gateway sends packets of this type, and their text survives the decoding of UTF-8.
abbrev pub Sendable : (Bytes → Str) → SnPacket → Type 0
Sendable lossy (SnPacket.connect flags protocol_id duration id) = ⊥
Sendable lossy (SnPacket.subscribe flags msg_id topic) = ⊥
Sendable lossy (SnPacket.unsubscribe flags msg_id topic) = ⊥
Sendable lossy SnPacket.pingreq = ⊥
Sendable lossy (SnPacket.unknown msg_type) = ⊥
Sendable lossy (SnPacket.register flags topic_id msg_id name) = lossy name ≡ name
Sendable lossy _ = Unit

be_lem : (n : ℕ) → from_be (n / 256) (n % 256) ≡ n
be_lem n = omega arith

parse-content :
    (lossy : Bytes → Str) (p : SnPacket) → Sendable lossy p → parse_header lossy (content p) ≡ ok p
unfolding parse_body content
parse-content lossy (SnPacket.connack code) h = refl
parse-content lossy (SnPacket.register flags topic_id msg_id name) h =
    rw (be_lem topic_id, be_lem msg_id, h) refl
parse-content lossy (SnPacket.regack flags topic_id msg_id code) h =
    rw (be_lem topic_id, be_lem msg_id) refl
parse-content lossy (SnPacket.publish flags topic_id msg_id payload) h =
    rw (be_lem topic_id, be_lem msg_id) refl
parse-content lossy (SnPacket.puback flags topic_id msg_id code) h =
    rw (be_lem topic_id, be_lem msg_id) refl
parse-content lossy (SnPacket.suback flags topic_id msg_id code) h =
    rw (be_lem topic_id, be_lem msg_id) refl
parse-content lossy (SnPacket.unsuback msg_id) h = rw (be_lem msg_id) refl
parse-content lossy SnPacket.pingresp h = refl
parse-content lossy (SnPacket.disconnect none) h = refl
parse-content lossy (SnPacket.disconnect (some d)) h = rw (be_lem d) refl
parse-content lossy (SnPacket.connect flags protocol_id duration id) h = absurd h
parse-content lossy (SnPacket.subscribe flags msg_id topic) h = absurd h
parse-content lossy (SnPacket.unsubscribe flags msg_id topic) h = absurd h
parse-content lossy SnPacket.pingreq h = absurd h
parse-content lossy (SnPacket.unknown msg_type) h = absurd h

short_lem :
    (b : ℕ) (bs : Bytes)
    → leb (suc (suc (length bs))) 0xFF ≡ true
    → declared_length (framed (b ∷ bs)) ≡ length (framed (b ∷ bs))
unfolding framed
short_lem b [] e = ground (arith, e)
short_lem b (c ∷ bs) e = ground (arith, e)

-- The frame of some content is taken off again.
framed_lem :
    (lossy : Bytes → Str) (bs : Bytes)
    → bs ≢ []
    → length bs + 3 < 2 ^ 16
    → (parse_packet lossy (framed bs) ≡ parse_header lossy bs)
      × (declared_length (framed bs) ≡ length (framed bs))
unfolding parse_packet framed
framed_lem lossy [] h small = absurd (h refl)
framed_lem lossy (b ∷ bs) h small = elim (Bool-cases (leb (suc (suc (length bs))) 0xFF)) [
  | inl e ↦ (ground (arith, e), short_lem b bs e)
  | inr e ↦ (ground (arith, e, small), ground (arith, e, small))
]

-- Such a packet has some content: without any, the header would be refused.
content-cases : (lossy : Bytes → Str) (p : SnPacket) → Sendable lossy p → content p ≢ []
content-cases lossy p h e = ground (arith, parse-content lossy p h, e)

-- A packet of a type that the gateway sends, short enough for the length field and with a text that
-- survives the decoding of UTF-8, is parsed from its encoding as it was, and the length in front of
-- the encoding is the encoding's.
pub parse-encode :
    (lossy : Bytes → Str) (p : SnPacket)
    → Sendable lossy p
    → length (content p) + 3 < 2 ^ 16
    → (parse_packet lossy (encode_packet p) ≡ ok p)
      × (declared_length (encode_packet p) ≡ length (encode_packet p))
unfolding encode_packet
parse-encode lossy p h small =
    let (taken, size) = framed_lem lossy (content p) (content-cases lossy p h) small in
    (taken ∙ parse-content lossy p h, size)

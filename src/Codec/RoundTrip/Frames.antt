-- ===== src/Codec/RoundTrip/Frames.antt =====
-- src/codec/v3.rs: the body of any packet with its type and flags, and the whole frame.
use lumen_mq.Prelude.{
  ℕ, ◌+◌, ◌*◌, ◌/◌, ◌%◌, ◌≤◌, ◌<◌, ◌≡◌, inl, inr, refl, sym, ◌∷◌, ◌++◌, Bytes, arith, length, some,
  ltb, if◌then◌else◌, le→ltb, length-append, append_assoc, Bool-cases, ltb→le, take-append,
  drop-append,
}
use lumen_mq.Prelude.Result
use lumen_mq.Prelude.Result.{Result, ok, err, ok-injective}
use lumen_mq.Utils.{CodecError, invalid_remaining_length}
use lumen_mq.Codec.Packet.{Packet, PacketType, packet_type_as_u8, packet_type_from_u8}
use lumen_mq.Codec.Decode.{validate_flags, decode_body, decode_packet, decode_frame, decode}
use lumen_mq.Codec.Length.{encode_remaining_length}
use lumen_mq.Codec.RoundTrip.Lengths.{decode-encode_length, length-encode_le}
use lumen_mq.Codec.Encode.{
  encode_publish, encode_connect, encode_subscribe, encode_unsubscribe, encode_packet_body, frame,
  encode,
}
use lumen_mq.Codec.RoundTrip.Chain.{Ends, Ends-of_Reads, Ends-flags, Reads-pure}
use lumen_mq.Codec.RoundTrip.Connect.{decode_connect-Reads}
use lumen_mq.Codec.RoundTrip.Bodies.{
  IsPacket, id-Ends, connack-Ends, publish_flags-parts, publish-Ends, subscribe-Ends,
  unsubscribe-Ends, suback-Ends,
}

-- The type and the flags that go with a body.
pub record Decodes (p : Packet) (body : Bytes) (ptype : PacketType) (flags : ℕ) : Type 0 where
  pub flags_lt : flags < 16
  pub reads : Ends (decode_body ptype flags) body p

abbrev Good : Packet → Result CodecError (Bytes × PacketType × ℕ) → Type 0
Good p (ok (body, ptype, flags)) = Decodes p body ptype flags
Good p (err e) = Unit

Good-bind :
    (p : Packet) (m : Result CodecError Bytes) (ptype : PacketType) (flags : ℕ)
    → ((b : Bytes) → m ≡ ok b → Decodes p b ptype flags)
    → Good p (Result.◌>>=◌ m λ b. ok (b, ptype, flags))
Good-bind p (ok b) ptype flags k = k b refl
Good-bind p (err e) ptype flags k = tt

flags-pubrel : validate_flags PacketType.pubrel 2 ≡ ok tt
unfolding validate_flags
flags-pubrel = refl

flags-subscribe : validate_flags PacketType.subscribe 2 ≡ ok tt
unfolding validate_flags
flags-subscribe = refl

flags-unsubscribe : validate_flags PacketType.unsubscribe 2 ≡ ok tt
unfolding validate_flags
flags-unsubscribe = refl

flags-pingreq : validate_flags PacketType.pingreq 0 ≡ ok tt
unfolding validate_flags
flags-pingreq = refl

flags-pingresp : validate_flags PacketType.pingresp 0 ≡ ok tt
unfolding validate_flags
flags-pingresp = refl

flags-disconnect : validate_flags PacketType.disconnect 0 ≡ ok tt
unfolding validate_flags
flags-disconnect = refl

-- Whatever the encoder writes as the body of an allowed packet, `decode_body` reads as the packet.
pub encode_packet_body-Good : (p : Packet) → IsPacket p → Good p (encode_packet_body p)
unfolding encode_packet_body decode_body
encode_packet_body-Good (Packet.connect c) v =
    Good-bind _ (encode_connect c) _ _
      λ b e. record { flags_lt = omega arith; reads = Ends-of_Reads (decode_connect-Reads c b v e) }
encode_packet_body-Good (Packet.connack c) v = record {
  flags_lt = omega arith;
  reads = connack-Ends c v;
}
encode_packet_body-Good (Packet.publish p) v =
    Good-bind _ (encode_publish p) _ _
      λ b e. record { flags_lt = (publish_flags-parts p).0; reads = publish-Ends p b v e }
encode_packet_body-Good (Packet.puback id) v = record {
  flags_lt = omega arith;
  reads = id-Ends Packet.puback id v;
}
encode_packet_body-Good (Packet.pubrec id) v = record {
  flags_lt = omega arith;
  reads = id-Ends Packet.pubrec id v;
}
encode_packet_body-Good (Packet.pubrel id) v = record {
  flags_lt = omega arith;
  reads = Ends-flags flags-pubrel (id-Ends Packet.pubrel id v);
}
encode_packet_body-Good (Packet.pubcomp id) v = record {
  flags_lt = omega arith;
  reads = id-Ends Packet.pubcomp id v;
}
encode_packet_body-Good (Packet.subscribe s) v = Good-bind _ (encode_subscribe s) _ _ λ b e.
    record { flags_lt = omega arith; reads = Ends-flags flags-subscribe (subscribe-Ends s b v e) }
encode_packet_body-Good (Packet.suback s) v = record {
  flags_lt = omega arith;
  reads = suback-Ends s v;
}
encode_packet_body-Good (Packet.unsubscribe u) v = Good-bind _ (encode_unsubscribe u) _ _ λ b e.
    record {
      flags_lt = omega arith;
      reads = Ends-flags flags-unsubscribe (unsubscribe-Ends u b v e);
    }
encode_packet_body-Good (Packet.unsuback id) v = record {
  flags_lt = omega arith;
  reads = id-Ends Packet.unsuback id v;
}
encode_packet_body-Good Packet.pingreq v = record {
  flags_lt = omega arith;
  reads = Ends-flags flags-pingreq (Ends-of_Reads (Reads-pure _));
}
encode_packet_body-Good Packet.pingresp v = record {
  flags_lt = omega arith;
  reads = Ends-flags flags-pingresp (Ends-of_Reads (Reads-pure _));
}
encode_packet_body-Good Packet.disconnect v = record {
  flags_lt = omega arith;
  reads = Ends-flags flags-disconnect (Ends-of_Reads (Reads-pure _));
}

first_byte-type :
    (t : PacketType) (flags : ℕ)
    → flags < 16
    → packet_type_from_u8 ((packet_type_as_u8 t * 16 + flags % 16) / 16) ≡ ok t
unfolding packet_type_from_u8 packet_type_as_u8
first_byte-type t flags h = ground arith

first_byte-flags :
    (t : PacketType) (flags : ℕ) → flags < 16 → (packet_type_as_u8 t * 16 + flags % 16) % 16 ≡ flags
first_byte-flags t flags h = omega arith

decode_packet-encoded :
    (p : Packet) (body : Bytes) (ptype : PacketType) (flags : ℕ)
    → Decodes p body ptype flags
    → decode_packet (packet_type_as_u8 ptype * 16 + flags % 16) body ≡ ok p
unfolding decode_packet
decode_packet-encoded p body ptype flags d =
    let (q, e) = d.reads.run 0 in
    rw (first_byte-type ptype flags d.flags_lt)
      (rw (first_byte-flags ptype flags d.flags_lt) (rw e refl))

-- A frame of a header and a body, whatever follows it.
decode_frame-append :
    (max_packet_size first : ℕ) (len body rest : Bytes) (h n : ℕ) (p : Packet)
    → h ≡ length (first ∷ len)
    → n ≡ length body
    → h + n ≤ max_packet_size
    → decode_packet first body ≡ ok p
    → decode_frame max_packet_size ((first ∷ (len ++ body)) ++ rest) (some (n, h))
      ≡ ok (some (p, rest))
unfolding decode_frame
decode_frame-append m first len body rest h n p eh en fits d = rw (le→ltb m (h + n) fits) (
    rw (le→ltb (length ((first ∷ (len ++ body)) ++ rest)) (h + n) (omega (arith, long, total))) (
      rw total (
        rw (take-append (first ∷ (len ++ body)) rest, drop-append (first ∷ (len ++ body)) rest)
          (rw eh (rw (drop-append (first ∷ len) body) (rw d refl))))))
  where
    total : h + n ≡ length (first ∷ (len ++ body))
    total = omega (arith, length-append len body)

    long : length ((first ∷ (len ++ body)) ++ rest) ≡ length (first ∷ (len ++ body)) + length rest
    long = length-append (first ∷ (len ++ body)) rest

decode-frame :
    (max_packet_size : ℕ) (p : Packet) (body rest : Bytes) (ptype : PacketType) (flags : ℕ)
    → Decodes p body ptype flags
    → length body ≤ 0x0fff_ffff
    → length (frame body ptype flags) ≤ max_packet_size
    → decode max_packet_size (frame body ptype flags ++ rest) ≡ ok (some (p, rest))
unfolding decode frame
decode-frame m p body rest ptype flags d small fits =
    let first = packet_type_as_u8 ptype * 16 + flags % 16 in
    let len = encode_remaining_length (length body) in
    let some_length = length-encode_le (length body) (omega arith) in
    rw
      (le→ltb (length ((first ∷ (len ++ body)) ++ rest)) 2
        (omega (arith, some_length, length-append (len ++ body) rest, length-append len body)))
      (rw append_assoc (
        rw (decode-encode_length first (length body) (body ++ rest) (omega arith)) (
          rw (← append_assoc len body rest) (
            decode_frame-append m first len body rest (1 + length len) (length body) p (omega arith)
              refl (omega (arith, length-append len body))
              (decode_packet-encoded p body ptype flags d)))))

-- What `encode` did where it succeeds.
encode-ok :
    (r : Result CodecError (Bytes × PacketType × ℕ)) (p : Packet) (out : Bytes)
    → Good p r
    → (Result.◌>>=◌ r λ (body, ptype, flags).
        if ltb 0x0fff_ffff (length body)
        then err (invalid_remaining_length (length body))
        else ok (frame body ptype flags))
      ≡ ok out
    → (body : Bytes) × (ptype : PacketType) × (flags : ℕ) × Decodes p body ptype flags
      × (length body ≤ 0x0fff_ffff)
      × (out ≡ frame body ptype flags)
encode-ok (err e) p out g h = cc
encode-ok (ok (body, ptype, flags)) p out g h = elim (Bool-cases (ltb 0x0fff_ffff (length body))) [
  | inl big ↦ absurd (cc (rw big at h))
  | inr small ↦ (body, ptype, flags, g, ltb→le _ _ small, sym (Result.ok-injective (rw small at h)))
]

-- A packet that the protocol allows, once encoded, is decoded to the same packet, whatever bytes
-- follow it, and exactly its own bytes are consumed, where the frame fits the decoder's maximum.
pub decode-encode :
    (max_packet_size : ℕ) (p : Packet) (out rest : Bytes)
    → IsPacket p
    → encode p ≡ ok out
    → length out ≤ max_packet_size
    → decode max_packet_size (out ++ rest) ≡ ok (some (p, rest))
unfolding encode
decode-encode m p out rest v e fits =
    let (body, ptype, flags, d, small, o) =
      encode-ok (encode_packet_body p) p out (encode_packet_body-Good p v) e in
    rw o (decode-frame m p body rest ptype flags d small (rw o at fits))

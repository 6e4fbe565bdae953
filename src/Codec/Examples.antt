-- ===== src/Codec/Examples.antt =====
-- src/codec/: the theorems at concrete packets, and runs of the codec.
use lumen_mq.Prelude.{◌≡◌, refl, true, false, some, none, [], ◌∷◌, ◌++◌, Bytes, arith, is_utf8}
use lumen_mq.Prelude.Result.{ok, err}
use lumen_mq.Utils.{invalid_flags}
use lumen_mq.Codec.Packet.{Packet, Publish, Connect, exactly_once, at_least_once}
use lumen_mq.Codec.Reader.{read_u16}
use lumen_mq.Codec.Decode.{decode}
use lumen_mq.Codec.Encode.{encode}
use lumen_mq.Codec.RoundTrip.Bodies.{IsPublish}
use lumen_mq.Codec.RoundTrip.Frames.{decode-encode}

abbrev topic_ab : Bytes
topic_ab = b'a' ∷ b'/' ∷ b'b' ∷ []

abbrev sample_publish : Publish
sample_publish = record {
  dup = true;
  qos = exactly_once;
  retain = false;
  topic = topic_ab;
  packet_id = some 513;
  payload = 1 ∷ 2 ∷ 3 ∷ [];
}

abbrev publish_bytes : Bytes
publish_bytes = 0x3c ∷ 10 ∷ 0 ∷ 3 ∷ b'a' ∷ b'/' ∷ b'b' ∷ 2 ∷ 1 ∷ 1 ∷ 2 ∷ 3 ∷ []

publish_written : encode (Packet.publish sample_publish) ≡ ok publish_bytes
unfolding encode
publish_written = refl

sample_publish-IsPublish : IsPublish sample_publish
unfolding is_utf8
sample_publish-IsPublish = record {
  topic_utf8 = refl;
  id_fits = (omega arith, omega arith);
  dup_fits = λ _ e. cc;
}

decode-encode_example :
    decode 100 (publish_bytes ++ 0xc0 ∷ 0 ∷ [])
    ≡ ok (some (Packet.publish sample_publish, 0xc0 ∷ 0 ∷ []))
decode-encode_example =
    decode-encode 100 (Packet.publish sample_publish) publish_bytes (0xc0 ∷ 0 ∷ [])
      sample_publish-IsPublish publish_written (omega arith)

-- A CONNECT of MQTT 5.0 with a session expiry and a will.
abbrev sample_connect : Connect
sample_connect = record {
  protocol_level = 5;
  keep_alive = 60;
  client_id = b'c' ∷ [];
  clean_session = false;
  will = some (record { topic = topic_ab; message = 9 ∷ []; qos = at_least_once; retain = true });
  username = some (b'u' ∷ []);
  password = none;
  properties = some (record { session_expiry_interval = some 300 });
}

connect_written :
    encode (Packet.connect sample_connect)
    ≡ ok (
        0x10 ∷ 31 ∷ 0 ∷ 4 ∷ b'M' ∷ b'Q' ∷ b'T' ∷ b'T' ∷ 5 ∷ 0xac ∷ 0 ∷ 60 ∷ 5 ∷ 0x11 ∷ 0 ∷ 0 ∷ 1
        ∷ 44 ∷ 0 ∷ 1 ∷ b'c' ∷ 0 ∷ 0 ∷ 3 ∷ b'a' ∷ b'/' ∷ b'b' ∷ 0 ∷ 1 ∷ 9 ∷ 0 ∷ 1 ∷ b'u' ∷ [])
unfolding encode
connect_written = refl

-- A frame that is cut off waits for more bytes; reserved flags are refused on PINGREQ and are not
-- looked at on PUBACK.
cut_off : decode 100 (0x3c ∷ 10 ∷ 0 ∷ 3 ∷ []) ≡ ok none
unfolding decode
cut_off = refl

pingreq_flags : decode 100 (0xc1 ∷ 0 ∷ []) ≡ err (invalid_flags 12 1)
unfolding decode
pingreq_flags = refl

puback_flags : decode 100 (0x4f ∷ 2 ∷ 0 ∷ 7 ∷ []) ≡ ok (some (Packet.puback 7, []))
unfolding decode read_u16
puback_flags = refl

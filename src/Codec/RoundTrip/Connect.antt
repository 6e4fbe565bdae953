-- ===== src/Codec/RoundTrip/Connect.antt =====
-- src/codec/v3.rs: CONNECT and CONNACK, written and read.
use lumen_mq.Prelude.{
  ℕ, ◌/◌, ◌%◌, ◌≤◌, ◌<◌, ◌≡◌, refl, [], ◌∷◌, ◌++◌, Bytes, Str, arith, sym, append-nil, is_utf8,
  list_same, true, Bool, Option, some, none, bit, has_bit, eqb, if◌then◌else◌,
}
use lumen_mq.Prelude.Result.{Result, ok, err, ok-injective, ◌>>=◌}
use lumen_mq.Utils.{CodecError}
use lumen_mq.Codec.Packet.{Packet, QoS, Connect, LastWill, qos_as_u8}
use lumen_mq.Codec.Connect.{
  mqtt_name, decode_connect, decode_will, will_qos_of, decode_username, decode_password,
  check_protocol_name, check_protocol_level,
}
use lumen_mq.Codec.Length.{encode_remaining_length}
use lumen_mq.Codec.RoundTrip.Properties.{
  PropertiesFit, decode_properties-Reads, skip_will_properties-Reads,
}
use lumen_mq.Codec.Encode.{
  encode_will, encode_username, encode_password, encode_connect, encode_properties, put_u16,
  put_string, put_binary, is_some, connect_flags, will_flags,
}
use lumen_mq.Codec.RoundTrip.Chain.{
  Reads, Reads-bind, Reads-pure, Reads-pure_eq, Reads-nothing, Reads-lift, read_u8-Reads,
  read_u16-Reads, read_string-Reads, read_binary-Reads,
}

abbrev AllUtf8 : Option Str → Type 0
AllUtf8 none = Unit
AllUtf8 (some s) = is_utf8 s ≡ true

abbrev WillUtf8 : Option LastWill → Type 0
WillUtf8 none = Unit
WillUtf8 (some w) = is_utf8 w.topic ≡ true

-- What the flags byte says of a will.
abbrev FlagsOf : Option LastWill → ℕ → Type 0
FlagsOf none flags = Unit
FlagsOf (some w) flags = (flags / 8 % 4 ≡ qos_as_u8 w.qos) × (has_bit flags 32 ≡ w.retain)

-- The flags byte keeps each of its parts.
qos-bits : (q : QoS) → (qos_as_u8 q ≤ 2) × (will_qos_of (qos_as_u8 q) ≡ ok q)
unfolding qos_as_u8 will_qos_of
qos-bits q = ground arith

bit_le : (b : Bool) → bit b ≤ 1
bit_le b = ground arith

has_bit-bit : (n k : ℕ) (b : Bool) → n / k % 2 ≡ bit b → has_bit n k ≡ b
unfolding has_bit
has_bit-bit n k b h = ground arith

connect_flags-rest :
    (c : Connect)
    → (has_bit (connect_flags c) 2 ≡ c.clean_session)
      × (has_bit (connect_flags c) 128 ≡ is_some c.username)
      × (has_bit (connect_flags c) 64 ≡ is_some c.password)
      × (has_bit (connect_flags c) 4 ≡ is_some c.will)
unfolding connect_flags will_flags has_bit qos_as_u8
connect_flags-rest c = ground arith

connect_flags-will :
    (c : Connect) (w : LastWill)
    → c.will ≡ some w
    → (connect_flags c / 8 % 4 ≡ qos_as_u8 w.qos) × (has_bit (connect_flags c) 32 ≡ w.retain)
unfolding connect_flags will_flags has_bit
connect_flags-will c w e = ground (arith, qos-bits w.qos)

decode_username-Reads :
    (flags : ℕ) (u : Option Str) (out : Bytes)
    → has_bit flags 128 ≡ is_some u
    → encode_username u ≡ ok out
    → AllUtf8 u
    → Reads (decode_username flags) out u
unfolding decode_username encode_username
decode_username-Reads flags none out b e v = rw b (Reads-nothing none e)
decode_username-Reads flags (some u) out b e v =
    rw b (rw (← append-nil out) (Reads-bind _ (read_string-Reads u out e v) (Reads-pure (some u))))

decode_password-Reads :
    (flags : ℕ) (u : Option Bytes) (out : Bytes)
    → has_bit flags 64 ≡ is_some u
    → encode_password u ≡ ok out
    → Reads (decode_password flags) out u
unfolding decode_password encode_password
decode_password-Reads flags none out b e = rw b (Reads-nothing none e)
decode_password-Reads flags (some u) out b e =
    rw b (rw (← append-nil out) (Reads-bind _ (read_binary-Reads u out e) (Reads-pure (some u))))

-- A successful writer of a will wrote the topic and the message.
encode_will-ok :
    (level : ℕ) (w : LastWill) (out : Bytes)
    → encode_will level (some w) ≡ ok out
    → (t m : Bytes) × (put_string w.topic ≡ ok t)
      × (put_binary w.message ≡ ok m)
      × (out ≡ (if eqb level 5 then encode_remaining_length 0 else []) ++ (t ++ m))
unfolding encode_will
encode_will-ok level w out e = ground arith

decode_will-Reads :
    (level flags : ℕ) (w : Option LastWill) (out : Bytes)
    → has_bit flags 4 ≡ is_some w
    → FlagsOf w flags
    → encode_will level w ≡ ok out
    → WillUtf8 w
    → Reads (decode_will level flags) out w
unfolding decode_will
decode_will-Reads level flags none out b f e v = rw b (Reads-nothing none (unfold encode_will in e))
decode_will-Reads level flags (some w) out b f e v =
    let (t, m, et, em, o) = encode_will-ok level w out e in
    let wq : will_qos_of (flags / 8 % 4) ≡ ok w.qos = rw f.0 (qos-bits w.qos).1 in
    rw (b, o)
      (Reads-bind _ (Reads-lift wq) (
        Reads-bind _ (skip_will_properties-Reads level) (
          Reads-bind _ (read_string-Reads w.topic t et v) (
            rw (← append-nil m)
              (Reads-bind _ (read_binary-Reads w.message m em) (Reads-pure_eq (rw f.1)))))))

-- A CONNECT as the types of the source and the protocol hold it.
pub record IsConnect (c : Connect) : Type 0 where
  pub level_low : 3 ≤ c.protocol_level
  pub level_high : c.protocol_level ≤ 5
  pub keep_alive_u16 : c.keep_alive < 65536
  pub client_id_utf8 : is_utf8 c.client_id ≡ true
  pub will_utf8 : WillUtf8 c.will
  pub username_utf8 : AllUtf8 c.username
  pub properties_fit : PropertiesFit c.protocol_level c.properties

-- Five writers in a row that all succeed.
five_ok :
    (m₁ m₂ m₃ m₄ m₅ : Result CodecError Bytes) (k : Bytes → Bytes → Bytes → Bytes → Bytes → Bytes)
    (out : Bytes)
    → (m₁ >>= λ a. m₂ >>= λ b. m₃ >>= λ c. m₄ >>= λ d. m₅ >>= λ f. ok (k a b c d f)) ≡ ok out
    → (a b c d f : Bytes) × (m₁ ≡ ok a)
      × (m₂ ≡ ok b)
      × (m₃ ≡ ok c)
      × (m₄ ≡ ok d)
      × (m₅ ≡ ok f)
      × (out ≡ k a b c d f)
five_ok (ok a) (ok b) (ok c) (ok d) (ok f) k out e =
    (a, b, c, d, f, refl, refl, refl, refl, refl, sym (ok-injective e))
five_ok (err x) m₂ m₃ m₄ m₅ k out e = cc
five_ok (ok a) (err x) m₃ m₄ m₅ k out e = cc
five_ok (ok a) (ok b) (err x) m₄ m₅ k out e = cc
five_ok (ok a) (ok b) (ok c) (err x) m₅ k out e = cc
five_ok (ok a) (ok b) (ok c) (ok d) (err x) k out e = cc

encode_connect-ok :
    (c : Connect) (out : Bytes)
    → encode_connect c ≡ ok out
    → (n i w u p : Bytes) × (put_string mqtt_name ≡ ok n)
      × (put_string c.client_id ≡ ok i)
      × (encode_will c.protocol_level c.will ≡ ok w)
      × (encode_username c.username ≡ ok u)
      × (encode_password c.password ≡ ok p)
      × (out
          ≡ n
            ++ (c.protocol_level
                ∷ connect_flags c
                ∷ (put_u16 c.keep_alive
                    ++ (encode_properties c.protocol_level c.properties
                        ++ (i ++ (w ++ (u ++ p)))))))
unfolding encode_connect
encode_connect-ok c out e =
    five_ok (put_string mqtt_name) (put_string c.client_id) (encode_will c.protocol_level c.will)
      (encode_username c.username) (encode_password c.password)
      (λ n i w u p.
        n
        ++ (c.protocol_level
            ∷ connect_flags c
            ∷ (put_u16 c.keep_alive
                ++ (encode_properties c.protocol_level c.properties ++ (i ++ (w ++ (u ++ p)))))))
      out e

names_differ : check_protocol_name mqtt_name ≡ ok tt
unfolding check_protocol_name list_same
names_differ = refl

check_protocol_level-ok : (l : ℕ) → 3 ≤ l → l ≤ 5 → check_protocol_level l ≡ ok tt
unfolding check_protocol_level
check_protocol_level-ok l h k = ground arith

FlagsOf-connect : (c : Connect) → FlagsOf c.will (connect_flags c)
FlagsOf-connect c = go c.will refl
  where
    go : (w : Option LastWill) → c.will ≡ w → FlagsOf w (connect_flags c)
    go none e = tt
    go (some w) e = connect_flags-will c w e

-- Whatever `encode_connect` writes for such a packet, `decode_connect` reads as the packet.
pub decode_connect-Reads :
    (c : Connect) (out : Bytes)
    → IsConnect c
    → encode_connect c ≡ ok out
    → Reads decode_connect out (Packet.connect c)
unfolding decode_connect
decode_connect-Reads c out v e =
    let (n, i, w, u, p, en, ei, ew, eu, ep, o) = encode_connect-ok c out e in
    let (f2, f128, f64, f4) = connect_flags-rest c in
    rw o (
      Reads-bind _ (read_string-Reads mqtt_name n en (unfold is_utf8 in refl)) (
        Reads-bind _ (Reads-lift names_differ) (
          Reads-bind _ (read_u8-Reads c.protocol_level) (
            Reads-bind _
              (Reads-lift (check_protocol_level-ok c.protocol_level v.level_low v.level_high))
              (Reads-bind _ (read_u8-Reads (connect_flags c)) (
                Reads-bind _ (read_u16-Reads c.keep_alive v.keep_alive_u16) (
                  Reads-bind _
                    (decode_properties-Reads c.protocol_level c.properties v.properties_fit)
                    (Reads-bind _ (read_string-Reads c.client_id i ei v.client_id_utf8) (
                      Reads-bind _
                        (decode_will-Reads c.protocol_level (connect_flags c) c.will w f4
                          (FlagsOf-connect c) ew v.will_utf8)
                        (Reads-bind _
                          (decode_username-Reads (connect_flags c) c.username u f128 eu
                            v.username_utf8)
                          (rw (← append-nil p) (
                            Reads-bind _
                              (decode_password-Reads (connect_flags c) c.password p f64 ep)
                              (Reads-pure_eq (rw f2))))))))))))))

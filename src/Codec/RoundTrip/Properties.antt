-- ===== src/Codec/RoundTrip/Properties.antt =====
-- src/codec/v3.rs: the property sections, written and read.
use lumen_mq.Prelude.{
  ℕ, ◌+◌, ◌<◌, ◌≡◌, ◌≢◌, refl, [], ◌∷◌, ◌++◌, Bytes, arith, length, Option, some, none, eqb, inl,
  inr, if◌then◌else◌, Bool-cases,
}
use lumen_mq.Prelude.Result.{ok}
use lumen_mq.Codec.Packet.{ConnectProperties}
use lumen_mq.Codec.Reader.{reader, read_u8, read_vbi, read_bytes, u32_of, skip}
use lumen_mq.Codec.Properties.{skip_will_properties, decode_properties, read_properties}
use lumen_mq.Codec.Encode.{encode_properties, put_u32}
use lumen_mq.Codec.Length.{encode_remaining_length}
use lumen_mq.Codec.RoundTrip.Reads.{u32_of-put}
use lumen_mq.Codec.RoundTrip.Chain.{Reads}

-- An expiry interval is a u32.
abbrev pub IsExpiry : Option ℕ → Type 0
IsExpiry none = Unit
IsExpiry (some v) = v < 4294967296

-- Exactly a CONNECT of level 5 has properties.
abbrev pub PropertiesFit : ℕ → Option ConnectProperties → Type 0
PropertiesFit level none = level ≢ 5
PropertiesFit level (some p) = (level ≡ 5) × IsExpiry p.session_expiry_interval

no_properties :
    (p : ℕ) (rest : Bytes)
    → decode_properties 5 (reader p (0 ∷ rest))
      ≡ ok (some (record { session_expiry_interval = none }), reader (p + 1) rest)
unfolding decode_properties read_vbi read_u8
no_properties p rest = ground arith

expiry_value :
    (v p : ℕ) (rest : Bytes)
    → v < 4294967296
    → read_properties (length rest + 5) (p + 5) none (reader p (0x11 ∷ (put_u32 v ++ rest)))
      ≡ ok (some v, reader (p + 5) rest)
unfolding read_properties read_vbi read_u8 read_bytes put_u32 u32_of
expiry_value v p rest h = ground (arith, u32_of-put v h)

one_property :
    (v p : ℕ) (rest : Bytes)
    → v < 4294967296
    → decode_properties 5 (reader p (5 ∷ 0x11 ∷ (put_u32 v ++ rest)))
      ≡ ok (some (record { session_expiry_interval = some v }), reader (p + 6) rest)
unfolding decode_properties read_vbi read_u8 put_u32
one_property v p rest h = ground (arith, expiry_value v (p + 1) rest h)

pub decode_properties-Reads :
    (level : ℕ) (props : Option ConnectProperties)
    → PropertiesFit level props
    → Reads (decode_properties level) (encode_properties level props) props
unfolding encode_properties put_u32
decode_properties-Reads level none h = record {
  run = λ p rest. (p, unfold decode_properties in ground arith);
}
decode_properties-Reads level (some p) (l, h) = rw l (fit p.session_expiry_interval h)
  where
    fit :
        (v : Option ℕ)
        → IsExpiry v
        → Reads
            (decode_properties 5)
            (encode_properties 5 (some (record { session_expiry_interval = v })))
            (some (record { session_expiry_interval = v }))
    fit none h = record { run = λ p rest. (p + 1, no_properties p rest) }
    fit (some v) h = record { run = λ p rest. (p + 6, one_property v p rest h) }

pub skip_will_properties-Reads :
    (level : ℕ)
    → Reads (skip_will_properties level) (if eqb level 5 then encode_remaining_length 0 else []) tt
unfolding skip_will_properties encode_remaining_length read_vbi read_u8 read_bytes skip
skip_will_properties-Reads level = elim (Bool-cases (eqb level 5)) [
  | inl e ↦ rw e (record { run = λ p rest. (p + 1, ground arith) })
  | inr e ↦ rw e (record { run = λ p rest. (p, refl) })
]

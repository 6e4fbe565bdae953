-- ===== src/Codec/Properties.antt =====
-- src/codec/v3.rs: the property sections of MQTT 5.0.
use lumen_mq.Prelude.{
  ℕ, zero, suc, ◌+◌, ltb, eqb, List, [], ◌∷◌, if◌then◌else◌, Bool, false, ◌||◌, Option, some, none,
  list_key, nat_key,
}
use lumen_mq.Prelude.Result.{ok, err}
use lumen_mq.Utils.{malformed_body, incomplete}
use lumen_mq.Codec.Packet.{ConnectProperties, mqtt_5_level}
use lumen_mq.Codec.Reader.{
  Read, pure, fail, and_then, ◌>>=◌, ◌>>◌, remaining, need, read_u8, read_u16, read_bytes, u32_of,
  read_vbi, skip,
}

skip_string_or_binary : Read (Unit {0})
skip_string_or_binary = do len ← read_u16; skip len

skip_string_pair : Read (Unit {0})
unfolding skip_string_or_binary
skip_string_pair = do skip_string_or_binary; skip_string_or_binary

-- The value types of the registered properties.
pub data PropertyValue : Type 0 where
  byte two_bytes four_bytes variable text text_pair unknown : PropertyValue

one_of : ℕ → List ℕ → Bool
one_of id [] = false
one_of id (k ∷ ks) = eqb id k || one_of id ks

property_value : ℕ → PropertyValue
unfolding one_of
property_value id =
    if one_of id (0x01 ∷ 0x17 ∷ 0x19 ∷ 0x22 ∷ 0x23 ∷ 0x26 ∷ 0x27 ∷ 0x28 ∷ [])
    then byte
    else if one_of id (0x13 ∷ 0x1e ∷ 0x1f ∷ 0x21 ∷ [])
    then two_bytes
    else if one_of id (0x02 ∷ 0x11 ∷ 0x18 ∷ 0x25 ∷ [])
    then four_bytes
    else if eqb id 0x0b
    then variable
    else if one_of id (0x03 ∷ 0x08 ∷ 0x0c ∷ 0x12 ∷ 0x15 ∷ 0x1a ∷ 0x1c ∷ 0x1d ∷ [])
    then text
    else if one_of id (0x09 ∷ 0x16 ∷ [])
    then text
    else if eqb id 0x24
    then text_pair
    else unknown

skip_value : PropertyValue → Read (Unit {0})
unfolding skip_string_or_binary skip_string_pair
skip_value byte = do _ ← read_u8; pure tt
skip_value two_bytes = do _ ← read_u16; pure tt
skip_value four_bytes = do _ ← read_bytes 4; pure tt
skip_value variable = do _ ← read_vbi; pure tt
skip_value text = skip_string_or_binary
skip_value text_pair = skip_string_pair
skip_value unknown = fail (malformed_body "unknown mqtt5 property id")

unfoldable pub skip_property_value : ℕ → Read (Unit {0})
unfolding property_value skip_value
skip_property_value id = skip_value (property_value id)

read_session_expiry : Read ℕ
read_session_expiry r =
    if ltb (remaining r) 4
    then err (malformed_body "session expiry interval truncated")
    else (do raw ← read_bytes 4; pure (u32_of raw)) r

-- One property: the new value of the field, and the reader behind it.
read_property : Option ℕ → Read (Option ℕ)
unfolding read_session_expiry
read_property expiry = do
  id ← read_vbi
  if eqb id 0x11
      then (do v ← read_session_expiry; pure (some v))
      else (do skip_property_value id; pure expiry)

-- The loop up to the position `end`. A round reads at least one byte, so the bytes left are fuel
-- enough; `incomplete` stands for fuel that ran out.
unfoldable pub read_properties : ℕ → ℕ → Option ℕ → Read (Option ℕ)
unfolding read_property
read_properties zero end expiry r = if ltb r.pos end then err incomplete else ok (expiry, r)
read_properties (suc fuel) end expiry r =
    let more = (do next ← read_property expiry; read_properties fuel end next) r in
    if ltb r.pos end then more else ok (expiry, r)

unfoldable pub parse_connect_properties : ℕ → Read ConnectProperties
parse_connect_properties props_len r =
    if eqb props_len 0
    then ok (record { session_expiry_interval = none }, r)
    else and_then (read_properties (remaining r) (r.pos + props_len) none r)
        λ expiry r'. ok (record { session_expiry_interval = expiry }, r')

unfoldable pub decode_properties : ℕ → Read (Option ConnectProperties)
unfolding parse_connect_properties
decode_properties level =
    if eqb level mqtt_5_level
    then (do
      props_len ← read_vbi
      need props_len (malformed_body "connect properties truncated")
      props ← parse_connect_properties props_len
      pure (some props))
    else pure none

unfoldable pub skip_will_properties : ℕ → Read (Unit {0})
skip_will_properties level =
    if eqb level mqtt_5_level
    then (do
      will_props_len ← read_vbi
      need will_props_len (malformed_body "will properties truncated")
      skip will_props_len)
    else pure tt

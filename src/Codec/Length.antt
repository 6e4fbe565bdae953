-- ===== src/Codec/Length.antt =====
-- src/codec/v3.rs: the remaining length of the fixed header.
use lumen_mq.Prelude.{
  ℕ, zero, suc, ◌+◌, ◌*◌, ◌/◌, ◌%◌, ltb, eqb, [], ◌∷◌, Option, some, none, Bytes, if◌then◌else◌,
}
use lumen_mq.Prelude.Result.{Result, ok, err}
use lumen_mq.Utils.{CodecError, invalid_remaining_length}

-- The loop at the bytes from `idx` on.
unfoldable pub decode_length_from : ℕ → ℕ → ℕ → Bytes → Result CodecError (Option (ℕ × ℕ))
decode_length_from multiplier value idx [] = ok none
decode_length_from multiplier value idx (byte ∷ src) =
    let next = value + byte % 128 * multiplier in
    let more = decode_length_from (multiplier * 128) next (idx + 1) src in
    if ltb (128 * 128 * 128) multiplier
    then err (invalid_remaining_length value)
    else if eqb (byte / 128 % 2) 0
    then ok (some (next, idx + 1))
    else more

-- The value and the length of the header with the first byte; `none` where bytes are missing.
unfoldable pub decode_remaining_length : Bytes → Result CodecError (Option (ℕ × ℕ))
unfolding decode_length_from
decode_remaining_length [] = ok none
decode_remaining_length (first ∷ src) = decode_length_from 1 0 1 src

-- The fuel is a bound on the value, which falls in each round.
unfoldable pub encode_length_fuel : ℕ → ℕ → Bytes
encode_length_fuel zero value = []
encode_length_fuel (suc fuel) value =
    let more = encode_length_fuel fuel (value / 128) in
    if ltb 0 (value / 128) then (value % 128 + 128) ∷ more else value % 128 ∷ []

unfoldable pub encode_remaining_length : ℕ → Bytes
unfolding encode_length_fuel
encode_remaining_length value = encode_length_fuel (suc value) value

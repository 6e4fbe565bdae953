-- ===== src/Codec/RoundTrip/Lengths.antt =====
-- src/codec/v3.rs: the remaining length, written and read.
use lumen_mq.Prelude.{
  ℕ, zero, suc, ◌+◌, ◌*◌, ◌/◌, ◌%◌, ◌≤◌, ◌<◌, ◌≡◌, refl, ◌∙◌, ltb, [], ◌∷◌, ◌++◌, some, Bytes,
  if◌then◌else◌, arith, length, Bool-cases, inl, inr, ltb→lt, ltb→le,
}
use lumen_mq.Prelude.Result.{ok}
use lumen_mq.Codec.Length.{
  decode_length_from, decode_remaining_length, encode_length_fuel, encode_remaining_length,
}

fuel_irrelevant : (f g v : ℕ) → v < f → v < g → encode_length_fuel f v ≡ encode_length_fuel g v
unfolding encode_length_fuel
fuel_irrelevant zero g v p q = absurd (omega arith)
fuel_irrelevant (suc f) zero v p q = absurd (omega arith)
fuel_irrelevant (suc f) (suc g) v p q = ground (arith, fuel_irrelevant f g (v / 128))

-- The written length without fuel.
pub encode_step :
    (v : ℕ)
    → encode_remaining_length v ≡ (
        if ltb 0 (v / 128)
        then (v % 128 + 128) ∷ encode_remaining_length (v / 128)
        else v % 128 ∷ [])
unfolding encode_remaining_length encode_length_fuel
encode_step v = elim (Bool-cases (ltb 0 (v / 128))) [
  | inl e ↦
      rw e (rw (fuel_irrelevant v (suc (v / 128)) (v / 128) (ground arith) (omega arith)) refl)
  | inr e ↦ rw e refl
]

last_step :
    (m acc idx v : ℕ) (rest : Bytes)
    → m ≤ 2097152
    → v < 128
    → decode_length_from m acc idx (encode_remaining_length v ++ rest)
      ≡ ok (some (acc + v * m, idx + length (encode_remaining_length v)))
unfolding decode_length_from
last_step m acc idx v rest hm hv = rw (encode_step v) (ground arith)

more_step :
    (m acc idx v : ℕ) (rest : Bytes)
    → m ≤ 2097152
    → 128 ≤ v
    → decode_length_from m acc idx (encode_remaining_length v ++ rest)
      ≡ decode_length_from
          (m * 128)
          (acc + v % 128 * m)
          (idx + 1)
          (encode_remaining_length (v / 128) ++ rest)
unfolding decode_length_from
more_step m acc idx v rest hm hv = rw (encode_step v) (ground arith)

length-encode_more :
    (v : ℕ)
    → 128 ≤ v
    → length (encode_remaining_length v) ≡ suc (length (encode_remaining_length (v / 128)))
length-encode_more v hv = rw (encode_step v) (ground arith)

-- One byte, or one and what follows it, at each multiplier that the loop meets.
third_byte :
    (acc idx v : ℕ) (rest : Bytes)
    → v < 16384
    → decode_length_from 16384 acc idx (encode_remaining_length v ++ rest)
      ≡ ok (some (acc + v * 16384, idx + length (encode_remaining_length v)))
third_byte acc idx v rest h = elim (Bool-cases (ltb v 128)) [
  | inl e ↦ last_step 16384 acc idx v rest (omega arith) (ltb→lt v 128 e)
  | inr e ↦
      let big = ltb→le v 128 e in
      more_step 16384 acc idx v rest (omega arith) big
      ∙ last_step 2097152 (acc + v % 128 * 16384) (idx + 1) (v / 128) rest (omega arith)
          (omega arith)
      ∙ ground (arith, length-encode_more v big)
]

second_byte :
    (acc idx v : ℕ) (rest : Bytes)
    → v < 2097152
    → decode_length_from 128 acc idx (encode_remaining_length v ++ rest)
      ≡ ok (some (acc + v * 128, idx + length (encode_remaining_length v)))
second_byte acc idx v rest h = elim (Bool-cases (ltb v 128)) [
  | inl e ↦ last_step 128 acc idx v rest (omega arith) (ltb→lt v 128 e)
  | inr e ↦
      let big = ltb→le v 128 e in
      more_step 128 acc idx v rest (omega arith) big
      ∙ third_byte (acc + v % 128 * 128) (idx + 1) (v / 128) rest (omega arith)
      ∙ ground (arith, length-encode_more v big)
]

first_byte :
    (idx v : ℕ) (rest : Bytes)
    → v < 268435456
    → decode_length_from 1 0 idx (encode_remaining_length v ++ rest)
      ≡ ok (some (v, idx + length (encode_remaining_length v)))
first_byte idx v rest h = elim (Bool-cases (ltb v 128)) [
  | inl e ↦ last_step 1 0 idx v rest (omega arith) (ltb→lt v 128 e) ∙ ground arith
  | inr e ↦
      let big = ltb→le v 128 e in
      more_step 1 0 idx v rest (omega arith) big
      ∙ second_byte (0 + v % 128 * 1) (idx + 1) (v / 128) rest (omega arith)
      ∙ ground (arith, length-encode_more v big)
]

-- A length below 2 ^ 28, written behind any first byte, reads back, with the length of the header,
-- whatever follows.
pub decode-encode_length :
    (first v : ℕ) (rest : Bytes)
    → v < 268435456
    → decode_remaining_length (first ∷ (encode_remaining_length v ++ rest))
      ≡ ok (some (v, 1 + length (encode_remaining_length v)))
unfolding decode_remaining_length
decode-encode_length first v rest h = first_byte 1 v rest h

length-encode_last : (v : ℕ) → v < 128 → length (encode_remaining_length v) ≡ 1
length-encode_last v hv = rw (encode_step v) (ground arith)

-- At most four bytes are written for such a length.
pub length-encode_le :
    (v : ℕ)
    → v < 268435456
    → (1 ≤ length (encode_remaining_length v)) × (length (encode_remaining_length v) ≤ 4)
length-encode_le v h = ground (
  arith,
  length-encode_last v,
  length-encode_last (v / 128),
  length-encode_last (v / 128 / 128),
  length-encode_last (v / 128 / 128 / 128),
  length-encode_more v,
  length-encode_more (v / 128),
  length-encode_more (v / 128 / 128),
)

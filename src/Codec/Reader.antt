-- ===== src/Codec/Reader.antt =====
-- src/codec/v3.rs: `Reader`, as its position and the bytes from there on. What stands before the
-- position is never read again.
use lumen_mq.Prelude.{
  ℕ, zero, suc, ◌+◌, ◌*◌, ◌/◌, ◌%◌, ltb, eqb, [], ◌∷◌, Bytes, Str, if◌then◌else◌, length, take,
  drop, is_utf8,
}
use lumen_mq.Prelude.Result.{Result, ok, err}
use lumen_mq.Utils.{CodecError, malformed_body, malformed_utf8}

pub record Reader : Type 0 where
  pub pos : ℕ
  pub rest : Bytes

abbrev pub reader : ℕ → Bytes → Reader
reader p bs = record { pos = p; rest = bs }

-- A read takes the reader and returns a value and the reader behind it.
abbrev pub Read : Type 0 → Type 0
Read A = Reader → Result CodecError (A × Reader)

abbrev pub pure : {A : Type 0} → A → Read A
pure a r = ok (a, r)

abbrev pub fail : {A : Type 0} → CodecError → Read A
fail e r = err e

abbrev pub and_then :
    {A B : Type 0} → Result CodecError (A × Reader) → (A → Read B) → Result CodecError (B × Reader)
and_then (ok (a, r)) f = f a r
and_then (err e) f = err e

infixl 5 ◌>>=◌ ◌>>◌
abbrev pub ◌>>=◌ : {A B : Type 0} → Read A → (A → Read B) → Read B
◌>>=◌ m f r = and_then (m r) f

abbrev pub ◌>>◌ : {B : Type 0} → Read (Unit {0}) → Read B → Read B
m >> k = m >>= λ _. k

abbrev pub remaining : Reader → ℕ
remaining r = length r.rest

read_u8_at : ℕ → Bytes → Result CodecError (ℕ × Reader)
read_u8_at p [] = err (malformed_body "unexpected eof reading u8")
read_u8_at p (b ∷ bs) = ok (b, reader (p + 1) bs)

unfoldable pub read_u8 : Read ℕ
unfolding read_u8_at
read_u8 r = read_u8_at r.pos r.rest

read_u16_at : ℕ → Bytes → Result CodecError (ℕ × Reader)
read_u16_at p (hi ∷ lo ∷ bs) = ok (hi * 256 + lo, reader (p + 2) bs)
read_u16_at p _ = err (malformed_body "unexpected eof reading u16")

unfoldable pub read_u16 : Read ℕ
unfolding read_u16_at
read_u16 r = read_u16_at r.pos r.rest

unfoldable pub read_bytes : ℕ → Read Bytes
read_bytes n r =
    if ltb (remaining r) n
    then err (malformed_body "unexpected eof reading bytes")
    else ok (take n r.rest, reader (r.pos + n) (drop n r.rest))

-- `u32::from_be_bytes` of a read of four bytes.
unfoldable pub u32_of : Bytes → ℕ
u32_of (a ∷ b ∷ c ∷ d ∷ _) = ((a * 256 + b) * 256 + c) * 256 + d
u32_of _ = 0

utf8_or_fail : Bytes → Read Str
utf8_or_fail raw = if is_utf8 raw then pure raw else fail malformed_utf8

unfoldable pub read_string : Read Str
unfolding utf8_or_fail
read_string = do len ← read_u16; raw ← read_bytes len; utf8_or_fail raw

unfoldable pub read_binary : Read Bytes
read_binary = do len ← read_u16; read_bytes len

-- The loop of `read_vbi`. It reads at most four bytes, so four is fuel enough.
read_vbi_from : ℕ → ℕ → ℕ → Read ℕ
read_vbi_from zero multiplier value r = err (malformed_body "vbi overflow")
read_vbi_from (suc fuel) multiplier value r = and_then (read_u8 r) λ byte r'.
    let next = value + byte % 128 * multiplier in
    let more = read_vbi_from fuel (multiplier * 128) next r' in
    if eqb (byte / 128 % 2) 0
    then ok (next, r')
    else if ltb (128 * 128 * 128) (multiplier * 128)
    then err (malformed_body "vbi overflow")
    else more

unfoldable pub read_vbi : Read ℕ
unfolding read_vbi_from
read_vbi = read_vbi_from 4 1 0

unfoldable pub skip : ℕ → Read (Unit {0})
skip n = do _ ← read_bytes n; pure tt

-- A result that reads nothing.
abbrev pub lift : {A : Type 0} → Result CodecError A → Read A
lift (ok a) r = ok (a, r)
lift (err e) r = err e

-- `r.remaining() < n` with the error of the section that is cut off.
abbrev pub need : ℕ → CodecError → Read (Unit {0})
need n e r = if ltb (remaining r) n then err e else ok (tt, r)

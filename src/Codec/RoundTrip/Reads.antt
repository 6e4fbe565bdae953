-- ===== src/Codec/RoundTrip/Reads.antt =====
-- src/codec/v3.rs: each reader takes back what its writer put, and leaves the rest.
use lumen_mq.Prelude.{
  ℕ, ◌+◌, ◌≤◌, ◌<◌, ◌≡◌, refl, ◌++◌, Bytes, arith, length, true, length-append, le→ltb, take-append,
  drop-append, is_utf8,
}
use lumen_mq.Prelude.Result.{ok}
use lumen_mq.Codec.Reader.{reader, read_u16, read_bytes, read_string, read_binary, u32_of}
use lumen_mq.Codec.Encode.{put_u16, put_u32, put_string, put_binary}

pub read_u16-put :
    (p n : ℕ) (rest : Bytes)
    → n < 65536
    → read_u16 (reader p (put_u16 n ++ rest)) ≡ ok (n, reader (p + 2) rest)
unfolding read_u16
read_u16-put p n rest h = ground arith

pub read_bytes-append :
    (p : ℕ) (bs rest : Bytes)
    → read_bytes (length bs) (reader p (bs ++ rest)) ≡ ok (bs, reader (p + length bs) rest)
unfolding read_bytes
read_bytes-append p bs rest =
    rw (le→ltb (length (bs ++ rest)) (length bs) (omega (arith, length-append bs rest)))
      (rw (take-append bs rest, drop-append bs rest) refl)

pub put_string-ok :
    (s out : Bytes) → put_string s ≡ ok out → (length s ≤ 65535) × (out ≡ put_u16 (length s) ++ s)
unfolding put_string
put_string-ok s out h = ground arith

pub put_binary-ok :
    (s out : Bytes) → put_binary s ≡ ok out → (length s ≤ 65535) × (out ≡ put_u16 (length s) ++ s)
unfolding put_binary
put_binary-ok s out h = ground arith

pub read_binary-put :
    (p : ℕ) (s rest : Bytes)
    → length s ≤ 65535
    → read_binary (reader p (put_u16 (length s) ++ (s ++ rest)))
      ≡ ok (s, reader (p + 2 + length s) rest)
unfolding read_binary
read_binary-put p s rest h =
    rw (read_u16-put p (length s) (s ++ rest) (omega arith)) (read_bytes-append (p + 2) s rest)

pub read_string-put :
    (p : ℕ) (s rest : Bytes)
    → length s ≤ 65535
    → is_utf8 s ≡ true
    → read_string (reader p (put_u16 (length s) ++ (s ++ rest)))
      ≡ ok (s, reader (p + 2 + length s) rest)
unfolding read_string
read_string-put p s rest h u =
    rw (read_u16-put p (length s) (s ++ rest) (omega arith))
      (rw (read_bytes-append (p + 2) s rest) (rw u refl))

pub u32_of-put : (n : ℕ) → n < 4294967296 → u32_of (put_u32 n) ≡ n
unfolding u32_of put_u32
u32_of-put n h = omega arith

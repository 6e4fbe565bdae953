-- ===== src/Codec/RoundTrip/Chain.antt =====
-- src/codec/v3.rs: readers in sequence against writers in sequence.
use lumen_mq.Prelude.{
  ℕ, ◌+◌, ◌<◌, ◌≡◌, refl, [], ◌∷◌, ◌++◌, Bytes, length, append_assoc, append-nil, is_utf8, true,
  sym,
}
use lumen_mq.Prelude.Result.{Result, ok, err}
use lumen_mq.Prelude.Result
use lumen_mq.Utils.{CodecError}
use lumen_mq.Codec.Reader.{
  reader, Read, pure, lift, ◌>>=◌, ◌>>◌, read_u8, read_u16, read_string, read_binary,
}
use lumen_mq.Codec.Encode.{put_u16, put_string, put_binary}
use lumen_mq.Codec.RoundTrip.Reads.{
  read_u16-put, read_string-put, read_binary-put, put_string-ok, put_binary-ok,
}

-- `m` reads `bs` as `a` off the front of any input.
pub record Reads {A : Type 0} (m : Read A) (bs : Bytes) (a : A) : Type 0 where
  pub run : (p : ℕ) (rest : Bytes) → (q : ℕ) × (m (reader p (bs ++ rest)) ≡ ok (a, reader q rest))

-- `m` reads `bs` as `a` where nothing follows.
pub record Ends {A : Type 0} (m : Read A) (bs : Bytes) (a : A) : Type 0 where
  pub run : (p : ℕ) → (q : ℕ) × (m (reader p bs) ≡ ok (a, reader q []))

module _ {A B : Type 0} where
  pub Reads-bind :
      {m : Read A} (f : A → Read B) {bs cs : Bytes} {a : A} {b : B}
      → Reads m bs a
      → Reads (f a) cs b
      → Reads (m >>= f) (bs ++ cs) b
  Reads-bind {m} f {bs} {cs} {a} {b} h k = record {
    run = λ p rest.
        let (q, e) = h.run p (cs ++ rest) in
        let (q', e') = k.run q rest in (q', rw append_assoc (rw e e'));
  }

  pub Ends-bind :
      {m : Read A} (f : A → Read B) {bs cs : Bytes} {a : A} {b : B}
      → Reads m bs a
      → Ends (f a) cs b
      → Ends (m >>= f) (bs ++ cs) b
  Ends-bind {m} f {bs} {cs} {a} {b} h k = record {
    run = λ p. let (q, e) = h.run p cs in let (q', e') = k.run q in (q', rw e e');
  }

pub Reads-pure : {A : Type 0} (a : A) → Reads (pure a) [] a
Reads-pure a = record { run = λ p rest. (p, refl) }

nil_of_ok : {out : Bytes} → ◌≡◌ {A = Result CodecError Bytes} (ok []) (ok out) → [] ≡ out
nil_of_ok h = cc

-- Where the writer wrote nothing.
pub Reads-nothing :
    {A : Type 0} (a : A) {out : Bytes}
    → ◌≡◌ {A = Result CodecError Bytes} (ok []) (ok out)
    → Reads (pure a) out a
Reads-nothing a h = rw (← nil_of_ok h) (Reads-pure a)

pub Reads-pure_eq : {A : Type 0} {a b : A} → a ≡ b → Reads (pure a) [] b
Reads-pure_eq {b} e = rw e (Reads-pure b)

pub Reads-lift : {A : Type 0} {r : Result CodecError A} {a : A} → r ≡ ok a → Reads (lift r) [] a
Reads-lift e = record { run = λ p rest. (p, rw e refl) }

pub Ends-of_Reads : {A : Type 0} {m : Read A} {bs : Bytes} {a : A} → Reads m bs a → Ends m bs a
Ends-of_Reads {bs} h = record { run = λ p. let (q, e) = h.run p [] in (q, rw append-nil at e) }

pub read_u8-Reads : (b : ℕ) → Reads read_u8 (b ∷ []) b
unfolding read_u8
read_u8-Reads b = record { run = λ p rest. (p + 1, refl) }

pub read_u16-Reads : (n : ℕ) → n < 65536 → Reads read_u16 (put_u16 n) n
read_u16-Reads n h = record { run = λ p rest. (p + 2, read_u16-put p n rest h) }

pub read_string-Reads :
    (s out : Bytes) → put_string s ≡ ok out → is_utf8 s ≡ true → Reads read_string out s
read_string-Reads s out e u =
    let (h, o) = put_string-ok s out e in
    record { run = λ p rest. (p + 2 + length s, rw o (read_string-put p s rest h u)) }

pub read_binary-Reads : (s out : Bytes) → put_binary s ≡ ok out → Reads read_binary out s
read_binary-Reads s out e =
    let (h, o) = put_binary-ok s out e in
    record { run = λ p rest. (p + 2 + length s, rw o (read_binary-put p s rest h)) }

-- A read that ends, and a last step that reads nothing.
pub Ends-last :
    {A B : Type 0} {m : Read A} (f : A → Read B) {bs : Bytes} {a : A} {b : B}
    → Ends m bs a
    → Reads (f a) [] b
    → Ends (m >>= f) bs b
Ends-last f h k = record {
  run = λ p. let (q, e) = h.run p in let (q', e') = k.run q [] in (q', rw e e');
}

-- A writer that succeeds before the last step.
pub one_ok :
    (m : Result CodecError Bytes) (k : Bytes → Bytes) (out : Bytes)
    → (Result.◌>>=◌ m λ a. ok (k a)) ≡ ok out
    → (a : Bytes) × (m ≡ ok a) × (out ≡ k a)
one_ok (ok a) k out e = (a, refl, sym (Result.ok-injective e))
one_ok (err x) k out e = cc

-- A check that passes before a read.
pub Ends-flags :
    {A : Type 0} {r : Result CodecError (Unit {0})} {m : Read A} {bs : Bytes} {a : A}
    → r ≡ ok tt
    → Ends m bs a
    → Ends (lift r >> m) bs a
Ends-flags e h = record { run = λ p. let (q, k) = h.run p in (q, rw e k) }

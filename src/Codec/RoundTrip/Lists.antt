-- ===== src/Codec/RoundTrip/Lists.antt =====
-- src/codec/v3.rs: the loops over the rest of a body, written and read.
use lumen_mq.Prelude.{
  ℕ, zero, suc, ◌+◌, ◌%◌, ◌≤◌, ◌<◌, ◌≡◌, refl, ap, sym, List, [], ◌∷◌, ◌++◌, Bytes, Str, arith,
  length, length-append, is_utf8, true, lt→ltb, append_assoc, All,
}
use lumen_mq.Prelude.Result.{Result, ok, err, ◌>>=◌, ok-injective}
use lumen_mq.Utils.{CodecError}
use lumen_mq.Codec.Packet.{QoS, SubscribeTopic, qos_as_u8, qos_from_u8}
use lumen_mq.Codec.Reader.{reader, Read, read_u8, read_string}
use lumen_mq.Codec.Decode.{read_many, read_to_end, read_topic}
use lumen_mq.Codec.Encode.{put_string, encode_topics, encode_filters}
use lumen_mq.Codec.RoundTrip.Reads.{put_string-ok}
use lumen_mq.Codec.RoundTrip.Chain.{
  Reads, Ends, Reads-bind, Reads-pure, Reads-lift, read_u8-Reads, read_string-Reads,
}

-- `out` is the concatenation of what was written for each element.
pub data Writes {A : Type 0} (read : Read A) : Bytes → List A → Type 0 where
  none_left : Writes read [] []
  one_more :
      {out bs cs : Bytes} {a : A} {as' : List A}
      → out ≡ bs ++ cs
      → 0 < length bs
      → Reads read bs a
      → Writes read cs as'
      → Writes read out (a ∷ as')

read_many-Writes :
    {A : Type 0} (read : Read A) (fuel p : ℕ) {out : Bytes} {as' : List A}
    → Writes read out as'
    → length out ≤ fuel
    → (q : ℕ) × (read_many read fuel (reader p out) ≡ ok (as', reader q []))
unfolding read_many
read_many-Writes read zero p none_left h = (p, refl)
read_many-Writes read (suc fuel) p none_left h = (p, refl)
read_many-Writes read zero p (one_more {out} {bs} {cs} o l r ws) h =
    absurd (omega (arith, ap length o, length-append bs cs))
read_many-Writes read (suc fuel) p (one_more {out} {bs} {cs} o l r ws) h =
    let (q, e) = r.run p cs in
    let longer : length out ≡ length bs + length cs =
      omega (arith, ap length o, length-append bs cs) in
    let (q', e') = read_many-Writes read fuel q ws (omega arith) in
    (q', rw (lt→ltb 0 (length out) (omega arith)) (rw o (rw e (rw e' refl))))

pub read_to_end-Ends :
    {A : Type 0} {read : Read A} {out : Bytes} {as' : List A}
    → Writes read out as'
    → Ends (read_to_end read) out as'
unfolding read_to_end
read_to_end-Ends {read} {out} ws = record {
  run = λ p. read_many-Writes read (length out) p ws (omega arith);
}

pub codes-Writes : (codes : List ℕ) → Writes read_u8 codes codes
codes-Writes [] = none_left
codes-Writes (c ∷ cs) = one_more refl (omega arith) (read_u8-Reads c) (codes-Writes cs)

pub qos-from-as : (q : QoS) → qos_from_u8 (qos_as_u8 q % 4) ≡ ok q
unfolding qos_from_u8 qos_as_u8
qos-from-as q = ground arith

put_string_pos : (s out : Bytes) → put_string s ≡ ok out → 0 < length out
put_string_pos s out e = omega (arith, ap length (put_string-ok s out e).1)

-- Two writers in a row that both succeed.
pub two_ok :
    (m₁ m₂ : Result CodecError Bytes) (k : Bytes → Bytes → Bytes) (out : Bytes)
    → (m₁ >>= λ a. m₂ >>= λ b. ok (k a b)) ≡ ok out
    → (a b : Bytes) × (m₁ ≡ ok a) × (m₂ ≡ ok b) × (out ≡ k a b)
two_ok (ok a) (ok b) k out e = (a, b, refl, refl, sym (ok-injective e))
two_ok (err x) m₂ k out e = cc
two_ok (ok a) (err x) k out e = cc

nothing-Writes :
    {A : Type 0} (read : Read A) (out : Bytes)
    → ◌≡◌ {A = Result CodecError Bytes} (ok []) (ok out)
    → Writes read out []
nothing-Writes read out e = rw (← ok-injective e) none_left

pub filters-Writes :
    (fs : List Str) (out : Bytes)
    → All (λ f. is_utf8 f ≡ true) fs
    → encode_filters fs ≡ ok out
    → Writes read_string out fs
unfolding encode_filters
filters-Writes [] out v e = nothing-Writes read_string out e
filters-Writes (f ∷ fs) out v e =
    let (a, b, ea, eb, o) = two_ok (put_string f) (encode_filters fs) ◌++◌ out e in
    one_more o (put_string_pos f a ea) (read_string-Reads f a ea v.0) (filters-Writes fs b v.1 eb)

read_topic-Reads :
    (t : SubscribeTopic) (a : Bytes)
    → put_string t.topic_filter ≡ ok a
    → is_utf8 t.topic_filter ≡ true
    → Reads read_topic (a ++ qos_as_u8 t.qos ∷ []) t
unfolding read_topic
read_topic-Reads t a e v = Reads-bind _ (read_string-Reads t.topic_filter a e v) (
    Reads-bind _ (read_u8-Reads (qos_as_u8 t.qos))
      (Reads-bind _ (Reads-lift (qos-from-as t.qos)) (Reads-pure t)))

pub topics-Writes :
    (ts : List SubscribeTopic) (out : Bytes)
    → All (λ t. is_utf8 t.topic_filter ≡ true) ts
    → encode_topics ts ≡ ok out
    → Writes read_topic out ts
unfolding encode_topics
topics-Writes [] out v e = nothing-Writes read_topic out e
topics-Writes (t ∷ ts) out v e =
    let (a, b, ea, eb, o) =
      two_ok (put_string t.topic_filter) (encode_topics ts) (λ a b. a ++ qos_as_u8 t.qos ∷ b) out
        e in
    one_more {bs = a ++ qos_as_u8 t.qos ∷ []} (rw o (sym (append_assoc a (qos_as_u8 t.qos ∷ []) b)))
      (omega (arith, length-append a (qos_as_u8 t.qos ∷ []))) (read_topic-Reads t a ea v.0)
      (topics-Writes ts b v.1 eb)

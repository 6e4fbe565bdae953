-- ===== src/Security/Limiter.antt =====
-- src/security/limiter.rs: the token buckets of the clients and the connection counts of the
-- addresses. An instant is a number of nanoseconds. The arithmetic of `f64` is an argument.
use lumen_mq.Prelude.{
  ℕ, ◌+◌, ◌-◌, ◌*◌, ◌%◌, ◌^◌, min, max, Bool, true, false, not, Option, some, none, [], Str,
  if◌then◌else◌, eqb, Key, nat_key, list_key, ◌≡◌, ◌↔◌, arith, length, eqb_iff,
}
use lumen_mq.Prelude.Assoc.{Assoc, lookup, insert, remove}
use lumen_mq.Security.IpFilter.{IpAddr, v4, v6}

-- What the bucket uses of `f64`: `elapsed` is `as_secs_f64` of nanoseconds, `positive` is `> 0.0`,
-- `at_least` is `>=`.
pub record Floats (F : Type 0) : Type 0 where
  pub of_u32 : ℕ → F
  pub elapsed : ℕ → F
  pub add : F → F → F
  pub sub : F → F → F
  pub mul : F → F → F
  pub least : F → F → F
  pub at_least : F → F → Bool
  pub positive : F → Bool

pub record TokenBucket (F : Type 0) : Type 0 where
  pub capacity : ℕ
  pub refill_per_second : ℕ
  pub tokens : F
  pub last_refill : ℕ

abbrev pub new_bucket : {F : Type 0} → Floats F → ℕ → ℕ → ℕ → TokenBucket F
new_bucket fl now capacity refill_per_second = record {
  capacity = capacity;
  refill_per_second = refill_per_second;
  tokens = fl.of_u32 capacity;
  last_refill = now;
}

unfoldable pub refill : {F : Type 0} → Floats F → ℕ → TokenBucket F → TokenBucket F
refill fl now b =
    let elapsed = fl.elapsed (now - b.last_refill) in
    if not (fl.positive elapsed) then b else record b {
      tokens =
          fl.least (fl.add b.tokens (fl.mul elapsed (fl.of_u32 b.refill_per_second)))
            (fl.of_u32 b.capacity);
      last_refill = now;
    }

-- `TokenBucket::try_consume`.
unfoldable pub take_tokens : {F : Type 0} → Floats F → ℕ → ℕ → TokenBucket F → Bool × TokenBucket F
unfolding refill
take_tokens fl now n b =
    let b' = refill fl now b in
    if fl.at_least b'.tokens (fl.of_u32 n)
    then (true, record b' { tokens = fl.sub b'.tokens (fl.of_u32 n) })
    else (false, b')

pub record ClientRateLimiter (F : Type 0) : Type 0 where
  pub capacity : ℕ
  pub refill_per_second : ℕ
  pub buckets : Assoc Str (TokenBucket F)

-- `saturating_mul(2).max(1)`.
abbrev pub burst : ℕ → ℕ
burst refill_per_second = max (min (refill_per_second * 2) (2 ^ 32 - 1)) 1

abbrev pub new_limiter : {F : Type 0} → ℕ → ClientRateLimiter F
new_limiter refill_per_second = record {
  capacity = burst refill_per_second;
  refill_per_second = refill_per_second;
  buckets = [];
}

abbrev pub bucket_of :
    {F : Type 0} → Floats F → ℕ → ClientRateLimiter F → Option (TokenBucket F) → TokenBucket F
bucket_of fl now l none = new_bucket fl now l.capacity l.refill_per_second
bucket_of fl now l (some b) = b

-- `ClientRateLimiter::try_consume`: a client's first call makes its bucket.
unfoldable pub try_consume :
    {F : Type 0} → Floats F → ℕ → Str → ClientRateLimiter F → Bool × ClientRateLimiter F
unfolding take_tokens lookup insert
try_consume fl now client_id l =
    if eqb l.refill_per_second 0
    then (true, l)
    else let taken = take_tokens fl now 1 (bucket_of fl now l (lookup client_id l.buckets)) in
      (taken.0, record l { buckets = insert client_id taken.1 l.buckets })

unfoldable pub remove_client : {F : Type 0} → Str → ClientRateLimiter F → ClientRateLimiter F
unfolding remove
remove_client client_id l = record l { buckets = remove client_id l.buckets }

abbrev pub reset : {F : Type 0} → ℕ → ClientRateLimiter F → ClientRateLimiter F
reset refill_per_second l = new_limiter refill_per_second

unfoldable pub ip_same : IpAddr → IpAddr → Bool
ip_same (v4 a) (v4 b) = eqb a b
ip_same (v6 a) (v6 b) = eqb a b
ip_same _ _ = false

pub ip_same_iff : (a b : IpAddr) → (ip_same a b ≡ true) ↔ (a ≡ b)
unfolding ip_same
ip_same_iff (v4 a) (v4 b) = ground (arith, eqb_iff a b)
ip_same_iff (v6 a) (v6 b) = ground (arith, eqb_iff a b)
ip_same_iff (v4 a) (v6 b) = (λ h. cc, λ h. cc)
ip_same_iff (v6 a) (v4 b) = (λ h. cc, λ h. cc)

instance abbrev pub ip_key : Key IpAddr
ip_key = record { same = ip_same; same_iff = ip_same_iff }

-- `IpConnectionCounter`.
abbrev pub Counts : Type 0
Counts = Assoc IpAddr ℕ

abbrev pub or_zero : Option ℕ → ℕ
or_zero none = 0
or_zero (some n) = n

unfoldable pub count_of : IpAddr → Counts → ℕ
unfolding lookup
count_of ip counts = or_zero (lookup ip counts)

unfoldable pub inc : IpAddr → Counts → Counts
unfolding lookup insert
inc ip counts = insert ip ((or_zero (lookup ip counts) + 1) % 2 ^ 64) counts

-- An entry that falls to 0 is removed.
unfoldable pub dec : IpAddr → Counts → Counts
unfolding lookup insert remove
dec ip counts = elim (lookup ip counts) [
  | none ↦ counts
  | some v ↦ if eqb (v - 1) 0 then remove ip counts else insert ip (v - 1) counts
]

abbrev pub tracked_ips : Counts → ℕ
tracked_ips counts = length counts

-- ===== src/Security/Burst.antt =====
-- src/security/limiter.rs: what a client is granted over time, whatever the other clients do.
use native.Mathlib.Nat.{zero-add}
use lumen_mq.Prelude.{
  inl, inr, ℕ, zero, suc, subst, sym, ap, ◌∙◌, ◌*◌, ◌+◌, ◌-◌, ◌^◌, ◌<◌, ◌≤◌, ◌≡◌, ◌≢◌, ◌⊎◌, refl,
  min, true, false, some, none, List, [], ◌∷◌, Str, if◌then◌else◌, ltb, eqb, ◌==◌, nat_key,
  list_key, arith, Bool-cases, ==_refl,
}
use lumen_mq.Prelude.Assoc.{lookup, lookup-insert, insert}
use lumen_mq.Security.Limiter.{
  Floats, TokenBucket, refill, take_tokens, ClientRateLimiter, bucket_of, try_consume, burst,
  new_limiter,
}

-- What `f64` promises of whole numbers below 2 ^ 32: they are exact; no time is no refill, and some
-- whole seconds are one; what whole seconds add is exact, up to a capacity.
pub record WholeTokens {F : Type 0} (fl : Floats F) : Type 0 where
  pub still : fl.positive (fl.elapsed 0) ≡ false
  pub moves : (secs : ℕ) → fl.positive (fl.elapsed (suc secs * 1000000000)) ≡ true
  pub refilled :
      (n rate secs cap : ℕ)
      → n < 2 ^ 32
      → rate < 2 ^ 32
      → cap < 2 ^ 32
      → fl.least
          (fl.add (fl.of_u32 n) (fl.mul (fl.elapsed (secs * 1000000000)) (fl.of_u32 rate)))
          (fl.of_u32 cap)
        ≡ fl.of_u32 (min (n + secs * rate) cap)
  pub sub_one : (n : ℕ) → suc n < 2 ^ 32 → fl.sub (fl.of_u32 (suc n)) (fl.of_u32 1) ≡ fl.of_u32 n
  pub enough : (n : ℕ) → n < 2 ^ 32 → fl.at_least (fl.of_u32 n) (fl.of_u32 1) ≡ ltb 0 n

-- The calls of `client_id` that succeed in a sequence of calls by clients at one instant, and the
-- limiter after them.
abbrev pub grants :
    {F : Type 0} → Floats F → ℕ → Str → List Str → ClientRateLimiter F → ℕ × ClientRateLimiter F
grants fl now client_id [] l = (0, l)
grants fl now client_id (caller ∷ callers) l =
    let tried = try_consume fl now caller l in
    let later = grants fl now client_id callers tried.1 in
    ((if caller == client_id then (if tried.0 then 1 else 0) else 0) + later.0, later.1)

-- The same in rounds: each has the whole seconds since the round before, and the callers.
abbrev pub grants_over :
    {F : Type 0} → Floats F → ℕ → Str → List (ℕ × List Str) → ClientRateLimiter F → List ℕ
grants_over fl now client_id [] l = []
grants_over fl now client_id ((secs, callers) ∷ rounds) l =
    let at = now + secs * 1000000000 in
    let granted = grants fl at client_id callers l in
    granted.0 ∷ grants_over fl at client_id rounds granted.1

-- The calls of `client_id`.
abbrev pub calls_of : Str → List Str → ℕ
calls_of client_id [] = 0
calls_of client_id (caller ∷ callers) =
    (if caller == client_id then 1 else 0) + calls_of client_id callers

-- What a client that has `left` calls left may do in each round: it gains `rate` calls for each second,
-- up to `cap`, and uses up what it makes of them.
abbrev pub allowed : ℕ → ℕ → Str → ℕ → List (ℕ × List Str) → List ℕ
allowed rate cap client_id left [] = []
allowed rate cap client_id left ((secs, callers) ∷ rounds) =
    let now_left = min (left + secs * rate) cap in
    let granted = min (calls_of client_id callers) now_left in
    granted ∷ allowed rate cap client_id (now_left - granted) rounds

waited_lem :
    (n cap s t rate : ℕ)
    → min (min (n + s * rate) cap + t * rate) cap ≡ min (n + (s + t) * rate) cap
waited_lem n cap s t rate = omega arith

module _ {F : Type 0} (fl : Floats F) (w : WholeTokens fl) (rate : ℕ) (some_rate : rate ≢ 0)
    (small : rate < 2 ^ 32) where
  abbrev cap : ℕ
  cap = min (rate * 2) (2 ^ 32 - 1)

  abbrev bucket : ℕ → ℕ → TokenBucket F
  bucket n at = record {
    capacity = cap;
    refill_per_second = rate;
    tokens = fl.of_u32 n;
    last_refill = at;
  }

  -- The client may make `n` calls more at the instant.
  abbrev Left : Str → ℕ → ℕ → ClientRateLimiter F → Type 0
  Left client_id n now l =
      (l.refill_per_second ≡ rate)
      × (l.capacity ≡ cap)
      × (((lookup client_id l.buckets ≡ none) × (n ≡ cap))
          ⊎ ((m last secs : ℕ) × (lookup client_id l.buckets ≡ some (bucket m last))
              × (m ≤ cap)
              × (last + secs * 1000000000 ≡ now)
              × (n ≡ min (m + secs * rate) cap)))

  refill_lem :
      (m last secs : ℕ)
      → m ≤ cap
      → refill fl (last + secs * 1000000000) (bucket m last)
        ≡ bucket (min (m + secs * rate) cap) (last + secs * 1000000000)
  unfolding refill
  refill_lem m last zero h =
      let e : last + 0 * 1000000000 - last ≡ 0 = omega arith in
      let same : min (m + 0 * rate) cap ≡ m = omega (arith, h) in
      let at : last + 0 * 1000000000 ≡ last = omega arith in rw (e, w.still, same, at) refl
  refill_lem m last (suc secs) h =
      let e : last + suc secs * 1000000000 - last ≡ suc secs * 1000000000 = omega arith in
      rw (e, w.moves secs, w.refilled m rate (suc secs) cap (omega (arith, h)) small (omega arith))
        refl

  take_lem :
      (n at : ℕ) (b : TokenBucket F)
      → n < 2 ^ 32
      → refill fl at b ≡ bucket n at
      → take_tokens fl at 1 b ≡ (ltb 0 n, bucket (n - 1) at)
  unfolding take_tokens
  take_lem zero at b h e = rw (e, w.enough 0 h) refl
  take_lem (suc n) at b h e =
      let pos : ltb 0 (suc n) ≡ true = ground arith in
      let pred : suc n - 1 ≡ n = omega arith in
      rw (e, w.enough (suc n) h, w.sub_one n h, pos, pred) refl

  -- The bucket that a call finds, once it is refilled.
  found_lem :
      (client_id : Str) (n now : ℕ) (l : ClientRateLimiter F)
      → Left client_id n now l
      → (refill fl now (bucket_of fl now l (lookup client_id l.buckets)) ≡ bucket n now) × (n ≤ cap)
  found_lem client_id n now l (r, c, inl (absent, full)) =
      let fresh : bucket_of fl now l (lookup client_id l.buckets) ≡ bucket n now =
        rw (absent, r, c, full) refl in
      let at : now + 0 * 1000000000 ≡ now = omega arith in
      let same : min (n + 0 * rate) cap ≡ n = omega (arith, full) in
      (
        ap (λ b. refill fl now b) fresh
            ∙ subst (λ t. refill fl t (bucket n now) ≡ bucket n t) at
                (subst
                  (λ k.
                    refill fl (now + 0 * 1000000000) (bucket n now)
                    ≡ bucket k (now + 0 * 1000000000))
                  same (refill_lem n now 0 (omega (arith, full)))),
        omega (arith, full),
      )
  found_lem client_id n now l (r, c, inr (m, last, secs, there, le, at, count)) =
      let found : bucket_of fl now l (lookup client_id l.buckets) ≡ bucket m last = rw there refl in
      (
        ap (λ b. refill fl now b) found
            ∙ subst (λ t. refill fl t (bucket m last) ≡ bucket n t) at
                (rw count (refill_lem m last secs le)),
        omega (arith, count),
      )

  waited :
      (client_id : Str) (n now secs : ℕ) (l : ClientRateLimiter F)
      → Left client_id n now l
      → Left client_id (min (n + secs * rate) cap) (now + secs * 1000000000) l
  waited client_id n now secs l (r, c, inl (absent, full)) =
      (r, c, inl (absent, omega (arith, full)))
  waited client_id n now secs l (r, c, inr (m, last, before, there, le, at, count)) = (
    r,
    c,
    inr (
      m,
      last,
      before + secs,
      there,
      le,
      omega (arith, at),
      rw count (waited_lem m cap before secs rate),
    ),
  )

  other_call :
      (client_id caller : Str) (n now : ℕ) (l : ClientRateLimiter F)
      → (caller == client_id) ≡ false
      → Left client_id n now l
      → Left client_id n now (try_consume fl now caller l).1
  unfolding try_consume
  other_call client_id caller n now l other (r, c, h) =
      let no_zero : eqb l.refill_per_second 0 ≡ false = ground (arith, r, some_rate) in
      let taken = (take_tokens fl now 1 (bucket_of fl now l (lookup caller l.buckets))).1 in
      let put : lookup client_id (insert caller taken l.buckets) ≡ lookup client_id l.buckets =
        rw other at (lookup-insert caller client_id taken l.buckets) in
      rw (no_zero, put, try_consume) (r, c, h)

  own_call :
      (client_id : Str) (n now : ℕ) (l : ClientRateLimiter F)
      → Left client_id n now l
      → ((try_consume fl now client_id l).0 ≡ ltb 0 n)
        × Left client_id (n - 1) now (try_consume fl now client_id l).1
  unfolding try_consume
  own_call client_id n now l h =
      let (found, le) = found_lem client_id n now l h in
      let b = bucket_of fl now l (lookup client_id l.buckets) in
      let took = take_lem n now b (omega (arith, le)) found in
      let no_zero : eqb l.refill_per_second 0 ≡ false = ground (arith, h.0, some_rate) in
      let put : lookup client_id (insert client_id (bucket (n - 1) now) l.buckets)
          ≡ some (bucket (n - 1) now) =
        rw (==_refl client_id) at
          (lookup-insert client_id client_id (bucket (n - 1) now) l.buckets) in
      rw (no_zero, took, try_consume)
        (
          refl,
          (h.0, h.1, inr (n - 1, now, 0, put, omega (arith, le), omega arith, omega (arith, le))),
        )

  granted_lem :
      (client_id : Str) (callers : List Str) (n now : ℕ) (l : ClientRateLimiter F)
      → Left client_id n now l
      → let used = min (calls_of client_id callers) n in
        ((grants fl now client_id callers l).0 ≡ used)
        × Left client_id (n - used) now (grants fl now client_id callers l).1
  granted_lem client_id [] n now l h =
      let none_used : n - min 0 n ≡ n = omega arith in (omega arith, rw none_used h)
  granted_lem client_id (caller ∷ callers) n now l h = elim (Bool-cases (caller == client_id)) [
    | inl own ↦
        let e : caller ≡ client_id = (list_key.same_iff caller client_id).0 own in
        let (got, left) = own_call client_id n now l h in
        let (count, later) =
          granted_lem client_id callers (n - 1) now (try_consume fl now client_id l).1 left in
        let rest : n - 1 - min (calls_of client_id callers) (n - 1)
            ≡ n - min (1 + calls_of client_id callers) n =
          omega arith in
        subst
          (λ c.
            ((grants fl now client_id (c ∷ callers) l).0 ≡ min (calls_of client_id (c ∷ callers)) n)
            × Left client_id (n - min (calls_of client_id (c ∷ callers)) n) now
                (grants fl now client_id (c ∷ callers) l).1)
          (sym e)
          (rw (==_refl client_id, got, count)
            (
              ground arith,
              subst
                  (λ k.
                    Left client_id k now
                      (grants fl now client_id callers (try_consume fl now client_id l).1).1)
                  rest later,
            ))
    | inr other ↦
        let left = other_call client_id caller n now l other h in
        let (count, later) =
          granted_lem client_id callers n now (try_consume fl now caller l).1 left in
        rw (other, zero-add, zero-add) (count, later)
  ]

  rounds_lem :
      (client_id : Str) (rounds : List (ℕ × List Str)) (n now : ℕ) (l : ClientRateLimiter F)
      → Left client_id n now l
      → grants_over fl now client_id rounds l ≡ allowed rate cap client_id n rounds
  rounds_lem client_id [] n now l h = refl
  rounds_lem client_id ((secs, callers) ∷ rounds) n now l h =
      let ready = waited client_id n now secs l h in
      let left = min (n + secs * rate) cap in
      let at = now + secs * 1000000000 in
      let (count, later) = granted_lem client_id callers left at l ready in
      rw count (
        ap (λ x. min (calls_of client_id callers) left ∷ x)
          (rounds_lem client_id rounds (left - min (calls_of client_id callers) left) at
            (grants fl at client_id callers l).1 later))

  -- For a rate other than 0, and where whole numbers below 2 ^ 32 and whole seconds are exact: from a
  -- fresh limiter, of any calls by any clients in rounds that come whole seconds apart, a client's
  -- succeed in each round up to what it has left. That is the burst, twice the rate but less than
  -- 2 ^ 32, at first; a second adds the rate to it, up to the burst, and each call that succeeds takes
  -- one. What the other clients do has no effect on it.
  pub grants_over-new_limiter :
      (client_id : Str) (now : ℕ) (rounds : List (ℕ × List Str))
      → let most = min (rate * 2) (2 ^ 32 - 1) in
        grants_over fl now client_id rounds (new_limiter rate)
        ≡ allowed rate most client_id most rounds
  unfolding lookup
  grants_over-new_limiter client_id now rounds =
      let full : burst rate ≡ cap = omega (arith, some_rate) in
      rounds_lem client_id rounds cap now (new_limiter rate) (refl, full, inl (refl, refl))

-- ===== src/Broker/Session/Expiry.antt =====
-- src/broker/session.rs: the cleanup removes the expired sessions and no others.
use lumen_mq.Prelude.{
  sym, ◌-◌, ◌*◌, ◌≤◌, ◌⊎◌, ◌↔◌, Option, eqb, ℕ, ◌≡◌, ◌≢◌, refl, subst, ◌∙◌, Bool, true, false, some,
  none, List, [], ◌∷◌, Str, if◌then◌else◌, nat_key, list_key, ◌==◌, arith, Option-cases, Bool-cases,
  inl, inr, In,
}
use lumen_mq.Prelude.Assoc.{Assoc, lookup, remove, lookup-remove}
use lumen_mq.Broker.Session.{SessionEntry, SessionManager, expired_after, field_of}
use lumen_mq.Broker.Session.Leave.{expired_ids, remove_expired, cleanup_expired, is_due}
use lumen_mq.Broker.Session.Preserved.{WellFormed}
use lumen_mq.Broker.Session.Count.{str_iff}

expired_listed :
    (now : ℕ) (id : Str) (e : SessionEntry) (s : Assoc Str SessionEntry)
    → e.client_id ≡ id
    → lookup id s ≡ some e
    → is_due now e ≡ true
    → In id (expired_ids now s)
unfolding expired_ids lookup
expired_listed now id e [] o h x = cc
expired_listed now id e' ((k, d) ∷ s) o h x = elim (Bool-cases (k == id)) [
  | inl e ↦ ground (arith, e, h, x, o)
  | inr e ↦ ground (arith, e, expired_listed now id e' s o (ground (arith, h, e)) x)
]

absent_stays :
    (now : ℕ) (ids : List Str) (id : Str) (s : Assoc Str SessionEntry)
    → lookup id s ≡ none
    → lookup id (remove_expired now ids s).1 ≡ none
unfolding remove_expired
absent_stays now [] id s h = h
absent_stays now (i ∷ ids) id s h = ground (
  arith,
  absent_stays now ids id (remove i s),
  absent_stays now ids id s h,
  lookup-remove i id s,
  h,
)

abbrev expired_in : ℕ → Str → Assoc Str SessionEntry → Bool
expired_in now id s = field_of false (is_due now) (lookup id s)

lookup-remove_expired :
    (now : ℕ) (ids : List Str) (id : Str) (s : Assoc Str SessionEntry)
    → expired_in now id s ≡ false
    → lookup id (remove_expired now ids s).1 ≡ lookup id s
unfolding remove_expired
lookup-remove_expired now [] id s h = refl
lookup-remove_expired now (i ∷ ids) id s h = elim (Bool-cases (expired_in now i s)) [
  | inl e ↦
      let apart : (i == id) ≡ false = ground (arith, str_iff i id, e, h) in
      let kept : lookup id (remove i s) ≡ lookup id s =
        ground (arith, lookup-remove i id s, apart) in
      rw (e) (lookup-remove_expired now ids id (remove i s) (rw (kept) h) ∙ kept)
  | inr e ↦ rw (e) (lookup-remove_expired now ids id s h)
]

apart_from : (j id : Str) → (j == id) ≡ false → id ≢ j
apart_from j id h e = ground (arith, str_iff j id, h, e)

listed_removed :
    (now : ℕ) (ids : List Str) (id : Str) (s : Assoc Str SessionEntry)
    → In id ids
    → expired_in now id s ≡ true
    → lookup id (remove_expired now ids s).1 ≡ none
unfolding remove_expired
listed_removed now [] id s i h = absurd i
listed_removed now (j ∷ ids) id s i h = elim (Bool-cases (j == id)) [
  | inl e ↦
      let here : j ≡ id = (str_iff j id).0 e in
      let gone : lookup id (remove j s) ≡ none = ground (arith, lookup-remove j id s, e) in
      rw (here, h)
        (subst (λ k. lookup id (remove_expired now ids (remove k s)).1 ≡ none) here
          (absent_stays now ids id (remove j s) gone))
  | inr e ↦
      let later : In id ids = elim i [ inl z ↦ absurd (apart_from j id e z) | inr z ↦ z ] in
      let kept : lookup id (remove j s) ≡ lookup id s = ground (arith, lookup-remove j id s, e) in
      ground (
        arith,
        listed_removed now ids id s later h,
        listed_removed now ids id (remove j s) later (rw (kept) h),
      )
]

-- The session is offline and its expiry has come: it is 0, or the client has been away for that many
-- seconds at least.
abbrev pub Overdue : ℕ → SessionEntry → Type 0
Overdue now e =
    (e.connected ≡ false)
    × (secs : ℕ) × (e.session_expiry ≡ some secs)
    × ((secs ≡ 0) ⊎ ((at : ℕ) × (e.offline_at ≡ some at) × (secs * 1000000000 ≤ now - at)))

after-Overdue :
    (now : ℕ) (e : SessionEntry) (expiry at : Option ℕ)
    → e.session_expiry ≡ expiry
    → e.offline_at ≡ at
    → e.connected ≡ false
    → (expired_after now expiry at ≡ true) ↔ Overdue now e
after-Overdue now e none at x o c = ((λ h. cc), λ (c', secs, h, k). ground (arith, x, h))
after-Overdue now e (some secs) none x o c = (
  (λ h. (c, secs, x, inl (ground (arith, h)))),
  λ (c', secs', h, k). elim k [
    | inl z ↦ ground (arith, x, h, z)
    | inr (t, a, b) ↦ ground (arith, o, a)
  ],
)
after-Overdue now e (some secs) (some t) x o c = elim (Bool-cases (eqb secs 0)) [
  | inl z ↦ ((λ h. (c, secs, x, inl (ground (arith, z)))), λ k. ground (arith, z))
  | inr z ↦ (
    (λ h. (c, secs, x, inr (t, o, ground (arith, h, z)))),
    λ (c', secs', h, k). elim k [
      | inl y ↦ ground (arith, x, h, y, z)
      | inr (t', a, b) ↦ ground (arith, x, h, o, a, b, z)
    ],
  )
]

is_due-Overdue : (now : ℕ) (e : SessionEntry) → (is_due now e ≡ true) ↔ Overdue now e
is_due-Overdue now e = elim (Bool-cases e.connected) [
  | inl c ↦ ((λ h. ground (arith, c, h)), λ k. ground (arith, c, k.0))
  | inr c ↦
      let known = after-Overdue now e e.session_expiry e.offline_at refl refl c in
      ((λ h. known.0 (ground (arith, c, h))), λ k. let d = known.1 k in ground (arith, c, d))
]

removed_exactly :
    (now : ℕ) (m : SessionManager) (id : Str)
    → WellFormed m
    → lookup id (cleanup_expired now m).1.sessions
      ≡ (if expired_in now id m.sessions then none else lookup id m.sessions)
unfolding cleanup_expired
removed_exactly now m id w = elim (Bool-cases (expired_in now id m.sessions)) [
  | inl e ↦ elim (Option-cases (lookup id m.sessions)) [
    | inl n ↦ ground (arith, n, e)
    | inr (d, n) ↦
        let listed =
          expired_listed now id d m.sessions (w.own_id id d n) n (ground (arith, n, e)) in
        rw (e) (listed_removed now (expired_ids now m.sessions) id m.sessions listed e)
  ]
  | inr e ↦ rw (e) (lookup-remove_expired now (expired_ids now m.sessions) id m.sessions e)
]

-- On a well-formed table `cleanup_expired` removes exactly the sessions that are overdue at that
-- instant, that is offline and with an expiry of 0 or one that has run out since the client left; every
-- other session is left as it was.
pub cleanup_expired_exact :
    (now : ℕ) (m : SessionManager) (id : Str)
    → WellFormed m
    → let after = lookup id (cleanup_expired now m).1.sessions in
      ((e : SessionEntry) × (lookup id m.sessions ≡ some e) × Overdue now e × (after ≡ none))
      ⊎ ((after ≡ lookup id m.sessions)
          × ¬ ((e : SessionEntry) × (lookup id m.sessions ≡ some e) × Overdue now e))
cleanup_expired_exact now m id w =
    let exact = removed_exactly now m id w in
    elim (Option-cases (lookup id m.sessions)) [
      | inl n ↦ inr (ground (arith, exact, n), λ (e, h, k). ground (arith, n, h))
      | inr (e, n) ↦ elim (Bool-cases (is_due now e)) [
        | inl d ↦ inl (e, n, (is_due-Overdue now e).0 d, ground (arith, exact, n, d))
        | inr d ↦ inr (
          ground (arith, exact, n, d),
          λ (e', h, k).
              let same : e ≡ e' = ground (arith, n, h) in
              let due = (is_due-Overdue now e).1 (subst (λ x. Overdue now x) (sym same) k) in
              ground (arith, due, d),
        )
      ]
    ]

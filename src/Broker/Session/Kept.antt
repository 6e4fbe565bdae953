-- ===== src/Broker/Session/Kept.antt =====
-- src/broker/session.rs: the calls at the end of a connection or a session keep the table well
-- formed.
use lumen_mq.Prelude.{
  ℕ, ◌+◌, ◌%◌, ◌^◌, ◌≡◌, inl, inr, refl, ap, subst, ◌∙◌, Bool, true, false, not, ◌&&◌, some, none,
  List, [], ◌∷◌, Str, if◌then◌else◌, nat_key, list_key, arith, Option-cases, Bool-cases, eqb,
}
use lumen_mq.Prelude.Assoc.{lookup, remove, remove-IsMap, lookup-remove}
use lumen_mq.Broker.Session.{SessionEntry, SessionManager, add_one, sub_one, was_online, is_expired}
use lumen_mq.Broker.Session.Leave.{
  remove_where, mark_offline, mark_online, remove_expired, take_will, clear_will,
}
use lumen_mq.Broker.Session.Count.{online, online-remove, sub_one_counts}
use lumen_mq.Broker.Session.Preserved.{
  WellFormed, put_session-WellFormed, same_count, one_more, one_less,
}

pub mark_offline-WellFormed :
    (now : ℕ) (id : Str) (epoch : ℕ) (m : SessionManager)
    → WellFormed m
    → WellFormed (mark_offline now id epoch m)
unfolding mark_offline
mark_offline-WellFormed now id epoch m w = elim (Option-cases (lookup id m.sessions)) [
  | inl n ↦ rw (n, mark_offline) w
  | inr (e, n) ↦ elim (Bool-cases (eqb e.epoch epoch && e.connected)) [
    | inl c ↦
        let e' : SessionEntry = record e { connected = false; offline_at = some now } in
        let on : was_online (lookup id m.sessions) ≡ true = ground (arith, n, c) in
        rw (n, c, mark_offline)
          (put_session-WellFormed id e' (sub_one m.online_count) m w (w.own_id id e n)
            (w.given_out id e n) (one_less id e' m w on refl))
    | inr c ↦ rw (n, c, mark_offline) w
  ]
]

pub mark_online-WellFormed :
    (id : Str) (epoch : ℕ) (m : SessionManager) → WellFormed m → WellFormed (mark_online id epoch m)
unfolding mark_online
mark_online-WellFormed id epoch m w = elim (Option-cases (lookup id m.sessions)) [
  | inl n ↦ rw (n, mark_online) w
  | inr (e, n) ↦ elim (Bool-cases (eqb e.epoch epoch && not e.connected)) [
    | inl c ↦
        let e' : SessionEntry = record e { connected = true; offline_at = none } in
        let off : was_online (lookup id m.sessions) ≡ false = ground (arith, n, c) in
        rw (n, c, mark_online)
          (put_session-WellFormed id e' (add_one m.online_count) m w (w.own_id id e n)
            (w.given_out id e n) (one_more id e' m w off refl))
    | inr c ↦ rw (n, c, mark_online) w
  ]
]

pub take_will-WellFormed :
    (id : Str) (epoch : ℕ) (m : SessionManager) → WellFormed m → WellFormed (take_will id epoch m).1
unfolding take_will
take_will-WellFormed id epoch m w = elim (Option-cases (lookup id m.sessions)) [
  | inl n ↦ rw (n, take_will) w
  | inr (e, n) ↦ elim (Bool-cases (eqb e.epoch epoch)) [
    | inl c ↦
        let e' : SessionEntry = record e { will = none } in
        rw (n, c, take_will)
          (put_session-WellFormed id e' m.online_count m w (w.own_id id e n) (w.given_out id e n)
            (same_count id e' e m w n refl))
    | inr c ↦ rw (n, c, take_will) w
  ]
]

pub clear_will-WellFormed :
    (id : Str) (epoch : ℕ) (m : SessionManager) → WellFormed m → WellFormed (clear_will id epoch m)
unfolding clear_will
clear_will-WellFormed id epoch m w = elim (Option-cases (lookup id m.sessions)) [
  | inl n ↦ rw (n, clear_will) w
  | inr (e, n) ↦ elim (Bool-cases (eqb e.epoch epoch)) [
    | inl c ↦
        let e' : SessionEntry = record e { will = none } in
        rw (n, c, clear_will)
          (put_session-WellFormed id e' m.online_count m w (w.own_id id e n) (w.given_out id e n)
            (same_count id e' e m w n refl))
    | inr c ↦ rw (n, c, clear_will) w
  ]
]

without_session :
    (id : Str) (c : ℕ) (m : SessionManager)
    → WellFormed m
    → c ≡ online (remove id m.sessions) % 2 ^ 64
    → WellFormed (record m { sessions = remove id m.sessions; online_count = c })
without_session id c m w h = record {
  one_each = remove-IsMap id m.sessions w.one_each;
  counted = h;
  own_id = λ at d k. ground (arith, lookup-remove id at m.sessions, w.own_id at d, k);
  given_out = λ at d k. ground (arith, lookup-remove id at m.sessions, w.given_out at d, k);
}

removed_count :
    (id : Str) (e : SessionEntry) (m : SessionManager)
    → WellFormed m
    → lookup id m.sessions ≡ some e
    → (if e.connected then sub_one m.online_count else m.online_count)
      ≡ online (remove id m.sessions) % 2 ^ 64
removed_count id e m w n = elim (Bool-cases e.connected) [
  | inl c ↦
      let counts : online m.sessions ≡ online (remove id m.sessions) + 1 =
        ground (arith, online-remove id m.sessions w.one_each, n, c) in
      rw c (
        sub_one_counts m.online_count (online (remove id m.sessions))
          (w.counted ∙ ap (λ n. n % 2 ^ 64) counts))
  | inr c ↦
      let counts : online m.sessions ≡ online (remove id m.sessions) =
        ground (arith, online-remove id m.sessions w.one_each, n, c) in
      rw c (w.counted ∙ ap (λ n. n % 2 ^ 64) counts)
]

pub remove_where-WellFormed :
    (test : SessionEntry → Bool) (id : Str) (m : SessionManager)
    → WellFormed m
    → WellFormed (remove_where test id m).1
unfolding remove_where
remove_where-WellFormed test id m w = elim (Option-cases (lookup id m.sessions)) [
  | inl n ↦ rw (n, remove_where) w
  | inr (e, n) ↦ elim (Bool-cases (test e)) [
    | inl c ↦
        rw (n, c, remove_where)
          (without_session id (if e.connected then sub_one m.online_count else m.online_count) m w
            (removed_count id e m w n))
    | inr c ↦ rw (n, c, remove_where) w
  ]
]

pub remove_expired-WellFormed :
    (now : ℕ) (ids : List Str) (m : SessionManager)
    → WellFormed m
    → WellFormed (record m { sessions = (remove_expired now ids m.sessions).1 })
unfolding remove_expired
remove_expired-WellFormed now [] m w = w
remove_expired-WellFormed now (id ∷ ids) m w = elim (Option-cases (lookup id m.sessions)) [
  | inl n ↦ rw n (remove_expired-WellFormed now ids m w)
  | inr (e, n) ↦ elim (Bool-cases (is_expired now e)) [
    | inl c ↦
        let off : e.connected ≡ false = ground (arith, c) in
        let count = removed_count id e m w n in
        let m' : SessionManager = record m { sessions = remove id m.sessions } in
        rw (n, c)
          (remove_expired-WellFormed now ids m' (
            without_session id m.online_count m w (
              subst
                (λ b.
                  (if b then sub_one m.online_count else m.online_count)
                  ≡ online (remove id m.sessions) % 2 ^ 64)
                off count)))
    | inr c ↦ rw (n, c) (remove_expired-WellFormed now ids m w)
  ]
]

-- ===== src/Broker/Router/Leaving.antt =====
-- src/broker/session.rs: the calls of a connection's end leave each queue its capacity.
use lumen_mq.Prelude.{
  ℕ, ◌≡◌, refl, Bool, false, some, List, [], ◌∷◌, Str, eqb, ◌==◌, nat_key, list_key, arith,
  Option-cases, Bool-cases, inl, inr, ◌&&◌,
}
use lumen_mq.Prelude.Assoc.{lookup, insert, remove, lookup-insert, lookup-remove}
use lumen_mq.Broker.Session.{
  SessionEntry, SessionManager, Registration, register, new_entry, add_one, field_of, is_expired,
}
use lumen_mq.Broker.Session.Leave.{
  remove_where, mark_offline, take_will, clear_will, remove_expired,
}
use lumen_mq.Broker.Router.Fanout.{Roomy}

-- A session replaced by one with the same queue.
put-Roomy :
    (id : Str) (e e' : SessionEntry) (c : ℕ) (m : SessionManager)
    → Roomy m
    → lookup id m.sessions ≡ some e
    → e'.offline_queue ≡ e.offline_queue
    → Roomy (record m { sessions = insert id e' m.sessions; online_count = c })
put-Roomy id e e' c m w l s = (
  w.0,
  λ at e2 q2 k n. elim (Bool-cases (id == at)) [
    | inl i ↦ w.1 id e q2 l (ground (arith, i, k, n, s, lookup-insert id at e' m.sessions))
    | inr i ↦ w.1 at e2 q2 (ground (arith, i, k, lookup-insert id at e' m.sessions)) n
  ],
)

pub register-Roomy :
    (now : ℕ) (r : Registration) (m : SessionManager) → Roomy m → Roomy (register now r m).1
unfolding register
register-Roomy now r m w = (
  w.0,
  λ at e2 q2 k n. elim (Bool-cases (r.client_id == at)) [
    | inl i ↦ ground (
      arith,
      i,
      k,
      n,
      w.0,
      lookup-insert r.client_id at (new_entry now (add_one m.epoch_counter) r m) m.sessions,
    )
    | inr i ↦
        w.1 at e2 q2
          (ground (
            arith,
            i,
            k,
            lookup-insert r.client_id at (new_entry now (add_one m.epoch_counter) r m) m.sessions,
          ))
          n
  ],
)

pub mark_offline-Roomy :
    (now : ℕ) (id : Str) (epoch : ℕ) (m : SessionManager)
    → Roomy m
    → Roomy (mark_offline now id epoch m)
unfolding mark_offline
mark_offline-Roomy now id epoch m w = elim (Option-cases (lookup id m.sessions)) [
  | inl n ↦ rw (n, mark_offline) w
  | inr (e, n) ↦ elim (Bool-cases (eqb e.epoch epoch && e.connected)) [
    | inl c ↦ rw (n, c, mark_offline) (put-Roomy id e _ 0 m w n refl)
    | inr c ↦ rw (n, c, mark_offline) w
  ]
]

pub take_will-Roomy :
    (id : Str) (epoch : ℕ) (m : SessionManager) → Roomy m → Roomy (take_will id epoch m).1
unfolding take_will
take_will-Roomy id epoch m w = elim (Option-cases (lookup id m.sessions)) [
  | inl n ↦ rw (n, take_will) w
  | inr (e, n) ↦ elim (Bool-cases (eqb e.epoch epoch)) [
    | inl c ↦ rw (n, c, take_will) (put-Roomy id e _ 0 m w n refl)
    | inr c ↦ rw (n, c, take_will) w
  ]
]

pub clear_will-Roomy :
    (id : Str) (epoch : ℕ) (m : SessionManager) → Roomy m → Roomy (clear_will id epoch m)
unfolding clear_will
clear_will-Roomy id epoch m w = elim (Option-cases (lookup id m.sessions)) [
  | inl n ↦ rw (n, clear_will) w
  | inr (e, n) ↦ elim (Bool-cases (eqb e.epoch epoch)) [
    | inl c ↦ rw (n, c, clear_will) (put-Roomy id e _ 0 m w n refl)
    | inr c ↦ rw (n, c, clear_will) w
  ]
]

without-Roomy :
    (id : Str) (c : ℕ) (m : SessionManager)
    → Roomy m
    → Roomy (record m { sessions = remove id m.sessions; online_count = c })
without-Roomy id c m w =
    (w.0, λ at e2 q2 k n. w.1 at e2 q2 (ground (arith, k, lookup-remove id at m.sessions)) n)

pub remove_where-Roomy :
    (test : SessionEntry → Bool) (id : Str) (m : SessionManager)
    → Roomy m
    → Roomy (remove_where test id m).1
unfolding remove_where
remove_where-Roomy test id m w = elim (Option-cases (lookup id m.sessions)) [
  | inl n ↦ rw (n, remove_where) w
  | inr (e, n) ↦ elim (Bool-cases (test e)) [
    | inl c ↦ rw (n, c, remove_where) (without-Roomy id 0 m w)
    | inr c ↦ rw (n, c, remove_where) w
  ]
]

pub remove_expired-Roomy :
    (now : ℕ) (ids : List Str) (m : SessionManager)
    → Roomy m
    → Roomy (record m { sessions = (remove_expired now ids m.sessions).1 })
unfolding remove_expired
remove_expired-Roomy now [] m w = w
remove_expired-Roomy now (id ∷ ids) m w =
    elim (Bool-cases (field_of false (is_expired now) (lookup id m.sessions))) [
      | inl c ↦ rw c (
          remove_expired-Roomy now ids (record m { sessions = remove id m.sessions })
            (without-Roomy id m.online_count m w))
      | inr c ↦ rw c (remove_expired-Roomy now ids m w)
    ]

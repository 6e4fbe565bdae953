-- ===== src/Broker/Session/Preserved.antt =====
-- src/broker/session.rs: each call keeps the session table well formed.
use lumen_mq.Prelude.{
  ℕ, ◌+◌, ◌%◌, ◌^◌, ◌≤◌, ◌<◌, ◌≡◌, inl, inr, refl, sym, ap, subst, ◌∙◌, true, false, some, Str,
  nat_key, list_key, arith, Option-cases, Bool-cases,
}
use lumen_mq.Prelude.Assoc.{lookup, insert, IsMap, insert-IsMap, lookup-insert}
use lumen_mq.Broker.Message.{OutboundPublish}
use lumen_mq.Broker.Offline.{enqueue}
use lumen_mq.Broker.Session.{
  SessionEntry, SessionManager, Registration, add_one, sub_one, was_online, register, new_entry,
}
use lumen_mq.Broker.Session.Deliver.{
  Channel, DeliveryOutcome, deliver_or_enqueue, send_or_store, store_or,
}
use lumen_mq.Broker.Session.Count.{online, str_iff, online-insert, add_one_counts, sub_one_counts}

-- Each client has one session, under its own id, with an epoch that was given out, and the counter
-- of the connected sessions is right modulo 2^64.
pub record WellFormed (m : SessionManager) : Type 0 where
  pub one_each : IsMap m.sessions
  pub counted : m.online_count ≡ online m.sessions % 2 ^ 64
  pub own_id : (id : Str) (e : SessionEntry) → lookup id m.sessions ≡ some e → e.client_id ≡ id
  pub given_out :
      (id : Str) (e : SessionEntry) → lookup id m.sessions ≡ some e → e.epoch ≤ m.epoch_counter

-- A session replaced by one of the same client, and the counter moved as the connection did.
abbrev pub put_session : Str → SessionEntry → ℕ → SessionManager → SessionManager
put_session id e c m = record m { sessions = insert id e m.sessions; online_count = c }

pub put_session-WellFormed :
    (id : Str) (e : SessionEntry) (c : ℕ) (m : SessionManager)
    → WellFormed m
    → e.client_id ≡ id
    → e.epoch ≤ m.epoch_counter
    → c ≡ online (insert id e m.sessions) % 2 ^ 64
    → WellFormed (put_session id e c m)
put_session-WellFormed id e c m w i g h = record {
  one_each = insert-IsMap id e m.sessions w.one_each;
  counted = h;
  own_id = λ at d k.
      ground (arith, lookup-insert id at e m.sessions, str_iff id at, w.own_id at d, k, i);
  given_out = λ at d k. ground (arith, lookup-insert id at e m.sessions, w.given_out at d, k, g);
}

pub same_count :
    (id : Str) (e d : SessionEntry) (m : SessionManager)
    → WellFormed m
    → lookup id m.sessions ≡ some d
    → e.connected ≡ d.connected
    → m.online_count ≡ online (insert id e m.sessions) % 2 ^ 64
same_count id e d m w l h =
    let counts : online (insert id e m.sessions) ≡ online m.sessions =
      ground (arith, online-insert id e m.sessions, l, h) in
    w.counted ∙ ap (λ n. n % 2 ^ 64) (sym counts)

pub one_more :
    (id : Str) (e : SessionEntry) (m : SessionManager)
    → WellFormed m
    → was_online (lookup id m.sessions) ≡ false
    → e.connected ≡ true
    → add_one m.online_count ≡ online (insert id e m.sessions) % 2 ^ 64
one_more id e m w l h =
    let counts : online (insert id e m.sessions) ≡ online m.sessions + 1 =
      ground (arith, online-insert id e m.sessions, l, h) in
    add_one_counts m.online_count (online m.sessions) w.counted ∙ ap (λ n. n % 2 ^ 64) (sym counts)

pub one_less :
    (id : Str) (e : SessionEntry) (m : SessionManager)
    → WellFormed m
    → was_online (lookup id m.sessions) ≡ true
    → e.connected ≡ false
    → sub_one m.online_count ≡ online (insert id e m.sessions) % 2 ^ 64
one_less id e m w l h =
    let counts : online m.sessions ≡ online (insert id e m.sessions) + 1 =
      ground (arith, online-insert id e m.sessions, l, h) in
    sub_one_counts m.online_count (online (insert id e m.sessions))
      (w.counted ∙ ap (λ n. n % 2 ^ 64) counts)

store_or-WellFormed :
    (o : DeliveryOutcome) (now : ℕ) (id : Str) (msg : OutboundPublish) (e : SessionEntry)
    (m : SessionManager) (r : DeliveryOutcome × SessionManager)
    → WellFormed m
    → lookup id m.sessions ≡ some e
    → store_or o now id msg e m ≡ some r
    → WellFormed r.1
unfolding store_or
store_or-WellFormed o now id msg e m r w l h = elim (Option-cases e.offline_queue) [
  | inl n ↦ let same : m ≡ r.1 = ground (arith, n, h) in subst WellFormed same w
  | inr (q, n) ↦ elim (Option-cases (enqueue now msg q)) [
    | inl z ↦ absurd (ground (arith, n, z, h))
    | inr (q', z) ↦
        let e' : SessionEntry = record e { offline_queue = some q' } in
        let same : put_session id e' m.online_count m ≡ r.1 = ground (arith, n, z, h) in
        subst WellFormed same (
          put_session-WellFormed id e' m.online_count m w (w.own_id id e l) (w.given_out id e l)
            (same_count id e' e m w l refl))
  ]
]

sent_or_stored :
    (now : ℕ) (ch : Channel) (id : Str) (msg : OutboundPublish) (e : SessionEntry)
    (m : SessionManager) (r : DeliveryOutcome × SessionManager)
    → WellFormed m
    → lookup id m.sessions ≡ some e
    → send_or_store now ch id msg e m ≡ some r
    → WellFormed r.1
unfolding send_or_store
sent_or_stored now Channel.ready id msg e m r w n h = subst WellFormed (ground (arith, h)) w
sent_or_stored now Channel.full id msg e m r w n h =
    store_or-WellFormed DeliveryOutcome.channel_full now id msg e m r w n h
sent_or_stored now Channel.closed id msg e m r w n h =
    store_or-WellFormed DeliveryOutcome.dropped now id msg e m r w n h

pub deliver_or_enqueue-WellFormed :
    (now : ℕ) (channels : ℕ → Channel) (id : Str) (msg : OutboundPublish) (m : SessionManager)
    (r : DeliveryOutcome × SessionManager)
    → WellFormed m
    → deliver_or_enqueue now channels id msg m ≡ some r
    → WellFormed r.1
unfolding deliver_or_enqueue
deliver_or_enqueue-WellFormed now channels id msg m r w h =
    elim (Option-cases (lookup id m.sessions)) [
      | inl n ↦ subst WellFormed (ground (arith, n, h)) w
      | inr (e, n) ↦ elim (Bool-cases e.connected) [
        | inl c ↦ sent_or_stored now (channels e.tx) id msg e m r w n (ground (arith, n, c, h))
        | inr c ↦
            store_or-WellFormed DeliveryOutcome.dropped now id msg e m r w n
              (ground (arith, n, c, h))
      ]
    ]

pub register-WellFormed :
    (now : ℕ) (r : Registration) (m : SessionManager)
    → m.epoch_counter + 1 < 2 ^ 64
    → WellFormed m
    → WellFormed (register now r m).1
unfolding register
register-WellFormed now r m b w =
    let epoch = add_one m.epoch_counter in
    let e = new_entry now epoch r m in
    let next : epoch ≡ m.epoch_counter + 1 = omega (arith, b) in
    record {
      one_each = insert-IsMap r.client_id e m.sessions w.one_each;
      counted = elim (Option-cases (lookup r.client_id m.sessions)) [
        | inl n ↦ rw n (one_more r.client_id e m w (ap was_online n) refl)
        | inr (d, n) ↦ elim (Bool-cases d.connected) [
          | inl c ↦ rw (n, c) (same_count r.client_id e d m w n (sym c))
          | inr c ↦ rw (n, c) (one_more r.client_id e m w (ap was_online n ∙ c) refl)
        ]
      ];
      own_id = λ at d k. ground (
        arith,
        lookup-insert r.client_id at e m.sessions,
        str_iff r.client_id at,
        w.own_id at d,
        k,
      );
      given_out = λ at d k.
          ground (arith, lookup-insert r.client_id at e m.sessions, w.given_out at d, k, next);
    }

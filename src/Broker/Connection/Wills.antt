-- ===== src/Broker/Connection/Wills.antt =====
-- src/broker/mod.rs: a connection's will after its end.
use lumen_mq.Prelude.{
  ℕ, ◌≡◌, refl, Bool, true, false, ◌||◌, is_empty, some, none, Str, ==_refl, eqb, nat_key, list_key,
  arith, Bool-cases, Option-cases, inl, inr, Option, ◌==◌, if◌then◌else◌, ◌&&◌, List, subst,
}
use lumen_mq.Prelude.Assoc.{lookup, lookup-insert, lookup-remove}
use lumen_mq.Broker.Session.{SessionManager, owns, is_clean_session, SessionEntry, WillMessage}
use lumen_mq.Broker.Session.Ownership.{stale-Harmless}
use lumen_mq.Broker.Session.Leave.{
  take_will, clear_will, mark_offline, remove_if_epoch, remove_where, is_session_expired,
}
use lumen_mq.Broker.Subscription.{subscriptions_of}
use lumen_mq.Broker.Router.{Disk, Router, Around, Delivery, publish}
use lumen_mq.Broker.Router.Kept.{Sound}
use lumen_mq.Broker.Session.Count.{str_iff}
use lumen_mq.Broker.Connection.Closing.{
  remove_owned, drop_traces, delete_session_snapshot, persist_session_snapshot, cleanup, fire,
  on_abnormal_disconnect,
}
use lumen_mq.Broker.Connection.Soundness.{fire-Sound, without_will-Sound}
use lumen_mq.Broker.Connection.Undelivered.{pending_will, Gone, fire-Gone}

-- The will published under its topic, with its payload, QoS and retain flag, to all but the client
-- itself; or, without a will, nothing done.
abbrev pub Published :
    {D : Type 0} → Around → Disk D → Str → Option WillMessage → Router D → Router D → Type 0
Published around disk id none r r' = r' ≡ r
Published around disk id (some will) r r' =
    (ds : List Delivery) × (publish around disk will.topic will.message will.qos will.retain
        (some id) r
      ≡ some (ds, r'))

fire-Published :
    {D : Type 0} (around : Around) (disk : Disk D) (id : Str) (will : Option WillMessage)
    (r r' : Router D)
    → fire around disk id will r ≡ some r'
    → Published around disk id will r r'
unfolding fire
fire-Published around disk id none r r' h = ground (arith, h)
fire-Published around disk id (some will) r r' h =
    elim (Option-cases
      (publish around disk will.topic will.message will.qos will.retain (some id) r)) [
        | inl n ↦ absurd (ground (arith, n, h))
        | inr ((ds, r2), n) ↦
            let same : r2 ≡ r' = ground (arith, n, h) in
            (
              ds,
              subst
                  (λ x.
                    publish around disk will.topic will.message will.qos will.retain (some id) r
                    ≡ some (ds, x))
                  same n,
            )
      ]

-- The session without its will.
abbrev pub unwilled : Option SessionEntry → Option SessionEntry
unwilled none = none
unwilled (some e) = some (record e { will = none })

-- The connection's session, where it has one, is without its will, and all else is the same.
abbrev pub WillTaken : {D : Type 0} → Str → ℕ → Router D → Router D → Type 0
WillTaken id epoch r r1 =
    (r1.subscriptions ≡ r.subscriptions)
    × (r1.retain ≡ r.retain)
    × ((at : Str)
        → lookup at r1.sessions.sessions ≡ (
            if owns id epoch r.sessions && (id == at)
            then unwilled (lookup at r.sessions.sessions)
            else lookup at r.sessions.sessions))

take_will-WillTaken :
    {D : Type 0} (id : Str) (epoch : ℕ) (r : Router D)
    → WillTaken id epoch r (record r { sessions = (take_will id epoch r.sessions).1 })
unfolding take_will owns
take_will-WillTaken id epoch r = elim (Option-cases (lookup id r.sessions.sessions)) [
  | inl n ↦ (refl, refl, λ at. ground (arith, n))
  | inr (e, n) ↦ (
    refl,
    refl,
    λ at. ground (
      arith,
      n,
      lookup-insert id at (record e { will = none }) r.sessions.sessions,
      str_iff id at,
    ),
  )
]

module _ {D : Type 0} (around : Around) (disk : Disk D) (id : Str) (epoch : ℕ) where
  taken-Gone : (m : SessionManager) → pending_will id epoch (take_will id epoch m).1 ≡ none
  unfolding take_will
  taken-Gone m = elim (Option-cases (lookup id m.sessions)) [
    | inl n ↦ ground (arith, n)
    | inr (e, n) ↦ elim (Bool-cases (eqb e.epoch epoch)) [
      | inl c ↦
          ground
            (arith, n, c, lookup-insert id id (record e { will = none }) m.sessions, ==_refl id)
      | inr c ↦ ground (arith, n, c)
    ]
  ]

  cleared-Gone : (m : SessionManager) → pending_will id epoch (clear_will id epoch m) ≡ none
  unfolding clear_will
  cleared-Gone m = elim (Option-cases (lookup id m.sessions)) [
    | inl n ↦ ground (arith, n)
    | inr (e, n) ↦ elim (Bool-cases (eqb e.epoch epoch)) [
      | inl c ↦
          ground
            (arith, n, c, lookup-insert id id (record e { will = none }) m.sessions, ==_refl id)
      | inr c ↦ ground (arith, n, c)
    ]
  ]

  removed-Gone :
      (m : SessionManager)
      → pending_will id epoch m ≡ none
      → pending_will id epoch (remove_if_epoch id epoch m).1 ≡ none
  unfolding remove_if_epoch remove_where
  removed-Gone m p = elim (Option-cases (lookup id m.sessions)) [
    | inl n ↦ ground (arith, n)
    | inr (e, n) ↦ ground (arith, n, p, lookup-remove id id m.sessions, ==_refl id)
  ]

  offline-Gone :
      (now : ℕ) (m : SessionManager)
      → pending_will id epoch m ≡ none
      → pending_will id epoch (mark_offline now id epoch m) ≡ none
  unfolding mark_offline
  offline-Gone now m p = elim (Option-cases (lookup id m.sessions)) [
    | inl n ↦ ground (arith, n)
    | inr (e, n) ↦ ground (
      arith,
      n,
      p,
      lookup-insert id id (record e { connected = false; offline_at = some now }) m.sessions,
      ==_refl id,
    )
  ]

  removal-Gone : (r : Router D) → Gone id epoch r → Gone id epoch (remove_owned disk id epoch r)
  unfolding remove_owned drop_traces delete_session_snapshot
  removal-Gone r p = elim (Option-cases (remove_if_epoch id epoch r.sessions).0) [
    | inl n ↦ rw (n, remove_owned) (removed-Gone r.sessions p)
    | inr (e, n) ↦ rw (n, remove_owned) (removed-Gone r.sessions p)
  ]

  kept_lem : (r : Router D) → Gone id epoch r → Gone id epoch (persist_session_snapshot disk id r)
  unfolding persist_session_snapshot
  kept_lem r p =
      elim (Bool-cases
        (is_clean_session id r.sessions || is_empty (subscriptions_of id r.subscriptions))) [
          | inl e ↦ rw (e, persist_session_snapshot) p
          | inr e ↦ rw (e, persist_session_snapshot) p
        ]

  cleanup-Gone :
      (now : ℕ) (clean : Bool) (r : Router D)
      → Gone id epoch r
      → Gone id epoch (cleanup now disk id epoch clean r)
  unfolding cleanup persist_session_snapshot
  cleanup-Gone now true r p = removal-Gone r p
  cleanup-Gone now false r p =
      let r1 = record r { sessions = mark_offline now id epoch r.sessions } in
      let p1 = offline-Gone now r.sessions p in
      elim (Bool-cases (owns id epoch r1.sessions)) [
        | inr o ↦ rw (o, cleanup) p1
        | inl o ↦ elim (Bool-cases (is_session_expired now id r1.sessions)) [
          | inl x ↦ rw (o, x, cleanup) (removal-Gone r1 p1)
          | inr x ↦ rw (o, x, cleanup) (kept_lem r1 p1)
        ]
      ]

  stranger-Gone : (m : SessionManager) → owns id epoch m ≡ false → pending_will id epoch m ≡ none
  unfolding owns
  stranger-Gone m h = elim (Option-cases (lookup id m.sessions)) [
    | inl n ↦ ground (arith, n)
    | inr (e, n) ↦ ground (arith, n, h)
  ]

  taken_lem : (m : SessionManager) → (take_will id epoch m).0 ≡ pending_will id epoch m
  unfolding take_will
  taken_lem m = elim (Option-cases (lookup id m.sessions)) [
    | inl n ↦ ground (arith, n)
    | inr (e, n) ↦ ground (arith, n)
  ]

  -- From well-formed shared parts, the abnormal end of a connection returns: it takes the will out of
  -- the session and changes nothing else with that; it publishes the will, if one is pending, under its
  -- topic, with its payload, QoS and retain flag, in the client's name, and nothing else; and then it
  -- cleans up. Neither after that nor after a DISCONNECT, which clears the will and cleans up, is a will
  -- of the connection left that a second end could publish.
  pub ends_without_will :
      (clean : Bool) (r : Router D)
      → Sound r
      → (r1 : Router D) × WillTaken id epoch r r1
        × (r' : Router D) × Published around disk id (pending_will id epoch r.sessions) r1 r'
        × (on_abnormal_disconnect around disk id epoch clean r
            ≡ some (cleanup around.now disk id epoch clean r'))
        × (pending_will id epoch (cleanup around.now disk id epoch clean r').sessions ≡ none)
        × (pending_will id epoch
              (cleanup around.now disk id epoch clean
                (record r { sessions = clear_will id epoch r.sessions })).sessions
            ≡ none)
  unfolding on_abnormal_disconnect
  ends_without_will clean r w =
      let r1 : Router D = record r { sessions = (take_will id epoch r.sessions).1 } in
      let taken = take_will-WillTaken id epoch r in
      let cleared =
        cleanup-Gone around.now clean (record r { sessions = clear_will id epoch r.sessions })
          (cleared-Gone r.sessions) in
      elim (Bool-cases (owns id epoch r.sessions)) [
        | inr o ↦
            let (off, on, gone, will, k) = stale-Harmless id epoch r.sessions o in
            let none_left = stranger-Gone r.sessions o in
            (
              r1,
              taken,
              r,
              rw (none_left, will) refl,
              ground (arith, o),
              cleanup-Gone around.now clean r none_left,
              cleared,
            )
        | inl o ↦
            let (r2, e, w2) =
              fire-Sound around disk id (take_will id epoch r.sessions).0 r1
                (without_will-Sound id epoch r w) in
            let gone =
              fire-Gone around disk id epoch (take_will id epoch r.sessions).0 r1 r2 e
                (taken-Gone r.sessions) in
            (
              r1,
              taken,
              r2,
              fire-Published around disk id (pending_will id epoch r.sessions) r1 r2
                  (rw (← taken_lem r.sessions) e),
              ground (arith, o, e),
              cleanup-Gone around.now clean r2 gone,
              cleared,
            )
      ]

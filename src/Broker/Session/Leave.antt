-- ===== src/Broker/Session/Leave.antt =====
-- src/broker/session.rs: the end of a connection, of a session, and of a will.
use lumen_mq.Prelude.{
  ℕ, Bool, true, false, not, ◌&&◌, Option, some, none, List, [], ◌∷◌, Str, if◌then◌else◌, eqb,
  nat_key, list_key,
}
use lumen_mq.Prelude.Assoc.{Assoc, lookup, insert, remove}
use lumen_mq.Broker.Session.{
  SessionEntry, SessionManager, WillMessage, field_of, is_expired, expired_after, add_one, sub_one,
}

-- The session of the client taken out, where the test holds of it.
unfoldable pub remove_where :
    (SessionEntry → Bool) → Str → SessionManager → Option SessionEntry × SessionManager
unfolding lookup remove
remove_where test client_id m = elim (lookup client_id m.sessions) [
  | none ↦ (none, m)
  | some e ↦
      if test e
      then (
        some e,
        record m {
          sessions = remove client_id m.sessions;
          online_count = if e.connected then sub_one m.online_count else m.online_count;
        },
      )
      else (none, m)
]

abbrev pub any : SessionEntry → Bool
any e = true

abbrev pub has_epoch : ℕ → SessionEntry → Bool
has_epoch epoch e = eqb e.epoch epoch

-- `remove`.
unfoldable pub remove_session : Str → SessionManager → Option SessionEntry × SessionManager
unfolding remove_where
remove_session client_id m = remove_where any client_id m

unfoldable pub remove_if_epoch : Str → ℕ → SessionManager → Option SessionEntry × SessionManager
unfolding remove_where
remove_if_epoch client_id epoch m = remove_where (has_epoch epoch) client_id m

unfoldable pub mark_offline : ℕ → Str → ℕ → SessionManager → SessionManager
unfolding lookup insert
mark_offline now client_id epoch m = elim (lookup client_id m.sessions) [
  | none ↦ m
  | some e ↦
      if eqb e.epoch epoch && e.connected
      then record m {
        sessions =
            insert client_id (record e { connected = false; offline_at = some now }) m.sessions;
        online_count = sub_one m.online_count;
      }
      else m
]

unfoldable pub mark_online : Str → ℕ → SessionManager → SessionManager
unfolding lookup insert
mark_online client_id epoch m = elim (lookup client_id m.sessions) [
  | none ↦ m
  | some e ↦
      if eqb e.epoch epoch && not e.connected
      then record m {
        sessions = insert client_id (record e { connected = true; offline_at = none }) m.sessions;
        online_count = add_one m.online_count;
      }
      else m
]

-- The tests of the two loops of `cleanup_expired`, which writes each of them out.
abbrev pub is_due : ℕ → SessionEntry → Bool
is_due now e = if e.connected then false else expired_after now e.session_expiry e.offline_at

abbrev pub is_still_due : ℕ → SessionEntry → Bool
is_still_due now e = if e.connected then false else expired_after now e.session_expiry e.offline_at

-- The first loop of `cleanup_expired`.
unfoldable pub expired_ids : ℕ → Assoc Str SessionEntry → List Str
expired_ids now [] = []
expired_ids now ((k, e) ∷ sessions) =
    if is_due now e then e.client_id ∷ expired_ids now sessions else expired_ids now sessions

-- The second loop of `cleanup_expired`: the ids removed, and the sessions that are left.
unfoldable pub remove_expired :
    ℕ → List Str → Assoc Str SessionEntry → List Str × Assoc Str SessionEntry
unfolding lookup remove
remove_expired now [] sessions = ([], sessions)
remove_expired now (id ∷ ids) sessions =
    let gone = remove_expired now ids (remove id sessions) in
    let kept = remove_expired now ids sessions in
    if field_of false (is_still_due now) (lookup id sessions) then (id ∷ gone.0, gone.1) else kept

unfoldable pub cleanup_expired : ℕ → SessionManager → List Str × SessionManager
unfolding expired_ids remove_expired
cleanup_expired now m =
    let done = remove_expired now (expired_ids now m.sessions) m.sessions in
    (done.0, record m { sessions = done.1 })

unfoldable pub is_session_expired : ℕ → Str → SessionManager → Bool
unfolding lookup
is_session_expired now client_id m = field_of false (is_expired now) (lookup client_id m.sessions)

-- The will taken out of the session, where the epoch is the session's.
unfoldable pub take_will : Str → ℕ → SessionManager → Option WillMessage × SessionManager
unfolding lookup insert
take_will client_id epoch m = elim (lookup client_id m.sessions) [
  | none ↦ (none, m)
  | some e ↦
      if eqb e.epoch epoch
      then (e.will, record m { sessions = insert client_id (record e { will = none }) m.sessions })
      else (none, m)
]

unfoldable pub clear_will : Str → ℕ → SessionManager → SessionManager
unfolding lookup insert
clear_will client_id epoch m = elim (lookup client_id m.sessions) [
  | none ↦ m
  | some e ↦
      if eqb e.epoch epoch
      then record m { sessions = insert client_id (record e { will = none }) m.sessions }
      else m
]

-- ===== src/Broker/Connection/Closing.antt =====
-- src/broker/mod.rs: what the end of a connection does to the shared parts, the snapshots of the
-- sessions, and the sweep of the expired ones.
use lumen_mq.Prelude.{
  ℕ, Bool, true, false, not, ◌||◌, Option, some, none, List, [], ◌∷◌, Str, if◌then◌else◌, is_empty,
  nat_key, list_key,
}
use lumen_mq.Broker.Session.{WillMessage, owns, is_clean_session}
use lumen_mq.Broker.Session.Leave.{
  remove_if_epoch, mark_offline, is_session_expired, take_will, cleanup_expired,
}
use lumen_mq.Broker.Subscription.{unsubscribe_all, subscriptions_of}
use lumen_mq.Broker.Router.{Router, Around, Disk, on_disk, publish}

-- No snapshot is written for a session that is clean, nor for one without subscriptions.
unfoldable pub persist_session_snapshot : {D : Type 0} → Disk D → Str → Router D → Router D
unfolding is_clean_session subscriptions_of
persist_session_snapshot disk client_id r =
    let subs = subscriptions_of client_id r.subscriptions in
    if is_clean_session client_id r.sessions || is_empty subs
    then r
    else on_disk (disk.save_session client_id subs) r

-- The snapshot goes, and the messages on the disk.
unfoldable pub delete_session_snapshot : {D : Type 0} → Disk D → Str → Router D → Router D
delete_session_snapshot disk client_id r =
    on_disk (λ d. (disk.drain_offline client_id (disk.delete_session client_id d)).1) r

unfoldable pub clear_disk_offline : {D : Type 0} → Disk D → Str → Router D → Router D
clear_disk_offline disk client_id r = on_disk (λ d. (disk.drain_offline client_id d).1) r

-- The subscriptions and the snapshot of a session that has gone.
unfoldable pub drop_traces : {D : Type 0} → Disk D → Str → Router D → Router D
unfolding unsubscribe_all delete_session_snapshot
drop_traces disk client_id r =
    delete_session_snapshot disk client_id
      (record r { subscriptions = unsubscribe_all client_id r.subscriptions })

-- The session removed where the epoch is its own, and then its traces.
unfoldable pub remove_owned : {D : Type 0} → Disk D → Str → ℕ → Router D → Router D
unfolding remove_if_epoch drop_traces
remove_owned disk client_id epoch r =
    let removed = remove_if_epoch client_id epoch r.sessions in
    elim removed.0 [
      | none ↦ record r { sessions = removed.1 }
      | some _ ↦ drop_traces disk client_id (record r { sessions = removed.1 })
    ]

unfoldable pub cleanup : {D : Type 0} → ℕ → Disk D → Str → ℕ → Bool → Router D → Router D
unfolding remove_owned mark_offline owns is_session_expired persist_session_snapshot
cleanup now disk client_id epoch true r = remove_owned disk client_id epoch r
cleanup now disk client_id epoch false r =
    let r1 = record r { sessions = mark_offline now client_id epoch r.sessions } in
    if not (owns client_id epoch r1.sessions)
    then r1
    else if is_session_expired now client_id r1.sessions
    then remove_owned disk client_id epoch r1
    else persist_session_snapshot disk client_id r1

-- The will published in the client's name.
unfoldable pub fire :
    {D : Type 0} → Around → Disk D → Str → Option WillMessage → Router D → Option (Router D)
unfolding publish
fire around disk client_id none r = some r
fire around disk client_id (some will) r =
    elim (publish around disk will.topic will.message will.qos will.retain (some client_id) r) [
      | none ↦ none
      | some (deliveries, r') ↦ some r'
    ]

-- `none` where the routing of the will does not return.
unfoldable pub on_abnormal_disconnect :
    {D : Type 0} → Around → Disk D → Str → ℕ → Bool → Router D → Option (Router D)
unfolding owns take_will fire cleanup
on_abnormal_disconnect around disk client_id epoch clean r =
    let taken = take_will client_id epoch r.sessions in
    elim (if owns client_id epoch r.sessions
      then fire around disk client_id taken.0 (record r { sessions = taken.1 })
      else some r) [
        | none ↦ none
        | some r' ↦ some (cleanup around.now disk client_id epoch clean r')
      ]

abbrev pub drop_all_traces : {D : Type 0} → Disk D → List Str → Router D → Router D
drop_all_traces disk [] r = r
drop_all_traces disk (client_id ∷ expired) r =
    drop_all_traces disk expired (drop_traces disk client_id r)

-- A round of `spawn_session_expiry_sweeper`.
unfoldable pub sweep : {D : Type 0} → ℕ → Disk D → Router D → Router D
unfolding cleanup_expired drop_traces
sweep now disk r =
    let swept = cleanup_expired now r.sessions in
    drop_all_traces disk swept.0 (record r { sessions = swept.1 })

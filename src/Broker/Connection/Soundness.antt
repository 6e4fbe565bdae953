-- ===== src/Broker/Connection/Soundness.antt =====
-- src/broker/mod.rs: every call of a connection returns, and keeps the shared parts well formed.
use lumen_mq.Prelude.{
  ℕ, ◌≡◌, refl, Bool, true, false, ◌||◌, Option, some, none, List, [], ◌∷◌, Str, nat_key, list_key,
  arith, Option-cases, Bool-cases, inl, inr, is_empty,
}
use lumen_mq.Broker.Session.{WillMessage, owns, is_clean_session}
use lumen_mq.Broker.Session.Leave.{
  remove_if_epoch, mark_offline, is_session_expired, take_will, cleanup_expired, expired_ids,
  has_epoch,
}
use lumen_mq.Broker.Session.Kept.{
  mark_offline-WellFormed, take_will-WellFormed, remove_where-WellFormed, remove_expired-WellFormed,
}
use lumen_mq.Broker.Subscription.{unsubscribe_all, subscriptions_of}
use lumen_mq.Broker.Subscription.Removal.{unsubscribe_all_updates}
use lumen_mq.Broker.Router.{Router, Around, Disk}
use lumen_mq.Broker.Router.Leaving.{
  mark_offline-Roomy, take_will-Roomy, remove_where-Roomy, remove_expired-Roomy,
}
use lumen_mq.Broker.Router.Kept.{Sound, on_disk-Sound, publish-Sound}
use lumen_mq.Broker.Connection.Closing.{
  persist_session_snapshot, delete_session_snapshot, drop_traces, remove_owned, cleanup, fire,
  on_abnormal_disconnect, drop_all_traces, sweep,
}

pub persist-Sound :
    {D : Type 0} (disk : Disk D) (id : Str) (r : Router D)
    → Sound r
    → Sound (persist_session_snapshot disk id r)
unfolding persist_session_snapshot
persist-Sound disk id r w =
    elim (Bool-cases
      (is_clean_session id r.sessions || is_empty (subscriptions_of id r.subscriptions))) [
        | inl e ↦ rw e w
        | inr e ↦
            rw e (on_disk-Sound (disk.save_session id (subscriptions_of id r.subscriptions)) r w)
      ]

drop_traces-Sound :
    {D : Type 0} (disk : Disk D) (id : Str) (r : Router D) → Sound r → Sound (drop_traces disk id r)
unfolding drop_traces delete_session_snapshot
drop_traces-Sound disk id r w =
    on_disk-Sound (λ d. (disk.drain_offline id (disk.delete_session id d)).1)
      (record r { subscriptions = unsubscribe_all id r.subscriptions })
      (record {
        tree = (unsubscribe_all_updates id r.subscriptions w.tree).0;
        table = w.table;
        roomy = w.roomy;
        retained = w.retained;
      })

remove_owned-Sound :
    {D : Type 0} (disk : Disk D) (id : Str) (epoch : ℕ) (r : Router D)
    → Sound r
    → Sound (remove_owned disk id epoch r)
unfolding remove_owned remove_if_epoch
remove_owned-Sound disk id epoch r w =
    let r1 = record r { sessions = (remove_if_epoch id epoch r.sessions).1 } in
    let w1 : Sound r1 = record {
      tree = w.tree;
      table = remove_where-WellFormed (has_epoch epoch) id r.sessions w.table;
      roomy = remove_where-Roomy (has_epoch epoch) id r.sessions w.roomy;
      retained = w.retained;
    } in
    elim (Option-cases (remove_if_epoch id epoch r.sessions).0) [
      | inl n ↦ rw (n, remove_owned) w1
      | inr (e, n) ↦ rw (n, remove_owned) (drop_traces-Sound disk id r1 w1)
    ]

pub cleanup-Sound :
    {D : Type 0} (now : ℕ) (disk : Disk D) (id : Str) (epoch : ℕ) (clean : Bool) (r : Router D)
    → Sound r
    → Sound (cleanup now disk id epoch clean r)
unfolding cleanup
cleanup-Sound now disk id epoch true r w = remove_owned-Sound disk id epoch r w
cleanup-Sound now disk id epoch false r w =
    let r1 = record r { sessions = mark_offline now id epoch r.sessions } in
    let w1 : Sound r1 = record {
      tree = w.tree;
      table = mark_offline-WellFormed now id epoch r.sessions w.table;
      roomy = mark_offline-Roomy now id epoch r.sessions w.roomy;
      retained = w.retained;
    } in
    elim (Bool-cases (owns id epoch r1.sessions)) [
      | inr o ↦ rw o w1
      | inl o ↦ elim (Bool-cases (is_session_expired now id r1.sessions)) [
        | inl x ↦ rw (o, x) (remove_owned-Sound disk id epoch r1 w1)
        | inr x ↦ rw (o, x) (persist-Sound disk id r1 w1)
      ]
    ]

pub fire-Sound :
    {D : Type 0} (around : Around) (disk : Disk D) (id : Str) (will : Option WillMessage)
    (r : Router D)
    → Sound r
    → (r' : Router D) × (fire around disk id will r ≡ some r') × Sound r'
unfolding fire
fire-Sound around disk id none r w = (r, refl, w)
fire-Sound around disk id (some will) r w =
    let (done, e, w') =
      publish-Sound around disk will.topic will.message will.qos will.retain (some id) r w in
    (done.1, ground (arith, e), w')

pub without_will-Sound :
    {D : Type 0} (id : Str) (epoch : ℕ) (r : Router D)
    → Sound r
    → Sound (record r { sessions = (take_will id epoch r.sessions).1 })
without_will-Sound id epoch r w = record {
  tree = w.tree;
  table = take_will-WellFormed id epoch r.sessions w.table;
  roomy = take_will-Roomy id epoch r.sessions w.roomy;
  retained = w.retained;
}

pub on_abnormal_disconnect-Sound :
    {D : Type 0} (around : Around) (disk : Disk D) (id : Str) (epoch : ℕ) (clean : Bool)
    (r : Router D)
    → Sound r
    → (r' : Router D) × (on_abnormal_disconnect around disk id epoch clean r ≡ some r') × Sound r'
unfolding on_abnormal_disconnect
on_abnormal_disconnect-Sound around disk id epoch clean r w =
    let taken = take_will id epoch r.sessions in
    let r1 = record r { sessions = taken.1 } in
    let w1 = without_will-Sound id epoch r w in
    elim (Bool-cases (owns id epoch r.sessions)) [
      | inr o ↦ (
        cleanup around.now disk id epoch clean r,
        ground (arith, o),
        cleanup-Sound around.now disk id epoch clean r w,
      )
      | inl o ↦
          let (r2, e, w2) = fire-Sound around disk id taken.0 r1 w1 in
          (
            cleanup around.now disk id epoch clean r2,
            ground (arith, o, e),
            cleanup-Sound around.now disk id epoch clean r2 w2,
          )
    ]

drop_all-Sound :
    {D : Type 0} (disk : Disk D) (ids : List Str) (r : Router D)
    → Sound r
    → Sound (drop_all_traces disk ids r)
drop_all-Sound disk [] r w = w
drop_all-Sound disk (id ∷ ids) r w =
    drop_all-Sound disk ids (drop_traces disk id r) (drop_traces-Sound disk id r w)

pub sweep-Sound :
    {D : Type 0} (now : ℕ) (disk : Disk D) (r : Router D) → Sound r → Sound (sweep now disk r)
unfolding sweep cleanup_expired
sweep-Sound now disk r w =
    drop_all-Sound disk (cleanup_expired now r.sessions).0
      (record r { sessions = (cleanup_expired now r.sessions).1 })
      (record {
        tree = w.tree;
        table =
            remove_expired-WellFormed now (expired_ids now r.sessions.sessions) r.sessions w.table;
        roomy = remove_expired-Roomy now (expired_ids now r.sessions.sessions) r.sessions w.roomy;
        retained = w.retained;
      })

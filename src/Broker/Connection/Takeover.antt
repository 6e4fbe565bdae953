-- ===== src/Broker/Connection/Takeover.antt =====
-- src/broker/mod.rs: a connection that was taken over leaves nothing behind, and the owner of a clean
-- session takes everything with it.
use lumen_mq.Prelude.{
  ℕ, ◌≡◌, ◌+◌, ◌<◌, ◌^◌, ◌≢◌, ◌∙◌, Bool, true, false, some, none, Str, if◌then◌else◌, ◌==◌, eqb,
  nat_key, list_key, arith, Option-cases, inl, inr,
}
use lumen_mq.Prelude.Assoc.{lookup, lookup-remove}
use lumen_mq.Codec.Packet.{Connect}
use lumen_mq.Broker.Session.{SessionManager, owns}
use lumen_mq.Broker.Session.Ownership.{stale-Harmless, register_takes_over}
use lumen_mq.Broker.Session.Preserved as Sessions
use lumen_mq.Broker.Session.Leave.{clear_will, remove_if_epoch, remove_where}
use lumen_mq.Broker.Subscription.Refinement.{subscription}
use lumen_mq.Broker.Subscription.Refinement as Tree
use lumen_mq.Broker.Subscription.Removal.{unsubscribe_all_updates}
use lumen_mq.Broker.Router.{Router, Around, Disk}
use lumen_mq.Broker.Connection.Opening.{registration, open_session}
use lumen_mq.Broker.Connection.Closing.{
  remove_owned, drop_traces, delete_session_snapshot, cleanup, on_abnormal_disconnect,
}

stale_cleanup :
    {D : Type 0} (around : Around) (disk : Disk D) (id : Str) (epoch : ℕ) (clean : Bool)
    (r : Router D)
    → owns id epoch r.sessions ≡ false
    → (cleanup around.now disk id epoch clean r ≡ r)
      × (on_abnormal_disconnect around disk id epoch clean r ≡ some r)
unfolding cleanup remove_owned on_abnormal_disconnect
stale_cleanup around disk id epoch true r h =
    let (off, on, gone, will, cleared) = stale-Harmless id epoch r.sessions h in
    (ground (arith, gone), ground (arith, gone, h))
stale_cleanup around disk id epoch false r h =
    let (off, on, gone, will, cleared) = stale-Harmless id epoch r.sessions h in
    (ground (arith, off around.now, h), ground (arith, off around.now, h))

stale_disconnect :
    {D : Type 0} (around : Around) (disk : Disk D) (id : Str) (epoch : ℕ) (clean : Bool)
    (r : Router D)
    → owns id epoch r.sessions ≡ false
    → cleanup around.now disk id epoch clean
        (record r { sessions = clear_will id epoch r.sessions })
      ≡ r
stale_disconnect around disk id epoch clean r h =
    let (off, on, gone, will, cleared) = stale-Harmless id epoch r.sessions h in
    rw cleared ((stale_cleanup around disk id epoch clean r h).0)

-- Once a new connection of the client has opened, and as long as the epochs do not wrap, the new one
-- owns the session, and each end of the old one changes nothing: a shutdown, which cleans up; a
-- DISCONNECT, which clears the will and cleans up; and an abnormal end, whose will is not published. No
-- session, no subscription, no retained message and nothing in the storage is another.
pub open_session_takes_over :
    {D : Type 0} (now tx : ℕ) (peer : Str) (c : Connect) (r : Router D) (old : ℕ) (around : Around)
    (disk : Disk D) (clean : Bool)
    → Sessions.WellFormed r.sessions
    → r.sessions.epoch_counter + 1 < 2 ^ 64
    → owns c.client_id old r.sessions ≡ true
    → let opened = open_session now tx peer c r in
      (owns c.client_id opened.0.0.epoch opened.1.sessions ≡ true)
      × (cleanup around.now disk c.client_id old clean opened.1 ≡ opened.1)
      × (cleanup around.now disk c.client_id old clean
            (record opened.1 { sessions = clear_will c.client_id old opened.1.sessions })
          ≡ opened.1)
      × (on_abnormal_disconnect around disk c.client_id old clean opened.1 ≡ some opened.1)
unfolding open_session
open_session_takes_over now tx peer c r old around disk clean w b h =
    let (mine, lost, harmless, all) =
      register_takes_over now (registration tx peer c) r.sessions old w b h in
    let (a, z) =
      stale_cleanup around disk c.client_id old clean (open_session now tx peer c r).1 lost in
    (
      mine,
      a,
      stale_disconnect around disk c.client_id old clean (open_session now tx peer c r).1 lost,
      z,
    )

owned_removal :
    (id : Str) (epoch : ℕ) (m : SessionManager)
    → owns id epoch m ≡ true
    → ((remove_if_epoch id epoch m).0 ≡ lookup id m.sessions)
      × ((at : Str)
          → lookup at (remove_if_epoch id epoch m).1.sessions
            ≡ (if id == at then none else lookup at m.sessions))
unfolding owns remove_if_epoch remove_where
owned_removal id epoch m h = elim (Option-cases (lookup id m.sessions)) [
  | inl n ↦ absurd (ground (arith, n, h))
  | inr (e, n) ↦
      let own : eqb e.epoch epoch ≡ true = ground (arith, n, h) in
      (ground (arith, n, own), λ at. ground (arith, n, own, lookup-remove id at m.sessions))
]

owned-some :
    (id : Str) (epoch : ℕ) (m : SessionManager)
    → owns id epoch m ≡ true
    → lookup id m.sessions ≢ none
unfolding owns
owned-some id epoch m h n = ground (arith, n, h)

-- On a well-formed tree, the end of a connection that owns a clean session removes the session and
-- every subscription of the client, and no other client's session or subscription.
pub cleanup_owned :
    {D : Type 0} (now : ℕ) (disk : Disk D) (id : Str) (epoch : ℕ) (r : Router D)
    → Tree.WellFormed r.subscriptions
    → owns id epoch r.sessions ≡ true
    → let r' = cleanup now disk id epoch true r in
      ((at : Str)
        → lookup at r'.sessions.sessions
          ≡ (if id == at then none else lookup at r.sessions.sessions))
      × ((at f : Str)
          → subscription at f r'.subscriptions
            ≡ (if id == at then none else subscription at f r.subscriptions))
unfolding cleanup remove_owned drop_traces delete_session_snapshot
cleanup_owned now disk id epoch r w h =
    let (found, gone) = owned_removal id epoch r.sessions h in
    elim (Option-cases (lookup id r.sessions.sessions)) [
      | inl n ↦ absurd (owned-some id epoch r.sessions h n)
      | inr (e, n) ↦
          let there : (remove_if_epoch id epoch r.sessions).0 ≡ some e = found ∙ n in
          (
            (λ at. ground (arith, there, gone at)),
            λ at f. ground (arith, there, (unsubscribe_all_updates id r.subscriptions w).1 at f),
          )
    ]

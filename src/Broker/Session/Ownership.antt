-- ===== src/Broker/Session/Ownership.antt =====
-- src/broker/session.rs: a connection that was taken over can no longer change the session.
use lumen_mq.Prelude.{
  ℕ, ◌+◌, ◌^◌, ◌<◌, ◌≤◌, ◌≡◌, true, false, none, Str, if◌then◌else◌, nat_key, list_key, ◌==◌,
  ==_refl, arith, Option-cases, inl, inr, eqb, eqb_refl,
}
use lumen_mq.Prelude.Assoc.{lookup, lookup-insert}
use lumen_mq.Broker.Session.{SessionManager, Registration, register, owns, new_entry, add_one}
use lumen_mq.Broker.Session.Leave.{
  remove_where, remove_if_epoch, mark_offline, mark_online, take_will, clear_will,
}
use lumen_mq.Broker.Session.Preserved.{WellFormed}

-- The calls that a connection makes with its epoch change nothing and return nothing.
abbrev pub Harmless : Str → ℕ → SessionManager → Type 0
Harmless id epoch m =
    ((now : ℕ) → mark_offline now id epoch m ≡ m)
    × (mark_online id epoch m ≡ m)
    × (remove_if_epoch id epoch m ≡ (none, m))
    × (take_will id epoch m ≡ (none, m))
    × (clear_will id epoch m ≡ m)

pub stale-Harmless :
    (id : Str) (epoch : ℕ) (m : SessionManager) → owns id epoch m ≡ false → Harmless id epoch m
unfolding owns mark_offline mark_online remove_if_epoch remove_where take_will clear_will
stale-Harmless id epoch m h = elim (Option-cases (lookup id m.sessions)) [
  | inl n ↦ (
    λ now. ground (arith, n),
    ground (arith, n),
    ground (arith, n),
    ground (arith, n),
    ground (arith, n),
  )
  | inr (e, n) ↦
      let other : eqb e.epoch epoch ≡ false = ground (arith, n, h) in
      (
        λ now. ground (arith, n, other),
        ground (arith, n, other),
        ground (arith, n, other),
        ground (arith, n, other),
        ground (arith, n, other),
      )
]

owned_epoch :
    (id : Str) (epoch : ℕ) (m : SessionManager)
    → WellFormed m
    → owns id epoch m ≡ true
    → epoch ≤ m.epoch_counter
unfolding owns
owned_epoch id epoch m w h = elim (Option-cases (lookup id m.sessions)) [
  | inl n ↦ ground (arith, n, h)
  | inr (e, n) ↦ ground (arith, n, h, w.given_out id e n)
]

owns-register :
    (now : ℕ) (r : Registration) (m : SessionManager) (id : Str) (epoch : ℕ)
    → owns id epoch (register now r m).1
      ≡ (if r.client_id == id then eqb (register now r m).0.epoch epoch else owns id epoch m)
unfolding owns register
owns-register now r m id epoch =
    rw (lookup-insert r.client_id id (new_entry now (add_one m.epoch_counter) r m) m.sessions)
      (ground arith)

-- After `register`, and as long as the epochs do not wrap, the new connection owns the session, the
-- connection that owned it before no longer does, and the calls that one still makes with its epoch
-- change nothing. The new epoch is the client's only owner, and other clients' sessions keep theirs.
pub register_takes_over :
    (now : ℕ) (r : Registration) (m : SessionManager) (old : ℕ)
    → WellFormed m
    → m.epoch_counter + 1 < 2 ^ 64
    → owns r.client_id old m ≡ true
    → let m' = (register now r m).1 in
      (owns r.client_id (register now r m).0.epoch m' ≡ true)
      × (owns r.client_id old m' ≡ false)
      × Harmless r.client_id old m'
      × ((id : Str) (epoch : ℕ)
          → owns id epoch m'
            ≡ (if r.client_id == id then eqb (register now r m).0.epoch epoch else owns id epoch m))
unfolding register
register_takes_over now r m old w b h =
    let m' = (register now r m).1 in
    let epoch = add_one m.epoch_counter in
    let lost : owns r.client_id old m' ≡ false =
      rw (owns-register now r m r.client_id old, ==_refl {A = Str} r.client_id)
        (ground (arith, owned_epoch r.client_id old m w h, b)) in
    (
      rw (owns-register now r m r.client_id epoch, ==_refl {A = Str} r.client_id) (eqb_refl epoch),
      lost,
      stale-Harmless r.client_id old m' lost,
      owns-register now r m,
    )

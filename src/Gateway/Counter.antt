-- ===== src/Gateway/Counter.antt =====
-- src/net/mqtt_sn.rs: a client that sleeps and does not wake up is counted off twice.
use lumen_mq.Prelude.{
  ℕ, ◌+◌, ◌-◌, ◌*◌, ◌≤◌, ◌<◌, ◌^◌, ◌≡◌, true, false, some, [], ◌∷◌, Str, is_empty, nat_key,
  list_key, ==_refl, arith, Option-cases, inl, inr,
}
use lumen_mq.Prelude.Assoc.{lookup, insert, remove, lookup-insert}
use lumen_mq.Broker.Session.{SessionManager, owns}
use lumen_mq.Broker.Session.Leave.{mark_offline}
use lumen_mq.Gateway.Packet.{SnPacket, rc_congestion}
use lumen_mq.Gateway.Client.{SnClient}
use lumen_mq.Gateway.Server.{Gateway, SnEnv, answer, handle_sn_connect}
use lumen_mq.Gateway.Handling.{cleanup_session, fall_asleep, is_overdue, sweep_clients}

owns-mark_offline :
    (now : ℕ) (id : Str) (epoch : ℕ) (m : SessionManager)
    → owns id epoch m ≡ true
    → owns id epoch (mark_offline now id epoch m) ≡ true
unfolding owns mark_offline
owns-mark_offline now id epoch m h = elim (Option-cases (lookup id m.sessions)) [
  | inl n ↦ ground (arith, n, h)
  | inr (e, n) ↦ ground (
    arith,
    n,
    h,
    lookup-insert id id (record e { connected = false; offline_at = some now }) m.sessions,
    ==_refl id,
  )
]

-- The only client of the gateway, which owns its session and is the only connection counted, goes to
-- sleep and is swept when its time is over. Then the counter is -1, which the test of the limit reads
-- as 2 ^ 64 - 1: whatever the limit, every CONNECT that passes the other checks is refused for
-- congestion, though no connection is open.
pub sweep-fall_asleep :
    {D : Type 0} (env later : SnEnv D) (c : SnClient) (duration : ℕ) (g : Gateway D)
    (peer flags keep_alive : ℕ) (client_id : Str)
    → g.clients ≡ (c.peer, c) ∷ []
    → g.connections ≡ 1
    → owns c.client_id c.epoch g.router.sessions ≡ true
    → env.around.now + duration * 1000000000 ≤ later.around.now
    → later.max_connections < 2 ^ 64
    → later.allow_anonymous ≡ true
    → is_empty client_id ≡ false
    → let swept = sweep_clients later.around.now (fall_asleep env c.peer duration g) in
      (swept.clients ≡ [])
      × (swept.connections ≡ 2 ^ 64 - 1)
      × (handle_sn_connect later peer flags 1 keep_alive client_id swept
          ≡ answer (SnPacket.connack rc_congestion) swept)
unfolding sweep_clients fall_asleep cleanup_session is_overdue handle_sn_connect lookup insert
    remove
sweep-fall_asleep env later c duration g peer flags keep_alive client_id only one own over limit
      open_to named =
    let still = owns-mark_offline env.around.now c.client_id c.epoch g.router.sessions own in
    let gone : (sweep_clients later.around.now (fall_asleep env c.peer duration g)).clients ≡ [] =
      ground (arith, only, own, still, over) in
    let count : (sweep_clients later.around.now (fall_asleep env c.peer duration g)).connections
        ≡ 2 ^ 64 - 1 =
      ground (arith, only, one, own, still, over) in
    (gone, count, ground (arith, count, limit, open_to, named))

-- ===== src/Security/Balance.antt =====
-- src/security/mod.rs: the connection counts follow the open connections.
use lumen_mq.Prelude.{
  ℕ, suc, ◌+◌, ◌-◌, ◌∙◌, ◌%◌, ◌^◌, ◌≤◌, ◌<◌, ◌≡◌, inl, inr, refl, true, Option, List, [], ◌∷◌, Str,
  if◌then◌else◌, arith, ◌==◌, Option-cases, Bool-cases, leb,
}
use lumen_mq.Prelude.Assoc.{lookup, lookup-insert, lookup-remove}
use lumen_mq.Prelude.Result.{Result, ok, ◌>>◌}
use lumen_mq.Utils.{BrokerError}
use lumen_mq.Security.IpFilter.{IpAddr, check_ip}
use lumen_mq.Security.Limiter.{Floats, Counts, count_of, inc, dec, or_zero, ip_key, ip_same_iff}
use lumen_mq.Security.Guard.{
  SecurityGuard, SecurityPolicy, counted, check_connection, on_connect, on_disconnect,
  check_publish,
}

-- The open connections of an address.
abbrev pub open_from : IpAddr → List IpAddr → ℕ
open_from ip [] = 0
open_from ip (p ∷ open_ones) =
    if p == ip then suc (open_from ip open_ones) else open_from ip open_ones

-- One connection of the address closed.
abbrev pub close_one : IpAddr → List IpAddr → List IpAddr
close_one ip [] = []
close_one ip (p ∷ open_ones) = if p == ip then open_ones else p ∷ close_one ip open_ones

count-inc :
    (ip at : IpAddr) (counts : Counts)
    → count_of ip counts + 1 < 2 ^ 64
    → count_of at (inc ip counts)
      ≡ (if ip == at then count_of ip counts + 1 else count_of at counts)
unfolding count_of inc
count-inc ip at counts h =
    ground (arith, lookup-insert ip at ((or_zero (lookup ip counts) + 1) % 2 ^ 64) counts, h)

count-dec :
    (ip at : IpAddr) (counts : Counts)
    → count_of at (dec ip counts)
      ≡ (if ip == at then count_of ip counts - 1 else count_of at counts)
unfolding count_of dec
count-dec ip at counts = elim (Option-cases (lookup ip counts)) [
  | inl n ↦ ground (arith, n, ip_same_iff ip at)
  | inr (v, n) ↦ ground (arith, n, lookup-remove ip at counts, lookup-insert ip at (v - 1) counts)
]

open_from-close :
    (ip at : IpAddr) (open_ones : List IpAddr)
    → open_from at (close_one ip open_ones)
      ≡ (if ip == at then open_from ip open_ones - 1 else open_from at open_ones)
open_from-close ip at [] = ground arith
open_from-close ip at (p ∷ open_ones) =
    ground (
      arith,
      open_from-close ip at open_ones,
      ip_same_iff p ip,
      ip_same_iff p at,
      ip_same_iff ip at,
    )

-- `handle_connection` of src/broker/mod.rs up to the first packet: the check, then the count.
unfoldable pub accept :
    {F : Type 0} → IpAddr → SecurityGuard F → Result BrokerError (SecurityGuard F)
unfolding check_connection on_connect
accept ip g = check_connection ip g >> ok (on_connect ip g)

-- What the guard can come to under one policy, with the addresses of the connections then open.
-- No other connection comes between the check and the count of one.
pub data Reached {F : Type 0} (fl : Floats F) (p : SecurityPolicy)
    : SecurityGuard F → List IpAddr → Type 0 where
  starts : (g : SecurityGuard F) → g.policy ≡ p → g.ip_counter ≡ [] → Reached fl p g []
  accepts :
      (g g' : SecurityGuard F) (open_ones : List IpAddr) (ip : IpAddr)
      → Reached fl p g open_ones
      → accept ip g ≡ ok g'
      → Reached fl p g' (ip ∷ open_ones)
  closes :
      (g : SecurityGuard F) (open_ones : List IpAddr) (ip : IpAddr) (client_id : Option Str)
      → Reached fl p g open_ones
      → Reached fl p (on_disconnect ip client_id g) (close_one ip open_ones)
  publishes :
      (g : SecurityGuard F) (open_ones : List IpAddr) (now : ℕ) (client_id : Str)
      (payload_len max_packet : ℕ)
      → Reached fl p g open_ones
      → Reached fl p ((check_publish fl now client_id payload_len max_packet g).1) open_ones

-- The counts and the open connections agree at an address, within the limit.
abbrev Agrees : {F : Type 0} → SecurityPolicy → SecurityGuard F → List IpAddr → IpAddr → Type 0
Agrees p g open_ones at =
    (g.policy ≡ p)
    × (count_of at g.ip_counter ≡ open_from at open_ones)
    × (open_from at open_ones ≤ p.max_connections_per_ip)

accept-Agrees :
    {F : Type 0} (p : SecurityPolicy) (g g' : SecurityGuard F) (open_ones : List IpAddr)
    (ip at : IpAddr)
    → counted p ≡ true
    → p.max_connections_per_ip < 2 ^ 64
    → Agrees p g open_ones ip
    → Agrees p g open_ones at
    → accept ip g ≡ ok g'
    → Agrees p g' (ip ∷ open_ones) at
unfolding accept check_connection on_connect
accept-Agrees p g g' open_ones ip at c b hi ha e =
    elim (Bool-cases (leb p.max_connections_per_ip (count_of ip g.ip_counter))) [
      | inl full ↦ ground (arith, full, check_ip ip p.acl)
      | inr room ↦ ground (arith, room, count-inc ip at g.ip_counter, ip_same_iff ip at)
    ]

close-Agrees :
    {F : Type 0} (p : SecurityPolicy) (g : SecurityGuard F) (open_ones : List IpAddr)
    (ip at : IpAddr) (client_id : Option Str)
    → counted p ≡ true
    → Agrees p g open_ones ip
    → Agrees p g open_ones at
    → Agrees p (on_disconnect ip client_id g) (close_one ip open_ones) at
unfolding on_disconnect
close-Agrees p g open_ones ip at client_id c hi ha =
    ground (arith, count-dec ip at g.ip_counter, open_from-close ip at open_ones, ip_same_iff ip at)

publish-policy :
    {F : Type 0} (fl : Floats F) (g : SecurityGuard F) (now : ℕ) (client_id : Str)
    (payload_len max_packet : ℕ)
    → ((check_publish fl now client_id payload_len max_packet g).1.policy ≡ g.policy)
      × ((check_publish fl now client_id payload_len max_packet g).1.ip_counter ≡ g.ip_counter)
unfolding check_publish
publish-policy fl g now client_id payload_len max_packet = ground arith

-- Under one policy with a limit for each address, whatever connections open and close and whatever
-- is published, the count of an address is the number of its open connections, and that number is
-- within the limit, where the check and the count of a connection are not separated by another's.
pub accept-Agrees_Reached :
    {F : Type 0} (fl : Floats F) (p : SecurityPolicy) (g : SecurityGuard F)
    (open_ones : List IpAddr)
    → counted p ≡ true
    → p.max_connections_per_ip < 2 ^ 64
    → Reached fl p g open_ones
    → (at : IpAddr)
    → (g.policy ≡ p)
      × (count_of at g.ip_counter ≡ open_from at open_ones)
      × (open_from at open_ones ≤ p.max_connections_per_ip)
accept-Agrees_Reached fl p g open_ones c b (Reached.starts g0 e f) at =
    (e, unfold count_of lookup in rw f refl, omega arith)
accept-Agrees_Reached fl p g open_ones c b (Reached.accepts g0 g' open0 ip r e) at =
    accept-Agrees p g0 g' open0 ip at c b (accept-Agrees_Reached fl p g0 open0 c b r ip)
      (accept-Agrees_Reached fl p g0 open0 c b r at) e
accept-Agrees_Reached fl p g open_ones c b (Reached.closes g0 open0 ip client_id r) at =
    close-Agrees p g0 open0 ip at client_id c (accept-Agrees_Reached fl p g0 open0 c b r ip)
      (accept-Agrees_Reached fl p g0 open0 c b r at)
accept-Agrees_Reached fl p g open_ones c b
      (Reached.publishes g0 open0 now client_id payload_len max_packet r) at =
    let kept = publish-policy fl g0 now client_id payload_len max_packet in
    let h = accept-Agrees_Reached fl p g0 open0 c b r at in (kept.0 ∙ h.0, rw kept.1 h.1, h.2)

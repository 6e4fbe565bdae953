-- ===== src/Security/Guard.antt =====
-- src/security/mod.rs: the policy and the checks of a connection and of a publication.
use lumen_mq.Prelude.{
  ℕ, Bool, false, not, ◌&&◌, ◌||◌, Option, some, none, List, [], Str, if◌then◌else◌, ltb, leb, eqb,
}
use lumen_mq.Prelude.Result.{Result, ok, err, ◌>>=◌}
use lumen_mq.Utils.{BrokerError, rate_limited, packet_too_large}
use lumen_mq.Security.IpFilter.{
  IpAddr, Syntax, IpAcl, IpVerdict, allow, blacklisted, not_whitelisted, new_filter, empty_filter,
  add_entries, check_ip,
}
use lumen_mq.Security.Limiter.{
  Floats, ClientRateLimiter, new_limiter, try_consume, remove_client, reset, Counts, count_of, inc,
  dec, ip_key,
}

-- `SecurityConfig` of src/config/settings.rs.
pub record SecurityConfig : Type 0 where
  pub enabled : Bool
  pub ip_blacklist : List Str
  pub ip_whitelist : List Str
  pub max_connections_per_ip : ℕ
  pub publish_rate_per_second : ℕ
  pub max_payload_bytes : ℕ

pub record SecurityPolicy : Type 0 where
  pub enabled : Bool
  pub acl : IpAcl
  pub max_connections_per_ip : ℕ
  pub publish_rate_per_second : ℕ
  pub max_payload_bytes : ℕ

pub record SecurityGuard (F : Type 0) : Type 0 where
  pub policy : SecurityPolicy
  pub ip_counter : Counts
  pub rate_limiter : ClientRateLimiter F

unfoldable pub build_policy : Syntax → SecurityConfig → Result BrokerError SecurityPolicy
unfolding add_entries
build_policy x cfg = do
  blacklist ← new_filter x cfg.ip_blacklist
  whitelist ← new_filter x cfg.ip_whitelist
  ok (record {
    enabled = cfg.enabled;
    acl = record { blacklist = blacklist; whitelist = whitelist };
    max_connections_per_ip = cfg.max_connections_per_ip;
    publish_rate_per_second = cfg.publish_rate_per_second;
    max_payload_bytes = cfg.max_payload_bytes;
  })

unfoldable pub new_guard :
    {F : Type 0} → Syntax → SecurityConfig → Result BrokerError (SecurityGuard F)
unfolding build_policy
new_guard x cfg = do
  policy ← build_policy x cfg
  ok (record {
    policy = policy;
    ip_counter = [];
    rate_limiter = new_limiter cfg.publish_rate_per_second;
  })

abbrev pub disabled_guard : {F : Type 0} → SecurityGuard F
disabled_guard = record {
  policy = record {
    enabled = false;
    acl = record { blacklist = empty_filter; whitelist = empty_filter };
    max_connections_per_ip = 0;
    publish_rate_per_second = 0;
    max_payload_bytes = 0;
  };
  ip_counter = [];
  rate_limiter = new_limiter 0;
}

-- `reload`: on an error the guard stays as it was.
unfoldable pub reload :
    {F : Type 0} → Syntax → SecurityConfig → SecurityGuard F → Result BrokerError (SecurityGuard F)
unfolding build_policy
reload x cfg g = do
  policy ← build_policy x cfg
  ok (record g { policy = policy; rate_limiter = reset cfg.publish_rate_per_second g.rate_limiter })

abbrev verdict_or : IpVerdict → Result BrokerError (Unit {0}) → Result BrokerError (Unit {0})
verdict_or allow rest = rest
verdict_or blacklisted rest = err (rate_limited "IP blacklisted")
verdict_or not_whitelisted rest = err (rate_limited "IP not in whitelist")

-- The address is counted: the policy is on and has a limit for each address.
abbrev pub counted : SecurityPolicy → Bool
counted p = p.enabled && ltb 0 p.max_connections_per_ip

unfoldable pub check_connection :
    {F : Type 0} → IpAddr → SecurityGuard F → Result BrokerError (Unit {0})
unfolding check_ip count_of
check_connection ip g =
    let p = g.policy in
    if not p.enabled
    then ok tt
    else verdict_or (check_ip ip p.acl) (
        if ltb 0 p.max_connections_per_ip && leb p.max_connections_per_ip (count_of ip g.ip_counter)
        then err (rate_limited "IP exceeded max connections per ip")
        else ok tt)

unfoldable pub on_connect : {F : Type 0} → IpAddr → SecurityGuard F → SecurityGuard F
unfolding inc
on_connect ip g =
    if not g.policy.enabled || eqb g.policy.max_connections_per_ip 0
    then g
    else record g { ip_counter = inc ip g.ip_counter }

abbrev forget_client : {F : Type 0} → Option Str → ClientRateLimiter F → ClientRateLimiter F
forget_client none l = l
forget_client (some client_id) l = remove_client client_id l

unfoldable pub on_disconnect :
    {F : Type 0} → IpAddr → Option Str → SecurityGuard F → SecurityGuard F
unfolding dec remove_client
on_disconnect ip client_id g = record g {
  ip_counter = if counted g.policy then dec ip g.ip_counter else g.ip_counter;
  rate_limiter = forget_client client_id g.rate_limiter;
}

-- The greatest payload that is let in.
abbrev pub payload_limit : SecurityPolicy → ℕ → ℕ
payload_limit p broker_max_packet =
    if ltb 0 p.max_payload_bytes then p.max_payload_bytes else broker_max_packet

unfoldable pub check_publish :
    {F : Type 0}
    → Floats F
    → ℕ
    → Str
    → ℕ
    → ℕ
    → SecurityGuard F
    → Result BrokerError (Unit {0}) × SecurityGuard F
unfolding try_consume
check_publish fl now client_id payload_len broker_max_packet g =
    let p = g.policy in
    let limit = payload_limit p broker_max_packet in
    let tried = try_consume fl now client_id g.rate_limiter in
    if not p.enabled
    then (ok tt, g)
    else if ltb limit payload_len
    then (err (packet_too_large payload_len limit), g)
    else if not (ltb 0 p.publish_rate_per_second)
    then (ok tt, g)
    else (
      if tried.0 then ok tt else err (rate_limited "client publish rate exceeded"),
      record g { rate_limiter = tried.1 },
    )

-- ===== src/Plugin/Forwarder.antt =====
-- src/plugin/forwarder.rs: the forwarder's configuration, the check of its target, and the hand-over
-- of a publication. The queue of the task that posts is a list; whether it still runs is a state of
-- the channel. The parser of addresses is an argument.
use lumen_mq.Prelude.{
  ℕ, ◌+◌, ◌-◌, ◌*◌, ◌/◌, ◌%◌, ◌^◌, Bool, true, false, not, ◌&&◌, ◌||◌, Option, some, none, List, [],
  ◌∷◌, ◌++◌, Str, if◌then◌else◌, eqb, leb, ltb, length, is_empty, nat_key, list_key,
}
use lumen_mq.Prelude.Result.{Result, ok, err, ◌>>◌}
use lumen_mq.Utils.{BrokerError, config}
use lumen_mq.Codec.Packet.{Publish, qos_as_u8}
use lumen_mq.Broker.Topic.{topic_matches_filter}
use lumen_mq.Security.IpFilter.{IpAddr, v4, v6, Syntax}

pub record ForwardConfig : Type 0 where
  pub enabled : Bool
  pub url : Str
  pub topic_filter : Str
  pub max_queue : ℕ
  pub allow_private_network : Bool

-- `ForwardPayload`; the payload goes out in base 64, which is the library's.
pub record ForwardPayload : Type 0 where
  pub topic : Str
  pub qos : ℕ
  pub retain : Bool
  pub payload : List ℕ
  pub client_id : Option Str

-- The channel to the task: its room and what waits in it.
pub record Queue : Type 0 where
  pub room : ℕ
  pub waiting : List ForwardPayload
  pub closed : Bool

pub record Forwarder : Type 0 where
  pub tx : Option Queue
  pub topic_filter : Option Str
  pub dropped : ℕ

abbrev pub disabled_forwarder : Forwarder
disabled_forwarder = record { tx = none; topic_filter = none; dropped = 0 }

-- "http://" and "https://".
abbrev http : Str
http = b'h' ∷ b't' ∷ b't' ∷ b'p' ∷ b':' ∷ b'/' ∷ b'/' ∷ []

abbrev https : Str
https = b'h' ∷ b't' ∷ b't' ∷ b'p' ∷ b's' ∷ b':' ∷ b'/' ∷ b'/' ∷ []

unfoldable pub strip_prefix : Str → Str → Option Str
strip_prefix [] s = some s
strip_prefix (p ∷ ps) [] = none
strip_prefix (p ∷ ps) (c ∷ cs) = let rest = strip_prefix ps cs in if eqb p c then rest else none

unfoldable pub after_scheme : Str → Option Str
unfolding strip_prefix
after_scheme url = elim (strip_prefix http url) [
  | some rest ↦ some rest
  | none ↦ strip_prefix https url
]

-- The text before the first character of which the test holds.
unfoldable pub until : (ℕ → Bool) → Str → Str
until test [] = []
until test (c ∷ cs) = if test c then [] else c ∷ until test cs

abbrev pub ends_authority : ℕ → Bool
ends_authority c = eqb c b'/' || (eqb c b'?' || eqb c b'#')

-- The text behind the last `@`, or all of it.
unfoldable pub after_last_at : Str → Str → Str
after_last_at seen [] = seen
after_last_at seen (c ∷ cs) = after_last_at (if eqb c b'@' then cs else seen) cs

-- The text before the first `]`, where there is one.
unfoldable pub until_bracket : Str → Option Str
until_bracket [] = none
until_bracket (c ∷ cs) =
    if eqb c b']' then some [] else elim (until_bracket cs) [ none ↦ none | some a ↦ some (c ∷ a) ]

unfoldable pub host_of : Str → Option Str
unfolding until until_bracket
host_of [] = none
host_of (c ∷ cs) =
    let host = until (eqb b':') (c ∷ cs) in
    if eqb c b'[' then until_bracket cs else if is_empty host then none else some host

unfoldable pub extract_host : Str → Option Str
unfolding after_scheme until after_last_at host_of
extract_host url = elim (after_scheme url) [
  | none ↦ none
  | some rest ↦
      let authority = until ends_authority rest in host_of (after_last_at authority authority)
]

-- `octets()[i]` and `segments()[0]`.
abbrev pub octet : ℕ → ℕ → ℕ
octet i bits = bits / 2 ^ (24 - 8 * i) % 256

abbrev pub first_segment : ℕ → ℕ
first_segment bits = bits / 2 ^ 112 % 65536

unfoldable pub is_forbidden_v4 : ℕ → Bool
is_forbidden_v4 bits =
    eqb (octet 0 bits) 127
    || (eqb (octet 0 bits) 0
        || (eqb (octet 0 bits) 10
            || ((eqb (octet 0 bits) 172 && eqb (octet 1 bits / 16 * 16) 0x10)
                || ((eqb (octet 0 bits) 192 && eqb (octet 1 bits) 168)
                    || (eqb (octet 0 bits) 169 && eqb (octet 1 bits) 254)))))

-- An address of version 4 in one of version 6 has 80 bits of zeros and 16 of ones in front.
unfoldable pub is_forbidden_ip : IpAddr → Bool
unfolding is_forbidden_v4
is_forbidden_ip (v4 bits) = is_forbidden_v4 bits
is_forbidden_ip (v6 bits) =
    eqb bits 0
    || (eqb bits 1
        || (eqb (first_segment bits / 64 * 64) 0xFE80
            || (eqb (first_segment bits / 512 * 512) 0xFC00
                || (eqb (bits / 2 ^ 32) 0xFFFF && is_forbidden_v4 (bits % 2 ^ 32)))))

abbrev to_lower : ℕ → ℕ
to_lower c = if leb b'A' c && leb c b'Z' then c + 32 else c

-- `eq_ignore_ascii_case`.
unfoldable pub eq_ignore_case : Str → Str → Bool
eq_ignore_case [] [] = true
eq_ignore_case [] (b ∷ bs) = false
eq_ignore_case (a ∷ as') [] = false
eq_ignore_case (a ∷ as') (b ∷ bs) = eqb (to_lower a) (to_lower b) && eq_ignore_case as' bs

abbrev pub localhost : Str
localhost = b'l' ∷ b'o' ∷ b'c' ∷ b'a' ∷ b'l' ∷ b'h' ∷ b'o' ∷ b's' ∷ b't' ∷ []

abbrev pub allowed_ip : Option IpAddr → Result BrokerError (Unit {0})
allowed_ip none = ok tt
allowed_ip (some ip) =
    if is_forbidden_ip ip then err (config "plugin.forward.url host is forbidden") else ok tt

unfoldable pub validate_forward_url : Syntax → Str → Result BrokerError (Unit {0})
unfolding extract_host eq_ignore_case is_forbidden_ip
validate_forward_url x url = elim (extract_host url) [
  | none ↦ err (config "plugin.forward.url cannot parse host")
  | some host ↦
      if eq_ignore_case host localhost
      then err (config "plugin.forward.url host 'localhost' is forbidden")
      else allowed_ip (x.parse_ip host)
]

abbrev has_scheme : Str → Bool
has_scheme url = elim (after_scheme url) [ none ↦ false | some _ ↦ true ]

-- `Forwarder::new`, where the client of HTTP can be built.
unfoldable pub new_forwarder : Syntax → ForwardConfig → Result BrokerError Forwarder
unfolding after_scheme validate_forward_url
new_forwarder x cfg =
    if not cfg.enabled
    then ok disabled_forwarder
    else if is_empty cfg.url
    then err (config "plugin.forward.url must be set when enabled")
    else if not (has_scheme cfg.url)
    then err (config "plugin.forward.url invalid scheme")
    else (if cfg.allow_private_network then ok tt else validate_forward_url x cfg.url)
      >> ok (record {
        tx = some (record {
          room = if eqb cfg.max_queue 0 then 1024 else cfg.max_queue;
          waiting = [];
          closed = false;
        });
        topic_filter = if is_empty cfg.topic_filter then none else some cfg.topic_filter;
        dropped = 0;
      })

abbrev forwards : Str → Option Str → Bool
forwards topic none = true
forwards topic (some filter) = topic_matches_filter topic filter

-- `try_send`.
abbrev offer : ForwardPayload → Queue → Forwarder → Forwarder
offer payload q f =
    if q.closed
    then f
    else if ltb (length q.waiting) q.room
    then record f { tx = some (record q { waiting = q.waiting ++ (payload ∷ []) }) }
    else record f { dropped = (f.dropped + 1) % 2 ^ 64 }

unfoldable pub try_forward : Publish → Option Str → Forwarder → Forwarder
unfolding topic_matches_filter qos_as_u8
try_forward p client_id f = elim f.tx [
  | none ↦ f
  | some q ↦
      if forwards p.topic f.topic_filter
      then offer
          (record {
            topic = p.topic;
            qos = qos_as_u8 p.qos;
            retain = p.retain;
            payload = p.payload;
            client_id = client_id;
          })
          q f
      else f
]

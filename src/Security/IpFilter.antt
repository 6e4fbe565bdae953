-- ===== src/Security/IpFilter.antt =====
-- src/security/ip_filter.rs: the rules, the filter of both address versions, and the access list. An
-- address is its bits as a number. Trimming a text and reading an address from it are the standard
-- library's, and arguments here; an error has the fixed part of its message.
use lumen_mq.Prelude.{
  ℕ, ◌+◌, ◌-◌, ◌*◌, ◌/◌, ◌^◌, min, Bool, not, ◌&&◌, Option, some, none, List, [], ◌∷◌, Str,
  if◌then◌else◌, ltb, leb, eqb, is_empty,
}
use lumen_mq.Prelude.Result.{Result, ok, err, ◌>>=◌}
use lumen_mq.Utils.{BrokerError, config}
use lumen_mq.Security.Trie.{BitTrie, new_trie, insert_rule, contains_bits}

pub data IpAddr : Type 0 where
  v4 : ℕ → IpAddr
  v6 : ℕ → IpAddr

-- `str::trim` and the parser of `IpAddr`.
pub record Syntax : Type 0 where
  pub trim : Str → Str
  pub parse_ip : Str → Option IpAddr

pub record IpRule : Type 0 where
  pub network : IpAddr
  pub prefix : ℕ

abbrev pub width : IpAddr → ℕ
width (v4 bits) = 32
width (v6 bits) = 128

-- `bits & mask`: the bits below the prefix are cleared.
abbrev pub mask_bits : ℕ → ℕ → ℕ → ℕ
mask_bits width prefix bits =
    let p = min prefix width in if eqb p 0 then 0 else bits / 2 ^ (width - p) * 2 ^ (width - p)

abbrev pub apply_mask : IpAddr → ℕ → IpAddr
apply_mask (v4 bits) prefix = v4 (mask_bits 32 prefix bits)
apply_mask (v6 bits) prefix = v6 (mask_bits 128 prefix bits)

before_last : ℕ → Str → Option (Str × Str) → Option (Str × Str)
before_last c cs (some (a, b)) = some (c ∷ a, b)
before_last c cs none = if eqb c b'/' then some ([], cs) else none

-- `rsplit_once('/')`.
unfoldable pub rsplit_once : Str → Option (Str × Str)
unfolding before_last
rsplit_once [] = none
rsplit_once (c ∷ cs) = before_last c cs (rsplit_once cs)

-- The digits of a `u8`, with its overflow.
unfoldable pub digits_u8 : ℕ → Str → Option ℕ
digits_u8 acc [] = some acc
digits_u8 acc (c ∷ cs) =
    let next = acc * 10 + (c - b'0') in
    let rest = digits_u8 next cs in
    if leb b'0' c && (leb c b'9' && ltb next 256) then rest else none

-- `parse::<u8>()`: a sign `+` may stand before the digits.
unfoldable pub parse_u8 : Str → Option ℕ
unfolding digits_u8
parse_u8 [] = none
parse_u8 (c ∷ cs) =
    if eqb c b'+' then (if is_empty cs then none else digits_u8 0 cs) else digits_u8 0 (c ∷ cs)

abbrev pub prefix_or_width : Option ℕ → IpAddr → ℕ
prefix_or_width none ip = width ip
prefix_or_width (some p) ip = p

unfoldable pub rule_of : Option IpAddr → Option ℕ → Result BrokerError IpRule
rule_of none prefix = err (config "invalid IP address")
rule_of (some ip) prefix =
    let p = prefix_or_width prefix ip in
    if ltb (width ip) p
    then err (config "CIDR prefix exceeds max")
    else ok (record { network = apply_mask ip p; prefix = p })

abbrev pub split_rule : Syntax → Str → Option (Str × Str) → Result BrokerError IpRule
split_rule x s none = rule_of (x.parse_ip s) none
split_rule x s (some (addr, p)) = elim (parse_u8 p) [
  | none ↦ err (config "invalid CIDR prefix")
  | some prefix ↦ rule_of (x.parse_ip addr) (some prefix)
]

-- `IpRule::parse`.
unfoldable pub parse_rule : Syntax → Str → Result BrokerError IpRule
unfolding rsplit_once parse_u8 rule_of
parse_rule x s = let trimmed = x.trim s in split_rule x trimmed (rsplit_once trimmed)

pub record IpFilter : Type 0 where
  pub v4_trie : BitTrie
  pub v6_trie : BitTrie
  pub rule_count : ℕ

abbrev pub empty_filter : IpFilter
empty_filter = record { v4_trie = new_trie 32; v6_trie = new_trie 128; rule_count = 0 }

abbrev pub add_to : IpAddr → ℕ → IpFilter → IpFilter
add_to (v4 bits) prefix f = record f { v4_trie = insert_rule bits prefix f.v4_trie }
add_to (v6 bits) prefix f = record f { v6_trie = insert_rule bits prefix f.v6_trie }

unfoldable pub add_rule : IpRule → IpFilter → IpFilter
unfolding insert_rule
add_rule rule f = record (add_to rule.network rule.prefix f) { rule_count = f.rule_count + 1 }

-- The loop of `IpFilter::new`.
unfoldable pub add_entries : Syntax → List Str → IpFilter → Result BrokerError IpFilter
unfolding parse_rule add_rule
add_entries x [] f = ok f
add_entries x (e ∷ entries) f = do rule ← parse_rule x e; add_entries x entries (add_rule rule f)

abbrev pub new_filter : Syntax → List Str → Result BrokerError IpFilter
new_filter x entries = add_entries x entries empty_filter

abbrev pub filter_is_empty : IpFilter → Bool
filter_is_empty f = eqb f.rule_count 0

unfoldable pub contains_ip : IpAddr → IpFilter → Bool
unfolding contains_bits
contains_ip (v4 bits) f = contains_bits bits f.v4_trie
contains_ip (v6 bits) f = contains_bits bits f.v6_trie

pub data IpVerdict : Type 0 where
  allow blacklisted not_whitelisted : IpVerdict

pub record IpAcl : Type 0 where
  pub blacklist : IpFilter
  pub whitelist : IpFilter

unfoldable pub check_ip : IpAddr → IpAcl → IpVerdict
unfolding contains_ip
check_ip ip acl =
    if contains_ip ip acl.blacklist
    then blacklisted
    else if not (filter_is_empty acl.whitelist) && not (contains_ip ip acl.whitelist)
    then not_whitelisted
    else allow

-- ===== src/Security/Examples.antt =====
-- The security checks, run: the witnesses and the samples that other tests share.
use lumen_mq.Prelude.{
  ℕ, ◌≡◌, ◌↔◌, ◌⊎◌, ◌+◌, ◌-◌, ◌*◌, ◌/◌, ◌^◌, ◌≤◌, refl, true, some, none, List, [], ◌∷◌, Str,
  if◌then◌else◌, ltb, leb, min, arith, list_same, nat_key, list_key, ◌==◌,
}
use lumen_mq.Prelude.Assoc.{lookup}
use lumen_mq.Security.Trie.{contains_bits}
use lumen_mq.Security.IpFilter.{
  v4, v6, Syntax, IpRule, IpAcl, allow, empty_filter, add_rule, add_entries, parse_rule, rule_of,
  rsplit_once, parse_u8, digits_u8, check_ip,
}
use lumen_mq.Security.Rules.{Covered, GivesAddrs, check_ip_allows}
use lumen_mq.Security.Limiter.{Floats, new_limiter, count_of}
use lumen_mq.Security.Guard.{SecurityPolicy, SecurityGuard, check_connection, on_connect}
use lumen_mq.Security.Balance.{Reached, accept, open_from, accept-Agrees_Reached}
use lumen_mq.Security.Burst.{WholeTokens, grants_over, allowed, grants_over-new_limiter}

-- "10.0.0.0", the only text that reads as an address here, and "10.0.0.0/8".
abbrev pub ten : Str
ten = b'1' ∷ b'0' ∷ b'.' ∷ b'0' ∷ b'.' ∷ b'0' ∷ b'.' ∷ b'0' ∷ []

abbrev ten_net : Str
ten_net = b'1' ∷ b'0' ∷ b'.' ∷ b'0' ∷ b'.' ∷ b'0' ∷ b'.' ∷ b'0' ∷ b'/' ∷ b'8' ∷ []

abbrev pub syntax : Syntax
syntax = record { trim = λ s. s; parse_ip = λ s. if s == ten then some (v4 0x0A000000) else none }

pub syntax-GivesAddrs : GivesAddrs syntax
syntax-GivesAddrs s (v4 bits) h = ground (arith, h)
syntax-GivesAddrs s (v6 bits) h = ground (arith, h)

abbrev ten_rule : IpRule
ten_rule = record { network = v4 0x0A000000; prefix = 8 }

abbrev acl : IpAcl
acl = record { blacklist = add_rule ten_rule empty_filter; whitelist = empty_filter }

check_ip_allows_example : (check_ip (v4 0x08080808) acl ≡ allow) ↔ (
    (¬ Covered syntax (ten_net ∷ []) (v4 0x08080808))
    × (◌≡◌ {A = List Str} [] [] ⊎ Covered syntax [] (v4 0x08080808)))
unfolding parse_rule rule_of rsplit_once parse_u8 digits_u8 add_entries list_same
check_ip_allows_example =
    check_ip_allows syntax (ten_net ∷ []) [] acl (v4 0x08080808) syntax-GivesAddrs (omega arith)
      refl refl

-- Whole numbers in the place of `f64`.
abbrev pub whole : Floats ℕ
whole = record {
  of_u32 = λ n. n;
  elapsed = λ d. d / 1000000000;
  add = λ a b. a + b;
  sub = λ a b. a - b;
  mul = λ a b. a * b;
  least = λ a b. min a b;
  at_least = λ a b. leb b a;
  positive = λ a. ltb 0 a;
}

whole-WholeTokens : WholeTokens whole
whole-WholeTokens = record {
  still = refl;
  moves = λ secs. ground arith;
  refilled = λ n rate secs cap a b c.
      let e : secs * 1000000000 / 1000000000 ≡ secs = omega arith in rw e refl;
  sub_one = λ n h. omega arith;
  enough = λ n h. ground arith;
}

abbrev two_each : SecurityPolicy
two_each = record {
  enabled = true;
  acl = record { blacklist = empty_filter; whitelist = empty_filter };
  max_connections_per_ip = 2;
  publish_rate_per_second = 0;
  max_payload_bytes = 0;
}

abbrev pub open_guard : SecurityGuard ℕ
open_guard = record { policy = two_each; ip_counter = []; rate_limiter = new_limiter 0 }

accept-Agrees_Reached_example :
    ((on_connect (v4 7) open_guard).policy ≡ two_each)
    × (count_of (v4 7) (on_connect (v4 7) open_guard).ip_counter ≡ open_from (v4 7) (v4 7 ∷ []))
    × (open_from (v4 7) (v4 7 ∷ []) ≤ 2)
unfolding accept check_connection check_ip contains_bits count_of lookup
accept-Agrees_Reached_example =
    accept-Agrees_Reached whole two_each (on_connect (v4 7) open_guard) (v4 7 ∷ []) refl
      (omega arith)
      (Reached.accepts open_guard (on_connect (v4 7) open_guard) [] (v4 7)
        (Reached.starts open_guard refl refl) refl)
      (v4 7)

-- Two calls at once, two seconds and three calls, one second and two calls, at a rate of 1.
abbrev three_rounds : List (ℕ × List Str)
three_rounds =
    (0, ten ∷ ten_net ∷ ten ∷ []) ∷ (2, ten ∷ ten ∷ ten_net ∷ ten ∷ []) ∷ (1, ten ∷ ten ∷ []) ∷ []

grants_over-new_limiter_example :
    grants_over whole 5 ten three_rounds (new_limiter 1)
    ≡ allowed 1 (min (1 * 2) (2 ^ 32 - 1)) ten (min (1 * 2) (2 ^ 32 - 1)) three_rounds
grants_over-new_limiter_example =
    grants_over-new_limiter whole whole-WholeTokens 1 (omega arith) (omega arith) ten 5 three_rounds

calls_in_three_seconds : allowed 1 2 ten 2 three_rounds ≡ 2 ∷ 2 ∷ 1 ∷ []
unfolding list_same
calls_in_three_seconds = refl

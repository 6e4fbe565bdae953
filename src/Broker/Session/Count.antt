-- ===== src/Broker/Session/Count.antt =====
-- src/broker/session.rs: `online_count` counts the connected sessions.
use lumen_mq.Prelude.{
  ℕ, ◌+◌, ◌%◌, ◌^◌, ◌≡◌, true, [], ◌∷◌, Str, nat_key, list_key, ◌==◌, arith, bit, ◌↔◌,
}
use lumen_mq.Prelude.Assoc.{Assoc, lookup, insert, remove, IsMap, remove_absent}
use lumen_mq.Broker.Session.{SessionEntry, add_one, sub_one, was_online}

abbrev pub online : Assoc Str SessionEntry → ℕ
online [] = 0
online ((k, e) ∷ m) = bit e.connected + online m

pub str_iff : (a b : Str) → ((a == b) ≡ true) ↔ (a ≡ b)
str_iff a b = list_key.same_iff a b

pub online-insert :
    (k : Str) (e : SessionEntry) (m : Assoc Str SessionEntry)
    → online (insert k e m) + bit (was_online (lookup k m)) ≡ online m + bit e.connected
unfolding insert lookup
online-insert k e [] = omega arith
online-insert k e ((j, d) ∷ m) = ground (arith, online-insert k e m)

pub online-remove :
    (k : Str) (m : Assoc Str SessionEntry)
    → IsMap m
    → online (remove k m) + bit (was_online (lookup k m)) ≡ online m
unfolding remove lookup
online-remove k [] v = omega arith
online-remove k ((j, d) ∷ m) v =
    ground (arith, online-remove k m v.1, str_iff j k, remove_absent k m, v.0)

pub add_one_counts : (c n : ℕ) → c ≡ n % 2 ^ 64 → add_one c ≡ (n + 1) % 2 ^ 64
add_one_counts c n h = omega (arith, h)

pub sub_one_counts : (c n : ℕ) → c ≡ (n + 1) % 2 ^ 64 → sub_one c ≡ n % 2 ^ 64
sub_one_counts c n h = omega (arith, h)

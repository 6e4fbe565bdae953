-- ===== src/Broker/Subscription/Select.antt =====
-- src/broker/subscription.rs: the receivers of a publication, `matches` and `matches_shared`.
-- `rr_counter` wraps at 2^64.
use lumen_mq.Prelude.{
  ℕ, zero, suc, ◌+◌, ◌%◌, ◌^◌, Bool, true, false, not, Option, some, none, List, [], ◌∷◌, Str,
  if◌then◌else◌, ltb, nat_key, list_key, pair_key, is_empty, length,
}
use lumen_mq.Prelude.Assoc.{Assoc, lookup, insert}
use lumen_mq.Codec.Packet.{QoS, qos_le}
use lumen_mq.Broker.Topic.{split, topic_matches_filter}
use lumen_mq.Broker.Subscription.Tree.{Subscribers, collect_matches}
use lumen_mq.Broker.Subscription.{SubscriptionTree, SharedEntry, Groups}

-- One round of the loop that keeps each client's greatest QoS.
unfoldable pub merge : Str × QoS → Assoc Str QoS → Assoc Str QoS
unfolding lookup insert
merge (id, qos) best = elim (lookup id best) [
  | none ↦ insert id qos best
  | some q ↦ if not (qos_le qos q) then insert id qos best else best
]

unfoldable pub merge_all : List (Str × QoS) → Assoc Str QoS → Assoc Str QoS
unfolding merge
merge_all [] best = best
merge_all (x ∷ out) best = merge_all out (merge x best)

unfoldable pub matches : Str → SubscriptionTree → List (Str × QoS)
unfolding split merge_all collect_matches
matches topic t = if is_empty topic then [] else merge_all (collect_matches (split topic) t.root) []

-- The order of texts, by bytes.
unfoldable pub str_le : Str → Str → Bool
str_le [] bs = true
str_le (a ∷ as') [] = false
str_le (a ∷ as') (b ∷ bs) =
    let rest = str_le as' bs in if ltb a b then true else if ltb b a then false else rest

unfoldable pub place : Str × QoS → Subscribers → Subscribers
unfolding str_le
place x [] = x ∷ []
place x (y ∷ ys) = if str_le x.0 y.0 then x ∷ y ∷ ys else y ∷ place x ys

-- `sort_by` on the client ids.
unfoldable pub sort_by_id : Subscribers → Subscribers
unfolding place
sort_by_id [] = []
sort_by_id (x ∷ xs) = place x (sort_by_id xs)

abbrev pub member_at {ℓ} : {A : Type ℓ} → ℕ → List A → Option A
member_at n [] = none
member_at zero (x ∷ xs) = some x
member_at (suc n) (x ∷ xs) = member_at n xs

-- The member whose turn it is, and the entry with its counter moved on.
unfoldable pub next_member : SharedEntry → Option (Str × QoS) × SharedEntry
unfolding sort_by_id
next_member entry = (
  member_at (entry.rr_counter % length entry.members) (sort_by_id entry.members),
  record entry { rr_counter = (entry.rr_counter + 1) % 2 ^ 64 },
)

abbrev pub select_if {ℓ} : {A : Type ℓ} → Option A → List A → List A
select_if none out = out
select_if (some x) out = x ∷ out

-- The loop of `matches_shared`: the members chosen, and the groups with their counters.
unfoldable pub select_members : Str → Groups → List (Str × QoS) × Groups
unfolding topic_matches_filter next_member
select_members topic [] = ([], [])
select_members topic ((key, entry) ∷ groups) =
    let rest = select_members topic groups in
    let turn = next_member entry in
    if not (topic_matches_filter topic key.1)
    then (rest.0, (key, entry) ∷ rest.1)
    else if is_empty entry.members
    then (rest.0, (key, entry) ∷ rest.1)
    else (select_if turn.0 rest.0, (key, turn.1) ∷ rest.1)

unfoldable pub matches_shared : Str → SubscriptionTree → List (Str × QoS) × SubscriptionTree
unfolding select_members
matches_shared topic t =
    if is_empty topic
    then ([], t)
    else let chosen = select_members topic t.shared in (chosen.0, record t { shared = chosen.1 })

-- ===== src/Broker/Subscription.antt =====
-- src/broker/subscription.rs: the subscription tree, the reverse index and the shared groups. The
-- locks are taken one after the other; a call here runs as one step. A map is iterated in its list's
-- order.
pub mod Tree
pub mod Paths
pub mod Select
pub mod Collect
pub mod Best
pub mod Index
pub mod Group
pub mod Refinement
pub mod Effects
pub mod Removal
pub mod Delivery
pub mod Examples
use lumen_mq.Prelude.{
  ℕ, zero, suc, ◌+◌, ◌%◌, ◌^◌, Bool, true, false, not, ◌&&◌, Option, some, none, List, [], ◌∷◌,
  ◌++◌, Str, if◌then◌else◌, ltb, leb, nat_key, Key, list_key, pair_key, ◌==◌, is_empty, length,
  keep, map,
}
use lumen_mq.Prelude.Assoc.{Assoc, lookup, insert, remove}
use lumen_mq.Prelude.Result.{Result, ok, err, ◌>>=◌}
use lumen_mq.Utils.{BrokerError}
use lumen_mq.Codec.Packet.{QoS, qos_le}
use lumen_mq.Broker.Topic.{split, parse_shared_filter, validate_filter, topic_matches_filter}
use Tree.{
  Subscribers, Node, new_node, insert_at, has_key, remove_recursive, remove_all, count_subscribers,
  collect_matches,
}

-- A group's members and its counter of deliveries.
pub record SharedEntry : Type 0 where
  pub members : Subscribers
  pub rr_counter : ℕ

abbrev pub no_members : SharedEntry
no_members = record { members = []; rr_counter = 0 }

abbrev pub Filters : Type 0
Filters = List (Str × QoS)

-- The groups by their name and filter.
abbrev pub Groups : Type 0
Groups = Assoc (Str × Str) SharedEntry

-- The tree, each client's filters, and the shared groups.
pub record SubscriptionTree : Type 0 where
  pub root : Node
  pub reverse : Assoc Str Filters
  pub shared : Groups

abbrev pub new_tree : SubscriptionTree
new_tree = record { root = new_node; reverse = []; shared = [] }

-- `unwrap_or_default`.
abbrev pub or_default {ℓ} : {A : Type ℓ} → A → Option A → A
or_default d none = d
or_default d (some x) = x

-- The filter's QoS replaced where it stands, or the filter added at the end.
unfoldable pub set_filter : Str → QoS → Filters → Filters
set_filter filter qos [] = (filter, qos) ∷ []
set_filter filter qos ((f, q) ∷ list) =
    if f == filter then (f, qos) ∷ list else (f, q) ∷ set_filter filter qos list

unfoldable pub note_filter : Str → Str → QoS → Assoc Str Filters → Assoc Str Filters
unfolding lookup insert set_filter
note_filter client_id filter qos rev =
    insert client_id (set_filter filter qos (or_default [] (lookup client_id rev))) rev

-- The value stored, or the key removed where nothing is left of it.
unfoldable pub store_or_drop {ℓ κ} :
    {K : Type ℓ} {V : Type κ} ⦃e : Key K⦄ → Bool → K → V → Assoc K V → Assoc K V
unfolding insert remove
store_or_drop gone key v m = if gone then remove key m else insert key v m

other_filter : Str → Str × QoS → Bool
other_filter filter entry = not (entry.0 == filter)

unfoldable pub forget_filter : Str → Str → Assoc Str Filters → Assoc Str Filters
unfolding lookup store_or_drop keep other_filter
forget_filter client_id filter rev = elim (lookup client_id rev) [
  | none ↦ rev
  | some list ↦
      let left = keep (other_filter filter) list in store_or_drop (is_empty left) client_id left rev
]

unfoldable pub join_group : Str × Str → Str → QoS → Groups → Groups
unfolding lookup insert
join_group key client_id qos groups =
    let entry = or_default no_members (lookup key groups) in
    insert key (record entry { members = insert client_id qos entry.members }) groups

unfoldable pub subscribe : Str → Str → QoS → SubscriptionTree → Result BrokerError SubscriptionTree
unfolding parse_shared_filter validate_filter split note_filter join_group insert_at
subscribe client_id filter qos t = elim (parse_shared_filter filter) [
  | some (group, real_filter) ↦ do
    _ ← validate_filter real_filter
    ok (record t {
      shared = join_group (group, real_filter) client_id qos t.shared;
      reverse = note_filter client_id filter qos t.reverse;
    })
  | none ↦ do
    _ ← validate_filter filter
    ok (record t {
      root = insert_at (split filter) client_id qos t.root;
      reverse = note_filter client_id filter qos t.reverse;
    })
]

-- The groups without the member, and whether it was one. A group that is left empty is dropped.
unfoldable pub leave_group : Str × Str → Str → Groups → Groups × Bool
unfolding lookup remove store_or_drop
leave_group key client_id groups = elim (lookup key groups) [
  | none ↦ (groups, false)
  | some entry ↦
      let members = remove client_id entry.members in
      let removed = has_key client_id entry.members in
      (
        store_or_drop (removed && is_empty members) key (record entry { members = members }) groups,
        removed,
      )
]

unfoldable pub unsubscribe : Str → Str → SubscriptionTree → SubscriptionTree × Bool
unfolding parse_shared_filter split forget_filter leave_group remove_recursive
unsubscribe client_id filter t = elim (parse_shared_filter filter) [
  | some key ↦
      let left = leave_group key client_id t.shared in
      (
        record t {
          shared = left.0;
          reverse = if left.1 then forget_filter client_id filter t.reverse else t.reverse;
        },
        left.1,
      )
  | none ↦
      let left = remove_recursive (split filter) client_id t.root in
      (
        record t {
          root = left.0;
          reverse = if left.1 then forget_filter client_id filter t.reverse else t.reverse;
        },
        left.1,
      )
]

-- The keys of the groups that the client is in.
unfoldable pub shared_keys : Str → Groups → List (Str × Str)
unfolding lookup
shared_keys client_id [] = []
shared_keys client_id ((key, entry) ∷ groups) =
    if has_key client_id entry.members
    then key ∷ shared_keys client_id groups
    else shared_keys client_id groups

-- One round of the loop of `unsubscribe_all`.
unfoldable pub quit_group : Str → Str × Str → Groups → Groups
unfolding lookup remove store_or_drop
quit_group client_id key groups = elim (lookup key groups) [
  | none ↦ groups
  | some entry ↦
      let members = remove client_id entry.members in
      store_or_drop (is_empty members) key (record entry { members = members }) groups
]

unfoldable pub quit_groups : Str → List (Str × Str) → Groups → Groups
unfolding quit_group
quit_groups client_id [] groups = groups
quit_groups client_id (key ∷ keys) groups =
    quit_groups client_id keys (quit_group client_id key groups)

unfoldable pub unsubscribe_all : Str → SubscriptionTree → SubscriptionTree
unfolding remove shared_keys quit_groups remove_all
unsubscribe_all client_id t = record {
  root = remove_all client_id t.root;
  shared = quit_groups client_id (shared_keys client_id t.shared) t.shared;
  reverse = remove client_id t.reverse;
}

abbrev pub count_members : Groups → ℕ
count_members [] = 0
count_members ((key, entry) ∷ groups) = length entry.members + count_members groups

unfoldable pub subscription_counts : SubscriptionTree → ℕ × ℕ
unfolding count_subscribers
subscription_counts t = (count_subscribers t.root, count_members t.shared)

unfoldable pub subscriber_count : SubscriptionTree → ℕ
unfolding count_subscribers
subscriber_count t = count_subscribers t.root + count_members t.shared

unfoldable pub subscriptions_of : Str → SubscriptionTree → Filters
unfolding lookup
subscriptions_of client_id t = or_default [] (lookup client_id t.reverse)

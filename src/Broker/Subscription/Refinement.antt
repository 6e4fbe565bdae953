-- ===== src/Broker/Subscription/Refinement.antt =====
-- src/broker/subscription.rs: the operations against a table of subscriptions, which has a QoS or
-- nothing for each client and filter.
use lumen_mq.Prelude.{
  ◌≡◌, ◌↔◌, ◌≢◌, sym, ap, ◌∙◌, List, Str, Bool, true, false, ◌&&◌, arith, nat_key, list_key,
  pair_key, ◌==◌, if◌then◌else◌, Option, some, none, Bool-cases, Option-cases, inl, inr,
}
use lumen_mq.Prelude.Assoc.{lookup, lookup-insert, lookup-remove, IsMap}
use lumen_mq.Prelude.Result.{ok}
use lumen_mq.Codec.Packet.{QoS}
use lumen_mq.Broker.Topic.{split, parse_shared_filter, validate_filter}
use lumen_mq.Broker.Topic.Splitting.{split_injective, parse_shared_filter_injective}
use lumen_mq.Broker.Subscription.{SubscriptionTree, subscriptions_of}
use lumen_mq.Broker.Subscription.Tree.{insert_at, remove_recursive}
use lumen_mq.Broker.Subscription.Paths.{subs_at, str_iff, subs_at-insert, subs_at-remove}
use lumen_mq.Broker.Subscription.Index.{member, key_iff}

-- The QoS of a client at a filter: in the tree, or in the group for a shared filter.
unfoldable pub subscription : Str → Str → SubscriptionTree → Option QoS
subscription id filter t = elim (parse_shared_filter filter) [
  | none ↦ lookup id (subs_at (split filter) t.root)
  | some key ↦ member id key t.shared
]

-- The table with one entry replaced.
abbrev pub updated : Str → Str → Option QoS → (Str → Str → Option QoS) → Str → Str → Option QoS
updated id filter v table id' filter' =
    if (id == id') && (filter == filter') then v else table id' filter'

-- The levels are those of a filter that `subscribe` puts into the tree.
abbrev pub IsFilter : List Str → Type 0
IsFilter path =
    (f : Str) × (split f ≡ path) × (parse_shared_filter f ≡ none) × (validate_filter f ≡ ok tt)

-- The reverse index says the same as the tree and the groups, a client stands once at a path, and
-- only at the path of a valid filter.
pub record WellFormed (t : SubscriptionTree) : Type 0 where
  pub index_agrees :
      (id filter : Str) → lookup filter (subscriptions_of id t) ≡ subscription id filter t
  pub paths_are_maps : (path : List Str) → IsMap (subs_at path t.root)
  pub paths_are_filters :
      (path : List Str) (id : Str) → lookup id (subs_at path t.root) ≢ none → IsFilter path

pub path_iff : (a b : List Str) → ((a == b) ≡ true) ↔ (a ≡ b)
path_iff a b = list_key.same_iff a b

same_split : (f f' : Str) → (split f == split f') ≡ (f == f')
same_split f f' =
    ground (arith, path_iff (split f) (split f'), str_iff f f', split_injective f f', ap split)

pub lookup_at-insert :
    (f : Str) (id : Str) (q : QoS) (t : SubscriptionTree) (id' f' : Str)
    → lookup id' (subs_at (split f') (insert_at (split f) id q t.root))
      ≡ updated id f (some q) (λ i g. lookup i (subs_at (split g) t.root)) id' f'
lookup_at-insert f id q t id' f' =
    rw (subs_at-insert (split f') (split f) id q t.root, same_split f f')
      (ground (arith, lookup-insert id id' q (subs_at (split f') t.root)))

pub lookup_at-remove :
    (f : Str) (id : Str) (t : SubscriptionTree) (id' f' : Str)
    → lookup id' (subs_at (split f') (remove_recursive (split f) id t.root).0)
      ≡ updated id f none (λ i g. lookup i (subs_at (split g) t.root)) id' f'
lookup_at-remove f id t id' f' =
    rw (subs_at-remove (split f') (split f) id t.root, same_split f f')
      (ground (arith, lookup-remove id id' (subs_at (split f') t.root)))

true-false : {P : Type 0} {b : Bool} → (b ≡ true) ↔ P → b ≡ false → ¬ P
true-false i e p = ground (arith, i, e, p)

same_key :
    (f f' : Str) (k k' : Str × Str)
    → parse_shared_filter f ≡ some k
    → parse_shared_filter f' ≡ some k'
    → (k == k') ≡ (f == f')
same_key f f' k k' h h' = elim (Bool-cases (f == f')) [
  | inl e ↦
      let same : f ≡ f' = (str_iff f f').0 e in
      let keys : ◌≡◌ {A = Option (Str × Str)} (some k) (some k') =
        sym h ∙ ap parse_shared_filter same ∙ h' in
      rw (e) ((key_iff k k').1 cc)
  | inr e ↦
      let other : (k == k') ≢ true = λ c.
        let keys : ◌≡◌ {A = Option (Str × Str)} (some k') (some k) =
          ap some (sym ((key_iff k k').0 c)) in
        absurd (
          true-false (str_iff f f') e (parse_shared_filter_injective f f' k.0 k.1 h (h' ∙ keys))) in
      rw (e) (ground (arith, other))
]

module _ (id f id' f' : Str) (t : SubscriptionTree) where
  -- The table after a change of the tree, or of a group, that is the one to the filter.
  pub tree_changed :
      (v : Option QoS) (t' : SubscriptionTree)
      → parse_shared_filter f ≡ none
      → t'.shared ≡ t.shared
      → lookup id' (subs_at (split f') t'.root)
        ≡ updated id f v (λ i g. lookup i (subs_at (split g) t.root)) id' f'
      → subscription id' f' t' ≡ updated id f v (λ i g. subscription i g t) id' f'
  unfolding subscription
  tree_changed v t' h e c = elim (Option-cases (parse_shared_filter f')) [
    | inl n ↦ ground (arith, n, c)
    | inr (k, n) ↦
        let apart : (f == f') ≡ false = ground (arith, str_iff f f', h, n) in
        ground (arith, n, apart, e)
  ]

  pub group_changed :
      (v : Option QoS) (k : Str × Str) (t' : SubscriptionTree)
      → parse_shared_filter f ≡ some k
      → t'.root ≡ t.root
      → ((k' : Str × Str)
          → member id' k' t'.shared
            ≡ (if (k == k') && (id == id') then v else member id' k' t.shared))
      → subscription id' f' t' ≡ updated id f v (λ i g. subscription i g t) id' f'
  unfolding subscription
  group_changed v k t' h e c = elim (Option-cases (parse_shared_filter f')) [
    | inl n ↦
        let apart : (f == f') ≡ false = ground (arith, str_iff f f', h, n) in
        ground (arith, n, apart, e)
    | inr (k', n) ↦ ground (arith, n, c k', same_key f f' k k' h n)
  ]

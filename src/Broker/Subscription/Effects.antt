-- ===== src/Broker/Subscription/Effects.antt =====
-- src/broker/subscription.rs: what `subscribe` does to the table of subscriptions, and that the
-- reverse index follows.
use lumen_mq.Prelude.{
  ◌≡◌, ◌≢◌, refl, sym, ap, ◌∙◌, List, Str, ◌&&◌, arith, nat_key, list_key, pair_key, ◌==◌,
  if◌then◌else◌, Option, some, none, Bool-cases, Option-cases, inl, inr,
}
use lumen_mq.Prelude.Assoc.{lookup, lookup-remove, IsMap, insert-IsMap, remove-IsMap}
use lumen_mq.Prelude.Result.{ok, err}
use lumen_mq.Utils.{BrokerError}
use lumen_mq.Codec.Packet.{QoS}
use lumen_mq.Broker.Topic.{split, parse_shared_filter, validate_filter}
use lumen_mq.Broker.Subscription.{
  SubscriptionTree, new_tree, subscribe, subscriptions_of, note_filter, join_group,
}
use lumen_mq.Broker.Subscription.Tree.{Node, insert_at, remove_recursive}
use lumen_mq.Broker.Subscription.Paths.{subs_at, subs_at-insert, subs_at-remove, subs_at-new}
use lumen_mq.Broker.Subscription.Index.{indexed-note, member-join}
use lumen_mq.Broker.Subscription.Refinement.{
  subscription, updated, WellFormed, IsFilter, path_iff, lookup_at-insert, tree_changed,
  group_changed,
}

-- The filter behind `$share/{group}/`, or the filter itself.
unfoldable pub real_filter : Str → Str
unfolding parse_shared_filter
real_filter f = elim (parse_shared_filter f) [ none ↦ f | some key ↦ key.1 ]

-- The table of `t'` is that of `t` with one entry replaced.
abbrev pub Updates : Str → Str → Option QoS → SubscriptionTree → SubscriptionTree → Type 0
Updates id f v t t' =
    (id' f' : Str) → subscription id' f' t' ≡ updated id f v (λ i g. subscription i g t) id' f'

abbrev pub FiltersOnly : Node → Type 0
FiltersOnly n = (path : List Str) (id : Str) → lookup id (subs_at path n) ≢ none → IsFilter path

pub index_follows :
    (id f : Str) (v : Option QoS) (t t' : SubscriptionTree)
    → WellFormed t
    → Updates id f v t t'
    → ((id' f' : Str)
        → lookup f' (subscriptions_of id' t')
          ≡ updated id f v (λ i g. lookup g (subscriptions_of i t)) id' f')
    → ((path : List Str) → IsMap (subs_at path t'.root))
    → FiltersOnly t'.root
    → WellFormed t'
index_follows id f v t t' w u i m o = record {
  index_agrees = λ id' f'.
      i id' f'
      ∙ ap (λ z. if (id == id') && (f == f') then v else z) (w.index_agrees id' f')
      ∙ sym (u id' f');
  paths_are_maps = m;
  paths_are_filters = o;
}

inserted_maps :
    (path : List Str) (id : Str) (q : QoS) (t : SubscriptionTree)
    → WellFormed t
    → (at : List Str) → IsMap (subs_at at (insert_at path id q t.root))
inserted_maps path id q t w at =
    rw (subs_at-insert at path id q t.root)
      (ground (arith, insert-IsMap id q (subs_at at t.root), w.paths_are_maps at))

pub removed_maps :
    (path : List Str) (id : Str) (t : SubscriptionTree)
    → WellFormed t
    → (at : List Str) → IsMap (subs_at at (remove_recursive path id t.root).0)
removed_maps path id t w at =
    rw (subs_at-remove at path id t.root)
      (ground (arith, remove-IsMap id (subs_at at t.root), w.paths_are_maps at))

inserted_filters :
    (f id : Str) (q : QoS) (t : SubscriptionTree)
    → WellFormed t
    → parse_shared_filter f ≡ none
    → validate_filter f ≡ ok tt
    → FiltersOnly (insert_at (split f) id q t.root)
inserted_filters f id q t w n v at i h = elim (Bool-cases (split f == at)) [
  | inl e ↦ (f, (path_iff (split f) at).0 e, n, v)
  | inr e ↦ w.paths_are_filters at i (ground (arith, subs_at-insert at (split f) id q t.root, h))
]

pub removed_filters :
    (path : List Str) (id : Str) (t : SubscriptionTree)
    → WellFormed t
    → FiltersOnly (remove_recursive path id t.root).0
removed_filters path id t w at i h =
    w.paths_are_filters at i
      (ground (arith, subs_at-remove at path id t.root, lookup-remove id i (subs_at at t.root), h))

pub new_tree-WellFormed : WellFormed new_tree
unfolding subscription subscriptions_of lookup
new_tree-WellFormed = record {
  index_agrees = λ id f. elim (Option-cases (parse_shared_filter f)) [
    | inl n ↦ ground (arith, n, subs_at-new (split f))
    | inr (key, n) ↦ ground (arith, n)
  ];
  paths_are_maps = λ path. rw (subs_at-new path) tt;
  paths_are_filters = λ path id h. absurd (h (ground (arith, subs_at-new path)));
}

-- On a well-formed tree, `subscribe` with a filter whose real filter is valid succeeds, sets the
-- client's entry for that filter and no other, and leaves the tree well formed.
pub subscribe-Updates :
    (id f : Str) (q : QoS) (t : SubscriptionTree)
    → WellFormed t
    → validate_filter (real_filter f) ≡ ok tt
    → (t' : SubscriptionTree) × (subscribe id f q t ≡ ok t')
      × WellFormed t'
      × Updates id f (some q) t t'
unfolding subscribe real_filter subscriptions_of
subscribe-Updates id f q t w v = elim (Option-cases (parse_shared_filter f)) [
  | inl n ↦
      let valid : validate_filter f ≡ ok tt = ground (arith, v, n) in
      let t' : SubscriptionTree = record t {
        root = insert_at (split f) id q t.root;
        reverse = note_filter id f q t.reverse;
      } in
      let u : Updates id f (some q) t t' = λ id' f'.
        tree_changed id f id' f' t (some q) t' n refl (lookup_at-insert f id q t id' f') in
      (
        t',
        ground (arith, n, valid),
        index_follows id f (some q) t t' w u (indexed-note id f q t.reverse)
            (inserted_maps (split f) id q t w) (inserted_filters f id q t w n valid),
        u,
      )
  | inr (key, n) ↦
      let valid : validate_filter key.1 ≡ ok tt = ground (arith, v, n) in
      let t' : SubscriptionTree = record t {
        shared = join_group key id q t.shared;
        reverse = note_filter id f q t.reverse;
      } in
      let u : Updates id f (some q) t t' = λ id' f'.
        group_changed id f id' f' t (some q) key t' n refl
          (λ k'. member-join key id q t.shared k' id') in
      (
        t',
        ground (arith, n, valid),
        index_follows id f (some q) t t' w u (indexed-note id f q t.reverse) w.paths_are_maps
            w.paths_are_filters,
        u,
      )
]

-- `subscribe` with a filter whose real filter is not valid fails with the error of `validate_filter`.
pub subscribe_rejects :
    (id f : Str) (q : QoS) (t : SubscriptionTree) (e : BrokerError)
    → validate_filter (real_filter f) ≡ err e
    → subscribe id f q t ≡ err e
unfolding subscribe real_filter
subscribe_rejects id f q t e v = elim (Option-cases (parse_shared_filter f)) [
  | inl n ↦ ground (arith, n, v)
  | inr (key, n) ↦ ground (arith, n, v)
]

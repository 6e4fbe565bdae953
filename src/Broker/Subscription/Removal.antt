-- ===== src/Broker/Subscription/Removal.antt =====
-- src/broker/subscription.rs: what `unsubscribe` and `unsubscribe_all` do to the table of
-- subscriptions, and that the reverse index follows.
use lumen_mq.Prelude.{
  ◌≡◌, refl, sym, ap, subst, ◌∙◌, [], Str, Bool, true, false, arith, nat_key, list_key, pair_key,
  ◌==◌, if◌then◌else◌, Option, some, none, Option-cases, inl, inr,
}
use lumen_mq.Prelude.Assoc.{Assoc, lookup, remove, lookup-remove, remove-IsMap}
use lumen_mq.Codec.Packet.{QoS}
use lumen_mq.Broker.Topic.{split, parse_shared_filter}
use lumen_mq.Broker.Subscription.{
  SubscriptionTree, Filters, unsubscribe, unsubscribe_all, subscriptions_of, or_default,
  forget_filter, leave_group,
}
use lumen_mq.Broker.Subscription.Tree.{remove_recursive, has_key}
use lumen_mq.Broker.Subscription.Paths.{subs_at, str_iff, subs_at-remove_all, remove_recursive_flag}
use lumen_mq.Broker.Subscription.Index.{
  indexed, indexed-forget, member-leave, leave_group_flag, member-quit_all,
}
use lumen_mq.Broker.Subscription.Refinement.{
  subscription, updated, WellFormed, lookup_at-remove, tree_changed, group_changed,
}
use lumen_mq.Broker.Subscription.Effects.{Updates, index_follows, removed_maps, removed_filters}

has_key-none : (id : Str) (s : Assoc Str QoS) → has_key id s ≡ false → lookup id s ≡ none
unfolding lookup
has_key-none id s h = elim (Option-cases (lookup id s)) [
  | inl e ↦ e
  | inr (q, e) ↦ ground (arith, e, h)
]

-- Where the client has no entry for the filter, dropping that entry changes nothing.
forgotten :
    (id f : Str) (t : SubscriptionTree) (b : Bool)
    → WellFormed t
    → (b ≡ false → subscription id f t ≡ none)
    → (id' f' : Str)
    → indexed id' f' (if b then forget_filter id f t.reverse else t.reverse)
      ≡ updated id f none (λ i g. lookup g (subscriptions_of i t)) id' f'
unfolding subscriptions_of
forgotten id f t true w h id' f' = indexed-forget id f t.reverse id' f'
forgotten id f t false w h id' f' =
    ground (arith, str_iff id id', str_iff f f', h refl, w.index_agrees id f)

indexed_gone :
    (id id' f : Str) (t : SubscriptionTree)
    → lookup f (or_default [] (lookup id' (remove id t.reverse)))
      ≡ (if id == id' then none else lookup f (subscriptions_of id' t))
unfolding subscriptions_of lookup
indexed_gone id id' f t = rw (lookup-remove id id' t.reverse) (ground arith)

abbrev pub has_entry {ℓ} : {A : Type ℓ} → Option A → Bool
has_entry none = false
has_entry (some x) = true

-- What `unsubscribe` is to return for a client's filter.
abbrev pub Removes : Str → Str → SubscriptionTree → SubscriptionTree × Bool → Type 0
Removes id f t r =
    (r.1 ≡ has_entry (subscription id f t)) × WellFormed r.0 × Updates id f none t r.0

abbrev without : Str → Str → Bool → Assoc Str Filters → Assoc Str Filters
without id f removed rev = if removed then forget_filter id f rev else rev

removed_tree :
    (id f : Str) (t : SubscriptionTree)
    → WellFormed t
    → parse_shared_filter f ≡ none
    → let left = remove_recursive (split f) id t.root in
      Removes id f t (record t { root = left.0; reverse = without id f left.1 t.reverse }, left.1)
unfolding subscription subscriptions_of
removed_tree id f t w n =
    let left = remove_recursive (split f) id t.root in
    let t' : SubscriptionTree = record t {
      root = left.0;
      reverse = without id f left.1 t.reverse;
    } in
    let flag = remove_recursive_flag (split f) id t.root in
    let absent : left.1 ≡ false → subscription id f t ≡ none =
      λ e. ground (arith, n, has_key-none id (subs_at (split f) t.root), flag, e) in
    let u : Updates id f none t t' =
      λ id' f'. tree_changed id f id' f' t none t' n refl (lookup_at-remove f id t id' f') in
    (
      ground (arith, n, flag),
      index_follows id f none t t' w u (forgotten id f t left.1 w absent)
          (removed_maps (split f) id t w) (removed_filters (split f) id t w),
      u,
    )

removed_member :
    (id f : Str) (key : Str × Str) (t : SubscriptionTree)
    → WellFormed t
    → parse_shared_filter f ≡ some key
    → let left = leave_group key id t.shared in
      Removes id f t (record t { shared = left.0; reverse = without id f left.1 t.reverse }, left.1)
unfolding subscription subscriptions_of
removed_member id f key t w n =
    let left = leave_group key id t.shared in
    let t' : SubscriptionTree = record t {
      shared = left.0;
      reverse = without id f left.1 t.reverse;
    } in
    let flag = leave_group_flag key id t.shared in
    let absent : left.1 ≡ false → subscription id f t ≡ none = λ e. ground (arith, n, flag, e) in
    let u : Updates id f none t t' = λ id' f'.
      group_changed id f id' f' t none key t' n refl (λ k'. member-leave key id t.shared k' id') in
    (
      ground (arith, n, flag),
      index_follows id f none t t' w u (forgotten id f t left.1 w absent) w.paths_are_maps
          w.paths_are_filters,
      u,
    )

-- On a well-formed tree, `unsubscribe` removes the client's entry for the filter and no other, says
-- whether there was one, and leaves the tree well formed.
pub unsubscribe-Removes :
    (id f : Str) (t : SubscriptionTree) → WellFormed t → Removes id f t (unsubscribe id f t)
unfolding unsubscribe
unsubscribe-Removes id f t w = elim (Option-cases (parse_shared_filter f)) [
  | inl n ↦
      let left = remove_recursive (split f) id t.root in
      let step : unsubscribe id f t
          ≡ (record t { root = left.0; reverse = without id f left.1 t.reverse }, left.1) =
        ground (arith, n) in
      subst (Removes id f t) (sym step) (removed_tree id f t w n)
  | inr (key, n) ↦
      let left = leave_group key id t.shared in
      let step : unsubscribe id f t
          ≡ (record t { shared = left.0; reverse = without id f left.1 t.reverse }, left.1) =
        ground (arith, n) in
      subst (Removes id f t) (sym step) (removed_member id f key t w n)
]

-- `unsubscribe_all` on a well-formed tree removes every entry of the client, in the tree, in the
-- groups and in the index, no other client's, and leaves the tree well formed.
pub unsubscribe_all_updates :
    (id : Str) (t : SubscriptionTree)
    → WellFormed t
    → WellFormed (unsubscribe_all id t)
      × ((id' f : Str)
          → subscription id' f (unsubscribe_all id t)
            ≡ (if id == id' then none else subscription id' f t))
unfolding unsubscribe_all subscription subscriptions_of
unsubscribe_all_updates id t w =
    let gone : (id' f : Str)
        → subscription id' f (unsubscribe_all id t)
          ≡ (if id == id' then none else subscription id' f t) =
      λ id' f. elim (Option-cases (parse_shared_filter f)) [
        | inl n ↦ ground (
          arith,
          n,
          subs_at-remove_all (split f) id t.root,
          lookup-remove id id' (subs_at (split f) t.root),
        )
        | inr (key, n) ↦ ground (arith, n, member-quit_all id t.shared key id')
      ] in
    (
      record {
        index_agrees = λ id' f.
            indexed_gone id id' f t
            ∙ ap (λ z. if id == id' then none else z) (w.index_agrees id' f)
            ∙ sym (gone id' f);
        paths_are_maps = λ path.
            rw (subs_at-remove_all path id t.root)
              (remove-IsMap id (subs_at path t.root) (w.paths_are_maps path));
        paths_are_filters = λ path i h. w.paths_are_filters path i (
            ground (
              arith,
              subs_at-remove_all path id t.root,
              lookup-remove id i (subs_at path t.root),
              h,
            ));
      },
      gone,
    )

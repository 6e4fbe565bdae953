-- ===== src/Broker/Subscription/Delivery.antt =====
-- src/broker/subscription.rs: `matches` against the table of subscriptions.
use lumen_mq.Prelude.{
  ◌≡◌, ◌↔◌, sym, ap, subst, ◌∙◌, [], ◌∷◌, Str, true, false, arith, nat_key, list_key, some, none,
  is_empty, In, pair_key,
}
use lumen_mq.Prelude.Assoc.{Assoc, lookup, IsMap}
use lumen_mq.Prelude.Result.{ok}
use lumen_mq.Codec.Packet.{QoS, qos_le}
use lumen_mq.Broker.Topic.{split, parse_shared_filter, validate_filter, topic_matches_filter}
use lumen_mq.Broker.Topic.Matching.{Matches, topic_matches_filter_iff}
use lumen_mq.Broker.Topic.Splitting.{split_injective}
use lumen_mq.Broker.Subscription.{SubscriptionTree}
use lumen_mq.Broker.Subscription.Select.{matches}
use lumen_mq.Broker.Subscription.Tree.{collect_matches}
use lumen_mq.Broker.Subscription.Paths.{subs_at, str_iff}
use lumen_mq.Broker.Subscription.Collect.{
  Plain, Found, collect_matches-Found, Found-collect_matches,
}
use lumen_mq.Broker.Subscription.Best.{merge_all-IsMap, merge_all_greatest}
use lumen_mq.Broker.Subscription.Refinement.{subscription, WellFormed}

-- The client has the QoS at some filter of its own that the topic matches.
abbrev pub Subscribed : Str → Str → QoS → SubscriptionTree → Type 0
Subscribed topic id q t =
    (f : Str) × (parse_shared_filter f ≡ none)
    × (topic_matches_filter topic f ≡ true)
    × (subscription id f t ≡ some q)

pub lookup-In : (id : Str) (q : QoS) (m : Assoc Str QoS) → lookup id m ≡ some q → In (id, q) m
unfolding lookup
lookup-In id q [] h = cc
lookup-In id q ((i, p) ∷ m) h = ground (arith, str_iff i id, lookup-In id q m)

pub In-lookup_at :
    (id : Str) (q : QoS) (m : Assoc Str QoS) → IsMap m → In (id, q) m → lookup id m ≡ some q
unfolding lookup
In-lookup_at id q [] v h = absurd h
In-lookup_at id q ((i, p) ∷ m) v h = ground (arith, str_iff i id, In-lookup_at id q m v.1, h, v)

in_tree :
    (id f : Str) (t : SubscriptionTree)
    → parse_shared_filter f ≡ none
    → subscription id f t ≡ lookup id (subs_at (split f) t.root)
unfolding subscription
in_tree id f t n = ground (arith, n)

module _ (topic : Str) (t : SubscriptionTree) (w : WellFormed t)
    (nonempty : is_empty topic ≡ false) where
  Found-Subscribed :
      (id : Str) (q : QoS) → Found (split topic) (id, q) t.root → Subscribed topic id q t
  unfolding subscription
  Found-Subscribed id q (path, m, h) =
      let there : lookup id (subs_at path t.root) ≡ some q =
        In-lookup_at id q (subs_at path t.root) (w.paths_are_maps path) h in
      let (f, e, n, v) = w.paths_are_filters path id (λ z. cc) in
      (
        f,
        n,
        (topic_matches_filter_iff topic f v nonempty).1
            (subst (λ p. Matches p (split topic)) (sym e) m),
        in_tree id f t n ∙ ap (λ p. lookup id (subs_at p t.root)) e ∙ there,
      )

  Subscribed-Found :
      (id : Str) (q : QoS) → Subscribed topic id q t → Found (split topic) (id, q) t.root
  unfolding subscription
  Subscribed-Found id q (f, n, m, h) =
      let there : lookup id (subs_at (split f) t.root) ≡ some q = ground (arith, n, h) in
      let (f', e, n', v) = w.paths_are_filters (split f) id (λ z. cc) in
      let valid : validate_filter f ≡ ok tt =
        subst (λ g. validate_filter g ≡ ok tt) (split_injective f' f e) v in
      (
        split f,
        (topic_matches_filter_iff topic f valid nonempty).0 m,
        lookup-In id q (subs_at (split f) t.root) there,
      )

  listed :
      Plain (split topic)
      → (id : Str) (q : QoS)
      → In (id, q) (collect_matches (split topic) t.root) ↔ Subscribed topic id q t
  listed plain id q = (
    λ k. Found-Subscribed id q (collect_matches-Found (id, q) (split topic) t.root plain k),
    λ s.
        let (path, m, k) = Subscribed-Found id q s in
        Found-collect_matches (id, q) t.root plain m k,
  )

-- On a well-formed tree and a topic that is not empty and has no wildcard level, `matches` gives a
-- client exactly the greatest QoS of the client's filters that the topic matches, and no QoS where
-- there is no such filter.
pub matches_greatest :
    (topic : Str) (t : SubscriptionTree)
    → WellFormed t
    → is_empty topic ≡ false
    → Plain (split topic)
    → (id : Str) (q : QoS)
    → (lookup id (matches topic t) ≡ some q)
      ↔ (Subscribed topic id q t × ((p : QoS) → Subscribed topic id p t → qos_le p q ≡ true))
unfolding matches
matches_greatest topic t w nonempty plain id q =
    let best = merge_all_greatest (collect_matches (split topic) t.root) id q in
    rw nonempty (
      λ h.
          let (k, top) = best.0 h in
          (
            (listed topic t w nonempty plain id q).0 k,
            λ p s. top p ((listed topic t w nonempty plain id p).1 s),
          ),
      λ (s, top). best.1 (
        (listed topic t w nonempty plain id q).1 s,
        λ p k. top p ((listed topic t w nonempty plain id p).0 k),
      ),
    )

-- `matches` names each client once.
pub matches-IsMap : (topic : Str) (t : SubscriptionTree) → IsMap (matches topic t)
unfolding matches
matches-IsMap topic t = ground (arith, merge_all-IsMap (collect_matches (split topic) t.root) [] tt)

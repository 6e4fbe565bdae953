-- ===== src/Broker/Subscription/Collect.antt =====
-- src/broker/subscription.rs: `collect_matches` finds the subscribers at every path that matches.
use lumen_mq.Prelude.{
  ◌≡◌, inl, inr, List, [], ◌∷◌, Str, false, In, In-append, arith, nat_key, list_key, ◌==◌,
  list_same,
}
use lumen_mq.Codec.Packet.{QoS}
use lumen_mq.Broker.Topic.{plus, hash}
use lumen_mq.Broker.Topic.Matching.{Matches, nothing_left, rest_of, any_level, same_level}
use lumen_mq.Broker.Subscription.Tree.{
  Node, node, Slot, vacant, filled, get_child, children_of, plus_child, hash_child,
  slot_subscribers, in_slot, collect_matches, subscribers_of, child_at,
}
use lumen_mq.Broker.Subscription.Paths.{subs_at}

-- A topic's levels without a wildcard among them.
abbrev pub Plain : List Str → Type 0
Plain [] = Unit
Plain (t ∷ ts) = ((t == plus) ≡ false) × ((t == hash) ≡ false) × Plain ts

-- A subscription stands at some path that the levels match.
abbrev pub Found : List Str → Str × QoS → Node → Type 0
Found ts x n = (path : List Str) × Matches path ts × In x (subs_at path n)

collected :
    (x : Str × QoS) (ts : List Str) (s : Slot)
    → ((n : Node) → In x (collect_matches ts n) → Found ts x n)
    → In x (in_slot [] (collect_matches ts) s)
    → (path : List Str) × Matches path ts × In x (in_slot [] (subs_at path) s)
collected x ts vacant ih h = absurd h
collected x ts (filled n) ih h = ih n h

hash-Found :
    (x : Str × QoS) (ts : List Str) (n : Node)
    → In x (slot_subscribers (hash_child n))
    → Found ts x n
unfolding subs_at child_at list_same
hash-Found x ts (node c p vacant s) h = absurd h
hash-Found x ts (node c p (filled m) s) h = (hash ∷ [], rest_of ts, h)

child_found :
    (x : Str × QoS) (t : Str) (fs : List Str) (n : Node)
    → (t == plus) ≡ false
    → (t == hash) ≡ false
    → In x (in_slot [] (subs_at fs) (get_child t (children_of n)))
    → In x (subs_at (t ∷ fs) n)
unfolding subs_at child_at
child_found x t fs (node c p h s) a b k = rw (a, b) k

plus_found :
    (x : Str × QoS) (fs : List Str) (n : Node)
    → In x (in_slot [] (subs_at fs) (plus_child n))
    → In x (subs_at (plus ∷ fs) n)
unfolding subs_at child_at list_same
plus_found x fs (node c p h s) k = k

pub collect_matches-Found :
    (x : Str × QoS) (ts : List Str) (n : Node)
    → Plain ts
    → In x (collect_matches ts n)
    → Found ts x n
unfolding subs_at collect_matches child_at
collect_matches-Found x [] n v h =
    elim ((In-append x (slot_subscribers (hash_child n)) (subscribers_of n)).0 h) [
      | inl k ↦ hash-Found x [] n k
      | inr k ↦ ([], nothing_left, k)
    ]
collect_matches-Found x (t ∷ ts) n v k =
    elim ((In-append x (slot_subscribers (hash_child n)) _).0 k) [
      | inl at_hash ↦ hash-Found x (t ∷ ts) n at_hash
      | inr rest ↦
          elim ((In-append x (in_slot [] (collect_matches ts) (get_child t (children_of n))) _).0
            rest) [
              | inl at_child ↦
                  let found =
                    collected x ts (get_child t (children_of n))
                      (λ m. collect_matches-Found x ts m v.2) at_child in
                  (t ∷ found.0, same_level t found.1, child_found x t found.0 n (v.0) (v.1) found.2)
              | inr at_plus ↦
                  let found =
                    collected x ts (plus_child n) (λ m. collect_matches-Found x ts m v.2) at_plus in
                  (plus ∷ found.0, any_level t found.1, plus_found x found.0 n found.2)
            ]
    ]

hash_collected :
    (x : Str × QoS) (ts : List Str) (n : Node)
    → In x (subs_at (hash ∷ []) n)
    → In x (collect_matches ts n)
unfolding subs_at child_at collect_matches list_same
hash_collected x [] (node c p vacant s) h = absurd h
hash_collected x (t ∷ ts) (node c p vacant s) h = absurd h
hash_collected x [] (node c p (filled m) s) h = (In-append x (subscribers_of m) _).1 (inl h)
hash_collected x (t ∷ ts) (node c p (filled m) s) h = (In-append x (subscribers_of m) _).1 (inl h)

recollected :
    (x : Str × QoS) (ts fs : List Str) (s : Slot)
    → ((n : Node) → In x (subs_at fs n) → In x (collect_matches ts n))
    → In x (in_slot [] (subs_at fs) s)
    → In x (in_slot [] (collect_matches ts) s)
recollected x ts fs vacant ih h = absurd h
recollected x ts fs (filled n) ih h = ih n h

pub Found-collect_matches :
    (x : Str × QoS) {path ts : List Str} (n : Node)
    → Plain ts
    → Matches path ts
    → In x (subs_at path n)
    → In x (collect_matches ts n)
unfolding subs_at collect_matches child_at list_same
Found-collect_matches x n v nothing_left h =
    (In-append x (slot_subscribers (hash_child n)) (subscribers_of n)).1 (inr h)
Found-collect_matches x n v (rest_of ts) h = hash_collected x ts n h
Found-collect_matches x (node c p g s) v (any_level {fs} {ts} t m) h =
    (In-append x (slot_subscribers g) _).1 (
      inr (
        (In-append x (in_slot [] (collect_matches ts) (get_child t c)) _).1
          (inr (recollected x ts fs p (λ k. Found-collect_matches x k v.2 m) h))))
Found-collect_matches x (node c p g s) v (same_level {fs} {ts} t m) h =
    let here : In x (in_slot [] (subs_at fs) (get_child t c)) = ground (arith, h) in
    (In-append x (slot_subscribers g) _).1 (
      inr (
        (In-append x (in_slot [] (collect_matches ts) (get_child t c)) _).1
          (inl (recollected x ts fs (get_child t c) (λ k. Found-collect_matches x k v.2 m) here))))

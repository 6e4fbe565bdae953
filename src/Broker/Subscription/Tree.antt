-- ===== src/Broker/Subscription/Tree.antt =====
-- src/broker/subscription.rs: `Node` and the recursions over it.
use lumen_mq.Prelude.{
  ℕ, ◌+◌, Bool, true, false, ◌&&◌, some, none, List, [], ◌∷◌, ◌++◌, Str, if◌then◌else◌, nat_key,
  list_key, ◌==◌, is_empty, length,
}
use lumen_mq.Prelude.Assoc.{Assoc, lookup, insert, remove}
use lumen_mq.Codec.Packet.{QoS}
use lumen_mq.Broker.Topic.{plus, hash}

-- The clients of a node with their QoS.
abbrev pub Subscribers : Type 0
Subscribers = Assoc Str QoS

-- A node has its children by level, the child for `+`, the child for `#` and its subscribers.
mutual
  pub data Node : Type 0 where
    node : Children → Slot → Slot → Subscribers → Node

  pub data Children : Type 0 where
    no_child : Children
    child : Str → Node → Children → Children

  pub data Slot : Type 0 where
    vacant : Slot
    filled : Node → Slot

abbrev pub new_node : Node
new_node = node no_child vacant vacant []

unfoldable pub get_child : Str → Children → Slot
get_child seg no_child = vacant
get_child seg (child k n rest) = if k == seg then filled n else get_child seg rest

unfoldable pub put_child : Str → Node → Children → Children
put_child seg m no_child = child seg m no_child
put_child seg m (child k n rest) =
    if k == seg then child k m rest else child k n (put_child seg m rest)

unfoldable pub drop_child : Str → Children → Children
drop_child seg no_child = no_child
drop_child seg (child k n rest) =
    if k == seg then drop_child seg rest else child k n (drop_child seg rest)

-- The child that a level leads to.
unfoldable pub child_at : Str → Node → Slot
unfolding get_child
child_at seg (node c p h s) = if seg == plus then p else if seg == hash then h else get_child seg c

-- The child replaced, or dropped.
unfoldable pub put_at : Str → Node → Node → Node
unfolding put_child
put_at seg m (node c p h s) =
    if seg == plus
    then node c (filled m) h s
    else if seg == hash
    then node c p (filled m) s
    else node (put_child seg m c) p h s

unfoldable pub clear_at : Str → Node → Node
unfolding drop_child
clear_at seg (node c p h s) =
    if seg == plus
    then node c vacant h s
    else if seg == hash
    then node c p vacant s
    else node (drop_child seg c) p h s

abbrev pub or_new : Slot → Node
or_new vacant = new_node
or_new (filled n) = n

-- The walk of `subscribe`: children are made on the way.
unfoldable pub insert_at : List Str → Str → QoS → Node → Node
unfolding child_at put_at
insert_at [] client_id qos (node c p h s) = node c p h (insert client_id qos s)
insert_at (seg ∷ segs) client_id qos n =
    put_at seg (insert_at segs client_id qos (or_new (child_at seg n))) n

unfoldable pub node_is_empty : Node → Bool
node_is_empty (node no_child vacant vacant s) = is_empty s
node_is_empty _ = false

abbrev pub has_key : Str → Subscribers → Bool
has_key client_id s = elim (lookup client_id s) [ none ↦ false | some _ ↦ true ]

-- What becomes of a node whose child at `seg` was visited.
unfoldable pub pruned : Str → Node → Node × Bool → Node × Bool
unfolding node_is_empty put_at clear_at
pruned seg n (c', removed) =
    (if removed && node_is_empty c' then clear_at seg n else put_at seg c' n, removed)

-- The node without the client's subscription at the path, and whether there was one. A child that
-- is left empty is dropped.
unfoldable pub remove_recursive : List Str → Str → Node → Node × Bool
unfolding child_at pruned
remove_recursive [] client_id (node c p h s) =
    (node c p h (remove client_id s), has_key client_id s)
remove_recursive (seg ∷ segs) client_id n = elim (child_at seg n) [
  | vacant ↦ (n, false)
  | filled c ↦ pruned seg n (remove_recursive segs client_id c)
]

unfoldable mutual
  pub remove_all : Str → Node → Node
  remove_all id (node c p h s) =
      node (remove_all_children id c) (remove_all_slot id p) (remove_all_slot id h) (remove id s)

  pub remove_all_children : Str → Children → Children
  remove_all_children id no_child = no_child
  remove_all_children id (child k n rest) = child k (remove_all id n) (remove_all_children id rest)

  pub remove_all_slot : Str → Slot → Slot
  remove_all_slot id vacant = vacant
  remove_all_slot id (filled n) = filled (remove_all id n)

unfoldable mutual
  pub count_subscribers : Node → ℕ
  count_subscribers (node c p h s) = length s + count_children c + count_slot p + count_slot h

  pub count_children : Children → ℕ
  count_children no_child = 0
  count_children (child k n rest) = count_subscribers n + count_children rest

  pub count_slot : Slot → ℕ
  count_slot vacant = 0
  count_slot (filled n) = count_subscribers n

abbrev pub subscribers_of : Node → Subscribers
subscribers_of (node c p h s) = s

abbrev pub slot_subscribers : Slot → Subscribers
slot_subscribers vacant = []
slot_subscribers (filled n) = subscribers_of n

abbrev pub hash_child : Node → Slot
hash_child (node c p h s) = h

abbrev pub plus_child : Node → Slot
plus_child (node c p h s) = p

abbrev pub children_of : Node → Children
children_of (node c p h s) = c

abbrev pub in_slot {ℓ} : {A : Type ℓ} → A → (Node → A) → Slot → A
in_slot d f vacant = d
in_slot d f (filled n) = f n

-- The matches in the order in which they are pushed.
unfoldable pub collect_matches : List Str → Node → List (Str × QoS)
unfolding get_child
collect_matches [] n = slot_subscribers (hash_child n) ++ subscribers_of n
collect_matches (seg ∷ segs) n =
    slot_subscribers (hash_child n)
    ++ (in_slot [] (collect_matches segs) (get_child seg (children_of n))
        ++ in_slot [] (collect_matches segs) (plus_child n))

-- ===== src/Broker/Subscription/Paths.antt =====
-- src/broker/subscription.rs: the tree seen as the subscribers at each path, and what each
-- operation does to that view.
use lumen_mq.Prelude.{
  ◌≡◌, ◌↔◌, refl, sym, ap, Bool-cases, inl, inr, ◌⊎◌, ==_refl, Bool, true, false, ◌&&◌, List, [],
  ◌∷◌, Str, if◌then◌else◌, nat_key, list_key, ◌==◌, arith, list_same,
}
use lumen_mq.Prelude.Assoc.{lookup, insert, remove}
use lumen_mq.Codec.Packet.{QoS}
use lumen_mq.Broker.Topic.{plus, hash}
use lumen_mq.Broker.Subscription.Tree.{
  Subscribers, Node, node, Children, no_child, child, Slot, vacant, filled, new_node, get_child,
  put_child, drop_child, child_at, put_at, clear_at, or_new, insert_at, node_is_empty, has_key,
  pruned, remove_recursive, remove_all, remove_all_children, remove_all_slot, subscribers_of,
  in_slot,
}

-- The subscribers at a path: the abstract state of the tree.
unfoldable pub subs_at : List Str → Node → Subscribers
unfolding child_at
subs_at [] n = subscribers_of n
subs_at (seg ∷ segs) n = in_slot [] (subs_at segs) (child_at seg n)

pub str_iff : (a b : Str) → ((a == b) ≡ true) ↔ (a ≡ b)
str_iff a b = list_key.same_iff a b

get_child-put :
    (seg at : Str) (m : Node) (c : Children)
    → get_child at (put_child seg m c) ≡ (if seg == at then filled m else get_child at c)
unfolding get_child put_child
get_child-put seg at m no_child = refl
get_child-put seg at m (child k n rest) =
    ground (arith, get_child-put seg at m rest, str_iff k at, str_iff k seg, str_iff seg at)

get_child-drop :
    (seg at : Str) (c : Children)
    → get_child at (drop_child seg c) ≡ (if seg == at then vacant else get_child at c)
unfolding get_child drop_child
get_child-drop seg at no_child = ground arith
get_child-drop seg at (child k n rest) =
    ground (arith, get_child-drop seg at rest, str_iff k at, str_iff k seg, str_iff seg at)

child_at-put :
    (seg at : Str) (m n : Node)
    → child_at at (put_at seg m n) ≡ (if seg == at then filled m else child_at at n)
unfolding child_at put_at
child_at-put seg at m (node c p h s) = ground (
  arith,
  get_child-put seg at m c,
  str_iff seg at,
  str_iff seg plus,
  str_iff seg hash,
  str_iff at plus,
  str_iff at hash,
)

child_at-clear :
    (seg at : Str) (n : Node)
    → child_at at (clear_at seg n) ≡ (if seg == at then vacant else child_at at n)
unfolding child_at clear_at
child_at-clear seg at (node c p h s) = ground (
  arith,
  get_child-drop seg at c,
  str_iff seg at,
  str_iff seg plus,
  str_iff seg hash,
  str_iff at plus,
  str_iff at hash,
)

subscribers_of-put : (seg : Str) (m n : Node) → subscribers_of (put_at seg m n) ≡ subscribers_of n
unfolding put_at
subscribers_of-put seg m (node c p h s) = ground arith

subscribers_of-clear : (seg : Str) (n : Node) → subscribers_of (clear_at seg n) ≡ subscribers_of n
unfolding clear_at
subscribers_of-clear seg (node c p h s) = ground arith

pub subs_at-new : (path : List Str) → subs_at path new_node ≡ []
unfolding subs_at
subs_at-new [] = refl
subs_at-new (seg ∷ path) = ground arith

Slot-cases : (s : Slot) → (s ≡ vacant) ⊎ ((n : Node) × (s ≡ filled n))
Slot-cases vacant = inl refl
Slot-cases (filled n) = inr (n, refl)

in_slot-or_new :
    (segs : List Str) (s : Slot) → in_slot [] (subs_at segs) s ≡ subs_at segs (or_new s)
in_slot-or_new segs vacant = sym (subs_at-new segs)
in_slot-or_new segs (filled n) = refl

-- `subscribe` changes the subscribers at its own path and nowhere else.
pub subs_at-insert :
    (at path : List Str) (id : Str) (q : QoS) (n : Node)
    → subs_at at (insert_at path id q n)
      ≡ (if path == at then insert id q (subs_at at n) else subs_at at n)
unfolding subs_at insert_at list_same
subs_at-insert [] [] id q (node c p h s) = refl
subs_at-insert (a ∷ at) [] id q (node c p h s) = refl
subs_at-insert [] (b ∷ path) id q n =
    rw (subscribers_of-put b (insert_at path id q (or_new (child_at b n))) n) refl
subs_at-insert (a ∷ at) (b ∷ path) id q n =
    rw (child_at-put b a (insert_at path id q (or_new (child_at b n))) n)
      (elim (Bool-cases (b == a)) [
        | inl e ↦
            let here : b ≡ a = (str_iff b a).0 e in
            rw
              (
                here,
                ==_refl {A = Str} a,
                subs_at-insert at path id q (or_new (child_at a n)),
                in_slot-or_new at (child_at a n),
              )
              refl
        | inr e ↦ rw e refl
      ])

-- A node that is empty has no subscribers at any path.
subs_at_empty : (path : List Str) (n : Node) → node_is_empty n ≡ true → subs_at path n ≡ []
unfolding subs_at node_is_empty
subs_at_empty [] (node no_child vacant vacant []) h = refl
subs_at_empty [] (node no_child vacant vacant (x ∷ s)) h = cc
subs_at_empty (seg ∷ path) (node no_child vacant vacant s) h = ground arith
subs_at_empty path (node (child k n rest) p t s) h = cc
subs_at_empty path (node no_child (filled n) t s) h = cc
subs_at_empty path (node no_child vacant (filled n) s) h = cc

subs_at-pruned :
    (at : List Str) (a seg : Str) (n : Node) (r : Node × Bool)
    → subs_at (a ∷ at) (pruned seg n r).0
      ≡ (if seg == a then subs_at at r.0 else subs_at (a ∷ at) n)
unfolding subs_at pruned
subs_at-pruned at a seg n (c, removed) = elim (Bool-cases (removed && node_is_empty c)) [
  | inl e ↦
      let gone = subs_at_empty at c (ground arith) in
      rw (e, child_at-clear seg a n) (ground (arith, gone))
  | inr e ↦ rw (e, child_at-put seg a c n) (ground arith)
]

subscribers_of-pruned :
    (seg : Str) (n : Node) (r : Node × Bool) → subscribers_of (pruned seg n r).0 ≡ subscribers_of n
unfolding pruned
subscribers_of-pruned seg n (c, removed) =
    ground (arith, subscribers_of-put seg c n, subscribers_of-clear seg n)

no_way :
    (b : Str) (path : List Str) (id : Str) (n : Node)
    → child_at b n ≡ vacant
    → remove_recursive (b ∷ path) id n ≡ (n, false)
unfolding remove_recursive
no_way b path id n e = ap (in_slot (n, false) λ c. pruned b n (remove_recursive path id c)) e

one_way :
    (b : Str) (path : List Str) (id : Str) (n m : Node)
    → child_at b n ≡ filled m
    → remove_recursive (b ∷ path) id n ≡ pruned b n (remove_recursive path id m)
unfolding remove_recursive
one_way b path id n m e = ap (in_slot (n, false) λ c. pruned b n (remove_recursive path id c)) e

-- `remove_recursive` changes the subscribers at its own path and nowhere else.
pub subs_at-remove :
    (at path : List Str) (id : Str) (n : Node)
    → subs_at at (remove_recursive path id n).0
      ≡ (if path == at then remove id (subs_at at n) else subs_at at n)
unfolding subs_at remove_recursive list_same remove
subs_at-remove [] [] id (node c p h s) = refl
subs_at-remove (a ∷ at) [] id (node c p h s) = refl
subs_at-remove [] (b ∷ path) id n = elim (Slot-cases (child_at b n)) [
  | inl e ↦ rw (no_way b path id n e) refl
  | inr (m, e) ↦
      rw (one_way b path id n m e, subscribers_of-pruned b n (remove_recursive path id m)) refl
]
subs_at-remove (a ∷ at) (b ∷ path) id n = elim (Slot-cases (child_at b n)) [
  | inl e ↦ rw (no_way b path id n e) (ground (arith, e, str_iff b a))
  | inr (m, e) ↦
      rw
        (
          one_way b path id n m e,
          subs_at-pruned at a b n (remove_recursive path id m),
          subs_at-remove at path id m,
        )
        (ground (arith, e, str_iff b a))
]

-- The flag says whether the client was subscribed at the path.
pub remove_recursive_flag :
    (path : List Str) (id : Str) (n : Node)
    → (remove_recursive path id n).1 ≡ has_key id (subs_at path n)
unfolding subs_at remove_recursive pruned lookup
remove_recursive_flag [] id (node c p h s) = refl
remove_recursive_flag (b ∷ path) id n = elim (Slot-cases (child_at b n)) [
  | inl e ↦ rw (no_way b path id n e, e) refl
  | inr (m, e) ↦ rw (one_way b path id n m e, e) (remove_recursive_flag path id m)
]

mutual
  unfolding subs_at remove_all remove child_at remove_all_children remove_all_slot get_child

  -- `remove_all` removes the client at every path.
  pub subs_at-remove_all :
      (at : List Str) (id : Str) (n : Node)
      → subs_at at (remove_all id n) ≡ remove id (subs_at at n)
  subs_at-remove_all [] id (node c p h s) = refl
  subs_at-remove_all (a ∷ at) id (node c p h s) = ground (
    arith,
    subs_at-remove_all_children a at id c,
    subs_at-remove_all_slot at id p,
    subs_at-remove_all_slot at id h,
  )

  subs_at-remove_all_children :
      (a : Str) (at : List Str) (id : Str) (c : Children)
      → in_slot [] (subs_at at) (get_child a (remove_all_children id c))
        ≡ remove id (in_slot [] (subs_at at) (get_child a c))
  subs_at-remove_all_children a at id no_child = refl
  subs_at-remove_all_children a at id (child k n rest) =
      ground (arith, subs_at-remove_all_children a at id rest, subs_at-remove_all at id n)

  subs_at-remove_all_slot :
      (at : List Str) (id : Str) (s : Slot)
      → in_slot [] (subs_at at) (remove_all_slot id s) ≡ remove id (in_slot [] (subs_at at) s)
  subs_at-remove_all_slot at id vacant = refl
  subs_at-remove_all_slot at id (filled n) = subs_at-remove_all at id n

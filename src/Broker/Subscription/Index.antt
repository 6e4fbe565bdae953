-- ===== src/Broker/Subscription/Index.antt =====
-- src/broker/subscription.rs: the reverse index and the shared groups, seen through what a lookup
-- finds.
use lumen_mq.Prelude.{
  ◌≡◌, ◌↔◌, ◌≢◌, refl, List, [], ◌∷◌, Str, Bool, true, false, ◌&&◌, arith, nat_key, list_key,
  pair_key, ◌==◌, if◌then◌else◌, Option, some, none, Bool-cases, is_empty, Option-cases, inl, inr,
  keep, Key, In,
}
use lumen_mq.Prelude.Assoc.{Assoc, lookup, insert, remove, lookup-insert, lookup-remove}
use lumen_mq.Codec.Packet.{QoS}
use lumen_mq.Broker.Subscription.Tree.{has_key}
use lumen_mq.Broker.Subscription.{
  Filters, Groups, no_members, or_default, store_or_drop, set_filter, note_filter, other_filter,
  forget_filter, join_group, leave_group, shared_keys, quit_group, quit_groups,
}
use lumen_mq.Broker.Subscription.Paths.{str_iff}

-- The QoS that the index has for a client's filter.
abbrev pub indexed : Str → Str → Assoc Str Filters → Option QoS
indexed id f rev = lookup f (or_default [] (lookup id rev))

-- The QoS that a client has in a group.
abbrev pub member : Str → Str × Str → Groups → Option QoS
member id key g = lookup id (or_default no_members (lookup key g)).members

pub key_iff : (a b : Str × Str) → ((a == b) ≡ true) ↔ (a ≡ b)
key_iff a b = pair_key.same_iff a b

lookup-set_filter :
    (f at : Str) (q : QoS) (list : Filters)
    → lookup at (set_filter f q list) ≡ (if f == at then some q else lookup at list)
unfolding set_filter lookup
lookup-set_filter f at q [] = refl
lookup-set_filter f at q ((g, p) ∷ list) =
    ground (arith, lookup-set_filter f at q list, str_iff g at, str_iff g f, str_iff f at)

pub indexed-note :
    (id f : Str) (q : QoS) (rev : Assoc Str Filters) (id' f' : Str)
    → indexed id' f' (note_filter id f q rev)
      ≡ (if (id == id') && (f == f') then some q else indexed id' f' rev)
unfolding note_filter
indexed-note id f q rev id' f' =
    rw (lookup-insert id id' (set_filter f q (or_default [] (lookup id rev))) rev)
      (ground (arith, lookup-set_filter f f' q (or_default [] (lookup id rev)), str_iff id id'))

lookup-store {ℓ κ} :
    {K : Type ℓ} {V : Type κ} ⦃k : Key K⦄ (gone : Bool) (key at : K) (v : V) (m : Assoc K V)
    → lookup at (store_or_drop gone key v m)
      ≡ (if key == at then (if gone then none else some v) else lookup at m)
unfolding store_or_drop
lookup-store true key at v m = lookup-remove key at m
lookup-store false key at v m = lookup-insert key at v m

lookup-keep :
    (f at : Str) (list : Filters)
    → lookup at (keep (other_filter f) list) ≡ (if f == at then none else lookup at list)
unfolding lookup keep other_filter
lookup-keep f at [] = ground arith
lookup-keep f at ((g, p) ∷ list) =
    ground (arith, lookup-keep f at list, str_iff g at, str_iff g f, str_iff f at)

is_empty-nil : {A : Type 0} (xs : List A) → is_empty xs ≡ true → xs ≡ []
is_empty-nil [] h = refl
is_empty-nil (x ∷ xs) h = cc

pub indexed-forget :
    (id f : Str) (rev : Assoc Str Filters) (id' f' : Str)
    → indexed id' f' (forget_filter id f rev)
      ≡ (if (id == id') && (f == f') then none else indexed id' f' rev)
unfolding forget_filter lookup
indexed-forget id f rev id' f' = elim (Option-cases (lookup id rev)) [
  | inl e ↦ ground (arith, e, str_iff id id')
  | inr (list, e) ↦
      let left = keep (other_filter f) list in
      ground (
        arith,
        e,
        is_empty-nil left,
        lookup-keep f f' list,
        lookup-store (is_empty left) id id' left rev,
        str_iff id id',
      )
]

pub member-join :
    (key : Str × Str) (id : Str) (q : QoS) (g : Groups) (key' : Str × Str) (id' : Str)
    → member id' key' (join_group key id q g)
      ≡ (if (key == key') && (id == id') then some q else member id' key' g)
unfolding join_group
member-join key id q g key' id' =
    let entry = or_default no_members (lookup key g) in
    rw (lookup-insert key key' (record entry { members = insert id q entry.members }) g)
      (ground (arith, lookup-insert id id' q entry.members, key_iff key key'))

pub member-leave :
    (key : Str × Str) (id : Str) (g : Groups) (key' : Str × Str) (id' : Str)
    → member id' key' (leave_group key id g).0
      ≡ (if (key == key') && (id == id') then none else member id' key' g)
unfolding leave_group lookup
member-leave key id g key' id' = elim (Option-cases (lookup key g)) [
  | inl e ↦ ground (arith, e, key_iff key key')
  | inr (entry, e) ↦
      let members = remove id entry.members in
      let removed = has_key id entry.members in
      let gone = removed && is_empty members in
      ground (
        arith,
        e,
        is_empty-nil members,
        lookup-remove id id' entry.members,
        lookup-store gone key key' (record entry { members = members }) g,
        key_iff key key',
      )
]

pub leave_group_flag :
    (key : Str × Str) (id : Str) (g : Groups)
    → (leave_group key id g).1 ≡ elim (member id key g) [ none ↦ false | some _ ↦ true ]
unfolding leave_group lookup
leave_group_flag key id g = elim (Option-cases (lookup key g)) [
  | inl e ↦ ground (arith, e)
  | inr (entry, e) ↦ ground (arith, e)
]

member-quit :
    (key : Str × Str) (id : Str) (g : Groups) (key' : Str × Str) (id' : Str)
    → member id' key' (quit_group id key g)
      ≡ (if (key == key') && (id == id') then none else member id' key' g)
unfolding quit_group lookup
member-quit key id g key' id' = elim (Option-cases (lookup key g)) [
  | inl e ↦ ground (arith, e, key_iff key key')
  | inr (entry, e) ↦
      let members = remove id entry.members in
      ground (
        arith,
        e,
        is_empty-nil members,
        lookup-remove id id' entry.members,
        lookup-store (is_empty members) key key' (record entry { members = members }) g,
        key_iff key key',
      )
]

-- Where a client is in a group, the group is among those that `unsubscribe_all` visits.
shared_keys_all :
    (id : Str) (g : Groups) (key : Str × Str) → member id key g ≢ none → In key (shared_keys id g)
unfolding shared_keys lookup
shared_keys_all id [] key h = absurd (h refl)
shared_keys_all id ((k, entry) ∷ g) key h =
    ground (arith, shared_keys_all id g key, key_iff k key, h)

quit_groups-others :
    (id : Str) (keys : List (Str × Str)) (g : Groups) (key : Str × Str) (id' : Str)
    → (id == id') ≡ false
    → member id' key (quit_groups id keys g) ≡ member id' key g
unfolding quit_groups
quit_groups-others id [] g key id' h = refl
quit_groups-others id (k ∷ keys) g key id' h =
    ground
      (arith, quit_groups-others id keys (quit_group id k g) key id' h, member-quit k id g key id')

quit_groups-stays :
    (id : Str) (keys : List (Str × Str)) (g : Groups) (key : Str × Str)
    → member id key g ≡ none
    → member id key (quit_groups id keys g) ≡ none
unfolding quit_groups
quit_groups-stays id [] g key h = h
quit_groups-stays id (k ∷ keys) g key h =
    quit_groups-stays id keys (quit_group id k g) key (ground (arith, member-quit k id g key id, h))

quit_groups-gone :
    (id : Str) (keys : List (Str × Str)) (g : Groups) (key : Str × Str)
    → In key keys
    → member id key (quit_groups id keys g) ≡ none
unfolding quit_groups
quit_groups-gone id [] g key h = absurd h
quit_groups-gone id (k ∷ keys) g key (inl e) =
    quit_groups-stays id keys (quit_group id k g) key
      (ground (arith, member-quit k id g key id, key_iff k key, e, str_iff id id))
quit_groups-gone id (k ∷ keys) g key (inr h) = quit_groups-gone id keys (quit_group id k g) key h

pub member-quit_all :
    (id : Str) (g : Groups) (key : Str × Str) (id' : Str)
    → member id' key (quit_groups id (shared_keys id g) g)
      ≡ (if id == id' then none else member id' key g)
member-quit_all id g key id' = elim (Bool-cases (id == id')) [
  | inl e ↦
      let here : id ≡ id' = (str_iff id id').0 e in
      rw (e, ← here)
        (elim (Option-cases (member id key g)) [
          | inl out ↦ quit_groups-stays id (shared_keys id g) g key out
          | inr (q, at) ↦
              quit_groups-gone id (shared_keys id g) g key (shared_keys_all id g key (λ n. cc))
        ])
  | inr e ↦ rw e (quit_groups-others id (shared_keys id g) g key id' e)
]

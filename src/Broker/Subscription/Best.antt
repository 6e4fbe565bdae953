-- ===== src/Broker/Subscription/Best.antt =====
-- src/broker/subscription.rs: the loop of `matches` that keeps one QoS for each client.
use lumen_mq.Prelude.{
  ◌≡◌, ◌↔◌, ◌⊎◌, inl, inr, refl, sym, ap, ◌∙◌, List, [], ◌∷◌, Str, true, false, In, arith, nat_key,
  list_key, ◌==◌, ==_refl, if◌then◌else◌, Option, some, none, Option-cases, Bool-cases,
}
use lumen_mq.Prelude.Assoc.{Assoc, lookup, lookup-insert, IsMap, insert-IsMap}
use lumen_mq.Codec.Packet.{QoS, qos_le, qos_as_u8}
use lumen_mq.Broker.Subscription.Select.{merge, merge_all}
use lumen_mq.Broker.Subscription.Paths.{str_iff}

qos_le_refl : (q : QoS) → qos_le q q ≡ true
unfolding qos_le
qos_le_refl q = ground arith

qos_le_trans : (p q r : QoS) → qos_le p q ≡ true → qos_le q r ≡ true → qos_le p r ≡ true
unfolding qos_le
qos_le_trans p q r h k = ground arith

qos_le_total : (p q : QoS) → qos_le p q ≡ false → qos_le q p ≡ true
unfolding qos_le
qos_le_total p q h = ground arith

pub qos_le_antisym : (p q : QoS) → qos_le p q ≡ true → qos_le q p ≡ true → p ≡ q
unfolding qos_le qos_as_u8
qos_le_antisym QoS.at_most_once QoS.at_most_once h k = refl
qos_le_antisym QoS.at_least_once QoS.at_least_once h k = refl
qos_le_antisym QoS.exactly_once QoS.exactly_once h k = refl
qos_le_antisym _ _ h k = ground arith

merge-IsMap : (x : Str × QoS) (best : Assoc Str QoS) → IsMap best → IsMap (merge x best)
unfolding merge
merge-IsMap (id, q) best v = ground (arith, insert-IsMap id q best v)

pub merge_all-IsMap :
    (out : List (Str × QoS)) (best : Assoc Str QoS) → IsMap best → IsMap (merge_all out best)
unfolding merge_all
merge_all-IsMap [] best v = v
merge_all-IsMap (x ∷ out) best v = merge_all-IsMap out (merge x best) (merge-IsMap x best v)

abbrev greater : QoS → Option QoS → QoS
greater p none = p
greater p (some q) = if qos_le p q then q else p

greater_ge : (p : QoS) (o : Option QoS) → qos_le p (greater p o) ≡ true
greater_ge p none = qos_le_refl p
greater_ge p (some q) = ground (arith, qos_le_refl p)

greater_keeps : (p q : QoS) → qos_le q (greater p (some q)) ≡ true
greater_keeps p q = ground (arith, qos_le_refl q, qos_le_total p q)

greater_one : (p : QoS) (o : Option QoS) → (greater p o ≡ p) ⊎ (o ≡ some (greater p o))
greater_one p none = inl refl
greater_one p (some q) = ground arith

-- One round sets the client's entry to the greater QoS and leaves the others.
lookup-merge :
    (i : Str) (p : QoS) (best : Assoc Str QoS) (at : Str)
    → lookup at (merge (i, p) best)
      ≡ (if i == at then some (greater p (lookup i best)) else lookup at best)
unfolding merge
lookup-merge i p best at = elim (Option-cases (lookup i best)) [
  | inl e ↦ ground (arith, e, lookup-insert i at p best, str_iff i at)
  | inr (q, e) ↦ rw e (ground (arith, e, lookup-insert i at p best, str_iff i at))
]

merge_sound :
    (i : Str) (p : QoS) (best : Assoc Str QoS) (id : Str) (q : QoS)
    → lookup id (merge (i, p) best) ≡ some q
    → ((id ≡ i) × (q ≡ p)) ⊎ (lookup id best ≡ some q)
merge_sound i p best id q h =
    ground (arith, lookup-merge i p best id, str_iff i id, greater_one p (lookup i best))

merge_keeps :
    (i : Str) (p : QoS) (best : Assoc Str QoS) (id : Str) (q : QoS)
    → lookup id best ≡ some q
    → (r : QoS) × (lookup id (merge (i, p) best) ≡ some r) × (qos_le q r ≡ true)
merge_keeps i p best id q h = elim (Bool-cases (i == id)) [
  | inl e ↦ (
    greater p (some q),
    ground (arith, lookup-merge i p best id, str_iff i id),
    greater_keeps p q,
  )
  | inr e ↦ (q, ground (arith, lookup-merge i p best id), qos_le_refl q)
]

merge_adds :
    (i : Str) (p : QoS) (best : Assoc Str QoS)
    → (r : QoS) × (lookup i (merge (i, p) best) ≡ some r) × (qos_le p r ≡ true)
merge_adds i p best = (
  greater p (lookup i best),
  rw (lookup-merge i p best i, ==_refl {A = Str} i) refl,
  greater_ge p (lookup i best),
)

pair : {i j : Str} {p q : QoS} → i ≡ j → p ≡ q → ◌≡◌ {A = Str × QoS} (i, p) (j, q)
pair e f = cc

pub merge_all_sound :
    (out : List (Str × QoS)) (best : Assoc Str QoS) (id : Str) (q : QoS)
    → lookup id (merge_all out best) ≡ some q
    → In (id, q) out ⊎ (lookup id best ≡ some q)
unfolding merge_all
merge_all_sound [] best id q h = inr h
merge_all_sound (x ∷ out) best id q h = elim (merge_all_sound out (merge x best) id q h) [
  | inl k ↦ inl (inr k)
  | inr k ↦ elim (merge_sound x.0 x.1 best id q k) [
    | inl (a, b) ↦ inl (inl (pair a b))
    | inr e ↦ inr e
  ]
]

pub merge_all_keeps :
    (out : List (Str × QoS)) (best : Assoc Str QoS) (id : Str) (q : QoS)
    → lookup id best ≡ some q
    → (r : QoS) × (lookup id (merge_all out best) ≡ some r) × (qos_le q r ≡ true)
unfolding merge_all
merge_all_keeps [] best id q h = (q, h, qos_le_refl q)
merge_all_keeps (x ∷ out) best id q h =
    let (p, hp, lp) = merge_keeps x.0 x.1 best id q h in
    let (r, hr, lr) = merge_all_keeps out (merge x best) id p hp in
    (r, hr, qos_le_trans q p r lp lr)

some_inj : {p q : QoS} → some p ≡ some q → p ≡ q
some_inj e = cc

pub merge_all_bound :
    (out : List (Str × QoS)) (best : Assoc Str QoS) (id : Str) (q : QoS)
    → In (id, q) out
    → (r : QoS) × (lookup id (merge_all out best) ≡ some r) × (qos_le q r ≡ true)
unfolding merge_all
merge_all_bound [] best id q h = absurd h
merge_all_bound (x ∷ out) best id q (inl e) =
    let (p, hp, lp) = merge_adds x.0 x.1 best in
    let (r, hr, lr) = merge_all_keeps out (merge x best) x.0 p hp in
    let same_qos : q ≡ x.1 = ap (λ y. y.1) e in
    (r, rw (ap (λ y. y.0) e) hr, rw same_qos (qos_le_trans x.1 p r lp lr))
merge_all_bound (x ∷ out) best id q (inr h) = merge_all_bound out (merge x best) id q h

-- From nothing, the loop ends with the greatest QoS that is listed for the client.
pub merge_all_greatest :
    (out : List (Str × QoS)) (id : Str) (q : QoS)
    → (lookup id (merge_all out []) ≡ some q)
      ↔ (In (id, q) out × ((p : QoS) → In (id, p) out → qos_le p q ≡ true))
unfolding lookup
merge_all_greatest out id q = (
  λ h. (
    elim (merge_all_sound out [] id q h) [ inl k ↦ k | inr e ↦ cc ],
    λ p k.
        let (r, hr, lr) = merge_all_bound out [] id p k in
        let same : some r ≡ some q = sym hr ∙ h in rw (← some_inj same) lr,
  ),
  λ (k, top).
      let (r, hr, lr) = merge_all_bound out [] id q k in
      elim (merge_all_sound out [] id r hr) [
        | inl j ↦ rw (qos_le_antisym q r lr (top r j)) hr
        | inr e ↦ cc
      ],
)

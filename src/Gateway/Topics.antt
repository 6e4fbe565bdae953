-- ===== src/Gateway/Topics.antt =====
-- src/net/mqtt_sn.rs: a client's topics and identifiers are paired.
use lumen_mq.Prelude.{
  refl, ℕ, zero, suc, ◌+◌, ◌-◌, ◌≤◌, ◌<◌, ◌≡◌, ◌≢◌, ◌⊎◌, inl, inr, sym, subst, false, some, none,
  Str, if◌then◌else◌, leb, eqb, nat_key, list_key, ◌==◌, arith, Option-cases,
}
use lumen_mq.Prelude.Assoc.{lookup, lookup-insert, lookup-remove}
use lumen_mq.Broker.Session.Count.{str_iff}
use lumen_mq.Gateway.Client.{
  SnClient, topic_id_min, topic_id_max, following, with_topic, assign_from, assign_topic_id,
  forget_topic,
}

-- The two maps are inverse to each other, and the identifiers are those that may be given out.
pub record Paired (c : SnClient) : Type 0 where
  pub there :
      (topic : Str) (id : ℕ)
      → lookup topic c.topic_to_id ≡ some id
      → lookup id c.id_to_topic ≡ some topic
  pub back :
      (topic : Str) (id : ℕ)
      → lookup id c.id_to_topic ≡ some topic
      → lookup topic c.topic_to_id ≡ some id
  pub valid :
      (topic : Str) (id : ℕ)
      → lookup id c.id_to_topic ≡ some topic
      → (topic_id_min ≤ id) × (id ≤ topic_id_max)
  pub next_valid : (topic_id_min ≤ c.next_topic_id) × (c.next_topic_id ≤ topic_id_max)

-- The steps from one identifier to another.
abbrev distance : ℕ → ℕ → ℕ
distance v free = if leb v free then free - v else free + topic_id_max - v

moved-Paired :
    (c : SnClient) → Paired c → Paired (record c { next_topic_id = following c.next_topic_id })
moved-Paired c w = record {
  there = w.there;
  back = w.back;
  valid = w.valid;
  next_valid = ground (arith, w.next_valid);
}

with_topic-Paired :
    (v : ℕ) (topic : Str) (c : SnClient)
    → Paired c
    → lookup topic c.topic_to_id ≡ none
    → lookup v c.id_to_topic ≡ none
    → topic_id_min ≤ v
    → v ≤ topic_id_max
    → Paired (with_topic v topic c)
with_topic-Paired v topic c w new free low high = record {
  there = λ t i h. ground (
    arith,
    new,
    free,
    h,
    w.there t i,
    w.back t i,
    lookup-insert topic t v c.topic_to_id,
    lookup-insert v i topic c.id_to_topic,
    str_iff topic t,
  );
  back = λ t i h. ground (
    arith,
    new,
    free,
    h,
    w.there t i,
    w.back t i,
    lookup-insert topic t v c.topic_to_id,
    lookup-insert v i topic c.id_to_topic,
    str_iff topic t,
  );
  valid = λ t i h. ground (arith, h, low, high, w.valid t i, lookup-insert v i topic c.id_to_topic);
  next_valid = w.next_valid;
}

-- What an assignment leaves: the topic has the identifier, which is the one that it had, or one that was
-- free where it had none; and the other topics have theirs.
abbrev pub Assigned : Str → SnClient → ℕ × SnClient → Type 0
Assigned topic c done =
    Paired done.1
    × ((lookup topic c.topic_to_id ≡ some done.0)
        ⊎ ((lookup topic c.topic_to_id ≡ none) × (lookup done.0 c.id_to_topic ≡ none)))
    × (lookup topic done.1.topic_to_id ≡ some done.0)
    × ((t : Str)
        → lookup t done.1.topic_to_id
          ≡ (if topic == t then some done.0 else lookup t c.topic_to_id))

assign_from-Assigned :
    (tries : ℕ) (topic : Str) (c : SnClient) (free : ℕ)
    → Paired c
    → lookup topic c.topic_to_id ≡ none
    → lookup free c.id_to_topic ≡ none
    → topic_id_min ≤ free
    → free ≤ topic_id_max
    → distance c.next_topic_id free < tries
    → Assigned topic c (assign_from tries topic c)
unfolding assign_from
assign_from-Assigned zero topic c free w new f low high d = absurd (omega (arith, d))
assign_from-Assigned (suc tries) topic c free w new f low high d =
    let v = c.next_topic_id in
    let moved = record c { next_topic_id = following v } in
    let nonzero : eqb v 0 ≡ false = ground (arith, w.next_valid) in
    elim (Option-cases (lookup v c.id_to_topic)) [
      | inl n ↦
          let step : assign_from (suc tries) topic c ≡ (v, with_topic v topic moved) =
            ground (arith, nonzero, n) in
          subst (Assigned topic c) (sym step) (
            with_topic-Paired v topic moved (moved-Paired c w) new n w.next_valid.0 w.next_valid.1,
            inr (new, n),
            ground (arith, lookup-insert topic topic v c.topic_to_id, str_iff topic topic),
            λ t. lookup-insert topic t v c.topic_to_id,
          )
      | inr (other, n) ↦
          let apart : v ≢ free = λ e. ground (arith, e, n, f) in
          let step : assign_from (suc tries) topic c ≡ assign_from tries topic moved =
            ground (arith, nonzero, n) in
          subst (Assigned topic c) (sym step) (
            assign_from-Assigned tries topic moved free (moved-Paired c w) new f low high
              (ground (arith, d, apart, low, high, w.next_valid)))
    ]

-- On a client whose topics and identifiers are paired, where the topic has an identifier or some
-- identifier from 1 to 65534 is free, `assign_topic_id` gives the topic the one that it had, or one that
-- was free if it had none, keeps those of the other topics, and leaves topics and identifiers paired, so that no two
-- topics share one.
pub assign_topic_id-Assigned :
    (topic : Str) (c : SnClient) (free : ℕ)
    → Paired c
    → (lookup topic c.topic_to_id ≢ none)
      ⊎ ((lookup free c.id_to_topic ≡ none) × (topic_id_min ≤ free) × (free ≤ topic_id_max))
    → Assigned topic c (assign_topic_id topic c)
unfolding assign_topic_id
assign_topic_id-Assigned topic c free w h = elim (Option-cases (lookup topic c.topic_to_id)) [
  | inr (id, n) ↦ rw (n, assign_topic_id) (w, inl refl, n, λ t. ground (arith, n, str_iff topic t))
  | inl n ↦ elim h [
    | inl known ↦ absurd (known n)
    | inr (f, low, high) ↦
        subst
          (λ o. Assigned topic c (elim o [ some id ↦ (id, c) | none ↦ assign_from 65535 topic c ]))
          (sym n)
          (assign_from-Assigned 65535 topic c free w n f low high
            (ground (arith, low, high, w.next_valid)))
  ]
]

assign_from-Paired :
    (tries : ℕ) (topic : Str) (c : SnClient)
    → Paired c
    → lookup topic c.topic_to_id ≡ none
    → Paired (assign_from tries topic c).1
unfolding assign_from
assign_from-Paired zero topic c w new = w
assign_from-Paired (suc tries) topic c w new =
    let v = c.next_topic_id in
    let moved = record c { next_topic_id = following v } in
    let nonzero : eqb v 0 ≡ false = ground (arith, w.next_valid) in
    elim (Option-cases (lookup v c.id_to_topic)) [
      | inl n ↦
          let step : assign_from (suc tries) topic c ≡ (v, with_topic v topic moved) =
            ground (arith, nonzero, n) in
          subst (λ r. Paired r.1) (sym step)
            (with_topic-Paired v topic moved (moved-Paired c w) new n w.next_valid.0 w.next_valid.1)
      | inr (other, n) ↦
          let step : assign_from (suc tries) topic c ≡ assign_from tries topic moved =
            ground (arith, nonzero, n) in
          subst (λ r. Paired r.1) (sym step)
            (assign_from-Paired tries topic moved (moved-Paired c w) new)
    ]

pub assign_topic_id-Paired :
    (topic : Str) (c : SnClient) → Paired c → Paired (assign_topic_id topic c).1
unfolding assign_topic_id
assign_topic_id-Paired topic c w = elim (Option-cases (lookup topic c.topic_to_id)) [
  | inr (id, n) ↦ rw (n, assign_topic_id) w
  | inl n ↦ rw (n, assign_topic_id) (assign_from-Paired 65535 topic c w n)
]

pub forget_topic-Paired : (topic : Str) (c : SnClient) → Paired c → Paired (forget_topic topic c)
unfolding forget_topic
forget_topic-Paired topic c w = elim (Option-cases (lookup topic c.topic_to_id)) [
  | inl n ↦ rw (n, forget_topic) w
  | inr (id, n) ↦
      rw (n, forget_topic)
        (record {
          there = λ t i h. ground (
            arith,
            h,
            n,
            w.there t i,
            w.there topic id,
            w.back t i,
            lookup-remove topic t c.topic_to_id,
            lookup-remove id i c.id_to_topic,
            str_iff topic t,
          );
          back = λ t i h. ground (
            arith,
            h,
            n,
            w.there topic id,
            w.back t i,
            w.there t i,
            lookup-remove topic t c.topic_to_id,
            lookup-remove id i c.id_to_topic,
            str_iff topic t,
          );
          valid = λ t i h. ground (arith, h, w.valid t i, lookup-remove id i c.id_to_topic);
          next_valid = w.next_valid;
        })
]

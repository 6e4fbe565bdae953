-- ===== src/Broker/Topic/Splitting.antt =====
-- src/broker/subscription.rs: different filters have different levels, and different shared filters
-- have different groups.
use lumen_mq.Prelude.{
  ℕ, ◌≡◌, ◌↔◌, refl, sym, ap, subst, ◌∙◌, List, [], ◌∷◌, ◌++◌, Str, true, arith, nat_key, list_key,
  ◌==◌, some, eqb, Bool-cases, Option-cases, inl, inr,
}
use lumen_mq.Broker.Topic.{
  split, split_once, parse_shared_filter, share_prefix, extend_first, before_after, group_of,
}

join : List Str → Str
join [] = []
join (w ∷ []) = w
join (w ∷ v ∷ ws) = w ++ (b'/' ∷ join (v ∷ ws))

join-extend : (c : ℕ) (ws : List Str) → join (extend_first c ws) ≡ c ∷ join ws
unfolding join
join-extend c [] = refl
join-extend c (w ∷ []) = refl
join-extend c (w ∷ v ∷ ws) = refl

join-cut : (w : Str) (ws : List Str) → join ([] ∷ w ∷ ws) ≡ b'/' ∷ join (w ∷ ws)
unfolding join
join-cut w ws = refl

split_some : (cs : Str) → (w : Str) × (ws : List Str) × (split cs ≡ w ∷ ws)
unfolding split
split_some [] = ([], [], refl)
split_some (c ∷ cs) = elim (Bool-cases (eqb c b'/')) [
  | inl e ↦ ([], split cs, rw e refl)
  | inr e ↦ let (w, ws, rest) = split_some cs in (c ∷ w, ws, rw (e, rest) refl)
]

join-split : (cs : Str) → join (split cs) ≡ cs
unfolding split join
join-split [] = refl
join-split (c ∷ cs) = elim (Bool-cases (eqb c b'/')) [
  | inl e ↦
      let (w, ws, rest) = split_some cs in
      let here : c ≡ b'/' = ground arith in
      rw (e, rest, here) (ap (◌∷◌ b'/') (subst (λ v. join v ≡ cs) rest (join-split cs)))
  | inr e ↦ rw (e, join-extend c (split cs)) (ap (◌∷◌ c) (join-split cs))
]

pub split_injective : (a b : Str) → split a ≡ split b → a ≡ b
split_injective a b e = sym (join-split a) ∙ ap join e ∙ join-split b

split_once_whole : (cs a b : Str) → split_once cs ≡ some (a, b) → cs ≡ a ++ (b'/' ∷ b)
unfolding split_once before_after
split_once_whole [] a b h = cc
split_once_whole (c ∷ cs) a b h = elim (Bool-cases (eqb c b'/')) [
  | inl e ↦ ground (arith, e)
  | inr e ↦ elim (Option-cases (split_once cs)) [
    | inl n ↦ ground (arith, e, n)
    | inr ((p, q), n) ↦ ground (arith, e, n, split_once_whole cs p q n)
  ]
]

shared_iff : (p : Str) → ((p == share_prefix) ≡ true) ↔ (p ≡ share_prefix)
shared_iff p = list_key.same_iff p share_prefix

parse_shared_filter_whole :
    (f g r : Str)
    → parse_shared_filter f ≡ some (g, r)
    → f ≡ share_prefix ++ (b'/' ∷ (g ++ (b'/' ∷ r)))
unfolding parse_shared_filter group_of
parse_shared_filter_whole f g r h = elim (Option-cases (split_once f)) [
  | inl n ↦ ground (arith, n)
  | inr ((p, q), n) ↦ elim (Option-cases (split_once q)) [
    | inl m ↦ ground (arith, n, m)
    | inr ((g', r'), m) ↦
        ground (arith, n, m, shared_iff p, split_once_whole f p q n, split_once_whole q g' r' m)
  ]
]

pub parse_shared_filter_injective :
    (f f' g r : Str)
    → parse_shared_filter f ≡ some (g, r)
    → parse_shared_filter f' ≡ some (g, r)
    → f ≡ f'
parse_shared_filter_injective f f' g r h k =
    parse_shared_filter_whole f g r h ∙ sym (parse_shared_filter_whole f' g r k)

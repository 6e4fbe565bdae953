-- ===== src/Broker/Topic/Matching.antt =====
-- src/broker/subscription.rs: the matching loop decides the relation of the protocol.
use lumen_mq.Prelude.{
  ◌≡◌, ◌↔◌, ◌≢◌, refl, true, false, List, [], ◌∷◌, Str, nat_key, list_key, ◌==◌, arith, is_empty,
  Bool-cases, list_same, inl, inr,
}
use lumen_mq.Prelude.Result.{ok}
use lumen_mq.Broker.Topic.{
  plus, hash, split, check_levels, validate_filter, match_levels, topic_matches_filter,
}

-- A filter's levels against a topic's: `#` stands for all levels that are left, and for none; `+`
-- stands for one level; any other level stands for itself.
pub data Matches : List Str → List Str → Type 0 where
  nothing_left : Matches [] []
  rest_of : (ts : List Str) → Matches (hash ∷ []) ts
  any_level : {fs ts : List Str} (t : Str) → Matches fs ts → Matches (plus ∷ fs) (t ∷ ts)
  same_level : {fs ts : List Str} (t : Str) → Matches fs ts → Matches (t ∷ fs) (t ∷ ts)

-- `#` stands only at the end.
abbrev pub HashLast : List Str → Type 0
HashLast [] = Unit
HashLast (f ∷ fs) = (f ≡ hash → fs ≡ []) × HashLast fs

str_iff : (a b : Str) → ((a == b) ≡ true) ↔ (a ≡ b)
str_iff a b = list_key.same_iff a b

not_inner : (f g : Str) (fs : List Str) → check_levels (f ∷ g ∷ fs) ≡ ok tt → f ≢ hash
unfolding check_levels
not_inner f g fs h e = ground (arith, str_iff f hash)

inner_rest : (f : Str) (fs : List Str) → check_levels (f ∷ fs) ≡ ok tt → check_levels fs ≡ ok tt
unfolding check_levels
inner_rest f fs h = ground arith

pub check_levels-HashLast : (fs : List Str) → check_levels fs ≡ ok tt → HashLast fs
check_levels-HashLast [] h = tt
check_levels-HashLast (f ∷ []) h = (λ _. refl, tt)
check_levels-HashLast (f ∷ g ∷ fs) h =
    (λ e. absurd (not_inner f g fs h e), check_levels-HashLast (g ∷ fs) (inner_rest f (g ∷ fs) h))

match_levels-Matches : (ts fs : List Str) → HashLast fs → match_levels ts fs ≡ true → Matches fs ts
unfolding match_levels
match_levels-Matches [] [] v h = nothing_left
match_levels-Matches [] (f ∷ []) v h = rw ((str_iff f hash).0 h) (rest_of [])
match_levels-Matches [] (f ∷ g ∷ fs) v h = cc
match_levels-Matches (t ∷ ts) [] v h = cc
match_levels-Matches (t ∷ ts) (f ∷ fs) v h = elim (Bool-cases (f == hash)) [
  | inl e ↦ let here = (str_iff f hash).0 e in rw (here, v.0 here) (rest_of (t ∷ ts))
  | inr e ↦ elim (Bool-cases (f == plus)) [
    | inl p ↦
        rw ((str_iff f plus).0 p) (any_level t (match_levels-Matches ts fs v.1 (ground arith)))
    | inr p ↦
        let same : f ≡ t = ground (arith, str_iff f t) in
        rw same (same_level t (match_levels-Matches ts fs v.1 (ground arith)))
  ]
]

Matches-match_levels : {fs ts : List Str} → Matches fs ts → match_levels ts fs ≡ true
unfolding match_levels list_same
Matches-match_levels nothing_left = refl
Matches-match_levels (rest_of []) = refl
Matches-match_levels (rest_of (t ∷ ts)) = refl
Matches-match_levels (any_level {fs} {ts} t m) = Matches-match_levels m
Matches-match_levels (same_level {fs} {ts} t m) =
    ground (arith, str_iff t t, Matches-match_levels m)

-- On a filter that `subscribe` accepts and a topic that is not empty, `topic_matches_filter` says
-- yes exactly where the filter's levels match the topic's.
pub topic_matches_filter_iff :
    (topic filter : Str)
    → validate_filter filter ≡ ok tt
    → is_empty topic ≡ false
    → (topic_matches_filter topic filter ≡ true) ↔ Matches (split filter) (split topic)
unfolding topic_matches_filter validate_filter
topic_matches_filter_iff topic filter v t =
    let present : is_empty filter ≡ false = ground arith in
    let levels : check_levels (split filter) ≡ ok tt = ground arith in
    rw (t, present)
      (
        match_levels-Matches (split topic) (split filter)
            (check_levels-HashLast (split filter) levels),
        Matches-match_levels,
      )

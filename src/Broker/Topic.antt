-- ===== src/Broker/Topic.antt =====
-- src/broker/subscription.rs: topics and filters as lists of levels, and how they match.
pub mod Matching
pub mod Splitting
pub mod Examples
use lumen_mq.Prelude.{
  ℕ, Bool, true, false, not, ◌&&◌, ◌||◌, Option, some, none, List, [], ◌∷◌, Str, eqb, if◌then◌else◌,
  nat_key, list_key, ◌==◌, is_empty,
}
use lumen_mq.Prelude.Result.{Result, ok, err}
use lumen_mq.Utils.{BrokerError, invalid_topic}

abbrev pub plus : Str
plus = b'+' ∷ []

abbrev pub hash : Str
hash = b'#' ∷ []

-- "$share"
abbrev pub share_prefix : Str
share_prefix = b'$' ∷ b's' ∷ b'h' ∷ b'a' ∷ b'r' ∷ b'e' ∷ []

abbrev extend_first : ℕ → List Str → List Str
extend_first c [] = (c ∷ []) ∷ []
extend_first c (w ∷ ws) = (c ∷ w) ∷ ws

-- `split('/')`: an empty text has one empty level.
unfoldable pub split : Str → List Str
split [] = [] ∷ []
split (c ∷ cs) = let rest = split cs in if eqb c b'/' then [] ∷ rest else extend_first c rest

before_after : ℕ → Option (Str × Str) → Option (Str × Str)
before_after c none = none
before_after c (some (a, b)) = some (c ∷ a, b)

-- The text before the first '/' and the text behind it.
unfoldable pub split_once : Str → Option (Str × Str)
unfolding before_after
split_once [] = none
split_once (c ∷ cs) =
    let rest = split_once cs in if eqb c b'/' then some ([], cs) else before_after c rest

-- `contains` of one character.
unfoldable pub has_char : ℕ → Str → Bool
has_char c [] = false
has_char c (x ∷ xs) = eqb x c || has_char c xs

group_of : Str → Option (Str × Str) → Option (Str × Str)
group_of prefix none = none
group_of prefix (some (group, real)) =
    if (prefix == share_prefix) && not (is_empty group) then some (group, real) else none

-- `$share/{group}/{real_filter}`, by `splitn(3, '/')`.
unfoldable pub parse_shared_filter : Str → Option (Str × Str)
unfolding group_of split_once
parse_shared_filter filter = elim (split_once filter) [
  | none ↦ none
  | some (prefix, rest) ↦ group_of prefix (split_once rest)
]

-- The loop of `validate_filter`; the last level is the one with nothing behind it.
unfoldable pub check_levels : List Str → Result BrokerError (Unit {0})
unfolding has_char
check_levels [] = ok tt
check_levels (seg ∷ rest) =
    let others = check_levels rest in
    if has_char b'#' seg && not (seg == hash)
    then err (invalid_topic "invalid '#' in filter")
    else if (seg == hash) && not (is_empty rest)
    then err (invalid_topic "'#' must be last level")
    else if has_char b'+' seg && not (seg == plus)
    then err (invalid_topic "invalid '+' in filter")
    else others

unfoldable pub validate_filter : Str → Result BrokerError (Unit {0})
unfolding check_levels split
validate_filter filter =
    if is_empty filter
    then err (invalid_topic "empty topic filter")
    else check_levels (split filter)

-- The loop of `topic_matches_filter` over the levels that are left of the topic and of the filter.
unfoldable pub match_levels : List Str → List Str → Bool
match_levels [] [] = true
match_levels [] (f ∷ []) = f == hash
match_levels [] (f ∷ g ∷ fs) = false
match_levels (t ∷ ts) [] = false
match_levels (t ∷ ts) (f ∷ fs) =
    let rest = match_levels ts fs in
    if f == hash then true else if (f == plus) || (f == t) then rest else false

unfoldable pub topic_matches_filter : Str → Str → Bool
unfolding match_levels split
topic_matches_filter topic filter =
    if is_empty topic || is_empty filter then false else match_levels (split topic) (split filter)

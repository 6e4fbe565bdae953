-- ===== src/Broker/Topic/Examples.antt =====
-- Topics and filters, run: the tests and the witnesses.
use lumen_mq.Prelude.{◌≡◌, ◌↔◌, refl, [], ◌∷◌, Str, true, false, some, list_same}
use lumen_mq.Broker.Topic.{
  split, has_char, check_levels, validate_filter, match_levels, topic_matches_filter,
  parse_shared_filter, split_once,
}
use lumen_mq.Broker.Topic.Matching.{Matches, topic_matches_filter_iff}

-- "a/b"
abbrev pub topic : Str
topic = b'a' ∷ b'/' ∷ b'b' ∷ []

-- "a/+"
abbrev pub one_level : Str
one_level = b'a' ∷ b'/' ∷ b'+' ∷ []

-- "a/b/#"
abbrev pub below : Str
below = b'a' ∷ b'/' ∷ b'b' ∷ b'/' ∷ b'#' ∷ []

-- "$share/g/a/+"
abbrev pub in_group : Str
in_group = b'$' ∷ b's' ∷ b'h' ∷ b'a' ∷ b'r' ∷ b'e' ∷ b'/' ∷ b'g' ∷ b'/' ∷ one_level

below_matches : topic_matches_filter topic below ≡ true
unfolding topic_matches_filter split match_levels list_same
below_matches = refl

deeper_not : topic_matches_filter below one_level ≡ false
unfolding topic_matches_filter split match_levels list_same
deeper_not = refl

in_group_parsed : parse_shared_filter in_group ≡ some (b'g' ∷ [], one_level)
unfolding parse_shared_filter split_once list_same
in_group_parsed = refl

topic_matches_filter_iff_example :
    (topic_matches_filter topic one_level ≡ true) ↔ Matches (split one_level) (split topic)
unfolding validate_filter check_levels split has_char list_same
topic_matches_filter_iff_example = topic_matches_filter_iff topic one_level refl refl

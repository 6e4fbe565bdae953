-- ===== src/Broker/Subscription/Examples.antt =====
-- The subscription tree, run: the tests and the witnesses.
use lumen_mq.Prelude.{
  ◌≡◌, ◌↔◌, ◌∙◌, sym, subst, refl, [], ◌∷◌, Str, true, some, none, list_same, nat_key, list_key,
  ◌==◌, if◌then◌else◌, arith, In, inl, inr,
}
use lumen_mq.Prelude.Result.{ok, ok-injective}
use lumen_mq.Prelude.Assoc.{lookup, insert}
use lumen_mq.Codec.Packet.{QoS, qos_le}
use lumen_mq.Broker.Topic.{
  split, has_char, check_levels, validate_filter, parse_shared_filter, split_once,
}
use lumen_mq.Broker.Topic.Examples.{topic, one_level}
use lumen_mq.Broker.Subscription.{
  SubscriptionTree, SharedEntry, new_tree, subscribe, unsubscribe, unsubscribe_all, note_filter,
}
use lumen_mq.Broker.Subscription.Select.{
  matches, merge, merge_all, next_member, sort_by_id, place, str_le,
}
use lumen_mq.Broker.Subscription.Tree.{
  insert_at, put_at, child_at, put_child, get_child, collect_matches,
}
use lumen_mq.Broker.Subscription.Refinement.{subscription, WellFormed}
use lumen_mq.Broker.Subscription.Effects.{
  Updates, real_filter, new_tree-WellFormed, subscribe-Updates,
}
use lumen_mq.Broker.Subscription.Removal.{Removes, unsubscribe-Removes, unsubscribe_all_updates}
use lumen_mq.Broker.Subscription.Delivery.{Subscribed, matches_greatest}
use lumen_mq.Broker.Subscription.Group.{turns, turns_fair}

abbrev pub client : Str
client = b'c' ∷ []

abbrev other : Str
other = b'd' ∷ []

abbrev pub tree : SubscriptionTree
tree = record {
  root = insert_at (split one_level) client QoS.at_least_once new_tree.root;
  reverse = note_filter client one_level QoS.at_least_once [];
  shared = [];
}

subscribe-Updates_example :
    (t' : SubscriptionTree) × (subscribe client one_level QoS.at_least_once new_tree ≡ ok t')
    × WellFormed t'
    × Updates client one_level (some QoS.at_least_once) new_tree t'
unfolding real_filter validate_filter check_levels split has_char parse_shared_filter split_once
    list_same
subscribe-Updates_example =
    subscribe-Updates client one_level QoS.at_least_once new_tree new_tree-WellFormed refl

subscribed_tree : subscribe client one_level QoS.at_least_once new_tree ≡ ok tree
unfolding subscribe validate_filter check_levels split has_char parse_shared_filter split_once
    list_same
subscribed_tree = refl

pub tree-WellFormed : WellFormed tree
unfolding real_filter validate_filter check_levels split has_char parse_shared_filter split_once
    list_same
tree-WellFormed =
    let (t', e, w, u) =
      subscribe-Updates client one_level QoS.at_least_once new_tree new_tree-WellFormed refl in
    subst WellFormed (ok-injective (sym e ∙ subscribed_tree)) w

unsubscribe-Removes_example : Removes client one_level tree (unsubscribe client one_level tree)
unsubscribe-Removes_example = unsubscribe-Removes client one_level tree tree-WellFormed

unsubscribe_all_updates_example :
    WellFormed (unsubscribe_all client tree)
    × ((id' f : Str)
        → subscription id' f (unsubscribe_all client tree)
          ≡ (if client == id' then none else subscription id' f tree))
unsubscribe_all_updates_example = unsubscribe_all_updates client tree tree-WellFormed

matches_greatest_example : (lookup client (matches topic tree) ≡ some QoS.at_least_once) ↔ (
    Subscribed topic client QoS.at_least_once tree
    × ((p : QoS) → Subscribed topic client p tree → qos_le p QoS.at_least_once ≡ true))
unfolding split list_same
matches_greatest_example =
    matches_greatest topic tree tree-WellFormed refl (refl, refl, (refl, refl, tt)) client
      QoS.at_least_once

delivered : matches topic tree ≡ (client, QoS.at_least_once) ∷ []
unfolding matches split merge_all merge collect_matches insert_at put_at child_at put_child
    get_child list_same lookup insert
delivered = refl

abbrev group : SharedEntry
group = record {
  members = (other, QoS.at_most_once) ∷ (client, QoS.at_least_once) ∷ [];
  rr_counter = 5;
}

turns_fair_example : In (some (client, QoS.at_least_once)) (turns 2 group)
turns_fair_example = turns_fair group (client, QoS.at_least_once) (inr (inl refl)) (omega arith)

in_turn :
    turns 3 group
    ≡ some (other, QoS.at_most_once)
      ∷ some (client, QoS.at_least_once)
      ∷ some (other, QoS.at_most_once)
      ∷ []
unfolding turns next_member sort_by_id place str_le
in_turn = refl

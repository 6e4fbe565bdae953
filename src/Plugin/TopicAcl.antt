-- ===== src/Plugin/TopicAcl.antt =====
-- src/plugin/topic_acl.rs: which topics may be published and subscribed to.
use lumen_mq.Prelude.{Bool, false, ◌||◌, List, [], ◌∷◌, Str, if◌then◌else◌, is_empty}
use lumen_mq.Broker.Topic.{topic_matches_filter}

-- `AclVerdict`, which `PayloadVerdict` has the cases of.
pub data Verdict : Type 0 where
  allowed : Verdict
  denied_by_blacklist : Verdict
  denied_by_whitelist : Verdict

-- `TopicAclConfig` of src/config/settings.rs, whose lists are copied.
pub record TopicAcl : Type 0 where
  pub publish_blacklist : List Str
  pub publish_whitelist : List Str
  pub subscribe_blacklist : List Str
  pub subscribe_whitelist : List Str

abbrev pub no_topic_rules : TopicAcl
no_topic_rules = record {
  publish_blacklist = [];
  publish_whitelist = [];
  subscribe_blacklist = [];
  subscribe_whitelist = [];
}

-- A filter of the list matches.
unfoldable pub any_filter : Str → List Str → Bool
unfolding topic_matches_filter
any_filter topic [] = false
any_filter topic (f ∷ filters) = topic_matches_filter topic f || any_filter topic filters

-- The black list first; then the white list, where it has entries.
unfoldable pub decide : Str → List Str → List Str → Verdict
unfolding any_filter
decide topic blacklist whitelist =
    if any_filter topic blacklist
    then denied_by_blacklist
    else if is_empty whitelist
    then allowed
    else if any_filter topic whitelist
    then allowed
    else denied_by_whitelist

abbrev pub acl_publish : Str → TopicAcl → Verdict
acl_publish topic acl = decide topic acl.publish_blacklist acl.publish_whitelist

abbrev pub acl_subscribe : Str → TopicAcl → Verdict
acl_subscribe filter acl = decide filter acl.subscribe_blacklist acl.subscribe_whitelist

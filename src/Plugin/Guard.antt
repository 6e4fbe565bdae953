-- ===== src/Plugin/Guard.antt =====
-- src/plugin/mod.rs: the policy and its checks of a publication and of a subscription.
use lumen_mq.Prelude.{Bool, false, not, Option, Str, String, if◌then◌else◌}
use lumen_mq.Prelude.Result.{Result, ok, err, ◌>>◌}
use lumen_mq.Utils.{BrokerError, invalid_topic, other}
use lumen_mq.Codec.Packet.{Publish}
use lumen_mq.Security.IpFilter.{Syntax}
use lumen_mq.Plugin.TopicAcl.{
  TopicAcl, Verdict, allowed, denied_by_blacklist, denied_by_whitelist, decide, acl_publish,
  acl_subscribe, no_topic_rules,
}
use lumen_mq.Plugin.PayloadFilter.{
  PayloadFilter, PayloadFilterConfig, filter_from, no_keywords, check_payload, no_rules,
}
use lumen_mq.Plugin.Forwarder.{
  Forwarder, ForwardConfig, new_forwarder, disabled_forwarder, try_forward,
}

pub record PluginConfig : Type 0 where
  pub enabled : Bool
  pub topic_acl : TopicAcl
  pub payload_filter : PayloadFilterConfig
  pub forward : ForwardConfig

pub record PluginPolicy : Type 0 where
  pub enabled : Bool
  pub topic_acl : TopicAcl
  pub payload_filter : PayloadFilter

pub record PluginGuard : Type 0 where
  pub policy : PluginPolicy
  pub forwarder : Forwarder

abbrev pub build_plugin_policy : PluginConfig → PluginPolicy
build_plugin_policy cfg = record {
  enabled = cfg.enabled;
  topic_acl = cfg.topic_acl;
  payload_filter =
      if cfg.payload_filter.enabled then filter_from cfg.payload_filter else no_keywords;
}

abbrev built_or : Forwarder → Result BrokerError Forwarder → Forwarder
built_or old (ok f) = f
built_or old (err e) = old

-- `PluginGuard::new`: without a forwarder, where its configuration is refused.
unfoldable pub new_plugin : Syntax → PluginConfig → PluginGuard
unfolding new_forwarder
new_plugin x cfg = record {
  policy = build_plugin_policy cfg;
  forwarder = built_or disabled_forwarder (new_forwarder x cfg.forward);
}

abbrev pub disabled_plugin : PluginGuard
disabled_plugin = record {
  policy = record { enabled = false; topic_acl = no_topic_rules; payload_filter = no_keywords };
  forwarder = disabled_forwarder;
}

-- `reload`: the forwarder stays where its configuration is refused.
unfoldable pub reload_plugin : Syntax → PluginConfig → PluginGuard → PluginGuard
unfolding new_forwarder
reload_plugin x cfg g = record {
  policy = build_plugin_policy cfg;
  forwarder = built_or g.forwarder (new_forwarder x cfg.forward);
}

abbrev topic_error : String → String → Verdict → Result BrokerError (Unit {0})
topic_error black white allowed = ok tt
topic_error black white denied_by_blacklist = err (invalid_topic black)
topic_error black white denied_by_whitelist = err (invalid_topic white)

abbrev payload_error : Verdict → Result BrokerError (Unit {0})
payload_error allowed = ok tt
payload_error denied_by_blacklist = err (other "payload denied by blacklist keyword")
payload_error denied_by_whitelist = err (other "payload denied by whitelist keyword")

unfoldable pub plugin_publish : Publish → PluginGuard → Result BrokerError (Unit {0})
unfolding decide check_payload
plugin_publish p g =
    let policy = g.policy in
    if not policy.enabled
    then ok tt
    else topic_error "topic denied by publish blacklist" "topic not in publish whitelist"
        (acl_publish p.topic policy.topic_acl)
      >> (if no_rules policy.payload_filter
          then ok tt
          else payload_error (check_payload p.payload policy.payload_filter))

unfoldable pub plugin_subscribe : Str → PluginGuard → Result BrokerError (Unit {0})
unfolding decide
plugin_subscribe filter g =
    if not g.policy.enabled
    then ok tt
    else topic_error "filter denied by subscribe blacklist" "filter not in subscribe whitelist"
        (acl_subscribe filter g.policy.topic_acl)

unfoldable pub forward : Publish → Option Str → PluginGuard → PluginGuard
unfolding try_forward
forward p client_id g = record g { forwarder = try_forward p client_id g.forwarder }

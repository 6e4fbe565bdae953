-- ===== src/Plugin/Examples.antt =====
-- The plugins, run: the witnesses and a guard that other tests share.
use lumen_mq.Prelude.{
  ◌≡◌, ◌↔◌, ◌⊎◌, refl, true, false, some, none, List, [], ◌∷◌, Str, Bytes, list_same,
}
use lumen_mq.Prelude.Result.{ok}
use lumen_mq.Codec.Packet.{QoS, Publish}
use lumen_mq.Broker.Topic.Examples.{topic, one_level}
use lumen_mq.Security.Examples.{syntax, syntax-GivesAddrs}
use lumen_mq.Plugin.Forwarder.{
  ForwardConfig, Forwarder, new_forwarder, validate_forward_url, extract_host, eq_ignore_case,
  localhost, disabled_forwarder, after_scheme, strip_prefix, until, host_of, after_last_at,
  until_bracket,
}
use lumen_mq.Plugin.Guard.{PluginGuard, plugin_publish}
use lumen_mq.Plugin.Verdicts.{Hits, HasKeyword, plugin_publish_allows}
use lumen_mq.Plugin.Hosts.{UrlHost}
use lumen_mq.Plugin.Targets.{SameLetters, NotForbidden, new_forwarder_target}

abbrev secret : Bytes
secret = b's' ∷ b'e' ∷ b'c' ∷ []

-- No topic below "a", and no payload with "sec" in it.
abbrev strict : PluginGuard
strict = record {
  policy = record {
    enabled = true;
    topic_acl = record {
      publish_blacklist = one_level ∷ [];
      publish_whitelist = [];
      subscribe_blacklist = [];
      subscribe_whitelist = [];
    };
    payload_filter = record { blacklist = secret ∷ []; whitelist = [] };
  };
  forwarder = disabled_forwarder;
}

abbrev pub hello : Publish
hello = record {
  dup = false;
  qos = QoS.exactly_once;
  retain = false;
  topic = topic;
  packet_id = some 7;
  payload = b'x' ∷ b's' ∷ [];
}

plugin_publish_allows_example : (plugin_publish hello strict ≡ ok tt) ↔ (
    ((¬ Hits topic (one_level ∷ [])) × ((◌≡◌ {A = List Str} [] []) ⊎ Hits topic []))
    × ((¬ HasKeyword (b'x' ∷ b's' ∷ []) (secret ∷ []))
        × ((◌≡◌ {A = List Bytes} [] []) ⊎ HasKeyword (b'x' ∷ b's' ∷ []) [])))
plugin_publish_allows_example = plugin_publish_allows hello strict refl

-- "http://host:80/x"
abbrev url : Str
url =
    b'h' ∷ b't' ∷ b't' ∷ b'p' ∷ b':' ∷ b'/' ∷ b'/' ∷ b'h' ∷ b'o' ∷ b's' ∷ b't' ∷ b':' ∷ b'8' ∷ b'0'
    ∷ b'/' ∷ b'x' ∷ []

abbrev to_host : ForwardConfig
to_host = record {
  enabled = true;
  url = url;
  topic_filter = [];
  max_queue = 0;
  allow_private_network = false;
}

abbrev forwarder : Forwarder
forwarder = record {
  tx = some (record { room = 1024; waiting = []; closed = false });
  topic_filter = none;
  dropped = 0;
}

new_forwarder_target_example :
    (host : Str) × UrlHost url host
    × ¬ SameLetters host localhost
    × NotForbidden (syntax.parse_ip host)
unfolding new_forwarder validate_forward_url extract_host eq_ignore_case after_scheme strip_prefix
    until host_of after_last_at until_bracket list_same
new_forwarder_target_example =
    new_forwarder_target syntax to_host forwarder syntax-GivesAddrs refl refl refl

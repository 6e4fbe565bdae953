-- ===== src/Plugin.antt =====
-- src/plugin/: the rules on topics and payloads, and the publications forwarded over HTTP.
pub mod TopicAcl
pub mod PayloadFilter
pub mod Forwarder
pub mod Hosts
pub mod Guard
pub mod Verdicts
pub mod Targets
pub mod Examples

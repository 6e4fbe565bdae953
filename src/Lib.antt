-- ===== src/Lib.antt =====
-- Lumen MQ, an MQTT broker in Rust: a model of its codec and of the parts of the broker that
-- keep state, with the theorems that make them correct. Paths are those of the repository.
--
-- A connection's bytes become packets in src/codec/v3.rs. The broker (src/broker/) registers the
-- client's session, keeps its subscriptions, finds the subscribers of a publication, and sends or
-- stores it for each; for QoS 1 and 2 it allots packet identifiers and keeps the inflight table. A
-- connection (src/broker/mod.rs) asks the security guard (src/security/) before it reads a CONNECT and
-- for each PUBLISH, and the plugins (src/plugin/) for each PUBLISH and SUBSCRIBE; what they let through
-- goes to the router, which calls the subscriptions, the sessions and the retained messages. The
-- gateway for MQTT-SN (src/net/mqtt_sn.rs) uses the same router, sessions and subscriptions.
--
-- The files:
-- - Prelude, Prelude/: shared names. HashMap is an association list (Prelude/Assoc), in the list's
--   order; a text is its UTF-8 bytes (Prelude/Utf8); Result is Prelude/Result.
-- - Utils: src/utils/error.rs, the errors. A message that the source formats is its fixed part.
-- - Codec, Codec/: src/codec/packet.rs (Codec/Packet) and src/codec/v3.rs: `decode_remaining_length`
--   and its encoder in Codec/Length, `Reader` in Codec/Reader, the properties of a CONNECT in
--   Codec/Properties, `decode_connect` in Codec/Connect, the other parsers and `decode` in
--   Codec/Decode, `encode` in Codec/Encode. Codec/RoundTrip/ proves what the two make of each other.
-- - Broker/Topic: `validate_filter`, `parse_shared_filter` and `topic_matches_filter` of
--   src/broker/subscription.rs, over lists of levels.
-- - Broker/Subscription: the tree (Subscription/Tree), the reverse index and the shared groups of the
--   same file, with `matches` and `matches_shared` in Subscription/Select. Subscription/Paths sees the
--   tree as the subscribers at each path, Subscription/Refinement sees all three as one table of
--   subscriptions.
-- - Broker/Offline: src/broker/store_msg.rs.
-- - Broker/Session: src/broker/session.rs, with the delivery in Session/Deliver and the end of
--   connections and sessions in Session/Leave.
-- - Broker/Message, Broker/PacketId: `OutboundPublish` and `build_publish` of src/broker/router.rs,
--   `allocate_pid` and `build_outbound_packet` of src/broker/mod.rs.
-- - Broker/Retain: src/broker/retain.rs. The storage below it is a parameter, the record Storage.
-- - Broker/Auth: src/broker/auth.rs with the settings that it reads, of src/config/settings.rs.
-- - Broker/Qos: src/broker/qos.rs, the inflight table and the deduplication of QoS 2.
-- - Broker/Router: `publish`, `deliver_one` and `route_inbound_publish` of src/broker/router.rs. The
--   storage is a parameter, the record Disk, and the state of each channel an argument, Around.
-- - Broker/Connection: src/broker/mod.rs. World is `BrokerState` with what one connection keeps,
--   Env what does not change for it. The CONNECT is in Connection/Opening, `handle_publish` in
--   Connection/Publishing, `handle_subscribe` and UNSUBSCRIBE in Connection/Subscribing,
--   `handle_packet` in Connection/Handling, the rounds of the main loop in Connection/Looping,
--   with the keep-alive test of src/net/conn_context.rs, and `cleanup`, `on_abnormal_disconnect`
--   and the sweeper in Connection/Closing, and `load_persistent_sessions` in Connection/Loading.
--   Connection/Life is the relation of all their interleavings.
-- - Security: src/security/ip_filter.rs in Security/Trie and Security/IpFilter, limiter.rs in
--   Security/Limiter, mod.rs in Security/Guard. The parser of an address (Syntax) and the arithmetic of
--   f64 (Floats) are parameters.
-- - Plugin: src/plugin/topic_acl.rs, payload_filter.rs, forwarder.rs and mod.rs, the last in
--   Plugin/Guard.
-- - Gateway: src/net/mqtt_sn.rs: `parse_packet` and `encode_packet` in Gateway/Packet, `SnClient` in
--   Gateway/Client, the handlers in Gateway/Server and Gateway/Handling, with the sweeper, and
--   `forward_outbound` in Gateway/Forwarding. The decoder `from_utf8_lossy` is a parameter.
-- The Examples modules run the definitions and instantiate the theorems.
--
-- How code becomes definitions. A call that takes locks runs as one step, and a state that the source
-- mutates is passed on. Integers are natural numbers; where the source wraps, the remainder is written
-- out (`rr_counter`, the epochs and `online_count` by 2^64, packet identifiers by 2^16). Instants are
-- nanoseconds of the monotonic clock and arguments of the calls. A channel's `try_send` is an argument
-- that says whether the channel is ready, full or closed. A connection's peer takes a number of packets,
-- and then sending fails. A handler is a function of the state to its result and the new state, which an
-- error does not undo, and is none where a call in it does not return. Logging and metrics are left out,
-- but for the counter of connections, which the gateway reads.
--
-- Fuel. `allocate_from` has the 65535 rounds of the source's loop. The loops of the codec that run to
-- the end of a body have a round for each byte, and each round reads one byte at least. The loop of
-- `enqueue` has a round more than there are messages; it takes a message in each round, and it is
-- enough where the queue has a capacity. With the capacity 0 the loop of the source does not end, and
-- `enqueue` is none for it. `assign_from` of the gateway has the 65535 rounds of its source.
--
-- Not modelled: the sockets, TLS and timers of src/net/; the reading of the configuration and its
-- checks (src/config/); the admin server (src/admin/); metrics and logging (src/monitor/); the
-- storage (src/storage/), which wraps a database and is a parameter; the task of
-- src/plugin/forwarder.rs that posts over HTTP; and what other connections do between two reads of
-- one call, since each call here is one step.
pub mod Prelude
pub mod Utils
pub mod Codec
pub mod Broker
pub mod Security
pub mod Plugin
pub mod Gateway

-- ===== src/Utils.antt =====
-- src/utils/error.rs: the error types. A message is kept as the constant part of its text.
use lumen_mq.Prelude.{ℕ, String}

-- Protocol errors.
pub data CodecError : Type 0 where
  incomplete : CodecError
  invalid_packet_type : ℕ → CodecError
  invalid_flags : ℕ → ℕ → CodecError
  invalid_protocol : String → CodecError
  invalid_remaining_length : ℕ → CodecError
  malformed_utf8 : CodecError
  malformed_body : String → CodecError
  unsupported_version : ℕ → CodecError

pub data AuthError : Type 0 where
  bad_credentials unauthorized_client_id anonymous_forbidden too_many_connections : AuthError

pub data BrokerError : Type 0 where
  codec : CodecError → BrokerError
  io : String → BrokerError
  connection_closed : String → BrokerError
  connection_reset : BrokerError
  heartbeat_timeout : String → BrokerError
  packet_too_large : ℕ → ℕ → BrokerError
  session : String → BrokerError
  subscription : String → BrokerError
  invalid_topic : String → BrokerError
  invalid_client_id : BrokerError
  invalid_qos : ℕ → BrokerError
  auth : AuthError → BrokerError
  config : String → BrokerError
  storage : String → BrokerError
  rate_limited : String → BrokerError
  other : String → BrokerError

-- ===== src/Broker/PacketId/Examples.antt =====
-- src/broker/mod.rs: the theorems on packet identifiers at concrete tables.
use lumen_mq.Prelude.{
  ℕ, ◌≤◌, ◌≡◌, ◌≢◌, ◌↔◌, refl, false, some, none, [], ◌∷◌, arith, nat_key, length, if◌then◌else◌,
  ◌==◌,
}
use lumen_mq.Prelude.Assoc.{lookup, IsMap}
use lumen_mq.Codec.Packet.{exactly_once, at_most_once}
use lumen_mq.Broker.Message.{OutboundPublish}
use lumen_mq.Broker.Qos.{InflightTable}
use lumen_mq.Broker.PacketId.{allocate_pid, allocate_from, build_outbound_packet}
use lumen_mq.Broker.PacketId.Fresh.{IsCounter, allocate_pid_fresh}
use lumen_mq.Broker.PacketId.Outbound.{
  build_outbound_packet_sends, build_outbound_packet_bounds, entry_of, packet_of,
}

abbrev sample_message : OutboundPublish
sample_message = record { topic = b'a' ∷ []; payload = 1 ∷ []; qos = exactly_once; retain = false }

abbrev one_entry : InflightTable
one_entry = (65535, entry_of sample_message 4) ∷ []

-- 65535 is in use and 0 is passed over.
wraps_round : allocate_pid 65535 one_entry ≡ (1, 2)
unfolding allocate_pid allocate_from lookup
wraps_round = refl

allocate_pid_fresh_example :
    IsCounter (allocate_pid 65535 one_entry).1
    × ((allocate_pid 65535 one_entry).0 ≤ 65535)
    × ((allocate_pid 65535 one_entry).0 ≢ 0
        → lookup (allocate_pid 65535 one_entry).0 one_entry ≡ none)
    × (((allocate_pid 65535 one_entry).0 ≡ 0)
        ↔ ((id : ℕ) → IsCounter id → lookup id one_entry ≢ none))
allocate_pid_fresh_example = allocate_pid_fresh 65535 one_entry (omega arith)

not_at_most_once : exactly_once ≢ at_most_once
not_at_most_once e = cc

build_outbound_packet_sends_example :
    let out = build_outbound_packet 16 sample_message 9 65535 one_entry in
    (pid : ℕ) × IsCounter pid
    × (lookup pid one_entry ≡ none)
    × (out.0 ≡ some (packet_of sample_message pid))
    × ((id : ℕ)
        → lookup id out.2
          ≡ (if pid == id then some (entry_of sample_message 9) else lookup id one_entry))
unfolding lookup
build_outbound_packet_sends_example =
    build_outbound_packet_sends 16 sample_message 9 65535 one_entry 3 (omega arith) not_at_most_once
      (omega arith) (omega arith) refl

build_outbound_packet_bounds_example :
    let out = build_outbound_packet 16 sample_message 9 65535 one_entry in
    (length out.2 ≤ 16) × IsMap out.2 × IsCounter out.1 × (out.0 ≡ none → out.2 ≡ one_entry)
unfolding lookup
build_outbound_packet_bounds_example =
    build_outbound_packet_bounds 16 sample_message 9 65535 one_entry (omega arith) (refl, tt)
      (omega arith)

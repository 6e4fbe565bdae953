-- ===== src/Broker/PacketId.antt =====
-- src/broker/mod.rs: `allocate_pid` and `build_outbound_packet`.
pub mod Fresh
pub mod Outbound
mod Examples
use lumen_mq.Prelude.{
  ℕ, zero, suc, ◌+◌, ◌%◌, Bool, true, false, not, ◌&&◌, Option, some, none, List, [], ◌∷◌, leb, eqb,
  length, if◌then◌else◌, nat_key,
}
use lumen_mq.Prelude.Assoc.{lookup, insert}
use lumen_mq.Codec.Packet.{QoS, Packet, is_qos0}
use lumen_mq.Broker.Message.{OutboundPublish, build_publish}
use lumen_mq.Broker.Qos.{InflightTable, new_inflight}

-- `next.wrapping_add(1)`, with zero passed over.
unfoldable pub next_pid_after : ℕ → ℕ
next_pid_after next = if eqb ((next + 1) % 65536) 0 then 1 else (next + 1) % 65536

abbrev pub is_free : ℕ → InflightTable → Bool
is_free p inflight = elim (lookup p inflight) [ none ↦ true | some _ ↦ false ]

-- The loop with the tries that are left; the identifier, or 0, and the new counter.
unfoldable pub allocate_from : ℕ → ℕ → InflightTable → ℕ × ℕ
unfolding next_pid_after
allocate_from zero next inflight = (0, next)
allocate_from (suc tries) next inflight =
    let more = allocate_from tries (next_pid_after next) inflight in
    if not (eqb next 0) && is_free next inflight then (next, next_pid_after next) else more

unfoldable pub allocate_pid : ℕ → InflightTable → ℕ × ℕ
allocate_pid next inflight = allocate_from 65535 next inflight

-- The packet, or none where the message is dropped; the counter; the table.
abbrev pub Outbound : Type 0
Outbound = Option Packet × ℕ × InflightTable

with_pid : OutboundPublish → InflightTable → ℕ → ℕ → ℕ → Outbound
with_pid req inflight now pid next = if eqb pid 0 then (none, next, inflight) else (
  some (build_publish req (some pid)),
  next,
  insert pid (new_inflight req.topic req.payload req.qos req.retain now) inflight,
)

unfoldable pub build_outbound_packet : ℕ → OutboundPublish → ℕ → ℕ → InflightTable → Outbound
unfolding with_pid allocate_pid new_inflight build_publish
build_outbound_packet max_inflight req now next inflight =
    if is_qos0 req.qos
    then (some (build_publish req none), next, inflight)
    else if leb max_inflight (length inflight)
    then (none, next, inflight)
    else let (pid, next') = allocate_pid next inflight in with_pid req inflight now pid next'

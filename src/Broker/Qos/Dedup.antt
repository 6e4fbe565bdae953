-- ===== src/Broker/Qos/Dedup.antt =====
-- src/broker/qos.rs: the identifiers that are held after a QoS 2 publication.
use lumen_mq.Prelude.{ℕ, ◌≡◌, true, arith, nat_key, eqb, if◌then◌else◌}
use lumen_mq.Prelude.Assoc.{lookup-insert}
use lumen_mq.Broker.Qos.{Seen, contains, on_publish}

pub contains-insert :
    (pid id : ℕ) (seen : Seen)
    → contains id (on_publish pid seen).0 ≡ (if eqb pid id then true else contains id seen)
unfolding on_publish
contains-insert pid id seen = ground (arith, lookup-insert pid id tt seen)

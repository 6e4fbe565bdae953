-- ===== src/Broker/Qos/Examples.antt =====
-- src/broker/qos.rs: the theorems at concrete tables, and runs.
use lumen_mq.Prelude.{◌≡◌, refl, false, none, [], ◌∷◌, arith, nat_key}
use lumen_mq.Prelude.Assoc.{lookup}
use lumen_mq.Codec.Packet.{exactly_once}
use lumen_mq.Broker.Qos.{InflightTable, OutboundInflight, wait_pubcomp, retry_expired}
use lumen_mq.Broker.Qos.Retry.{Scanned, retry_expired_entry, retry_all, retry_all_gives_up}

abbrev sample_entry : OutboundInflight
sample_entry = record {
  topic = b'a' ∷ [];
  payload = 1 ∷ [];
  qos = exactly_once;
  retain = false;
  stage = wait_pubcomp;
  last_sent_at = 100;
  retry_count = 0;
}

abbrev young_entry : OutboundInflight
young_entry = record sample_entry { last_sent_at = 109 }

abbrev two_entries : InflightTable
two_entries = (7, sample_entry) ∷ (8, young_entry) ∷ []

retry_expired_entry_example : Scanned 110 10 3 7 sample_entry (retry_expired 110 10 3 two_entries)
unfolding lookup
retry_expired_entry_example =
    retry_expired_entry 110 10 3 7 two_entries sample_entry (refl, (refl, tt)) refl

retry_all_gives_up_example : lookup 7 (retry_all 10 1 (110 ∷ 120 ∷ []) two_entries) ≡ none
unfolding lookup
retry_all_gives_up_example =
    retry_all_gives_up 10 1 7 (110 ∷ 120 ∷ []) two_entries sample_entry (refl, (refl, tt)) refl
      (omega arith) (omega arith) (omega arith)

-- ===== src/Broker/Qos/Retry.antt =====
-- src/broker/qos.rs: what a scan of `retry_expired` does to each entry, and that an entry which
-- nobody acknowledges is dropped in the end.
use lumen_mq.Prelude.{
  ◌-◌, ltb, ℕ, ◌+◌, ◌≤◌, ◌<◌, ◌≡◌, refl, ◌∙◌, ◌⊎◌, inl, inr, Bool, Bool-cases, leb→le, true, false,
  ◌||◌, Option, some, none, List, [], ◌∷◌, length, arith, nat_key, leb, eqb, eqb_iff,
}
use lumen_mq.Prelude.Assoc.{lookup, IsMap}
use lumen_mq.Codec.Packet.{Packet}
use lumen_mq.Broker.Qos.{
  AckStage, wait_first_ack, wait_pubcomp, packet_at, dup_at, build_packet, InflightTable,
  OutboundInflight, Visit, waits, failed, resent, visit, retry_expired, Retried,
}

-- What an entry becomes, what is sent for it, and whether it is given up.
abbrev pub entry_after : OutboundInflight → Visit → Option OutboundInflight
entry_after e waits = some e
entry_after e failed = none
entry_after e (resent e' pkt) = some e'

abbrev pub packet_of : Visit → Option Packet
packet_of (resent e' pkt) = some pkt
packet_of _ = none

abbrev pub gives_up : Visit → Bool
gives_up failed = true
gives_up _ = false

abbrev pub mem_id : ℕ → List ℕ → Bool
mem_id id [] = false
mem_id id (x ∷ xs) = eqb x id || mem_id id xs

-- The result of a scan, seen at one identifier.
abbrev pub SeenAt : ℕ → Retried → Option OutboundInflight → Option Packet → Bool → Type 0
SeenAt pid r entry packet up =
    (lookup pid r.table ≡ entry)
    × (lookup pid r.to_resend ≡ packet)
    × (mem_id pid r.failed_ids ≡ up)

retry_absent :
    (now timeout max_retries pid : ℕ) (table : InflightTable)
    → lookup pid table ≡ none
    → SeenAt pid (retry_expired now timeout max_retries table) none none false
unfolding retry_expired lookup
retry_absent now timeout mr pid [] h = (refl, refl, refl)
retry_absent now timeout mr pid ((j, e) ∷ rest) h =
    ground (arith, retry_absent now timeout mr pid rest)

abbrev SeenAs : ℕ → Retried → Option OutboundInflight → ℕ → ℕ → ℕ → Type 0
SeenAs pid r none now timeout mr = SeenAt pid r none none false
SeenAs pid r (some e) now timeout mr =
    let v = visit now timeout mr pid e in SeenAt pid r (entry_after e v) (packet_of v) (gives_up v)

retry_seen :
    (now timeout max_retries pid : ℕ) (table : InflightTable)
    → IsMap table
    → SeenAs pid
        (retry_expired now timeout max_retries table)
        (lookup pid table)
        now
        timeout
        max_retries
unfolding retry_expired lookup
retry_seen now timeout mr pid [] h = (refl, refl, refl)
retry_seen now timeout mr pid ((j, e) ∷ rest) h = ground (
  arith,
  eqb_iff j pid,
  retry_absent now timeout mr pid rest,
  retry_seen now timeout mr pid rest h.1,
)

pub retry_visited :
    (now timeout max_retries pid : ℕ) (table : InflightTable) (e : OutboundInflight)
    → IsMap table
    → lookup pid table ≡ some e
    → let r = retry_expired now timeout max_retries table in
      let v = visit now timeout max_retries pid e in
      (lookup pid r.table ≡ entry_after e v)
      × (lookup pid r.to_resend ≡ packet_of v)
      × (mem_id pid r.failed_ids ≡ gives_up v)
retry_visited now timeout mr pid table e u h = rw h at (retry_seen now timeout mr pid table u)

-- What is sent again: the PUBLISH, marked as a duplicate, as long as it is not acknowledged, and then
-- the PUBREL.
abbrev pub again : AckStage → OutboundInflight → ℕ → Packet
again wait_first_ack e pid = Packet.publish (record {
  dup = true;
  qos = e.qos;
  retain = e.retain;
  topic = e.topic;
  packet_id = some pid;
  payload = e.payload;
})
again wait_pubcomp e pid = Packet.pubrel pid

-- What a scan does to an entry, by its age and by the times that it has been sent again.
abbrev pub Scanned : ℕ → ℕ → ℕ → ℕ → OutboundInflight → Retried → Type 0
Scanned now timeout max_retries pid e r =
    ((now - e.last_sent_at < timeout) × SeenAt pid r (some e) none false)
    ⊎ (((timeout ≤ now - e.last_sent_at)
          × (max_retries ≤ e.retry_count)
          × SeenAt pid r none none true)
        ⊎ ((timeout ≤ now - e.last_sent_at)
            × (e.retry_count < max_retries)
            × SeenAt pid r (some (record e { retry_count = e.retry_count + 1; last_sent_at = now }))
                (some (again e.stage e pid)) false))

again_lem :
    (s : AckStage) (e : OutboundInflight) (pid : ℕ) → packet_at s e pid (dup_at s) ≡ again s e pid
unfolding packet_at
again_lem wait_first_ack e pid = refl
again_lem wait_pubcomp e pid = refl

-- A scan acts on each entry of the table by itself. One that was sent less than the timeout ago stays
-- as it is, and nothing is sent. An older one that has used up its retries is removed and reported, and
-- nothing is sent. Any other is sent again, at its stage, with its count raised and the time of the
-- scan, and is not reported.
pub retry_expired_entry :
    (now timeout max_retries pid : ℕ) (table : InflightTable) (e : OutboundInflight)
    → IsMap table
    → lookup pid table ≡ some e
    → Scanned now timeout max_retries pid e (retry_expired now timeout max_retries table)
unfolding visit build_packet
retry_expired_entry now timeout mr pid table e u h =
    let (there, sent, up) = retry_visited now timeout mr pid table e u h in
    elim (Bool-cases (ltb (now - e.last_sent_at) timeout)) [
      | inl young ↦ inl (
        ground (arith, young),
        (ground (arith, young, there), ground (arith, young, sent), ground (arith, young, up)),
      )
      | inr old ↦ elim (Bool-cases (leb mr e.retry_count)) [
        | inl used ↦ inr (
            inl (
              ground (arith, old),
              leb→le _ _ used,
              (
                ground (arith, old, used, there),
                ground (arith, old, used, sent),
                ground (arith, old, used, up),
              ),
            ))
        | inr left ↦ inr (
            inr (
              ground (arith, old),
              ground (arith, left),
              (
                ground (arith, old, left, there),
                ground (arith, old, left, sent, again_lem e.stage e pid),
                ground (arith, old, left, up),
              ),
            ))
      ]
    ]

pub retry-IsMap :
    (now timeout max_retries : ℕ) (table : InflightTable)
    → IsMap table
    → IsMap (retry_expired now timeout max_retries table).table
unfolding retry_expired
retry-IsMap now timeout mr [] u = tt
retry-IsMap now timeout mr ((j, e) ∷ rest) u =
    ground (arith, retry_absent now timeout mr j rest u.0, retry-IsMap now timeout mr rest u.1)

-- The scans of a connection, at the times given.
unfoldable pub retry_all : ℕ → ℕ → List ℕ → InflightTable → InflightTable
retry_all timeout max_retries [] table = table
retry_all timeout max_retries (now ∷ times) table =
    retry_all timeout max_retries times (retry_expired now timeout max_retries table).table

-- Each scan comes a timeout or more after the one before.
abbrev pub Spaced : ℕ → ℕ → List ℕ → Type 0
Spaced timeout last [] = Unit
Spaced timeout last (now ∷ times) = (last + timeout ≤ now) × Spaced timeout now times

retry_all_absent :
    (timeout max_retries pid : ℕ) (times : List ℕ) (table : InflightTable)
    → lookup pid table ≡ none
    → lookup pid (retry_all timeout max_retries times table) ≡ none
unfolding retry_all
retry_all_absent timeout mr pid [] table h = h
retry_all_absent timeout mr pid (now ∷ times) table h =
    retry_all_absent timeout mr pid times _ (retry_absent now timeout mr pid table h).0

-- An old entry is removed, or is there again with its count raised and the time of the scan.
old_entry :
    (now timeout max_retries pid : ℕ) (e : OutboundInflight)
    → e.last_sent_at + timeout ≤ now
    → (entry_after e (visit now timeout max_retries pid e) ≡ none) × (max_retries ≤ e.retry_count)
      ⊎ ((e' : OutboundInflight) × (entry_after e (visit now timeout max_retries pid e) ≡ some e')
          × (e'.last_sent_at ≡ now)
          × (e'.retry_count ≡ e.retry_count + 1)
          × (e.retry_count < max_retries))
unfolding visit
old_entry now timeout mr pid e old = elim (Bool-cases (leb mr e.retry_count)) [
  | inl used ↦ inl (ground arith, leb→le _ _ used)
  | inr left ↦ inr (
    record e { retry_count = e.retry_count + 1; last_sent_at = now },
    ground arith,
    refl,
    refl,
    ground arith,
  )
]

-- An entry that is not acknowledged is gone after as many spaced scans as it has retries left, and
-- one more.
pub retry_all_gives_up :
    (timeout max_retries pid : ℕ) (times : List ℕ) (table : InflightTable) (e : OutboundInflight)
    → IsMap table
    → lookup pid table ≡ some e
    → Spaced timeout e.last_sent_at times
    → e.retry_count ≤ max_retries
    → max_retries < e.retry_count + length times
    → lookup pid (retry_all timeout max_retries times table) ≡ none
unfolding retry_all
retry_all_gives_up timeout mr pid [] table e u h sp le more = absurd (omega arith)
retry_all_gives_up timeout mr pid (now ∷ times) table e u h sp le more =
    let (there, _, _) = retry_visited now timeout mr pid table e u h in
    elim (old_entry now timeout mr pid e sp.0) [
      | inl (gone, _) ↦ retry_all_absent timeout mr pid times _ (there ∙ gone)
      | inr (e', again, at', count, lt) ↦
          retry_all_gives_up timeout mr pid times _ e' (retry-IsMap now timeout mr table u)
            (there ∙ again) (rw at' sp.1) (omega (arith, count, lt)) (omega (arith, count, more))
    ]

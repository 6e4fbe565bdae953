-- ===== src/Broker/PacketId/Fresh.antt =====
-- src/broker/mod.rs: the identifiers that `allocate_pid` gives out.
use lumen_mq.Prelude.{
  ℕ, zero, suc, ◌+◌, ◌-◌, ◌%◌, ◌≤◌, ◌<◌, ◌≡◌, ◌≢◌, ◌↔◌, refl, none, arith, nat_key,
}
use native.Mathlib.Decide.{ℕ_discrete}
use lumen_mq.Prelude.Assoc.{lookup}
use lumen_mq.Broker.Qos.{InflightTable}
use lumen_mq.Broker.PacketId.{next_pid_after, allocate_from, allocate_pid}

-- A counter that `allocate_pid` keeps: a u16 that is not zero.
abbrev pub IsCounter : ℕ → Type 0
IsCounter n = (1 ≤ n) × (n ≤ 65535)

next-IsCounter : (n : ℕ) → IsCounter (next_pid_after n)
unfolding next_pid_after
next-IsCounter n = ground arith

abbrev FreshFor : InflightTable → ℕ × ℕ → Type 0
FreshFor inflight (pid, next') =
    IsCounter next' × (pid ≤ 65535) × (pid ≢ 0 → lookup pid inflight ≡ none)

allocate_from-FreshFor :
    (tries next : ℕ) (inflight : InflightTable)
    → IsCounter next
    → FreshFor inflight (allocate_from tries next inflight)
unfolding allocate_from
allocate_from-FreshFor zero next inflight h = ground arith
allocate_from-FreshFor (suc tries) next inflight h = ground (
  arith,
  next-IsCounter next,
  allocate_from-FreshFor tries (next_pid_after next) inflight (next-IsCounter next),
)

-- The identifier that the loop tries in round i.
abbrev round : ℕ → ℕ → ℕ
round next i = (next - 1 + i) % 65535 + 1

round-next : (next i : ℕ) → IsCounter next → round (next_pid_after next) i ≡ round next (suc i)
unfolding next_pid_after
round-next next i h = ground arith

-- Where the loop fails, the identifier of its first round is in use and the rest of it fails.
failed_round :
    (tries next : ℕ) (inflight : InflightTable)
    → IsCounter next
    → (allocate_from (suc tries) next inflight).0 ≡ 0
    → (lookup next inflight ≢ none) × ((allocate_from tries (next_pid_after next) inflight).0 ≡ 0)
unfolding allocate_from
failed_round tries next inflight h e = ground arith

allocate_from_full :
    (tries next : ℕ) (inflight : InflightTable)
    → IsCounter next
    → (allocate_from tries next inflight).0 ≡ 0
    → (i : ℕ) → i < tries
    → lookup (round next i) inflight ≢ none
allocate_from_full zero next inflight h e i lt = absurd (omega arith)
allocate_from_full (suc tries) next inflight h e zero lt =
    let first : round next 0 ≡ next = omega arith in
    rw first (failed_round tries next inflight h e).0
allocate_from_full (suc tries) next inflight h e (suc i) lt = rw (← round-next next i h) (
    allocate_from_full tries (next_pid_after next) inflight (next-IsCounter next)
      (failed_round tries next inflight h e).1 i (omega arith))

round_hits :
    (next id : ℕ) → IsCounter next → IsCounter id → round next ((id + 65535 - next) % 65535) ≡ id
round_hits next id h k = omega arith

allocate_from-eq-zero :
    (tries next : ℕ) (inflight : InflightTable)
    → tries ≡ 65535
    → IsCounter next
    → ((allocate_from tries next inflight).0 ≡ 0)
      ↔ ((id : ℕ) → IsCounter id → lookup id inflight ≢ none)
allocate_from-eq-zero tries next inflight t h = (full, empty)
  where
    full :
        (allocate_from tries next inflight).0 ≡ 0
        → (id : ℕ) → IsCounter id
        → lookup id inflight ≢ none
    full e id k =
        rw (round_hits next id h k) at
          (allocate_from_full tries next inflight h e ((id + 65535 - next) % 65535) (omega arith))

    empty :
        ((id : ℕ) → IsCounter id → lookup id inflight ≢ none)
        → (allocate_from tries next inflight).0 ≡ 0
    empty all =
        let (c, le, f) = allocate_from-FreshFor tries next inflight h in
        elim (ℕ_discrete (allocate_from tries next inflight).0 0) [
          | yes z ↦ z
          | no nz ↦ absurd (all _ (omega arith, le) (f nz))
        ]

-- The identifier is a u16 that no entry uses, and 0 is returned exactly where each of the 65535
-- identifiers is in use. The counter stays a u16 that is not zero.
pub allocate_pid_fresh :
    (next : ℕ) (inflight : InflightTable)
    → IsCounter next
    → IsCounter (allocate_pid next inflight).1
      × ((allocate_pid next inflight).0 ≤ 65535)
      × ((allocate_pid next inflight).0 ≢ 0 → lookup (allocate_pid next inflight).0 inflight ≡ none)
      × (((allocate_pid next inflight).0 ≡ 0)
          ↔ ((id : ℕ) → IsCounter id → lookup id inflight ≢ none))
unfolding allocate_pid
allocate_pid_fresh next inflight h =
    let (c, le, f) = allocate_from-FreshFor 65535 next inflight h in
    (c, le, f, allocate_from-eq-zero 65535 next inflight refl h)

-- ===== src/Telemetry/Ring/Attempts.antt =====
-- Every write attempt: when it is dropped, why, and what it leaves in each case.
use sakamoto_snort.Common.{
  ℕ, ◌+◌, ◌*◌, ◌%◌, ◌^◌, ◌≤◌, ◌<◌, ◌≡◌, ◌≢◌, refl, ◌⊎◌, inl, inr, true, false, List, some, ltb,
  ◌==◌, ==_iff, Bool-cases, length, arith,
}
use sakamoto_snort.Telemetry.Abi.{Buffer, RecordType, read8, read_u32_le}
use sakamoto_snort.Telemetry.Ring.{
  Ring, WriteResult, DropReason, no_drop, slot_busy, record_too_large, dropped, slot_for_ticket,
  take_ticket, try_write,
}
use sakamoto_snort.Telemetry.Ring.Filled.{IsPublished}
use sakamoto_snort.Telemetry.Ring.Written.{
  IsRing, slot_for_ticket-within, write_slot-large, write_slot-busy, running, written,
  try_write-publishes,
}

-- The state of the slot that the next ticket is for.
abbrev pub NextState : Ring → ℕ → Type 0
NextState r v = read_u32_le (slot_for_ticket r.cfg r.write_ticket + 0) r.storage ≡ some v

-- The record is too large for a slot; or it is not, and its slot is being written to.
abbrev pub IsDrop : Ring → List ℕ → DropReason → Type 0
IsDrop r payload reason =
    ((reason ≡ record_too_large) × (r.cfg.slot_bytes < 24 + length payload))
    ⊎ ((reason ≡ slot_busy)
        × (24 + length payload ≤ r.cfg.slot_bytes)
        × ((v : ℕ) × NextState r v × (v ≢ 0) × (v ≢ 2)))

abbrev pub IsWrite : RecordType → List ℕ → Ring → WriteResult × Ring → Type 0
IsWrite type payload r (result, r') =
    (24 + length payload ≤ r.cfg.slot_bytes)
    × ((v : ℕ) × NextState r v × ((v ≡ 0) ⊎ (v ≡ 2)))
    × (result.wrote ≡ true)
    × (result.drop_reason ≡ no_drop)
    × IsPublished (slot_for_ticket r.cfg r.write_ticket) type payload r.write_ticket r'.storage

-- A ticket is taken in any case, and no byte changes of a ring whose attempt is dropped.
abbrev pub IsAttempt : RecordType → List ℕ → Ring → WriteResult × Ring → Type 0
IsAttempt type payload r (result, r') =
    (result.ticket ≡ r.write_ticket)
    × (r'.write_ticket ≡ (r.write_ticket + 1) % 2 ^ 64)
    × (r'.cfg ≡ r.cfg)
    × IsRing r'
    × (IsWrite type payload r (result, r')
        ⊎ ((result.wrote ≡ false) × IsDrop r payload result.drop_reason × (r'.storage ≡ r.storage)))

read_u32_le-within :
    (off : ℕ) (b : Buffer) → off + 4 ≤ b.size → (v : ℕ) × (read_u32_le off b ≡ some v)
unfolding read_u32_le read8
read_u32_le-within off b h = (
  b.at (off + 0) + b.at (off + 1) * 256 + b.at (off + 2) * 65536 + b.at (off + 3) * 16777216,
  ground arith,
)

module _ (type : RecordType) (payload : List ℕ) (r : Ring) where
  -- A state is empty or committed, or neither.
  state_cases : (v : ℕ) → ((v ≡ 0) ⊎ (v ≡ 2)) ⊎ ((v ≢ 0) × (v ≢ 2))
  state_cases v = elim (Bool-cases (v == 0)) [
    | inl e ↦ inl (inl ((==_iff v 0).0 e))
    | inr n ↦ elim (Bool-cases (v == 2)) [
      | inl e ↦ inl (inr ((==_iff v 2).0 e))
      | inr m ↦ inr (λ e. ground arith, λ e. ground arith)
    ]
  ]

  drop-IsAttempt :
      (reason : DropReason)
      → IsRing r
      → try_write type payload r ≡ some (dropped reason r.write_ticket, take_ticket r)
      → IsDrop r payload reason
      → (o : WriteResult × Ring) × (try_write type payload r ≡ some o) × IsAttempt type payload r o
  drop-IsAttempt reason (on, c, spans, lt) runs why = (
    (dropped reason r.write_ticket, take_ticket r),
    runs,
    (refl, refl, refl, (on, c, spans, omega arith), inr (refl, why, refl)),
  )

  -- Every attempt on an initialised ring returns and takes a ticket. It is dropped exactly when the record
  -- is larger than a slot takes, or its slot is neither empty nor committed; then no byte of the ring
  -- changes, and the reason says which. Otherwise the record is published in the slot of the ticket.
  pub try_write-IsAttempt :
      IsRing r
      → (o : WriteResult × Ring) × (try_write type payload r ≡ some o) × IsAttempt type payload r o
  unfolding try_write
  try_write-IsAttempt ring =
      let (on, (count, header, small), spans, lt) = ring in
      let within = slot_for_ticket-within r.cfg r.write_ticket (count, header, small) in
      elim (Bool-cases (ltb r.cfg.slot_bytes (24 + length payload))) [
        | inl large ↦
            drop-IsAttempt record_too_large ring
              (running r.inited _ r _ _ _ on
                (write_slot-large r.cfg type payload r.write_ticket r.storage (ground arith)))
              (inl (refl, ground arith))
        | inr small_enough ↦
            let fits : 24 + length payload ≤ r.cfg.slot_bytes = ground arith in
            let (v, seen) =
              read_u32_le-within (slot_for_ticket r.cfg r.write_ticket + 0) r.storage
                (omega arith) in
            elim (state_cases v) [
              | inr (ne0, ne2) ↦
                  drop-IsAttempt slot_busy ring
                    (running r.inited _ r _ _ _ on (
                      write_slot-busy r.cfg type payload r.write_ticket r.storage v (omega arith)
                        seen ne0 ne2))
                    (inr (refl, fits, (v, seen, ne0, ne2)))
              | inl free ↦
                  let (b, runs, is_published, outside, ring') =
                    try_write-publishes type payload r v ring (omega arith) seen free in
                  (
                    (written r.write_ticket, record (take_ticket r) { storage = b }),
                    runs,
                    (
                      refl,
                      refl,
                      refl,
                      ring',
                      inl (fits, (v, seen, free), refl, refl, is_published),
                    ),
                  )
            ]
      ]

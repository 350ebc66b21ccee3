-- ===== src/Telemetry/Ring.antt =====
-- src/FlowTelemetryRing.hpp and .cpp: the ring of slots over a span of bytes. An operation returns
-- `none` on an access past the span. The atomic operations of `tryWrite` are functions of their own,
-- which `try_write` runs in a row. A state is a `uint32_t` of a
-- little-endian platform, which the ABI asserts.
pub mod Slot
pub mod Filled
pub mod Written
pub mod Attempts
pub mod Started
pub mod Steps
pub mod Exclusive
mod Kept
pub mod Concurrent
use sakamoto_snort.Common.{
  ℕ, zero, suc, ◌+◌, ◌-◌, ◌*◌, ◌%◌, ◌^◌, Bool, true, false, not, ◌||◌, List, Option, none, some,
  ltb, ◌==◌, if◌then◌else◌, length,
}
use sakamoto_snort.Telemetry.Abi.{
  Buffer, Writer, ◌>>◌, RecordType, record_type_code, write_u16_le, write_u32_le, write_u64_le,
  write_bytes, read_u32_le, slot_header_bytes, slot_offset_state, slot_offset_record_type,
  slot_offset_ticket, slot_offset_payload_size, state_empty, state_writing, state_committed,
}

pub record Config : Type 0 where
  pub slot_bytes : ℕ
  pub slot_count : ℕ

pub data DropReason : Type 0 where
  no_drop consumer_absent slot_busy record_too_large disabled resource_pressure : DropReason

pub record WriteResult : Type 0 where
  pub wrote : Bool
  pub drop_reason : DropReason
  pub ticket : ℕ

pub record Ring : Type 0 where
  pub cfg : Config
  pub storage : Buffer
  pub write_ticket : ℕ
  pub inited : Bool

-- The loop of `init`, from slot `i` on.
unfoldable pub clear_states : ℕ → ℕ → ℕ → Writer
clear_states zero i slot_bytes = λ b. some b
clear_states (suc n) i slot_bytes = do
  write_u32_le (i * slot_bytes + slot_offset_state) state_empty
  clear_states n (i + 1) slot_bytes

unfoldable pub init : Buffer → Config → Ring → Option (Bool × Ring)
init storage cfg r =
    let need = cfg.slot_bytes * cfg.slot_count in
    if cfg.slot_bytes == 0 || cfg.slot_count == 0
    then some (false, r)
    else if ltb cfg.slot_bytes slot_header_bytes
    then some (false, r)
    else if ltb storage.size need
    then some (false, r)
    else elim (clear_states cfg.slot_count 0 cfg.slot_bytes
        (record { size = need; at = storage.at })) [
          | none ↦ none
          | some b ↦ some (true, record { cfg = cfg; storage = b; write_ticket = 0; inited = true })
        ]

abbrev pub max_payload : Config → ℕ
max_payload cfg = cfg.slot_bytes - slot_header_bytes

-- `slotForTicket`
unfoldable pub slot_for_ticket : Config → ℕ → ℕ
slot_for_ticket cfg ticket = (ticket % cfg.slot_count) * cfg.slot_bytes

-- `compare_exchange_strong`: the value seen, which is the expected one when it was exchanged.
unfoldable pub compare_exchange : ℕ → ℕ → ℕ → Buffer → Option (ℕ × Buffer)
compare_exchange off expected desired b = elim (read_u32_le off b) [
  | none ↦ none
  | some seen ↦
      if seen == expected
      then elim (write_u32_le off desired b) [ none ↦ none | some b' ↦ some (seen, b') ]
      else some (seen, b)
]

-- The two attempts at the transition to `Writing`.
unfoldable pub claim_slot : ℕ → Buffer → Option (Bool × Buffer)
claim_slot slot b = elim (compare_exchange (slot + slot_offset_state) state_empty state_writing b) [
  | none ↦ none
  | some (seen, b1) ↦
      if seen == state_empty
      then some (true, b1)
      else if seen == state_committed
      then elim (compare_exchange (slot + slot_offset_state) state_committed state_writing b1) [
        | none ↦ none
        | some (again, b2) ↦ some (again == state_committed, b2)
      ]
      else some (false, b1)
]

-- The header and the payload of a claimed slot.
unfoldable pub fill_slot : ℕ → RecordType → List ℕ → ℕ → Writer
fill_slot slot type payload ticket = do
  write_u16_le (slot + slot_offset_record_type) (record_type_code type)
  write_u64_le (slot + slot_offset_ticket) ticket
  write_u32_le (slot + slot_offset_payload_size) (length payload % 2 ^ 32)
  write_bytes (slot + slot_header_bytes) payload

unfoldable pub commit_slot : ℕ → Writer
commit_slot slot = write_u32_le (slot + slot_offset_state) state_committed

abbrev pub dropped : DropReason → ℕ → WriteResult
dropped reason ticket = record { wrote = false; drop_reason = reason; ticket = ticket }

-- `_writeTicket.fetch_add(1)`
abbrev pub take_ticket : Ring → Ring
take_ticket r = record r { write_ticket = (r.write_ticket + 1) % 2 ^ 64 }

-- What follows a ticket.
unfoldable pub write_slot :
    Config → RecordType → List ℕ → ℕ → Buffer → Option (WriteResult × Buffer)
write_slot cfg type payload ticket b =
    let slot = slot_for_ticket cfg ticket in
    let publish : Writer = do fill_slot slot type payload ticket; commit_slot slot
    in if ltb (max_payload cfg) (length payload)
      then some (dropped record_too_large ticket, b)
      else elim (claim_slot slot b) [
        | none ↦ none
        | some (claimed, b1) ↦
            if not claimed then some (dropped slot_busy ticket, b1) else elim (publish b1) [
              | none ↦ none
              | some b2 ↦ some (record { wrote = true; drop_reason = no_drop; ticket = ticket }, b2)
            ]
      ]

unfoldable pub try_write : RecordType → List ℕ → Ring → Option (WriteResult × Ring)
try_write type payload r =
    if not r.inited
    then some (dropped disabled 0, r)
    else elim (write_slot r.cfg type payload r.write_ticket r.storage) [
      | none ↦ none
      | some (result, b) ↦ some (result, record (take_ticket r) { storage = b })
    ]

-- `slotBytesForTicket`
unfoldable pub slot_bytes_for_ticket : ℕ → Ring → ℕ × ℕ
slot_bytes_for_ticket ticket r = (slot_for_ticket r.cfg ticket, r.cfg.slot_bytes)

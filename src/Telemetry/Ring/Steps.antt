-- ===== src/Telemetry/Ring/Steps.antt =====
-- Producers that write to the ring at once: `tryWrite` of src/FlowTelemetryRing.cpp, one atomic operation
-- on the slot's state at a time. A producer wins the exchange with `Writing`, fills the slot,
-- and commits it; an attempt that fails leaves the ring as it is. Each may hold any ticket.
use sakamoto_snort.Common.{ℕ, ◌+◌, ◌^◌, ◌≤◌, ◌<◌, ◌≡◌, ◌⊎◌, List, some, length, ◌==◌, if◌then◌else◌}
use sakamoto_snort.Telemetry.Abi.{Buffer, RecordType}
use sakamoto_snort.Telemetry.Ring.{
  Config, max_payload, slot_for_ticket, compare_exchange, fill_slot, commit_slot,
}

-- A write that a producer is at.
pub record Job : Type 0 where
  pub type : RecordType
  pub payload : List ℕ
  pub ticket : ℕ

pub data Stage : Type 0 where
  idle : Stage
  claimed : Job → Stage
  stored : Job → Stage

pub record World : Type 0 where
  pub storage : Buffer
  pub stage : ℕ → Stage

abbrev pub update : (ℕ → Stage) → ℕ → Stage → ℕ → Stage
update f i s j = if i == j then s else f j

abbrev pub slot_of : Config → Job → ℕ
slot_of cfg job = slot_for_ticket cfg job.ticket

-- An operation of the producer `i`.
pub data Step (cfg : Config) : World → World → Type 0 where
  claims :
      (w : World) (i : ℕ) (job : Job) (v : ℕ) (b : Buffer)
      → w.stage i ≡ idle
      → length job.payload ≤ max_payload cfg
      → job.ticket < 2 ^ 64
      → (v ≡ 0) ⊎ (v ≡ 2)
      → compare_exchange (slot_of cfg job + 0) v 1 w.storage ≡ some (v, b)
      → Step cfg w (record { storage = b; stage = update w.stage i (claimed job) })
  fills :
      (w : World) (i : ℕ) (job : Job) (b : Buffer)
      → w.stage i ≡ claimed job
      → fill_slot (slot_of cfg job) job.type job.payload job.ticket w.storage ≡ some b
      → Step cfg w (record { storage = b; stage = update w.stage i (stored job) })
  commits :
      (w : World) (i : ℕ) (job : Job) (b : Buffer)
      → w.stage i ≡ stored job
      → commit_slot (slot_of cfg job) w.storage ≡ some b
      → Step cfg w (record { storage = b; stage = update w.stage i idle })

pub data Reach (cfg : Config) (b : Buffer) : World → Type 0 where
  starts : Reach cfg b (record { storage = b; stage = λ i. idle })
  later : {w w' : World} → Reach cfg b w → Step cfg w w' → Reach cfg b w'

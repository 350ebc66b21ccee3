-- ===== src/Tests/Producers.antt =====
-- Two producers at a ring of two slots of 32 bytes: both have claimed, the first has stored.
use sakamoto_snort.Common.{ℕ, ◌≡◌, refl, inl, [], ◌∷◌, some, arith}
use sakamoto_snort.Telemetry.Abi.{Buffer, flow, dns_decision, read_u32_le}
use sakamoto_snort.Telemetry.Memory.{overlaid, le32, overlay}
use sakamoto_snort.Telemetry.Ring.{Config, commit_slot, slot_for_ticket}
use sakamoto_snort.Telemetry.Ring.Slot.{compare_exchange-same}
use sakamoto_snort.Telemetry.Ring.Filled.{filled, fill_slot-in, IsPublished}
use sakamoto_snort.Telemetry.Ring.Steps.{
  Job, Stage, idle, claimed, stored, update, slot_of, claims, fills, Reach, starts, later,
}
use sakamoto_snort.Telemetry.Ring.Exclusive.{job_of}
use sakamoto_snort.Telemetry.Ring.Concurrent.{Reach-publishes}

abbrev small : Config
small = record { slot_bytes = 32; slot_count = 2 }

abbrev first : Job
first = record { type = flow; payload = 5 ∷ 6 ∷ []; ticket = 3 }

abbrev second : Job
second = record { type = dns_decision; payload = 7 ∷ []; ticket = 2 }

abbrev b0 : Buffer
b0 = record { size = 64; at = λ i. 0 }

abbrev b1 : Buffer
b1 = overlaid 32 (le32 1) b0

abbrev b2 : Buffer
b2 = overlaid 0 (le32 1) b1

abbrev b3 : Buffer
b3 = filled 32 flow (5 ∷ 6 ∷ []) 3 b2

abbrev f0 : ℕ → Stage
f0 i = idle

abbrev f1 : ℕ → Stage
f1 = update f0 0 (claimed first)

abbrev f2 : ℕ → Stage
f2 = update f1 1 (claimed second)

abbrev f3 : ℕ → Stage
f3 = update f2 0 (stored first)

reached : Reach small b0 (record { storage = b3; stage = f3 })
unfolding slot_for_ticket read_u32_le overlay
reached =
    later
      (later
        (later starts (
          claims (record { storage = b0; stage = f0 }) 0 first 0 b1 refl (omega arith) (omega arith)
            (inl refl) (compare_exchange-same 32 0 1 b0 (omega arith) refl)))
        (claims (record { storage = b1; stage = f1 }) 1 second 0 b2 refl (omega arith) (omega arith)
          (inl refl) (compare_exchange-same 0 0 1 b1 (omega arith) refl)))
      (fills (record { storage = b2; stage = f2 }) 0 first b3 refl
        (fill_slot-in 32 flow (5 ∷ 6 ∷ []) 3 b2 (omega arith)))

Reach-publishes_example :
    ((i j : ℕ) (job job' : Job)
      → job_of (f3 i) ≡ some job
      → job_of (f3 j) ≡ some job'
      → slot_of small job ≡ slot_of small job'
      → i ≡ j)
    × ((i : ℕ) (job : Job)
        → f3 i ≡ stored job
        → (b : Buffer) × (commit_slot (slot_of small job) b3 ≡ some b)
          × IsPublished (slot_of small job) job.type job.payload job.ticket b)
Reach-publishes_example =
    Reach-publishes small b0 (record { storage = b3; stage = f3 })
      (omega arith, omega arith, omega arith) refl reached

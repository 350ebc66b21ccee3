-- ===== src/Telemetry/Ring/Concurrent.antt =====
-- What producers that write at once may rely on.
use sakamoto_snort.Common.{ℕ, ◌+◌, ◌≡◌, subst, some, arith}
use sakamoto_snort.Telemetry.Abi.{Buffer}
use sakamoto_snort.Telemetry.Memory.{overlaid, le32, write_u32_le-in}
use sakamoto_snort.Telemetry.Ring.{Config, commit_slot}
use sakamoto_snort.Telemetry.Ring.Filled.{IsPublished, committed-IsPublished}
use sakamoto_snort.Telemetry.Ring.Written.{IsConfig, Spans, slot_for_ticket-within}
use sakamoto_snort.Telemetry.Ring.Steps.{Job, stored, World, slot_of, Reach}
use sakamoto_snort.Telemetry.Ring.Exclusive.{job_of, Owns, IsExclusive}
use sakamoto_snort.Telemetry.Ring.Kept.{Reach-IsExclusive}

commit-publishes :
    (cfg : Config) (w : World) (i : ℕ) (job : Job)
    → IsConfig cfg
    → IsExclusive cfg w
    → w.stage i ≡ stored job
    → (b : Buffer) × (commit_slot (slot_of cfg job) w.storage ≡ some b)
      × IsPublished (slot_of cfg job) job.type job.payload job.ticket b
unfolding commit_slot
commit-publishes cfg w i job c inv at_stage =
    let (count, header, small) = c in
    let within = slot_for_ticket-within cfg job.ticket c in
    let spans = inv.spans in
    let own : Owns cfg (stored job) w.storage.at =
      subst (λ s. Owns cfg s w.storage.at) at_stage (inv.owned i) in
    let ((fits, lt), mark, kept) = own in
    (
      overlaid (slot_of cfg job + 0) (le32 2) w.storage,
      write_u32_le-in (slot_of cfg job + 0) 2 w.storage (omega arith),
      committed-IsPublished (slot_of cfg job) job.type job.payload job.ticket w.storage
          (omega arith) lt (omega arith) kept,
    )

-- However the operations of any number of producers interleave, over a span of the ring's size and
-- whatever their tickets, also equal ones: no two of them are at the same slot, and where one has
-- stored its record, its commit succeeds and publishes the state, type, ticket, size and payload of
-- that record, none of them mixed with another's.
pub Reach-publishes :
    (cfg : Config) (start : Buffer) (w : World)
    → IsConfig cfg
    → Spans cfg start
    → Reach cfg start w
    → ((i j : ℕ) (job job' : Job)
        → job_of (w.stage i) ≡ some job
        → job_of (w.stage j) ≡ some job'
        → slot_of cfg job ≡ slot_of cfg job'
        → i ≡ j)
      × ((i : ℕ) (job : Job)
          → w.stage i ≡ stored job
          → (b : Buffer) × (commit_slot (slot_of cfg job) w.storage ≡ some b)
            × IsPublished (slot_of cfg job) job.type job.payload job.ticket b)
Reach-publishes cfg start w c spans r =
    let inv = Reach-IsExclusive cfg c spans r in
    (inv.apart, λ i job e. commit-publishes cfg w i job c inv e)

-- ===== src/Telemetry/Ring/Kept.antt =====
-- Every step of the producers keeps the slots exclusive, so every interleaving does.
use sakamoto_snort.Common.{
  ℕ, ◌+◌, ◌≤◌, ◌<◌, ◌≡◌, ◌≢◌, refl, sym, ap, ◌∙◌, subst, ◌⊎◌, inl, inr, Option, some, length, ◌==◌,
  Bool-cases, arith, ==_iff, Option-cases,
}
use sakamoto_snort.Telemetry.Abi.{Buffer, read_u32_le}
use sakamoto_snort.Telemetry.Memory.{
  overlaid, Holds, le32, overlay-Holds, overlay-within, write_u32_le-in,
}
use sakamoto_snort.Telemetry.Words.{read_u32_le-Holds}
use sakamoto_snort.Telemetry.Ring.{Config, compare_exchange, fill_slot, commit_slot}
use sakamoto_snort.Telemetry.Ring.Slot.{
  compare_exchange-same, compare_exchange-other, compare_exchange-fault,
}
use sakamoto_snort.Telemetry.Ring.Filled.{filled, fill_slot-in, filled-IsStored, filled-outside}
use sakamoto_snort.Telemetry.Ring.Written.{IsConfig, Spans, slot_for_ticket-within}
use sakamoto_snort.Telemetry.Ring.Steps.{
  Job, Stage, idle, claimed, stored, World, update, slot_of, Step, claims, fills, commits, Reach,
  starts, later,
}
use sakamoto_snort.Telemetry.Ring.Exclusive.{
  job_of, Holds-same, IsJob, Owns, IsExclusive, step_within,
}

job_inv : (job k : Job) → ◌≡◌ {A = Option Job} (some job) (some k) → job ≡ k
job_inv job k e = cc

-- An exchange with `Writing` that succeeds read the expected state.
exchanged :
    (off v : ℕ) (b b' : Buffer)
    → off + 4 ≤ b.size
    → compare_exchange off v 1 b ≡ some (v, b')
    → (read_u32_le off b ≡ some v) × (b' ≡ overlaid off (le32 1) b)
exchanged off v b b' h e = elim (Option-cases (read_u32_le off b)) [
  | inl no_read ↦
      let fault = compare_exchange-fault off v 1 b no_read in absurd (cc (sym fault ∙ e))
  | inr (s, read) ↦ elim (Bool-cases (s == v)) [
    | inl same ↦
        let r : read_u32_le off b ≡ some v = read ∙ ap some ((==_iff s v).0 same) in
        let run = compare_exchange-same off v 1 b h r in (r, cc (sym run ∙ e))
    | inr other ↦
        let differ : s ≢ v = λ q. ground arith in
        let run = compare_exchange-other off s v 1 b differ read in
        let same : s ≡ v = cc (sym run ∙ e) in absurd (differ same)
  ]
]

module _ (cfg : Config) (c : IsConfig cfg) where
  -- The first bytes of a held slot are not read as empty or committed.
  held :
      (w : World) (j : ℕ) (k : Job)
      → IsExclusive cfg w
      → job_of (w.stage j) ≡ some k
      → read_u32_le (slot_of cfg k + 0) w.storage ≡ some 1
  held w j k inv e =
      let (count, header, small) = c in
      let within = slot_for_ticket-within cfg k.ticket c in
      let spans = inv.spans in
      read_u32_le-Holds (slot_of cfg k + 0) 1 w.storage (omega arith) (omega arith)
        (mark (w.stage j) e (inv.owned j))
    where
      mark :
          (s : Stage)
          → job_of s ≡ some k
          → Owns cfg s w.storage.at
          → Holds (slot_of cfg k + 0) (le32 1) w.storage.at
      mark idle e o = cc
      mark (claimed job) e (fits, m) =
          subst (λ x. Holds (slot_of cfg x + 0) (le32 1) w.storage.at) (job_inv job k e) m
      mark (stored job) e (fits, m, kept) =
          subst (λ x. Holds (slot_of cfg x + 0) (le32 1) w.storage.at) (job_inv job k e) m

  same_job :
      (job k : Job) → ◌≡◌ {A = Option Job} (some job) (some k) → slot_of cfg k ≡ slot_of cfg job
  same_job job k q = ap (slot_of cfg) (sym (job_inv job k q))

  -- No other producer holds the slot of a job that `i` holds.
  others_apart :
      (w : World) (i : ℕ) (job : Job)
      → IsExclusive cfg w
      → job_of (w.stage i) ≡ some job
      → (j : ℕ) (k : Job) → j ≢ i
      → job_of (w.stage j) ≡ some k
      → slot_of cfg k ≢ slot_of cfg job
  others_apart w i job inv p j k ne q e = ne (inv.apart j i k job q p e)

  claims-IsExclusive :
      (w : World) (i : ℕ) (job : Job) (v : ℕ) (b : Buffer)
      → IsExclusive cfg w
      → IsJob cfg job
      → (v ≡ 0) ⊎ (v ≡ 2)
      → compare_exchange (slot_of cfg job + 0) v 1 w.storage ≡ some (v, b)
      → IsExclusive cfg (record { storage = b; stage = update w.stage i (claimed job) })
  claims-IsExclusive w i job v b inv fits free e =
      let (count, header, small) = c in
      let within = slot_for_ticket-within cfg job.ticket c in
      let spans = inv.spans in
      let (read, wrote) = exchanged (slot_of cfg job + 0) v w.storage b (omega arith) e in
      let b' = overlaid (slot_of cfg job + 0) (le32 1) w.storage in
      subst (λ x. IsExclusive cfg (record { storage = x; stage = update w.stage i (claimed job) }))
        (sym wrote)
        (step_within cfg c w i job (claimed job) b' inv refl
          (λ j k ne q s.
            let one = held w j k inv q in
            let seen = subst (λ n. read_u32_le (n + 0) w.storage ≡ some 1) s one in
            let eq : v ≡ 1 = cc (sym read ∙ seen) in
            absurd (elim free [ inl z ↦ ground arith | inr z ↦ ground arith ]))
          (λ k q. same_job job k q)
          (λ x o.
            overlay-within (slot_of cfg job) (slot_of cfg job + cfg.slot_bytes)
              (slot_of cfg job + 0) (le32 1) w.storage.at x o (omega arith) (omega arith))
          (fits, overlay-Holds (slot_of cfg job + 0) (le32 1) w.storage.at))

  fills-IsExclusive :
      (w : World) (i : ℕ) (job : Job) (b : Buffer)
      → IsExclusive cfg w
      → w.stage i ≡ claimed job
      → fill_slot (slot_of cfg job) job.type job.payload job.ticket w.storage ≡ some b
      → IsExclusive cfg (record { storage = b; stage = update w.stage i (stored job) })
  fills-IsExclusive w i job b inv at_stage e =
      let (count, header, small) = c in
      let within = slot_for_ticket-within cfg job.ticket c in
      let spans = inv.spans in
      let own : Owns cfg (claimed job) w.storage.at =
        subst (λ s. Owns cfg s w.storage.at) at_stage (inv.owned i) in
      let (fits, mark) = own in
      let b' = filled (slot_of cfg job) job.type job.payload job.ticket w.storage in
      let run =
        fill_slot-in (slot_of cfg job) job.type job.payload job.ticket w.storage (omega arith) in
      let wrote : b ≡ b' = cc (sym e ∙ run) in
      let kept =
        λ (x : ℕ) (o : (x < slot_of cfg job + 4) ⊎ (slot_of cfg job + 24 + length job.payload ≤ x)).
          filled-outside (slot_of cfg job) job.type job.payload job.ticket w.storage x o in
      subst (λ x. IsExclusive cfg (record { storage = x; stage = update w.stage i (stored job) }))
        (sym wrote)
        (step_within cfg c w i job (stored job) b' inv refl
          (others_apart w i job inv (ap job_of at_stage)) (λ k q. same_job job k q)
          (λ x o. kept x (omega arith))
          (
            fits,
            Holds-same (slot_of cfg job + 0) (le32 1) w.storage.at b'.at
                (λ x lo hi. kept x (inl (omega arith))) mark,
            filled-IsStored (slot_of cfg job) job.type job.payload job.ticket w.storage,
          ))

  commits-IsExclusive :
      (w : World) (i : ℕ) (job : Job) (b : Buffer)
      → IsExclusive cfg w
      → w.stage i ≡ stored job
      → commit_slot (slot_of cfg job) w.storage ≡ some b
      → IsExclusive cfg (record { storage = b; stage = update w.stage i idle })
  unfolding commit_slot
  commits-IsExclusive w i job b inv at_stage e =
      let (count, header, small) = c in
      let within = slot_for_ticket-within cfg job.ticket c in
      let spans = inv.spans in
      let b' = overlaid (slot_of cfg job + 0) (le32 2) w.storage in
      let run = write_u32_le-in (slot_of cfg job + 0) 2 w.storage (omega arith) in
      let wrote : b ≡ b' = cc (sym e ∙ run) in
      subst (λ x. IsExclusive cfg (record { storage = x; stage = update w.stage i idle }))
        (sym wrote)
        (step_within cfg c w i job idle b' inv refl (others_apart w i job inv (ap job_of at_stage))
          (λ k q. absurd (cc q))
          (λ x o.
            overlay-within (slot_of cfg job) (slot_of cfg job + cfg.slot_bytes)
              (slot_of cfg job + 0) (le32 2) w.storage.at x o (omega arith) (omega arith))
          tt)

  pub Step-IsExclusive : {w w' : World} → Step cfg w w' → IsExclusive cfg w → IsExclusive cfg w'
  Step-IsExclusive (claims w i job v b at_stage fits small free e) inv =
      claims-IsExclusive w i job v b inv (fits, small) free e
  Step-IsExclusive (fills w i job b at_stage e) inv = fills-IsExclusive w i job b inv at_stage e
  Step-IsExclusive (commits w i job b at_stage e) inv = commits-IsExclusive w i job b inv at_stage e

  pub Reach-IsExclusive : {b : Buffer} {w : World} → Spans cfg b → Reach cfg b w → IsExclusive cfg w
  Reach-IsExclusive spans starts = record {
    spans = spans;
    owned = λ i. tt;
    apart = λ i j k k' p q e. absurd (cc p);
  }
  Reach-IsExclusive spans (later r st) = Step-IsExclusive st (Reach-IsExclusive spans r)

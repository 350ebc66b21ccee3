-- ===== src/Telemetry/Ring/Exclusive.antt =====
-- What every step of the producers keeps: no two hold the same slot, a held slot is marked as being
-- written, and a stored record stays as it was stored.
use sakamoto_snort.Common.{
  ℕ, suc, ◌+◌, ◌*◌, ◌%◌, ◌^◌, ◌≤◌, ◌<◌, ◌≡◌, ◌≢◌, refl, sym, ap, ◌∙◌, subst, ◌⊎◌, inl, inr, List,
  [], ◌∷◌, Option, none, some, length, ◌==◌, Bool-cases, arith, ==_iff,
}
use sakamoto_snort.Telemetry.Abi.{Buffer, record_type_code}
use sakamoto_snort.Telemetry.Memory.{Holds, le16, le32, le64}
use sakamoto_snort.Telemetry.Ring.{Config, max_payload, slot_for_ticket}
use sakamoto_snort.Telemetry.Ring.Filled.{IsStored}
use sakamoto_snort.Telemetry.Ring.Written.{IsConfig, Spans}
use sakamoto_snort.Telemetry.Ring.Steps.{Job, Stage, idle, claimed, stored, World, update, slot_of}
use native.Mathlib.Nat.{mul-le-mul_right, suc-mul}

abbrev pub job_of : Stage → Option Job
job_of idle = none
job_of (claimed job) = some job
job_of (stored job) = some job

-- Two slots are the same or lie beside each other.
slots_apart :
    (cfg : Config) (t t' : ℕ)
    → (slot_for_ticket cfg t ≡ slot_for_ticket cfg t')
      ⊎ ((slot_for_ticket cfg t + cfg.slot_bytes ≤ slot_for_ticket cfg t')
          ⊎ (slot_for_ticket cfg t' + cfg.slot_bytes ≤ slot_for_ticket cfg t))
unfolding slot_for_ticket
slots_apart cfg t t' = rows (t % cfg.slot_count) (t' % cfg.slot_count) cfg.slot_bytes
  where
    order : (a b : ℕ) → (a ≡ b) ⊎ ((suc a ≤ b) ⊎ (suc b ≤ a))
    order a b = omega arith

    rows : (a b w : ℕ) → (a * w ≡ b * w) ⊎ ((a * w + w ≤ b * w) ⊎ (b * w + w ≤ a * w))
    rows a b w = elim (order a b) [
      | inl e ↦ inl (ap (λ n. n * w) e)
      | inr (inl l) ↦
          let step = mul-le-mul_right w l in let row = suc-mul a w in inr (inl (omega arith))
      | inr (inr l) ↦
          let step = mul-le-mul_right w l in let row = suc-mul b w in inr (inr (omega arith))
    ]

pub Holds-same :
    (off : ℕ) (xs : List ℕ) (at at' : ℕ → ℕ)
    → ((x : ℕ) → off ≤ x → x < off + length xs → at' x ≡ at x)
    → Holds off xs at
    → Holds off xs at'
Holds-same off [] at at' same h = tt
Holds-same off (x ∷ xs) at at' same (h, hs) = (
  same off (omega arith) (omega arith) ∙ h,
  Holds-same (off + 1) xs at at' (λ y a b. same y (omega arith) (omega arith)) hs,
)

stage_cases :
    (f : ℕ → Stage) (i : ℕ) (s : Stage) (j : ℕ)
    → ((i ≡ j) × (update f i s j ≡ s)) ⊎ ((j ≢ i) × (update f i s j ≡ f j))
stage_cases f i s j = elim (Bool-cases (i == j)) [
  | inl e ↦ inl ((==_iff i j).0 e, rw e refl)
  | inr e ↦ inr ((λ h. ground arith), rw e refl)
]

module _ (cfg : Config) where
  abbrev pub IsJob : Job → Type 0
  IsJob job = (length job.payload ≤ max_payload cfg) × (job.ticket < 2 ^ 64)

  abbrev pub IsMarked : Job → (ℕ → ℕ) → Type 0
  IsMarked job at = Holds (slot_of cfg job + 0) (le32 1) at

  abbrev pub Keeps : Job → (ℕ → ℕ) → Type 0
  Keeps job at = IsStored (slot_of cfg job) job.type job.payload job.ticket at

  -- What a producer may rely on at its stage.
  abbrev pub Owns : Stage → (ℕ → ℕ) → Type 0
  Owns idle at = Unit
  Owns (claimed job) at = IsJob job × IsMarked job at
  Owns (stored job) at = IsJob job × IsMarked job at × Keeps job at

  pub record IsExclusive (w : World) : Type 0 where
    pub spans : Spans cfg w.storage
    pub owned : (i : ℕ) → Owns (w.stage i) w.storage.at
    pub apart :
        (i j : ℕ) (job job' : Job)
        → job_of (w.stage i) ≡ some job
        → job_of (w.stage j) ≡ some job'
        → slot_of cfg job ≡ slot_of cfg job'
        → i ≡ j

  module _ (c : IsConfig cfg) where
    Owns-kept :
        (s : Stage) (at at' : ℕ → ℕ)
        → ((job : Job)
            → job_of s ≡ some job
            → (x : ℕ) → slot_of cfg job ≤ x
            → x < slot_of cfg job + cfg.slot_bytes
            → at' x ≡ at x)
        → Owns s at
        → Owns s at'
    Owns-kept idle at at' same o = tt
    Owns-kept (claimed job) at at' same (fits, mark) =
        let (count, header, small) = c in
        (
          fits,
          Holds-same (slot_of cfg job + 0) (le32 1) at at'
              (λ x a b. same job refl x (omega arith) (omega arith)) mark,
        )
    Owns-kept (stored job) at at' same (fits, mark, (t, k, z, p)) =
        let (count, header, small) = c in
        let near = same job refl in
        (
          fits,
          Holds-same (slot_of cfg job + 0) (le32 1) at at'
              (λ x a b. near x (omega arith) (omega arith)) mark,
          (
            Holds-same (slot_of cfg job + 4) (le16 (record_type_code job.type)) at at'
                (λ x a b. near x (omega arith) (omega arith)) t,
            Holds-same (slot_of cfg job + 8) (le64 job.ticket) at at'
                (λ x a b. near x (omega arith) (omega arith)) k,
            Holds-same (slot_of cfg job + 16) (le32 (length job.payload % 2 ^ 32)) at at'
                (λ x a b. near x (omega arith) (omega arith)) z,
            Holds-same (slot_of cfg job + 24) job.payload at at'
                (λ x a b. near x (omega arith) (omega arith)) p,
          ),
        )

    -- A step of the producer `i` that writes within a slot that no other holds.
    pub step_within :
        (w : World) (i : ℕ) (job : Job) (s : Stage) (b : Buffer)
        → IsExclusive w
        → b.size ≡ w.storage.size
        → ((j : ℕ) (k : Job)
            → j ≢ i
            → job_of (w.stage j) ≡ some k
            → slot_of cfg k ≢ slot_of cfg job)
        → ((k : Job) → job_of s ≡ some k → slot_of cfg k ≡ slot_of cfg job)
        → ((x : ℕ)
            → (x < slot_of cfg job) ⊎ (slot_of cfg job + cfg.slot_bytes ≤ x)
            → b.at x ≡ w.storage.at x)
        → Owns s b.at
        → IsExclusive (record { storage = b; stage = update w.stage i s })
    step_within w i job s b inv size alone same outside own = record {
      spans = size ∙ inv.spans;
      owned = λ j. elim (stage_cases w.stage i s j) [
        | inl (e, u) ↦ subst (λ t. Owns t b.at) (sym u) own
        | inr (ne, u) ↦
            subst (λ t. Owns t b.at) (sym u)
              (Owns-kept (w.stage j) w.storage.at b.at
                (λ k q x lo hi. elim (slots_apart cfg k.ticket job.ticket) [
                  | inl e ↦ absurd (alone j k ne q e)
                  | inr (inl l) ↦ outside x (inl (omega arith))
                  | inr (inr l) ↦ outside x (inr (omega arith))
                ])
                (inv.owned j))
      ];
      apart = λ j j' k k' p q e. elim (stage_cases w.stage i s j) [
        | inl (a, u) ↦ elim (stage_cases w.stage i s j') [
          | inl (a', u') ↦ sym a ∙ a'
          | inr (ne', u') ↦
              absurd
                (alone j' k' ne' (ap job_of (sym u') ∙ q) (sym e ∙ same k (ap job_of (sym u) ∙ p)))
        ]
        | inr (ne, u) ↦ elim (stage_cases w.stage i s j') [
          | inl (a', u') ↦
              absurd (alone j k ne (ap job_of (sym u) ∙ p) (e ∙ same k' (ap job_of (sym u') ∙ q)))
          | inr (ne', u') ↦ inv.apart j j' k k' (ap job_of (sym u) ∙ p) (ap job_of (sym u') ∙ q) e
        ]
      ];
    }

-- ===== src/Telemetry/Ring/Filled.antt =====
-- The bytes that `fill_slot` and `commit_slot` leave in a slot, and what a consumer reads of them.
use sakamoto_snort.Common.{
  ℕ, ◌+◌, ◌%◌, ◌^◌, ◌≤◌, ◌<◌, ◌≡◌, ap, ◌∙◌, ◌⊎◌, inl, inr, List, some, length, arith,
}
use sakamoto_snort.Telemetry.Abi.{
  Buffer, Writer, ◌>>◌, RecordType, flow, dns_decision, record_type_code, write_u16_le,
  write_u32_le, write_u64_le, write_bytes, read_u16_le, read_u32_le, read_u64_le, read_bytes,
}
use sakamoto_snort.Telemetry.Memory.{
  overlaid, overlay-within, Holds, overlay-Holds, Holds-beside, le16, le32, le64, writes_then,
  write_u16_le-in, write_u32_le-in, write_u64_le-in, write_bytes-in, read_bytes-Holds,
}
use sakamoto_snort.Telemetry.Words.{read_u16_le-Holds, read_u32_le-Holds, read_u64_le-Holds}
use sakamoto_snort.Telemetry.Ring.{fill_slot, commit_slot}

module _ (slot : ℕ) (type : RecordType) (payload : List ℕ) (ticket : ℕ) where
  abbrev type_bytes : List ℕ
  type_bytes = le16 (record_type_code type)

  abbrev size_bytes : List ℕ
  size_bytes = le32 (length payload % 2 ^ 32)

  -- The span once a slot is filled.
  abbrev pub filled : Buffer → Buffer
  filled b = overlaid (slot + 24) payload (
      overlaid (slot + 16) size_bytes
        (overlaid (slot + 8) (le64 ticket) (overlaid (slot + 4) type_bytes b)))

  pub fill_slot-in :
      (b : Buffer)
      → slot + 24 + length payload ≤ b.size
      → fill_slot slot type payload ticket b ≡ some (filled b)
  unfolding fill_slot
  fill_slot-in b h =
      let b1 = overlaid (slot + 4) type_bytes b in
      let b2 = overlaid (slot + 8) (le64 ticket) b1 in
      let b3 = overlaid (slot + 16) size_bytes b2 in
      let w4 : Writer = write_bytes (slot + 24) payload in
      let w3 : Writer = write_u32_le (slot + 16) (length payload % 2 ^ 32) >> w4 in
      let w2 : Writer = write_u64_le (slot + 8) ticket >> w3 in
      writes_then (write_u16_le (slot + 4) (record_type_code type)) w2 b b1 _
        (write_u16_le-in (slot + 4) (record_type_code type) b (omega arith))
        (writes_then (write_u64_le (slot + 8) ticket) w3 b1 b2 _
          (write_u64_le-in (slot + 8) ticket b1 (omega arith))
          (writes_then (write_u32_le (slot + 16) (length payload % 2 ^ 32)) w4 b2 b3 _
            (write_u32_le-in (slot + 16) (length payload % 2 ^ 32) b2 (omega arith))
            (write_bytes-in (slot + 24) payload b3 (omega arith))))

  abbrev pub published : Buffer → Buffer
  published b = overlaid (slot + 0) (le32 2) (filled b)

  pub publish-in :
      (b : Buffer)
      → slot + 24 + length payload ≤ b.size
      → (fill_slot slot type payload ticket >> commit_slot slot) b ≡ some (published b)
  unfolding commit_slot
  publish-in b h =
      writes_then (fill_slot slot type payload ticket) (commit_slot slot) b (filled b) _
        (fill_slot-in b h) (write_u32_le-in (slot + 0) 2 (filled b) (omega arith))

  -- What a consumer reads of a slot.
  abbrev pub IsPublished : Buffer → Type 0
  IsPublished b =
      (read_u32_le (slot + 0) b ≡ some 2)
      × (read_u16_le (slot + 4) b ≡ some (record_type_code type))
      × (read_u64_le (slot + 8) b ≡ some ticket)
      × (read_u32_le (slot + 16) b ≡ some (length payload))
      × (read_bytes (slot + 24) (length payload) b ≡ some payload)

  -- The header past the state, and the payload, are those of the record.
  abbrev pub IsStored : (ℕ → ℕ) → Type 0
  IsStored at =
      Holds (slot + 4) type_bytes at
      × Holds (slot + 8) (le64 ticket) at
      × Holds (slot + 16) size_bytes at
      × Holds (slot + 24) payload at

  pub filled-IsStored : (b : Buffer) → IsStored (filled b).at
  filled-IsStored b =
      let b1 = overlaid (slot + 4) type_bytes b in
      let b2 = overlaid (slot + 8) (le64 ticket) b1 in
      let b3 = overlaid (slot + 16) size_bytes b2 in
      (
        Holds-beside (slot + 4) type_bytes (slot + 24) payload b3.at
            (Holds-beside (slot + 4) type_bytes (slot + 16) size_bytes b2.at
              (Holds-beside (slot + 4) type_bytes (slot + 8) (le64 ticket) b1.at
                (overlay-Holds (slot + 4) type_bytes b.at) (inl (omega arith)))
              (inl (omega arith)))
            (inl (omega arith)),
        Holds-beside (slot + 8) (le64 ticket) (slot + 24) payload b3.at
            (Holds-beside (slot + 8) (le64 ticket) (slot + 16) size_bytes b2.at
              (overlay-Holds (slot + 8) (le64 ticket) b1.at) (inl (omega arith)))
            (inl (omega arith)),
        Holds-beside (slot + 16) size_bytes (slot + 24) payload b3.at
            (overlay-Holds (slot + 16) size_bytes b2.at) (inl (omega arith)),
        overlay-Holds (slot + 24) payload b3.at,
      )

  -- A stored record is published by the commit.
  pub committed-IsPublished :
      (b : Buffer)
      → slot + 24 + length payload ≤ b.size
      → ticket < 2 ^ 64
      → length payload < 2 ^ 32
      → IsStored b.at
      → IsPublished (overlaid (slot + 0) (le32 2) b)
  committed-IsPublished b h lt small (type_at, ticket_at, size_at, payload_at) =
      let c = overlaid (slot + 0) (le32 2) b in
      let code : record_type_code type < 2 ^ 16 = elim type as (λ t. record_type_code t < 2 ^ 16) [
        | flow ↦ omega arith
        | dns_decision ↦ omega arith
      ] in
      let same : length payload % 2 ^ 32 ≡ length payload = omega arith in
      (
        read_u32_le-Holds (slot + 0) 2 c (omega arith) (omega arith)
            (overlay-Holds (slot + 0) (le32 2) b.at),
        read_u16_le-Holds (slot + 4) (record_type_code type) c (omega arith) code (
            Holds-beside (slot + 4) type_bytes (slot + 0) (le32 2) b.at type_at
              (inr (omega arith))),
        read_u64_le-Holds (slot + 8) ticket c (omega arith) lt (
            Holds-beside (slot + 8) (le64 ticket) (slot + 0) (le32 2) b.at ticket_at
              (inr (omega arith))),
        read_u32_le-Holds (slot + 16) (length payload % 2 ^ 32) c (omega arith) (omega arith) (
              Holds-beside (slot + 16) size_bytes (slot + 0) (le32 2) b.at size_at
                (inr (omega arith)))
            ∙ ap some same,
        read_bytes-Holds (slot + 24) payload c (omega arith) (
            Holds-beside (slot + 24) payload (slot + 0) (le32 2) b.at payload_at
              (inr (omega arith))),
      )

  pub published-IsPublished :
      (b : Buffer)
      → slot + 24 + length payload ≤ b.size
      → ticket < 2 ^ 64
      → length payload < 2 ^ 32
      → IsPublished (published b)
  published-IsPublished b h lt small =
      committed-IsPublished (filled b) h lt small (filled-IsStored b)

  -- Filling leaves the bytes outside the slot and those of its state.
  pub filled-outside :
      (b : Buffer) (i : ℕ)
      → (i < slot + 4) ⊎ (slot + 24 + length payload ≤ i)
      → (filled b).at i ≡ b.at i
  filled-outside b i h =
      let lo = slot + 4 in
      let hi = slot + 24 + length payload in
      let b1 = overlaid (slot + 4) type_bytes b in
      let b2 = overlaid (slot + 8) (le64 ticket) b1 in
      let b3 = overlaid (slot + 16) size_bytes b2 in
      overlay-within lo hi (slot + 24) payload b3.at i h (omega arith) (omega arith)
      ∙ overlay-within lo hi (slot + 16) size_bytes b2.at i h (omega arith) (omega arith)
      ∙ overlay-within lo hi (slot + 8) (le64 ticket) b1.at i h (omega arith) (omega arith)
      ∙ overlay-within lo hi (slot + 4) type_bytes b.at i h (omega arith) (omega arith)

  -- The bytes outside the slot stay.
  pub published-outside :
      (b : Buffer) (i : ℕ)
      → (i < slot) ⊎ (slot + 24 + length payload ≤ i)
      → (published b).at i ≡ b.at i
  published-outside b i (inl h) =
      overlay-within slot (slot + 24 + length payload) (slot + 0) (le32 2) (filled b).at i (inl h)
        (omega arith) (omega arith)
      ∙ filled-outside b i (inl (omega arith))
  published-outside b i (inr h) =
      overlay-within slot (slot + 24 + length payload) (slot + 0) (le32 2) (filled b).at i (inr h)
        (omega arith) (omega arith)
      ∙ filled-outside b i (inr h)

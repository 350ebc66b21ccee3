-- ===== src/Telemetry/Ring/Written.antt =====
-- A whole write attempt: the slot it writes to.
use sakamoto_snort.Common.{
  ℕ, ◌+◌, ◌*◌, ◌%◌, ◌^◌, ◌≤◌, ◌<◌, ◌≡◌, ◌≢◌, refl, ◌∙◌, ◌⊎◌, inl, inr, Bool, true, false, List,
  Option, none, some, not, ltb, if◌then◌else◌, length, arith,
}
use sakamoto_snort.Telemetry.Abi.{Buffer, RecordType, read_u32_le}
use sakamoto_snort.Telemetry.Memory.{overlaid, overlay-within, le32}
use sakamoto_snort.Telemetry.Ring.{
  Config, Ring, WriteResult, no_drop, slot_busy, record_too_large, dropped, slot_for_ticket,
  max_payload, take_ticket, write_slot, try_write,
}
use sakamoto_snort.Telemetry.Ring.Slot.{claim_slot-free, claim_slot-busy}
use sakamoto_snort.Telemetry.Ring.Filled.{
  published, publish-in, IsPublished, published-IsPublished, published-outside,
}
use native.Mathlib.Nat.{mul-le-mul_right, mod-lt, suc-mul, mul_comm}

-- A configuration that `init` accepts, over a span of its size.
abbrev pub IsConfig : Config → Type 0
IsConfig cfg = (0 < cfg.slot_count) × (24 ≤ cfg.slot_bytes) × (cfg.slot_bytes < 2 ^ 32)

abbrev pub Spans : Config → Buffer → Type 0
Spans cfg b = b.size ≡ cfg.slot_bytes * cfg.slot_count

abbrev pub IsRing : Ring → Type 0
IsRing r = (r.inited ≡ true) × IsConfig r.cfg × Spans r.cfg r.storage × (r.write_ticket < 2 ^ 64)

-- Every slot lies within the span.
pub slot_for_ticket-within :
    (cfg : Config) (ticket : ℕ)
    → IsConfig cfg
    → slot_for_ticket cfg ticket + cfg.slot_bytes ≤ cfg.slot_bytes * cfg.slot_count
unfolding slot_for_ticket
slot_for_ticket-within cfg ticket (count, header, small) =
    let below = mod-lt ticket count in
    let rows = mul-le-mul_right cfg.slot_bytes below in
    let row = suc-mul (ticket % cfg.slot_count) cfg.slot_bytes in
    let swap = mul_comm cfg.slot_bytes cfg.slot_count in omega arith

-- The span once a write has claimed, filled and committed its slot.
abbrev pub after_write : Config → RecordType → List ℕ → ℕ → Buffer → Buffer
after_write cfg type payload ticket b =
    let slot = slot_for_ticket cfg ticket in
    published slot type payload ticket (overlaid (slot + 0) (le32 1) b)

module _ (cfg : Config) (type : RecordType) (payload : List ℕ) (ticket : ℕ) (b : Buffer) where
  abbrev slot : ℕ
  slot = slot_for_ticket cfg ticket

  pub write_slot-large :
      max_payload cfg < length payload
      → write_slot cfg type payload ticket b ≡ some (dropped record_too_large ticket, b)
  unfolding write_slot
  write_slot-large h = ground arith

  pub write_slot-busy :
      (v : ℕ)
      → length payload ≤ max_payload cfg
      → read_u32_le (slot + 0) b ≡ some v
      → v ≢ 0
      → v ≢ 2
      → write_slot cfg type payload ticket b ≡ some (dropped slot_busy ticket, b)
  unfolding write_slot
  write_slot-busy v fits seen ne0 ne2 =
      let over : ltb (max_payload cfg) (length payload) ≡ false = ground arith in
      rw (over, claim_slot-busy slot v b seen ne0 ne2) refl

  write_slot-free :
      (v : ℕ)
      → IsConfig cfg
      → Spans cfg b
      → length payload ≤ max_payload cfg
      → read_u32_le (slot + 0) b ≡ some v
      → (v ≡ 0) ⊎ (v ≡ 2)
      → write_slot cfg type payload ticket b
        ≡ some (
          record { wrote = true; drop_reason = no_drop; ticket = ticket },
          after_write cfg type payload ticket b,
        )
  unfolding write_slot
  write_slot-free v c spans fits seen free =
      let (count, header, small) = c in
      let over : ltb (max_payload cfg) (length payload) ≡ false = ground arith in
      let within = slot_for_ticket-within cfg ticket c in
      rw
        (
          over,
          claim_slot-free slot v b (omega arith) seen free,
          publish-in slot type payload ticket (overlaid (slot + 0) (le32 1) b) (omega arith),
        )
        refl

  after_write-IsPublished :
      IsConfig cfg
      → Spans cfg b
      → length payload ≤ max_payload cfg
      → ticket < 2 ^ 64
      → IsPublished slot type payload ticket (after_write cfg type payload ticket b)
  after_write-IsPublished c spans fits lt =
      let (count, header, small) = c in
      let within = slot_for_ticket-within cfg ticket c in
      published-IsPublished slot type payload ticket (overlaid (slot + 0) (le32 1) b) (omega arith)
        lt (omega arith)

  -- The bytes of the other slots stay.
  after_write-outside :
      IsConfig cfg
      → length payload ≤ max_payload cfg
      → (i : ℕ) → (i < slot) ⊎ (slot + cfg.slot_bytes ≤ i)
      → (after_write cfg type payload ticket b).at i ≡ b.at i
  after_write-outside (count, header, small) fits i h =
      let b1 = overlaid (slot + 0) (le32 1) b in
      let near : (i < slot) ⊎ (slot + 24 + length payload ≤ i) = elim h [
        | inl x ↦ inl x
        | inr x ↦ inr (omega arith)
      ] in
      published-outside slot type payload ticket b1 i near
      ∙ overlay-within slot (slot + 24) (slot + 0) (le32 1) b.at i
          (elim h [ inl x ↦ inl x | inr x ↦ inr (omega arith) ]) (omega arith) (omega arith)

pub running :
    (on : Bool) (off : Option (WriteResult × Ring)) (r : Ring) (o : Option (WriteResult × Buffer))
    (result : WriteResult) (b : Buffer)
    → on ≡ true
    → o ≡ some (result, b)
    → (if not on then off else elim o as (λ x. Option (WriteResult × Ring)) [
      | none ↦ none
      | some (result, b) ↦ some (result, record (take_ticket r) { storage = b })
    ])
      ≡ some (result, record (take_ticket r) { storage = b })
running on off r o result b e f = rw (e, f) refl

abbrev pub written : ℕ → WriteResult
written ticket = record { wrote = true; drop_reason = no_drop; ticket = ticket }

-- Over an initialised ring and a slot that is empty or committed, a write attempt of a payload that
-- fits a slot succeeds: a consumer then reads of the slot of the ticket the committed state, the
-- type, the ticket, the size and the payload, every byte of the other slots is as before, the ticket
-- moved on by one modulo 2 ^ 64, and the ring is still well-formed.
pub try_write-publishes :
    (type : RecordType) (payload : List ℕ) (r : Ring) (v : ℕ)
    → IsRing r
    → length payload ≤ max_payload r.cfg
    → read_u32_le (slot_for_ticket r.cfg r.write_ticket + 0) r.storage ≡ some v
    → (v ≡ 0) ⊎ (v ≡ 2)
    → (b : Buffer) × (try_write type payload r
        ≡ some (written r.write_ticket, record (take_ticket r) { storage = b }))
      × IsPublished (slot_for_ticket r.cfg r.write_ticket) type payload r.write_ticket b
      × ((i : ℕ)
          → (i < slot_for_ticket r.cfg r.write_ticket)
            ⊎ (slot_for_ticket r.cfg r.write_ticket + r.cfg.slot_bytes ≤ i)
          → b.at i ≡ r.storage.at i)
      × IsRing (record (take_ticket r) { storage = b })
unfolding try_write
try_write-publishes type payload r v (on, (count, header, small), spans, lt) fits seen free =
    let c : IsConfig r.cfg = (count, header, small) in
    (
      after_write r.cfg type payload r.write_ticket r.storage,
      running r.inited _ r _ _ _ on
          (write_slot-free r.cfg type payload r.write_ticket r.storage v c spans fits seen free),
      after_write-IsPublished r.cfg type payload r.write_ticket r.storage c spans fits lt,
      after_write-outside r.cfg type payload r.write_ticket r.storage c fits,
      (on, c, spans, omega arith),
    )

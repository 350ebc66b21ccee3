-- ===== src/Telemetry/Abi.antt =====
-- src/FlowTelemetryAbi.hpp: the layout of a slot and the little-endian reads and writes. A span of
-- bytes is a size and the byte at each offset; an access past the size is a fault: `none`. `v & 0xFF`
-- is `v % 256`, a shift by 8k is a division by or a product with 256 ^ k, and `|` is applied to
-- numbers without a common bit, so it is their sum.
use sakamoto_snort.Common.{
  ℕ, zero, suc, ◌+◌, ◌-◌, ◌*◌, ◌/◌, ◌%◌, ◌^◌, List, [], ◌∷◌, Option, none, some, ltb, ◌==◌,
  if◌then◌else◌,
}

abbrev pub slot_bytes_default : ℕ
slot_bytes_default = 1024

abbrev pub slot_count_default : ℕ
slot_count_default = 16384

abbrev pub slot_header_bytes : ℕ
slot_header_bytes = 24

abbrev pub slot_offset_state : ℕ
slot_offset_state = 0

abbrev pub slot_offset_record_type : ℕ
slot_offset_record_type = 4

abbrev pub slot_offset_ticket : ℕ
slot_offset_ticket = 8

abbrev pub slot_offset_payload_size : ℕ
slot_offset_payload_size = 16

abbrev pub max_payload_bytes : ℕ
max_payload_bytes = slot_bytes_default - slot_header_bytes

-- `SlotState` and its numbers.
abbrev pub state_empty : ℕ
state_empty = 0

abbrev pub state_writing : ℕ
state_writing = 1

abbrev pub state_committed : ℕ
state_committed = 2

pub data RecordType : Type 0 where
  flow dns_decision : RecordType

abbrev pub record_type_code : RecordType → ℕ
record_type_code flow = 1
record_type_code dns_decision = 2

pub record Buffer : Type 0 where
  pub size : ℕ
  pub at : ℕ → ℕ

-- A sequence of writes, and one of reads.
abbrev pub Writer : Type 0
Writer = Buffer → Option Buffer

abbrev pub Reader : Type 0 → Type 0
Reader A = Buffer → Option A

infixl 5 ◌>>◌ ◌>>=◌
abbrev pub ◌>>◌ : Writer → Writer → Writer
(m >> k) b = elim (m b) [ none ↦ none | some b' ↦ k b' ]

abbrev pub ◌>>=◌ : {A B : Type 0} → Reader A → (A → Reader B) → Reader B
(m >>= f) b = elim (m b) [ none ↦ none | some a ↦ f a b ]

abbrev pub pure : {A : Type 0} → A → Reader A
pure a b = some a

-- `out[off] = v`
unfoldable pub write8 : ℕ → ℕ → Writer
write8 off v b =
    if ltb off b.size
    then some (record { size = b.size; at = λ i. if i == off then v else b.at i })
    else none

unfoldable pub write_u16_le : ℕ → ℕ → Writer
unfolding write8
write_u16_le off v = do write8 (off + 0) (v % 256); write8 (off + 1) (v / 256 % 256)

unfoldable pub write_u32_le : ℕ → ℕ → Writer
unfolding write8
write_u32_le off v = do
  write8 (off + 0) (v % 256)
  write8 (off + 1) (v / 256 % 256)
  write8 (off + 2) (v / 65536 % 256)
  write8 (off + 3) (v / 16777216 % 256)

unfoldable pub write_u64_le : ℕ → ℕ → Writer
unfolding write_u32_le
write_u64_le off v = do
  write_u32_le (off + 0) (v % 2 ^ 32)
  write_u32_le (off + 4) (v / 2 ^ 32 % 2 ^ 32)

-- `std::memcpy` of bytes into the span.
unfoldable pub write_bytes : ℕ → List ℕ → Writer
unfolding write8
write_bytes off [] = λ b. some b
write_bytes off (x ∷ xs) = do write8 off x; write_bytes (off + 1) xs

-- `in[off]`
unfoldable pub read8 : ℕ → Reader ℕ
read8 off b = if ltb off b.size then some (b.at off) else none

unfoldable pub read_u16_le : ℕ → Reader ℕ
unfolding read8
read_u16_le off = do b0 ← read8 (off + 0); b1 ← read8 (off + 1); pure (b0 + b1 * 256)

unfoldable pub read_u32_le : ℕ → Reader ℕ
unfolding read8
read_u32_le off = do
  b0 ← read8 (off + 0)
  b1 ← read8 (off + 1)
  b2 ← read8 (off + 2)
  b3 ← read8 (off + 3)
  pure (b0 + b1 * 256 + b2 * 65536 + b3 * 16777216)

unfoldable pub read_u64_le : ℕ → Reader ℕ
unfolding read_u32_le
read_u64_le off = do lo ← read_u32_le off; hi ← read_u32_le (off + 4); pure (lo + hi * 2 ^ 32)

-- The bytes of a range, for what a consumer reads of it.
unfoldable pub read_bytes : ℕ → ℕ → Reader (List ℕ)
unfolding read8
read_bytes off zero = pure []
read_bytes off (suc n) = do x ← read8 off; xs ← read_bytes (off + 1) n; pure (x ∷ xs)

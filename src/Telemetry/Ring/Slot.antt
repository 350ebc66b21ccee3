-- ===== src/Telemetry/Ring/Slot.antt =====
-- The atomic operations on a slot that lies within the span: what each returns and leaves.
use sakamoto_snort.Common.{
  ℕ, ◌+◌, ◌≤◌, ◌≡◌, ◌≢◌, ◌⊎◌, inl, inr, refl, true, false, none, some, arith,
}
use sakamoto_snort.Telemetry.Abi.{Buffer, read_u32_le}
use sakamoto_snort.Telemetry.Memory.{overlaid, le32, write_u32_le-in}
use sakamoto_snort.Telemetry.Ring.{claim_slot, compare_exchange}

pub compare_exchange-same :
    (off v desired : ℕ) (b : Buffer)
    → off + 4 ≤ b.size
    → read_u32_le off b ≡ some v
    → compare_exchange off v desired b ≡ some (v, overlaid off (le32 desired) b)
unfolding compare_exchange
compare_exchange-same off v desired b h seen = ground (arith, write_u32_le-in off desired b h)

pub compare_exchange-other :
    (off v expected desired : ℕ) (b : Buffer)
    → v ≢ expected
    → read_u32_le off b ≡ some v
    → compare_exchange off expected desired b ≡ some (v, b)
unfolding compare_exchange
compare_exchange-other off v expected desired b ne seen = ground arith

-- A slot that is empty or committed is claimed.
pub claim_slot-free :
    (slot v : ℕ) (b : Buffer)
    → slot + 4 ≤ b.size
    → read_u32_le (slot + 0) b ≡ some v
    → (v ≡ 0) ⊎ (v ≡ 2)
    → claim_slot slot b ≡ some (true, overlaid (slot + 0) (le32 1) b)
unfolding claim_slot
claim_slot-free slot v b h seen (inl e) =
    ground (arith, compare_exchange-same (slot + 0) 0 1 b (omega arith))
claim_slot-free slot v b h seen (inr e) = ground (
  arith,
  compare_exchange-other (slot + 0) 2 0 1 b,
  compare_exchange-same (slot + 0) 2 1 b (omega arith),
)

-- Any other slot is left alone.
pub claim_slot-busy :
    (slot v : ℕ) (b : Buffer)
    → read_u32_le (slot + 0) b ≡ some v
    → v ≢ 0
    → v ≢ 2
    → claim_slot slot b ≡ some (false, b)
unfolding claim_slot
claim_slot-busy slot v b seen ne0 ne2 = ground (arith, compare_exchange-other (slot + 0) v 0 1 b)

pub compare_exchange-fault :
    (off expected desired : ℕ) (b : Buffer)
    → read_u32_le off b ≡ none
    → compare_exchange off expected desired b ≡ none
unfolding compare_exchange
compare_exchange-fault off expected desired b h = rw (compare_exchange, h) refl

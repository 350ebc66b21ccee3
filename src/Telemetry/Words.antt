-- ===== src/Telemetry/Words.antt =====
-- Integers read back from a memory that holds their bytes.
use sakamoto_snort.Common.{
  ℕ, ◌+◌, ◌*◌, ◌/◌, ◌%◌, ◌^◌, ◌≤◌, ◌<◌, ◌≡◌, ap, subst, ◌∙◌, Option, some, arith,
}
use sakamoto_snort.Telemetry.Abi.{
  Buffer, Reader, ◌>>=◌, pure, read8, read_u16_le, read_u32_le, read_u64_le,
}
use sakamoto_snort.Telemetry.Memory.{read8-in, reads_then, Holds, le16, le32, le64}
use sakamoto_snort.Telemetry.Values.{join16_id, join32_id}

byte_then :
    {B : Type 0} (off : ℕ) (k : ℕ → Reader B) (b : Buffer) (r : Option B) (v : ℕ)
    → off < b.size
    → b.at off ≡ v
    → k v b ≡ r
    → (read8 off >>= k) b ≡ r
byte_then off k b r v h at e = reads_then (read8 off) k b v r (read8-in off b h ∙ ap some at) e

add_zero : (n : ℕ) → n + 0 ≡ n
add_zero n = omega arith

at_offset : (b : Buffer) (i j v : ℕ) → i ≡ j → b.at j ≡ v → b.at i ≡ v
at_offset b i j v e h = ap b.at e ∙ h

pub read_u16_le-Holds :
    (off v : ℕ) (b : Buffer)
    → off + 2 ≤ b.size
    → v < 2 ^ 16
    → Holds off (le16 v) b.at
    → read_u16_le off b ≡ some v
unfolding read_u16_le
read_u16_le-Holds off v b h lt (at0, (at1, _)) =
    let k1 : ℕ → ℕ → Reader ℕ = λ b0 b1. pure (b0 + b1 * 256) in
    byte_then (off + 0) (λ b0. read8 (off + 1) >>= k1 b0) b _ (v % 256) (omega arith)
      (at_offset b _ off _ (omega arith) at0)
      (byte_then (off + 1) (k1 (v % 256)) b _ (v / 256 % 256) (omega arith) at1
        (ap some (join16_id v lt)))

pub read_u32_le-Holds :
    (off v : ℕ) (b : Buffer)
    → off + 4 ≤ b.size
    → v < 2 ^ 32
    → Holds off (le32 v) b.at
    → read_u32_le off b ≡ some v
unfolding read_u32_le
read_u32_le-Holds off v b h lt (at0, (at1, (at2, (at3, _)))) =
    let k3 : ℕ → ℕ → ℕ → ℕ → Reader ℕ =
      λ b0 b1 b2 b3. pure (b0 + b1 * 256 + b2 * 65536 + b3 * 16777216) in
    let k2 : ℕ → ℕ → ℕ → Reader ℕ = λ b0 b1 b2. read8 (off + 3) >>= k3 b0 b1 b2 in
    let k1 : ℕ → ℕ → Reader ℕ = λ b0 b1. read8 (off + 2) >>= k2 b0 b1 in
    let v0 = v % 256 in
    let v1 = v / 256 % 256 in
    let v2 = v / 65536 % 256 in
    byte_then (off + 0) (λ b0. read8 (off + 1) >>= k1 b0) b _ v0 (omega arith)
      (at_offset b _ off _ (omega arith) at0)
      (byte_then (off + 1) (k1 v0) b _ v1 (omega arith) at1 (
        byte_then (off + 2) (k2 v0 v1) b _ v2 (omega arith)
          (at_offset b _ (off + 1 + 1) _ (omega arith) at2)
          (byte_then (off + 3) (k3 v0 v1 v2) b _ (v / 16777216 % 256) (omega arith)
            (at_offset b _ (off + 1 + 1 + 1) _ (omega arith) at3) (ap some (join32_id v lt)))))

pub read_u64_le-Holds :
    (off v : ℕ) (b : Buffer)
    → off + 8 ≤ b.size
    → v < 2 ^ 64
    → Holds off (le64 v) b.at
    → read_u64_le off b ≡ some v
unfolding read_u64_le
read_u64_le-Holds off v b h lt (at0, (at1, (at2, (at3, rest)))) =
    let lo = v % 2 ^ 32 in
    let hi = v / 2 ^ 32 % 2 ^ 32 in
    let high : Holds (off + 4) (le32 hi) b.at =
      subst (λ n. Holds n (le32 hi) b.at) (omega arith) rest in
    let k2 : ℕ → ℕ → Reader ℕ = λ a c. pure (a + c * 2 ^ 32) in
    reads_then (read_u32_le off) (λ a. read_u32_le (off + 4) >>= k2 a) b lo _
      (read_u32_le-Holds off lo b (omega arith) (omega arith) (at0, (at1, (at2, (at3, tt)))))
      (reads_then (read_u32_le (off + 4)) (k2 lo) b hi _
        (read_u32_le-Holds (off + 4) hi b (omega arith) (omega arith) high) (ap some (omega arith)))

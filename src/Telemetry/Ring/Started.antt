-- ===== src/Telemetry/Ring/Started.antt =====
-- What `init` leaves: a ring over the first slots of the storage, every slot of which is empty.
use sakamoto_snort.Common.{
  ℕ, zero, suc, ◌+◌, ◌*◌, ◌≤◌, ◌<◌, ◌≡◌, refl, sym, subst, ◌∙◌, ◌⊎◌, inl, inr, true, false, ◌||◌,
  ◌==◌, ltb, List, [], ◌∷◌, some, length, arith,
}
use sakamoto_snort.Telemetry.Abi.{Buffer, read_u32_le, write_u32_le}
use sakamoto_snort.Telemetry.Memory.{
  overlaid, le32, write_u32_le-in, writes_then, Holds, overlay-Holds, overlay-outside,
}
use sakamoto_snort.Telemetry.Words.{read_u32_le-Holds}
use sakamoto_snort.Telemetry.Ring.{Config, Ring, clear_states, init}
use sakamoto_snort.Telemetry.Ring.Written.{IsConfig, IsRing}
use native.Mathlib.Nat.{mul-le-mul_right, mul_comm}

next_row : (i w : ℕ) → (i + 1) * w ≡ i * w + w
next_row i w = omega arith

here_or_later : (i k : ℕ) → i ≤ k → (k ≡ i) ⊎ (i + 1 ≤ k)
here_or_later i k h = omega arith

Holds-kept :
    (off : ℕ) (xs : List ℕ) (at at' : ℕ → ℕ)
    → ((j : ℕ) → j < off + length xs → at' j ≡ at j)
    → Holds off xs at
    → Holds off xs at'
Holds-kept off [] at at' same h = tt
Holds-kept off (x ∷ xs) at at' same (h, hs) =
    (same off (omega arith) ∙ h, Holds-kept (off + 1) xs at at' (λ j l. same j (omega arith)) hs)

-- What the loop leaves: the bytes before its first slot, and each of its slots empty.
abbrev Cleared : ℕ → ℕ → ℕ → Buffer → Buffer → Type 0
Cleared n i w b b' =
    (b'.size ≡ b.size)
    × ((j : ℕ) → j < i * w → b'.at j ≡ b.at j)
    × ((k : ℕ) → i ≤ k → k < i + n → Holds (k * w + 0) (le32 0) b'.at)

clear_states-Cleared :
    (n i w : ℕ) (b : Buffer)
    → 24 ≤ w
    → (i + n) * w ≤ b.size
    → (b' : Buffer) × (clear_states n i w b ≡ some b') × Cleared n i w b b'
unfolding clear_states
clear_states-Cleared zero i w b wide h =
    (b, refl, (refl, (λ j l. refl), (λ k a c. absurd (omega arith))))
clear_states-Cleared (suc n) i w b wide h =
    let row = next_row i w in
    let rows : (i + 1) * w ≤ (i + suc n) * w = mul-le-mul_right w (omega arith) in
    let b1 = overlaid (i * w + 0) (le32 0) b in
    let same : i + 1 + n ≡ i + suc n = omega arith in
    let (b', run, (size, keep, holds)) =
      clear_states-Cleared n (i + 1) w b1 wide (subst (λ m. m * w ≤ b.size) (sym same) h) in
    let here : Holds (i * w + 0) (le32 0) b'.at =
      Holds-kept (i * w + 0) (le32 0) b1.at b'.at (λ j l. keep j (omega arith))
        (overlay-Holds (i * w + 0) (le32 0) b.at) in
    (
      b',
      writes_then (write_u32_le (i * w + 0) 0) (clear_states n (i + 1) w) b b1 _
          (write_u32_le-in (i * w + 0) 0 b (omega arith)) run,
      (
        size,
        (λ j l.
            keep j (omega arith) ∙ overlay-outside (i * w + 0) (le32 0) b.at j (inl (omega arith))),
        (λ k lo hi. elim (here_or_later i k lo) [
          | inl e ↦ subst (λ m. Holds (m * w + 0) (le32 0) b'.at) (sym e) here
          | inr l ↦ holds k l (omega arith)
        ]),
      ),
    )

started :
    (r : Ring) (cfg : Config) (storage : Buffer)
    → IsConfig cfg
    → cfg.slot_bytes * cfg.slot_count ≤ storage.size
    → (b : Buffer) × (clear_states cfg.slot_count 0 cfg.slot_bytes
          (record { size = cfg.slot_bytes * cfg.slot_count; at = storage.at })
        ≡ some b)
      × Cleared cfg.slot_count 0 cfg.slot_bytes
          (record { size = cfg.slot_bytes * cfg.slot_count; at = storage.at })
          b
    → (b : Buffer) × (init storage cfg r
        ≡ some (true, record { cfg = cfg; storage = b; write_ticket = 0; inited = true }))
      × IsRing (record { cfg = cfg; storage = b; write_ticket = 0; inited = true })
      × ((k : ℕ) → k < cfg.slot_count → read_u32_le (k * cfg.slot_bytes + 0) b ≡ some 0)
unfolding init
started r cfg storage (count, header, small) room (b, run, (size, keep, holds)) =
    let some_slots : (cfg.slot_bytes == 0 || cfg.slot_count == 0) ≡ false = ground arith in
    let wide : ltb cfg.slot_bytes 24 ≡ false = ground arith in
    let fits : ltb storage.size (cfg.slot_bytes * cfg.slot_count) ≡ false = ground arith in
    (
      b,
      rw (some_slots, wide, fits, run) refl,
      (refl, (count, header, small), size, omega arith),
      (λ k l.
          let rows = mul-le-mul_right cfg.slot_bytes l in
          let row = next_row k cfg.slot_bytes in
          let swap = mul_comm cfg.slot_bytes cfg.slot_count in
          read_u32_le-Holds (k * cfg.slot_bytes + 0) 0 b (omega arith) (omega arith)
            (holds k (omega arith) (omega arith))),
    )

-- Over a storage with room for the slots of an accepted configuration, `init` succeeds whatever the
-- ring was before: the ring is well-formed with its first ticket, and every slot reads as empty.
pub init-starts :
    (r : Ring) (cfg : Config) (storage : Buffer)
    → IsConfig cfg
    → cfg.slot_bytes * cfg.slot_count ≤ storage.size
    → (b : Buffer) × (init storage cfg r
        ≡ some (true, record { cfg = cfg; storage = b; write_ticket = 0; inited = true }))
      × IsRing (record { cfg = cfg; storage = b; write_ticket = 0; inited = true })
      × ((k : ℕ) → k < cfg.slot_count → read_u32_le (k * cfg.slot_bytes + 0) b ≡ some 0)
init-starts r cfg storage (count, header, small) room =
    started r cfg storage (count, header, small) room
      (clear_states-Cleared cfg.slot_count 0 cfg.slot_bytes
        (record { size = cfg.slot_bytes * cfg.slot_count; at = storage.at }) header
        (let swap = mul_comm cfg.slot_bytes cfg.slot_count in omega arith))

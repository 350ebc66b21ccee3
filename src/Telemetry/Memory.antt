-- ===== src/Telemetry/Memory.antt =====
-- Bytes laid over a memory: what a write within the span leaves, and what a read of it returns.
use sakamoto_snort.Common.{
  ℕ, ◌+◌, ◌/◌, ◌%◌, ◌^◌, ◌≤◌, ◌<◌, ◌≡◌, refl, ap, ◌∙◌, ◌⊎◌, inl, inr, List, [], ◌∷◌, ◌++◌, Option,
  none, some, ◌==◌, if◌then◌else◌, length, arith,
}
use sakamoto_snort.Telemetry.Abi.{
  Buffer, Writer, Reader, ◌>>◌, ◌>>=◌, write8, write_u16_le, write_u32_le, write_u64_le,
  write_bytes, read8, read_bytes,
}

abbrev pub put : ℕ → ℕ → (ℕ → ℕ) → ℕ → ℕ
put off v at i = if i == off then v else at i

unfoldable pub overlay : ℕ → List ℕ → (ℕ → ℕ) → ℕ → ℕ
overlay off [] at i = at i
overlay off (x ∷ xs) at i = overlay (off + 1) xs (put off x at) i

abbrev pub overlaid : ℕ → List ℕ → Buffer → Buffer
overlaid off xs b = record { size = b.size; at = overlay off xs b.at }

pub writes_then :
    (m k : Writer) (b b' : Buffer) (r : Option Buffer) → m b ≡ some b' → k b' ≡ r → (m >> k) b ≡ r
writes_then m k b b' r e h = ap (λ o. elim o [ none ↦ none | some c ↦ k c ]) e ∙ h

pub reads_then :
    {A B : Type 0} (m : Reader A) (k : A → Reader B) (b : Buffer) (a : A) (r : Option B)
    → m b ≡ some a
    → k a b ≡ r
    → (m >>= k) b ≡ r
reads_then {B = B} m k b a r e h =
    ap (λ (o : Option _). elim o as (λ x. Option B) [ none ↦ none | some c ↦ k c b ]) e ∙ h

pub write8-in :
    (off v : ℕ) (b : Buffer)
    → off < b.size
    → write8 off v b ≡ some (record { size = b.size; at = put off v b.at })
unfolding write8
write8-in off v b h = ground arith

pub read8-in : (off : ℕ) (b : Buffer) → off < b.size → read8 off b ≡ some (b.at off)
unfolding read8
read8-in off b h = ground arith

pub put_then :
    (off v : ℕ) (k : Writer) (b : Buffer) (r : Option Buffer)
    → off < b.size
    → k (record { size = b.size; at = put off v b.at }) ≡ r
    → (write8 off v >> k) b ≡ r
put_then off v k b r h e = writes_then (write8 off v) k b _ r (write8-in off v b h) e

pub write_bytes-in :
    (off : ℕ) (xs : List ℕ) (b : Buffer)
    → off + length xs ≤ b.size
    → write_bytes off xs b ≡ some (overlaid off xs b)
unfolding write_bytes overlay
write_bytes-in off [] b h = refl
write_bytes-in off (x ∷ xs) b h =
    writes_then (write8 off x) (write_bytes (off + 1) xs) b _ _ (write8-in off x b (omega arith))
      (write_bytes-in (off + 1) xs (record { size = b.size; at = put off x b.at }) (omega arith))

pub overlay-outside :
    (off : ℕ) (xs : List ℕ) (at : ℕ → ℕ) (i : ℕ)
    → (i < off) ⊎ (off + length xs ≤ i)
    → overlay off xs at i ≡ at i
unfolding overlay
overlay-outside off [] at i h = refl
overlay-outside off (x ∷ xs) at i (inl h) =
    ground (arith, overlay-outside (off + 1) xs (put off x at) i (inl (omega arith)))
overlay-outside off (x ∷ xs) at i (inr h) =
    ground (arith, overlay-outside (off + 1) xs (put off x at) i (inr (omega arith)))

-- A write between two offsets leaves what is outside them.
pub overlay-within :
    (lo hi off : ℕ) (xs : List ℕ) (at : ℕ → ℕ) (i : ℕ)
    → (i < lo) ⊎ (hi ≤ i)
    → lo ≤ off
    → off + length xs ≤ hi
    → overlay off xs at i ≡ at i
overlay-within lo hi off xs at i (inl h) a b = overlay-outside off xs at i (inl (omega arith))
overlay-within lo hi off xs at i (inr h) a b = overlay-outside off xs at i (inr (omega arith))

-- A memory holds the bytes from an offset on.
abbrev pub Holds : ℕ → List ℕ → (ℕ → ℕ) → Type 0
Holds off [] at = Unit
Holds off (x ∷ xs) at = (at off ≡ x) × Holds (off + 1) xs at

pub overlay-Holds : (off : ℕ) (xs : List ℕ) (at : ℕ → ℕ) → Holds off xs (overlay off xs at)
unfolding overlay
overlay-Holds off [] at = tt
overlay-Holds off (x ∷ xs) at =
    let first : overlay (off + 1) xs (put off x at) off ≡ x =
      ground (arith, overlay-outside (off + 1) xs (put off x at) off (inl (omega arith))) in
    (first, overlay-Holds (off + 1) xs (put off x at))

pub Holds-beside :
    (off : ℕ) (xs : List ℕ) (o : ℕ) (ys : List ℕ) (at : ℕ → ℕ)
    → Holds off xs at
    → (off + length xs ≤ o) ⊎ (o + length ys ≤ off)
    → Holds off xs (overlay o ys at)
Holds-beside off [] o ys at h d = tt
Holds-beside off (x ∷ xs) o ys at h (inl d) = (
  overlay-outside o ys at off (inl (omega arith)) ∙ h.0,
  Holds-beside (off + 1) xs o ys at h.1 (inl (omega arith)),
)
Holds-beside off (x ∷ xs) o ys at h (inr d) = (
  overlay-outside o ys at off (inr (omega arith)) ∙ h.0,
  Holds-beside (off + 1) xs o ys at h.1 (inr (omega arith)),
)

pub read_bytes-Holds :
    (off : ℕ) (xs : List ℕ) (b : Buffer)
    → off + length xs ≤ b.size
    → Holds off xs b.at
    → read_bytes off (length xs) b ≡ some xs
unfolding read_bytes
read_bytes-Holds off [] b h holds = refl
read_bytes-Holds off (x ∷ xs) b h holds =
    ground
      (arith, read8-in off b (omega arith), read_bytes-Holds (off + 1) xs b (omega arith) holds.1)

abbrev pub le16 : ℕ → List ℕ
le16 v = v % 256 ∷ v / 256 % 256 ∷ []

abbrev pub le32 : ℕ → List ℕ
le32 v = v % 256 ∷ v / 256 % 256 ∷ v / 65536 % 256 ∷ v / 16777216 % 256 ∷ []

abbrev pub le64 : ℕ → List ℕ
le64 v = le32 (v % 2 ^ 32) ++ le32 (v / 2 ^ 32 % 2 ^ 32)

overlay-append :
    (off : ℕ) (xs ys : List ℕ) (at : ℕ → ℕ)
    → overlay off (xs ++ ys) at ≡ overlay (off + length xs) ys (overlay off xs at)
unfolding overlay
overlay-append off [] ys at = ap (λ n. overlay n ys at) (omega arith)
overlay-append off (x ∷ xs) ys at =
    overlay-append (off + 1) xs ys (put off x at)
    ∙ ap (λ n. overlay n ys (overlay (off + 1) xs (put off x at))) (omega arith)

overlay_four :
    (off a b c d : ℕ) (at : ℕ → ℕ)
    → overlay off (a ∷ b ∷ c ∷ d ∷ []) at
      ≡ put (off + 3) d (put (off + 2) c (put (off + 1) b (put off a at)))
unfolding overlay
overlay_four off a b c d at =
    let two : off + 1 + 1 ≡ off + 2 = omega arith in
    let three : off + 2 + 1 ≡ off + 3 = omega arith in
    ap (λ n i. put (n + 1) d (put n c (put (off + 1) b (put off a at))) i) two
    ∙ ap (λ n i. put n d (put (off + 2) c (put (off + 1) b (put off a at))) i) three

add_zero : (n : ℕ) → n + 0 ≡ n
add_zero n = omega arith

pub write_u16_le-in :
    (off v : ℕ) (b : Buffer)
    → off + 2 ≤ b.size
    → write_u16_le off v b ≡ some (overlaid off (le16 v) b)
unfolding write_u16_le overlay
write_u16_le-in off v b h = rw (add_zero off) (
    put_then off (v % 256) (write8 (off + 1) (v / 256 % 256)) b _ (omega arith)
      (write8-in (off + 1) (v / 256 % 256) _ (omega arith)))

pub write_u32_le-in :
    (off v : ℕ) (b : Buffer)
    → off + 4 ≤ b.size
    → write_u32_le off v b ≡ some (overlaid off (le32 v) b)
unfolding write_u32_le
write_u32_le-in off v b h =
    let k3 : Writer = write8 (off + 3) (v / 16777216 % 256) in
    let k2 : Writer = write8 (off + 2) (v / 65536 % 256) >> k3 in
    let k1 : Writer = write8 (off + 1) (v / 256 % 256) >> k2 in
    rw
      (
        add_zero off,
        overlay_four off (v % 256) (v / 256 % 256) (v / 65536 % 256) (v / 16777216 % 256) b.at,
      )
      (put_then off (v % 256) k1 b _ (omega arith) (
        put_then (off + 1) (v / 256 % 256) k2 _ _ (omega arith) (
          put_then (off + 2) (v / 65536 % 256) k3 _ _ (omega arith)
            (write8-in (off + 3) (v / 16777216 % 256) _ (omega arith)))))

pub write_u64_le-in :
    (off v : ℕ) (b : Buffer)
    → off + 8 ≤ b.size
    → write_u64_le off v b ≡ some (overlaid off (le64 v) b)
unfolding write_u64_le
write_u64_le-in off v b h =
    rw (overlay-append off (le32 (v % 2 ^ 32)) (le32 (v / 2 ^ 32 % 2 ^ 32)) b.at) (
      writes_then (write_u32_le (off + 0) (v % 2 ^ 32))
        (write_u32_le (off + 4) (v / 2 ^ 32 % 2 ^ 32)) b _ _
        (rw (add_zero off) (write_u32_le-in off (v % 2 ^ 32) b (omega arith)))
        (write_u32_le-in (off + 4) (v / 2 ^ 32 % 2 ^ 32) _ (omega arith)))

-- ===== src/Base/Memory/Laws.antt =====
-- Laws of the little-endian numbers and of copying.
use Prim.Native.Nat.{ℕ, zero, suc, ◌+◌, ◌*◌, ◌/◌, ◌%◌, ◌^◌, ◌≤◌, ◌<◌}
use mathlib.Core.Path.{◌≡◌, refl, ◌∙◌, ap}
use mathlib.Core.Logic.{◌≢◌, ◌⊎◌, inl, inr}
use native.Mathlib.Omega.{arith}
use course_pj.Base.Tests.{eq-cases}
use course_pj.Base.Lists.{write}
use course_pj.Base.Memory.{Bytes, read16, write16, read32, write32, read64, write64, copy_bytes}

pub write_self : (m : Bytes) (k v : ℕ) → write m k v k ≡ v
write_self m k v = ground arith

pub write-ne : (m : Bytes) (k v b : ℕ) → b ≢ k → write m k v b ≡ m b
write-ne m k v b n = ground arith

-- Two ranges of bytes that do not meet.
abbrev pub Apart : ℕ → ℕ → ℕ → ℕ → Type 0
Apart j n k m = (j + n ≤ k) ⊎ (k + m ≤ j)

pub write16-byte : (m : Bytes) (k v b : ℕ) → Apart b 1 k 2 → write16 m k v b ≡ m b
unfolding write16
write16-byte m k v b h = ground arith

pub write16-low : (m : Bytes) (k v : ℕ) → write16 m k v k ≡ v % 0x100
unfolding write16
write16-low m k v = ground arith

pub write16-high : (m : Bytes) (k v : ℕ) → write16 m k v (k + 1) ≡ v / 0x100 % 0x100
unfolding write16
write16-high m k v = ground arith

pub read16-write16 : (m : Bytes) (k v : ℕ) → read16 (write16 m k v) k ≡ v % 2 ^ 16
unfolding read16
read16-write16 m k v = omega (arith, write16-low m k v, write16-high m k v)

pub read16-write16_ne :
    (m : Bytes) (j k v : ℕ) → Apart j 2 k 2 → read16 (write16 m k v) j ≡ read16 m j
unfolding read16
read16-write16_ne m j k v h =
    omega (arith, write16-byte m k v j (omega arith), write16-byte m k v (j + 1) (omega arith))

pub write32-byte : (m : Bytes) (k v b : ℕ) → Apart b 1 k 4 → write32 m k v b ≡ m b
unfolding write32
write32-byte m k v b h =
    write16-byte (write16 m k v) (k + 2) (v / 0x1_0000) b (omega arith)
    ∙ write16-byte m k v b (omega arith)

read32-halves : (m : Bytes) (k : ℕ) → read32 m k ≡ read16 m k + read16 m (k + 2) * 0x1_0000
unfolding read32 read16
read32-halves m k = let e : k + 3 ≡ k + 2 + 1 = omega arith in omega (arith, ap m e)

read16-low : (m : Bytes) (k v : ℕ) → read16 (write32 m k v) k ≡ v % 2 ^ 16
unfolding write32
read16-low m k v =
    read16-write16_ne (write16 m k v) k (k + 2) (v / 0x1_0000) (omega arith) ∙ read16-write16 m k v

read16-high : (m : Bytes) (k v : ℕ) → read16 (write32 m k v) (k + 2) ≡ v / 2 ^ 16 % 2 ^ 16
unfolding write32
read16-high m k v = read16-write16 (write16 m k v) (k + 2) (v / 0x1_0000)

-- A number that is written is read back, modulo its width.
pub read32-write32 : (m : Bytes) (k v : ℕ) → read32 (write32 m k v) k ≡ v % 2 ^ 32
read32-write32 m k v =
    omega (arith, read32-halves (write32 m k v) k, read16-low m k v, read16-high m k v)

pub read32-write32_ne :
    (m : Bytes) (j k v : ℕ) → Apart j 4 k 4 → read32 (write32 m k v) j ≡ read32 m j
unfolding read32
read32-write32_ne m j k v h = omega (
  arith,
  write32-byte m k v j (omega arith),
  write32-byte m k v (j + 1) (omega arith),
  write32-byte m k v (j + 2) (omega arith),
  write32-byte m k v (j + 3) (omega arith),
)

-- Reading depends on four bytes.
pub read32-eq :
    (m n : Bytes) (k : ℕ) → ((b : ℕ) → k ≤ b → b < k + 4 → m b ≡ n b) → read32 m k ≡ read32 n k
unfolding read32
read32-eq m n k h = omega (
  arith,
  h k (omega arith) (omega arith),
  h (k + 1) (omega arith) (omega arith),
  h (k + 2) (omega arith) (omega arith),
  h (k + 3) (omega arith) (omega arith),
)

read64-halves : (m : Bytes) (k : ℕ) → read64 m k ≡ read32 m k + read32 m (k + 4) * 0x1_0000_0000
unfolding read64
read64-halves m k = refl

read32-low : (m : Bytes) (k v : ℕ) → read32 (write64 m k v) k ≡ v % 2 ^ 32
unfolding write64
read32-low m k v =
    read32-write32_ne (write32 m k v) k (k + 4) (v / 0x1_0000_0000) (omega arith)
    ∙ read32-write32 m k v

read32-high : (m : Bytes) (k v : ℕ) → read32 (write64 m k v) (k + 4) ≡ v / 2 ^ 32 % 2 ^ 32
unfolding write64
read32-high m k v = read32-write32 (write32 m k v) (k + 4) (v / 0x1_0000_0000)

pub read64-write64 : (m : Bytes) (k v : ℕ) → read64 (write64 m k v) k ≡ v % 2 ^ 64
read64-write64 m k v =
    omega (arith, read64-halves (write64 m k v) k, read32-low m k v, read32-high m k v)

pub write64-byte : (m : Bytes) (k v b : ℕ) → Apart b 1 k 8 → write64 m k v b ≡ m b
unfolding write64
write64-byte m k v b h =
    write32-byte (write32 m k v) (k + 4) (v / 0x1_0000_0000) b (omega arith)
    ∙ write32-byte m k v b (omega arith)

-- Copying `n` bytes to `at`.
pub copy_bytes-inside :
    (m : Bytes) (at : ℕ) (src : Bytes) (n j : ℕ) → j < n → copy_bytes m at src n (at + j) ≡ src j
unfolding copy_bytes
copy_bytes-inside m at src zero j h = absurd (omega arith)
copy_bytes-inside m at src (suc n) j h = elim (eq-cases j n) [
  | inl e ↦ rw e (write_self (copy_bytes m at src n) (at + n) (src n))
  | inr ne ↦
      write-ne (copy_bytes m at src n) (at + n) (src n) (at + j) (λ e. ne (omega arith))
      ∙ copy_bytes-inside m at src n j (omega arith)
]

pub copy_bytes-outside :
    (m : Bytes) (at : ℕ) (src : Bytes) (n b : ℕ) → Apart b 1 at n → copy_bytes m at src n b ≡ m b
unfolding copy_bytes
copy_bytes-outside m at src zero b h = refl
copy_bytes-outside m at src (suc n) b h =
    write-ne (copy_bytes m at src n) (at + n) (src n) b (λ e. omega arith)
    ∙ copy_bytes-outside m at src n b (omega arith)

pub read64-eq :
    (m n : Bytes) (k : ℕ) → ((b : ℕ) → k ≤ b → b < k + 8 → m b ≡ n b) → read64 m k ≡ read64 n k
read64-eq m n k h = omega (
  arith,
  read64-halves m k,
  read64-halves n k,
  read32-eq m n k (λ b lo hi. h b lo (omega arith)),
  read32-eq m n (k + 4) (λ b lo hi. h b (omega arith) (omega arith)),
)

pub read16-eq :
    (m n : Bytes) (k : ℕ) → ((b : ℕ) → k ≤ b → b < k + 2 → m b ≡ n b) → read16 m k ≡ read16 n k
unfolding read16
read16-eq m n k h =
    omega (arith, h k (omega arith) (omega arith), h (k + 1) (omega arith) (omega arith))

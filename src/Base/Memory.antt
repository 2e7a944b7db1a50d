-- ===== src/Base/Memory.antt =====
-- Little-endian numbers in a memory of bytes.
pub mod Laws
use Prim.Native.Nat.{ℕ, zero, suc, ◌+◌, ◌*◌, ◌/◌, ◌%◌}
use course_pj.Base.Lists.{write}

abbrev pub Bytes : Type 0
Bytes = ℕ → ℕ

unfoldable pub read16 : Bytes → ℕ → ℕ
read16 m k = m k + m (k + 1) * 0x100

unfoldable pub write16 : Bytes → ℕ → ℕ → Bytes
write16 m k v = write (write m k (v % 0x100)) (k + 1) (v / 0x100 % 0x100)

unfoldable pub read32 : Bytes → ℕ → ℕ
read32 m k = m k + m (k + 1) * 0x100 + m (k + 2) * 0x1_0000 + m (k + 3) * 0x100_0000

unfoldable pub write32 : Bytes → ℕ → ℕ → Bytes
unfolding write16
write32 m k v = write16 (write16 m k v) (k + 2) (v / 0x1_0000)

unfoldable pub read64 : Bytes → ℕ → ℕ
unfolding read32
read64 m k = read32 m k + read32 m (k + 4) * 0x1_0000_0000

unfoldable pub write64 : Bytes → ℕ → ℕ → Bytes
unfolding write32
write64 m k v = write32 (write32 m k v) (k + 4) (v / 0x1_0000_0000)

-- `for (j = 0; j < n; j++) dst[at + j] = src[j];`
unfoldable pub copy_bytes : Bytes → ℕ → Bytes → ℕ → Bytes
copy_bytes m at src zero = m
copy_bytes m at src (suc n) = write (copy_bytes m at src n) (at + n) (src n)

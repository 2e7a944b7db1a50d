-- ===== src/Str/Chunk/Fields.antt =====
-- The record id, the size and the characters of a chunk of myjql/include/str.h, as they are stored.
use course_pj.Base.{ℕ, ◌+◌, ◌%◌, ◌^◌, ◌≤◌, ◌<◌, ◌≡◌, ◌∙◌, arith, Bytes, read16, read64, write64}
use course_pj.Base.Memory.Laws.{
  Apart, read16-write16, read64-write64, write16-byte, write64-byte, read64-eq, read16-eq,
}
use course_pj.Table.{Rid}
use course_pj.Str.Chunk.{read_rid, write_rid}

-- The two numbers of a record id are patterns of their widths.
pub record IsRid (r : Rid) : Type 0 where
  pub addr : r.block_addr < 2 ^ 64
  pub idx : r.idx < 2 ^ 16

pub write_rid-byte :
    (m : Bytes) (k : ℕ) (r : Rid) (b : ℕ) → Apart b 1 k 10 → write_rid m k r b ≡ m b
unfolding write_rid
write_rid-byte m k r b h =
    write16-byte (write64 m k r.block_addr) (k + 8) r.idx b (omega arith)
    ∙ write64-byte m k r.block_addr b (omega arith)

write_rid-addr : (m : Bytes) (k : ℕ) (r : Rid) → read64 (write_rid m k r) k ≡ r.block_addr % 2 ^ 64
unfolding write_rid
write_rid-addr m k r =
    read64-eq _ (write64 m k r.block_addr) k
      (λ b lo hi. write16-byte (write64 m k r.block_addr) (k + 8) r.idx b (omega arith))
    ∙ read64-write64 m k r.block_addr

write_rid-idx : (m : Bytes) (k : ℕ) (r : Rid) → read16 (write_rid m k r) (k + 8) ≡ r.idx % 2 ^ 16
unfolding write_rid
write_rid-idx m k r = read16-write16 (write64 m k r.block_addr) (k + 8) r.idx

-- A record id whose two numbers fit their machine widths is read back from where it was written.
pub read_rid-write_rid : (m : Bytes) (k : ℕ) (r : Rid) → IsRid r → read_rid (write_rid m k r) k ≡ r
unfolding read_rid
read_rid-write_rid m k r h = ground (arith, write_rid-addr m k r, write_rid-idx m k r)

pub read_rid-eq :
    (m n : Bytes) (k : ℕ) → ((b : ℕ) → k ≤ b → b < k + 10 → m b ≡ n b) → read_rid m k ≡ read_rid n k
unfolding read_rid
read_rid-eq m n k h = ground (
  arith,
  read64-eq m n k (λ b lo hi. h b lo (omega arith)),
  read16-eq m n (k + 8) (λ b lo hi. h b (omega arith) (omega arith)),
)

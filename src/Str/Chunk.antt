-- ===== src/Str/Chunk.antt =====
-- `StringChunk` and `StringRecord` of myjql/include/str.h. A chunk is a memory of 32 bytes: the
-- record id of the next chunk, the size of this one, and its characters.
pub mod Fields
use course_pj.Base.{ℕ, ◌+◌, ◌-◌, ◌/◌, Bytes, read16, write16, read64, write64, minus_one}
use course_pj.FileIo.{page_size}
use course_pj.Table.{Rid}

-- `sizeof(RID)` and `sizeof(short)`.
abbrev pub rid_size : ℕ
rid_size = 10

abbrev pub short_size : ℕ
short_size = 2

abbrev pub str_chunk_max_size : ℕ
str_chunk_max_size = page_size / 4

abbrev pub str_chunk_max_len : ℕ
str_chunk_max_len = str_chunk_max_size - rid_size - short_size

unfoldable pub read_rid : Bytes → ℕ → Rid
read_rid m k = record { block_addr = read64 m k; idx = read16 m (k + 8) }

unfoldable pub write_rid : Bytes → ℕ → Rid → Bytes
write_rid m k rid = write16 (write64 m k rid.block_addr) (k + 8) rid.idx

unfoldable pub get_str_chunk_rid : Bytes → Rid
unfolding read_rid
get_str_chunk_rid chunk = read_rid chunk 0

unfoldable pub get_str_chunk_size : Bytes → ℕ
get_str_chunk_size chunk = read16 chunk rid_size

-- The offset of the characters in a chunk.
abbrev pub str_chunk_data : ℕ
str_chunk_data = rid_size + short_size

abbrev pub calc_str_chunk_size : ℕ → ℕ
calc_str_chunk_size len = len + rid_size + short_size

pub record StringRecord : Type 0 where
  pub chunk : Bytes
  pub idx : ℕ

-- The record ids that end a chain: that of an empty string and that of any other.
abbrev pub no_rid : Rid
no_rid = record { block_addr = minus_one; idx = 0 }

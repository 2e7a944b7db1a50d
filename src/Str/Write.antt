-- ===== src/Str/Write.antt =====
-- The functions of myjql/src/str.c that write and delete a string. `garbage` is what an
-- uninitialised chunk holds.
pub mod Chunks
use course_pj.Base.{
  ℕ, zero, suc, ◌+◌, ◌-◌, ◌%◌, ◌||◌, ◌==◌, is_neg, if◌then◌else◌, Bytes, write16, copy_bytes,
  minus_one, short_minus_one, Cmd, spin, pure, ◌>>=◌, ◌>>◌,
}
use course_pj.Table.{Table, Rid, Fuel, table_insert, table_read, table_delete}
use course_pj.Str.Chunk.{
  write_rid, rid_size, str_chunk_data, str_chunk_max_len, calc_str_chunk_size, get_str_chunk_rid,
  no_rid,
}

-- A chunk with its three parts filled in, over the bytes that it had.
unfoldable pub fill_chunk : Bytes → Rid → ℕ → Bytes → Bytes
fill_chunk chunk rid size chars =
    write_rid (write16 (copy_bytes chunk str_chunk_data chars size) rid_size size) 0 rid

-- The length of the last chunk of a string with `size` characters left.
unfoldable pub chunk_length : ℕ → ℕ
chunk_length size =
    if size % str_chunk_max_len == 0 then str_chunk_max_len else size % str_chunk_max_len

-- The loop of `write_string`: the chunks are written from the last one to the first, each with the
-- record id of the one behind it. One buffer serves for all chunks.
write_chunks : Fuel → ℕ → Bytes → Bytes → ℕ → Rid → Cmd Table Rid
unfolding fill_chunk chunk_length
write_chunks fuel zero chunk chars size rid = spin
write_chunks fuel (suc k) chunk chars size rid = if size == 0 then pure rid else do
  let n = chunk_length size
  let left = size - n
  let chunk' = fill_chunk chunk rid n (λ i. chars (left + i))
  rid' ← table_insert fuel chunk' (calc_str_chunk_size n)
  write_chunks fuel k chunk' chars left rid'

-- What the first chunk that is written is linked to.
abbrev pub last_rid : Rid
last_rid = record { block_addr = minus_one; idx = short_minus_one }

-- `size` is a 64-bit pattern; the loop is given one round more than there are characters.
unfoldable pub write_string : Fuel → Bytes → Bytes → ℕ → Cmd Table Rid
unfolding write_chunks
write_string fuel garbage chars size =
    if is_neg size || size == 0
    then table_insert fuel (write16 (write_rid garbage 0 no_rid) rid_size 0) (calc_str_chunk_size 0)
    else write_chunks fuel (size + 1) garbage chars size last_rid

-- The buffer of one chunk serves for the whole chain.
delete_chunks : Fuel → ℕ → Bytes → Rid → Cmd Table (Unit {0})
delete_chunks fuel zero chunk rid = spin
delete_chunks fuel (suc k) chunk rid = if rid.block_addr == minus_one then pure tt else do
  chunk' ← table_read rid chunk
  table_delete fuel rid
  delete_chunks fuel k chunk' (get_str_chunk_rid chunk')

-- `chunks` bounds the chunks of the string.
unfoldable pub delete_string : Fuel → ℕ → Bytes → Rid → Cmd Table (Unit {0})
unfolding delete_chunks
delete_string fuel chunks garbage rid = delete_chunks fuel chunks garbage rid

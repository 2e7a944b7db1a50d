-- ===== src/Str/Write/Chunks.antt =====
-- The chunks that `write_string` of myjql/src/str.c makes.
use course_pj.Base.{ℕ, ◌+◌, ◌-◌, ◌%◌, ◌^◌, ◌≤◌, ◌<◌, ◌≡◌, ◌∙◌, arith, Bytes, write16, copy_bytes}
use course_pj.Base.Memory.Laws.{read16-write16, write16-byte, read16-eq, copy_bytes-inside}
use course_pj.Table.{Rid}
use course_pj.Str.Chunk.{
  write_rid, rid_size, str_chunk_data, str_chunk_max_len, get_str_chunk_rid, get_str_chunk_size,
}
use course_pj.Str.Chunk.Fields.{IsRid, write_rid-byte, read_rid-write_rid}
use course_pj.Str.Write.{fill_chunk, chunk_length}

-- A chunk filled with a record id and a size of their machine widths gives back the record id, the
-- size, and the first characters up to the size, whatever it held.
pub fill_chunk-fields :
    (chunk : Bytes) (rid : Rid) (size : ℕ) (chars : Bytes)
    → IsRid rid
    → size < 2 ^ 16
    → (get_str_chunk_rid (fill_chunk chunk rid size chars) ≡ rid)
      × (get_str_chunk_size (fill_chunk chunk rid size chars) ≡ size)
      × ((j : ℕ) → j < size → fill_chunk chunk rid size chars (str_chunk_data + j) ≡ chars j)
unfolding fill_chunk get_str_chunk_rid get_str_chunk_size
fill_chunk-fields chunk rid size chars r s =
    let filled = copy_bytes chunk str_chunk_data chars size in
    let sized = write16 filled rid_size size in
    (
      read_rid-write_rid sized 0 rid r,
      read16-eq (write_rid sized 0 rid) sized rid_size
            (λ b lo hi. write_rid-byte sized 0 rid b (omega arith))
          ∙ read16-write16 filled rid_size size
          ∙ omega arith,
      λ j h.
          write_rid-byte sized 0 rid (str_chunk_data + j) (omega arith)
          ∙ write16-byte filled rid_size size (str_chunk_data + j) (omega arith)
          ∙ copy_bytes-inside chunk str_chunk_data chars size j h,
    )

-- Of a positive number of characters that are left, a chunk takes at least one, at most the twenty
-- that it has room for and at most all, and leaves a multiple of twenty.
pub chunk_length_bounds :
    (size : ℕ)
    → 0 < size
    → (0 < chunk_length size)
      × (chunk_length size ≤ str_chunk_max_len)
      × (chunk_length size ≤ size)
      × ((size - chunk_length size) % str_chunk_max_len ≡ 0)
unfolding chunk_length
chunk_length_bounds size h = ground arith

-- ===== src/Tests/Strings.antt =====
-- Record ids, chunks and records for myjql/src/str.c and myjql/src/myjql.c.
use course_pj.Base.{ℕ, ◌^◌, ◌+◌, ◌-◌, ◌%◌, ◌<◌, ◌≤◌, ◌≡◌, arith, Bytes}
use course_pj.Table.{Rid}
use course_pj.Str.Chunk.{str_chunk_data, str_chunk_max_len, get_str_chunk_rid, get_str_chunk_size}
use course_pj.Str.Chunk.Fields.{IsRid}
use course_pj.Str.Write.{fill_chunk, chunk_length}
use course_pj.Str.Write.Chunks.{fill_chunk-fields, chunk_length_bounds}
use course_pj.MyJql.{Record, rid_row_row_cmp}
use course_pj.MyJql.Compare.{rid_row_row_cmp-second}

abbrev zeros_memory : Bytes
zeros_memory i = 0

abbrev rid_at : ℕ → Rid
rid_at a = record { block_addr = a; idx = 3 }

rid_at-IsRid : (a : ℕ) → a < 2 ^ 64 → IsRid (rid_at a)
rid_at-IsRid a h = record { addr = h; idx = omega arith }

fill_chunk-fields_example :
    (get_str_chunk_rid (fill_chunk zeros_memory (rid_at 128) 2 (λ i. 65 + i)) ≡ rid_at 128)
    × (get_str_chunk_size (fill_chunk zeros_memory (rid_at 128) 2 (λ i. 65 + i)) ≡ 2)
    × ((j : ℕ)
        → j < 2
        → fill_chunk zeros_memory (rid_at 128) 2 (λ i. 65 + i) (str_chunk_data + j) ≡ 65 + j)
fill_chunk-fields_example =
    fill_chunk-fields zeros_memory (rid_at 128) 2 (λ i. 65 + i) (rid_at-IsRid 128 (omega arith))
      (omega arith)

chunk_length_bounds_example :
    (0 < chunk_length 45)
    × (chunk_length 45 ≤ str_chunk_max_len)
    × (chunk_length 45 ≤ 45)
    × ((45 - chunk_length 45) % str_chunk_max_len ≡ 0)
chunk_length_bounds_example = chunk_length_bounds 45 (omega arith)

abbrev two_strings : Record
two_strings = record { key = rid_at 128; value = rid_at 256 }

rid_row_row_cmp-second_example :
    rid_row_row_cmp zeros_memory 9 (rid_at 0) (rid_at 128)
    ≡ rid_row_row_cmp zeros_memory 9 (rid_at 0) (rid_at 256)
rid_row_row_cmp-second_example =
    rid_row_row_cmp-second zeros_memory 9 (rid_at 0) (rid_at 128) (rid_at 256) (λ e. omega arith)
      (λ e. omega arith) (λ e. omega arith)

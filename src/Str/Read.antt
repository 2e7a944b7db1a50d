-- ===== src/Str/Read.antt =====
-- The functions of myjql/src/str.c that read a string. `fuel` bounds their loops; `garbage` is what
-- an uninitialised chunk holds.
pub mod Chain
pub mod Load
use course_pj.Base.{
  ℕ, zero, suc, ◌+◌, ◌%◌, Bool, true, false, not, none, some, ◌==◌, ltb, short_lt, is_neg,
  if◌then◌else◌, Bytes, write, copy_bytes, add16, Cmd, crash, spin, pure, ◌>>=◌, ◌>>◌,
}
use course_pj.BufferPool.{get_page, release, load}
use course_pj.Block.{Block, get_item, get_item_id, get_item_id_size, item_bytes}
use course_pj.Table.{Table, Rid, on_data, table_read}
use course_pj.Str.Chunk.{get_str_chunk_rid, get_str_chunk_size, str_chunk_data, StringRecord}

unfoldable pub read_string : Bytes → Rid → Cmd Table StringRecord
read_string garbage rid = do
  chunk ← table_read rid garbage
  pure (record { chunk = chunk; idx = 0 })

unfoldable pub has_next_char : StringRecord → Bool
has_next_char r =
    if short_lt r.idx (get_str_chunk_size r.chunk)
    then true
    else not (is_neg (get_str_chunk_rid r.chunk).block_addr)

-- The loop that copies the next chunk into the record; a null item is followed if it has a byte.
copy_chunk : Block → ℕ → Bytes → Cmd Table Bytes
copy_chunk block idx chunk =
    let size = get_item_id_size (get_item_id block.data_bytes idx) in
    elim (get_item block idx) [
      | none ↦ if size == 0 then pure chunk else crash
      | some offset ↦ pure (copy_bytes chunk 0 (item_bytes block offset) size)
    ]

-- The record at the start of the next chunk.
next_chunk : StringRecord → Cmd Table StringRecord
unfolding copy_chunk
next_chunk r = do
  let rid = get_str_chunk_rid r.chunk
  block ← on_data (get_page rid.block_addr)
  b ← on_data (load block)
  chunk ← copy_chunk b rid.idx r.chunk
  on_data (release rid.block_addr)
  pure (record { chunk = chunk; idx = 0 })

-- The character, and the record behind it.
unfoldable pub next_char : StringRecord → Cmd Table (ℕ × StringRecord)
unfolding next_chunk
next_char r = do
  r' ← if short_lt r.idx (get_str_chunk_size r.chunk) then pure r else next_chunk r
  pure (r'.chunk (str_chunk_data + r'.idx), record r' { idx = add16 r'.idx 1 })

-- `x < y` of two characters, which are signed.
abbrev pub char_lt : ℕ → ℕ → Bool
char_lt x y = ltb ((x + 128) % 256) ((y + 128) % 256)

-- The results -1, 0 and 1 of a comparison.
pub data Sign : Type 0 where
  less same more : Sign

-- What is known once the characters agree and one of the strings may have ended.
compare_rest : Bool → Bool → Cmd Table Sign → Cmd Table Sign
compare_rest true false rest = pure more
compare_rest false true rest = pure less
compare_rest false false rest = pure same
compare_rest true true rest = rest

unfoldable pub compare_string_record : ℕ → StringRecord → StringRecord → Cmd Table Sign
unfolding compare_rest
compare_string_record zero a b = spin
compare_string_record (suc fuel) a b = do
  (x, a') ← next_char a
  (y, b') ← next_char b
  if char_lt x y
      then pure less
      else if char_lt y x
      then pure more
      else compare_rest (has_next_char a') (has_next_char b')
          (λ t. compare_string_record fuel a' b' t)

-- A memory of `room` bytes that a caller provides.
pub record Buffer : Type 0 where
  pub bytes : Bytes
  pub room : ℕ

-- `dest[i] = c`.
abbrev pub put : Buffer → ℕ → ℕ → Cmd Table Buffer
put dest i c =
    if ltb i dest.room then pure (record dest { bytes = write dest.bytes i c }) else crash

-- The loop of `load_string` from `i` characters on; what is left of `max_size` is its fuel.
load_chars : ℕ → ℕ → StringRecord → Buffer → Cmd Table (ℕ × Buffer)
load_chars zero i r dest = pure (i, dest)
load_chars (suc rest) i r dest =
    if not (has_next_char r)
    then pure (i, dest)
    else do (c, r') ← next_char r; dest' ← put dest i c; load_chars rest (i + 1) r' dest'

-- The number of characters and the bytes of the buffer, which gets one more than that, the final 0.
unfoldable pub load_string : StringRecord → Buffer → ℕ → Cmd Table (ℕ × Bytes)
unfolding load_chars
load_string r dest max_size = do
  (i, dest') ← load_chars max_size 0 r dest
  dest'' ← put dest' i 0
  pure (i, dest''.bytes)

-- ===== src/HashMap/LowerBound.antt =====
-- `hash_table_pop_lower_bound` of myjql/src/hash_map.c. `fuel` bounds the walk along a chain,
-- `sizes` the number of sizes that are tried.
use course_pj.Base.{
  ℕ, zero, suc, ◌%◌, ◌^◌, ◌==◌, slt, if◌then◌else◌, minus_one, sign_extend, add64, sub64, Cmd, spin,
  pure, ◌>>=◌, ◌>>◌,
}
use course_pj.BufferPool.{Ptr, get_page, release}
use course_pj.HashMap.Page.{Fsm, word, max_size, n_items, table, dir_addr, dir_index}
use course_pj.HashMap.Insert.{find_last}
use course_pj.HashMap.Pop.{hash_table_pop}

-- The last item of the chain at a directory entry is removed, and returned.
pop_entry : ℕ → ℕ → ℕ → Cmd Fsm ℕ
unfolding find_last hash_table_pop
pop_entry fuel i entry = do
  block ← get_page entry
  (block', pre_block_addr) ← find_last fuel block entry
  release pre_block_addr
  n ← word block' n_items
  ans ← word block' (table (sub64 n 1))
  n ← word block' n_items
  popped ← word block' (table (sub64 n 1))
  hash_table_pop fuel (i % 2 ^ 16) popped
  release (dir_addr i)
  release 0
  pure ans

-- The loop over the sizes from `i` on; `i` is the 64-bit pattern of the `int`.
pop_from : ℕ → ℕ → Ptr → ℕ → Cmd Fsm ℕ
unfolding pop_entry
pop_from fuel zero ctrl i = spin
pop_from fuel (suc k) ctrl i = do
  limit ← word ctrl max_size
  if slt i limit
      then (do
        dir_block ← get_page (dir_addr i)
        entry ← word dir_block (dir_index i)
        if entry == 0
            then (do release (dir_addr i); pop_from fuel k ctrl (add64 i 1))
            else pop_entry fuel i entry)
      else (do release 0; pure minus_one)

-- `sizes` bounds the number of sizes that are tried.
unfoldable pub hash_table_pop_lower_bound : ℕ → ℕ → ℕ → Cmd Fsm ℕ
unfolding pop_from
hash_table_pop_lower_bound fuel sizes size = do
  ctrl ← get_page 0
  pop_from fuel sizes ctrl (sign_extend size)

-- ===== src/HashMap/Print.antt =====
-- `print_hash_table` of myjql/src/hash_map.c. What it prints is its result. `fuel` bounds the walk
-- along a chain, `sizes` the number of sizes.
use course_pj.Base.{
  ℕ, zero, suc, ◌+◌, List, [], ◌∷◌, ◌==◌, slt, if◌then◌else◌, add64, Cmd, spin, pure, ◌>>=◌, ◌>>◌,
}
use course_pj.BufferPool.{Ptr, get_page, release}
use course_pj.HashMap.Page.{Fsm, word, max_size, next, n_items, table, dir_addr, dir_index}

-- A block of a chain, and a size with its chain.
pub record BlockLine : Type 0 where
  pub block_addr : ℕ
  pub addrs : List ℕ

pub record SizeLine : Type 0 where
  pub size : ℕ
  pub chain : List BlockLine

-- `for (j = 0; j < block->n_items; ++j)`; an index past the page is a fault.
print_addrs : ℕ → ℕ → Ptr → Cmd Fsm (List ℕ)
print_addrs zero j block = spin
print_addrs (suc fuel) j block = do
  n ← word block n_items
  if slt j n
      then (do a ← word block (table j); rest ← print_addrs fuel (j + 1) block; pure (a ∷ rest))
      else pure []

print_chain : ℕ → ℕ → Cmd Fsm (List BlockLine)
unfolding print_addrs
print_chain zero block_addr = spin
print_chain (suc fuel) block_addr = if block_addr == 0 then pure [] else do
  block ← get_page block_addr
  addrs ← print_addrs 16 0 block
  next_addr ← word block next
  release block_addr
  rest ← print_chain fuel next_addr
  pure (record { block_addr = block_addr; addrs = addrs } ∷ rest)

print_sizes : ℕ → ℕ → Ptr → ℕ → Cmd Fsm (List SizeLine)
unfolding print_chain
print_sizes fuel zero ctrl i = spin
print_sizes fuel (suc sizes) ctrl i = do
  limit ← word ctrl max_size
  if slt i limit
      then (do
        dir_block ← get_page (dir_addr i)
        entry ← word dir_block (dir_index i)
        chain ← (if entry == 0 then pure [] else print_chain fuel entry)
        release (dir_addr i)
        rest ← print_sizes fuel sizes ctrl (add64 i 1)
        pure (if entry == 0 then rest else record { size = i; chain = chain } ∷ rest))
      else pure []

unfoldable pub print_hash_table : ℕ → ℕ → Cmd Fsm (List SizeLine)
unfolding print_sizes
print_hash_table fuel sizes = do
  ctrl ← get_page 0
  lines ← print_sizes fuel sizes ctrl 0
  release 0
  pure lines

-- ===== src/HashMap/Insert.antt =====
-- `hash_table_insert` of myjql/src/hash_map.c. `fuel` bounds the loop along a chain.
pub mod Fresh
use course_pj.Base.{
  ℕ, zero, suc, ◌==◌, if◌then◌else◌, sign_extend, add64, Cmd, spin, pure, ◌>>=◌, ◌>>◌,
}
use course_pj.BufferPool.{Ptr, get_page, release}
use course_pj.HashMap.Page.{
  Fsm, hash_block_size, word, set_word, free_block_head, next, n_items, table, dir_addr, dir_index,
}

-- The last block of a chain, by the loop of `hash_table_insert` and `hash_table_pop_lower_bound`.
-- It goes on only from a full block, and loops for ever on any other that has a successor.
unfoldable pub find_last : ℕ → Ptr → ℕ → Cmd Fsm (Ptr × ℕ)
find_last zero block pre_block_addr = spin
find_last (suc fuel) block pre_block_addr = do
  after ← word block next
  if after == 0 then pure (block, pre_block_addr) else do
    n ← word block n_items
    if n == hash_block_size
        then (do
          release pre_block_addr
          after ← word block next
          block' ← get_page after
          find_last fuel block' after)
        else find_last fuel block pre_block_addr

-- `block->table[at] = addr; block->n_items++;`
pub add_item : Ptr → ℕ → ℕ → Cmd Fsm (Unit {0})
add_item block at addr = do
  set_word block (table at) addr
  n ← word block n_items
  set_word block n_items (add64 n 1)

-- A block leaves the free list and gets its first item.
pub take_block : Ptr → Ptr → ℕ → ℕ → Cmd Fsm (Unit {0})
unfolding add_item
take_block ctrl block block_addr addr = do
  after ← word block next
  set_word ctrl free_block_head after
  set_word block next 0
  add_item block 0 addr
  release block_addr

-- The end of the chain takes the item, or a new block behind it does.
extend_chain : Ptr → Ptr → ℕ → ℕ → Cmd Fsm (Unit {0})
unfolding add_item take_block
extend_chain ctrl block pre_block_addr addr = do
  n ← word block n_items
  if n == hash_block_size
      then (do
        free ← word ctrl free_block_head
        set_word block next free
        release pre_block_addr
        block' ← get_page free
        pre' ← word ctrl free_block_head
        take_block ctrl block' pre' addr)
      else (do add_item block n addr; release pre_block_addr)

-- `size` is a 16-bit pattern, `addr` a 64-bit one.
unfoldable pub hash_table_insert : ℕ → ℕ → ℕ → Cmd Fsm (Unit {0})
unfolding find_last take_block extend_chain
hash_table_insert fuel size addr = do
  let key = sign_extend size
  ctrl ← get_page 0
  dir_block ← get_page (dir_addr key)
  entry ← word dir_block (dir_index key)
  if entry == 0
      then (do
        pre_block_addr ← word ctrl free_block_head
        block ← get_page pre_block_addr
        set_word dir_block (dir_index key) pre_block_addr
        take_block ctrl block pre_block_addr addr)
      else (do
        block ← get_page entry
        (block', pre_block_addr) ← find_last fuel block entry
        extend_chain ctrl block' pre_block_addr addr)
  release (dir_addr key)
  release 0

-- ===== src/Table.antt =====
-- myjql/src/table.c and myjql/include/table.h: records in the blocks of a data file, found by a
-- record id, with the free space map beside it.
pub mod Read
use course_pj.Base.{
  ℕ, ◌/◌, none, some, ◌==◌, if◌then◌else◌, is_neg, minus_one, Bytes, copy_bytes, Cmd, ok, pure,
  lift, gets, ◌>>=◌, ◌>>◌,
}
use course_pj.FileIo.{page_size, FileInfo, Opening}
use course_pj.BufferPool.{
  BufferPool, Ptr, init_buffer_pool, close_buffer_pool, get_page, release, load, modify,
}
use course_pj.Block.{
  Block, init_block, get_item, get_item_id, get_item_id_size, item_bytes, new_item, delete_item,
  get_block_size,
}
use course_pj.HashMap.Page.{Words, Fsm}
use course_pj.HashMap.Insert.{hash_table_insert}
use course_pj.HashMap.Pop.{hash_table_pop}
use course_pj.HashMap.LowerBound.{hash_table_pop_lower_bound}
use course_pj.HashMap.Init.{directory_pages, hash_table_init, hash_table_close}

pub record Table : Type 0 where
  pub data_pool : BufferPool Block
  pub fsm_pool : Fsm

-- A record id: the ten bytes of `RID` are a 64-bit and a 16-bit pattern.
pub record Rid : Type 0 where
  pub block_addr : ℕ
  pub idx : ℕ

-- What bounds the loops: the blocks of a chain, and the sizes of the free space map.
pub record Fuel : Type 0 where
  pub chain : ℕ
  pub sizes : ℕ

module _ {A : Type 0} where
  abbrev pub on_data : Cmd (BufferPool Block) A → Cmd Table A
  on_data = lift (λ t. t.data_pool) (λ p t. record t { data_pool = p })

  abbrev pub on_fsm : Cmd Fsm A → Cmd Table A
  on_fsm = lift (λ t. t.fsm_pool) (λ p t. record t { fsm_pool = p })

-- `EMPTY_PAGE` read as a block.
abbrev pub empty_block : Block
empty_block = record { n_items = 0; head_ptr = 0; tail_ptr = 0; data_bytes = λ _. 0 }

unfoldable pub table_init :
    FileInfo Block → Opening Block → FileInfo Words → Opening Words → Cmd Table (Unit {0})
table_init data_file data_opening fsm_file fsm_opening = do
  on_data (λ pool. ok tt (init_buffer_pool empty_block data_file data_opening pool))
  on_fsm (hash_table_init fsm_file fsm_opening directory_pages)

unfoldable pub table_close : Cmd Table (Unit {0})
table_close = do on_data (λ pool. ok tt (close_buffer_pool pool)); on_fsm hash_table_close

unfoldable pub table_get_total_blocks : Cmd Table ℕ
table_get_total_blocks = gets (λ t. t.data_pool.file.length / page_size)

unfoldable pub table_block_get_total_items : ℕ → Cmd Table ℕ
table_block_get_total_items block_addr =
    on_data (do block ← get_page block_addr; b ← load block; release block_addr; pure b.n_items)

-- The bytes of an item over those of the buffer `dest`; a null pointer leaves the buffer alone.
pub copy_item : Block → ℕ → Bytes → Bytes
copy_item block idx dest = elim (get_item block idx) [
  | none ↦ dest
  | some offset ↦
      copy_bytes dest 0 (item_bytes block offset)
        (get_item_id_size (get_item_id block.data_bytes idx))
]

-- The new contents of the buffer `dest`.
unfoldable pub table_read : Rid → Bytes → Cmd Table Bytes
unfolding copy_item
table_read rid dest = on_data (do
  block ← get_page rid.block_addr
  b ← load block
  release rid.block_addr
  pure (copy_item b rid.idx dest))

-- The two branches of `table_insert` from `new_item` on.
insert_item : Fuel → Ptr → ℕ → Bytes → ℕ → Cmd Table Rid
insert_item fuel block addr src size = do
  b ← on_data (load block)
  let (b', idx) = new_item b src size
  on_data (modify block (λ _. b'))
  on_fsm (hash_table_insert fuel.chain (get_block_size b') addr)
  on_data (release addr)
  pure (record { block_addr = addr; idx = idx })

new_block : Fuel → Bytes → ℕ → Cmd Table Rid
unfolding insert_item
new_block fuel src size = do
  addr ← gets (λ t. t.data_pool.file.length)
  block ← on_data (get_page addr)
  on_data (modify block init_block)
  insert_item fuel block addr src size

unfoldable pub table_insert : Fuel → Bytes → ℕ → Cmd Table Rid
unfolding insert_item new_block
table_insert fuel src size = do
  target_addr ← on_fsm (hash_table_pop_lower_bound fuel.chain fuel.sizes size)
  if target_addr == minus_one
      then new_block fuel src size
      else do block ← on_data (get_page target_addr); insert_item fuel block target_addr src size

unfoldable pub table_delete : Fuel → Rid → Cmd Table (Unit {0})
table_delete fuel rid = if is_neg rid.block_addr then pure tt else do
  block ← on_data (get_page rid.block_addr)
  b ← on_data (load block)
  let b' = delete_item b rid.idx
  on_data (modify block (λ _. b'))
  on_fsm (hash_table_pop fuel.chain (get_block_size b) rid.block_addr)
  on_fsm (hash_table_insert fuel.chain (get_block_size b') rid.block_addr)
  on_data (release rid.block_addr)

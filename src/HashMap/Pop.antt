-- ===== src/HashMap/Pop.antt =====
-- `hash_table_pop` of myjql/src/hash_map.c. `fuel` bounds the walk along a chain.
use course_pj.Base.{
  ℕ, zero, suc, ◌+◌, ◌==◌, if◌then◌else◌, sign_extend, sub64, Cmd, spin, pure, ◌>>=◌, ◌>>◌,
}
use course_pj.BufferPool.{Ptr, get_page, release}
use course_pj.HashMap.Page.{
  Fsm, word, set_word, free_block_last, next, n_items, table, dir_addr, dir_index,
}

-- What the search of `hash_table_pop` has found so far: `target_item` and `target_block_addr`.
pub record Target : Type 0 where
  pub item : ℕ
  pub block_addr : ℕ

-- The inner loops of `hash_table_pop`: the last entry that is `addr` wins.
scan_items : ℕ → ℕ → Ptr → ℕ → ℕ → Target → Cmd Fsm Target
scan_items zero i block pre_block_addr addr t = pure t
scan_items (suc n) i block pre_block_addr addr t = do
  entry ← word block (table i)
  let t' = if entry == addr then record { item = i; block_addr = pre_block_addr } else t
  scan_items n (i + 1) block pre_block_addr addr t'

-- The end of the walk along a chain: the last block, its address, the address of the block before
-- it (0 if there is none), and the item that was looked for.
pub record Walk : Type 0 where
  pub block : Ptr
  pub pre_block_addr : ℕ
  pub lp_block_addr : ℕ
  pub target : Target

walk_chain : ℕ → ℕ → Walk → Cmd Fsm Walk
unfolding scan_items
walk_chain zero addr w = spin
walk_chain (suc fuel) addr w = do
  after ← word w.block next
  if after == 0 then pure w else do
    n ← word w.block n_items
    t ← scan_items n 0 w.block w.pre_block_addr addr w.target
    release w.pre_block_addr
    after ← word w.block next
    block' ← get_page after
    walk_chain fuel addr (record {
      block = block';
      pre_block_addr = after;
      lp_block_addr = w.pre_block_addr;
      target = t;
    })

-- The directory entry of a chain whose only block has become empty is cleared.
clear_entry : Ptr → ℕ → ℕ → Cmd Fsm (Unit {0})
clear_entry dir_block index pre_block_addr = do
  entry ← word dir_block index
  if entry == pre_block_addr then set_word dir_block index 0 else pure tt

-- A block that has become empty leaves its chain.
unlink_block : Ptr → Ptr → ℕ → Walk → Cmd Fsm (Unit {0})
unfolding clear_entry
unlink_block ctrl dir_block index w = do
  clear_entry dir_block index w.pre_block_addr
  if w.lp_block_addr == 0 then pure tt else (do
    lp_block ← get_page w.lp_block_addr
    set_word lp_block next 0
    release w.lp_block_addr)
  set_word w.block next 0
  last ← word ctrl free_block_last
  block ← get_page last
  set_word block next w.target.block_addr
  last ← word ctrl free_block_last
  release last

-- The last item of the chain fills the place of the removed one.
remove_target : Ptr → Ptr → ℕ → Walk → Cmd Fsm (Unit {0})
unfolding unlink_block
remove_target ctrl dir_block index w = if w.target.block_addr == 0 then pure tt else do
  last_block ← get_page w.target.block_addr
  n ← word w.block n_items
  moved ← word w.block (table (sub64 n 1))
  set_word last_block (table w.target.item) moved
  n ← word w.block n_items
  set_word w.block (table (sub64 n 1)) 0
  n ← word w.block n_items
  set_word w.block n_items (sub64 n 1)
  n ← word w.block n_items
  if n == 0 then unlink_block ctrl dir_block index w else pure tt
  release w.target.block_addr

-- On an empty entry the function returns with both of its pages still referenced.
unfoldable pub hash_table_pop : ℕ → ℕ → ℕ → Cmd Fsm (Unit {0})
unfolding scan_items walk_chain remove_target
hash_table_pop fuel size addr = do
  let key = sign_extend size
  ctrl ← get_page 0
  dir_block ← get_page (dir_addr key)
  entry ← word dir_block (dir_index key)
  if entry == 0 then pure tt else do
    block ← get_page entry
    let start : Walk = record {
      block = block;
      pre_block_addr = entry;
      lp_block_addr = 0;
      target = record { item = 0; block_addr = 0 };
    }
    w ← walk_chain fuel addr start
    n ← word w.block n_items
    t ← scan_items n 0 w.block w.pre_block_addr addr w.target
    remove_target ctrl dir_block (dir_index key) (record w { target = t })
    release w.pre_block_addr
    release (dir_addr key)
    release 0

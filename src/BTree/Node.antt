-- ===== src/BTree/Node.antt =====
-- The pages of the index, of myjql/include/b_tree.h, and the commands on them. The state of the
-- index is its buffer pool together with the state `T` on which the comparisons run.
use course_pj.Base.{
  ℕ, ◌+◌, ◌%◌, ◌^◌, ◌==◌, ltb, if◌then◌else◌, write, minus_one, Cmd, ok, pure, crash, lift, ◌>>=◌,
  ◌>>◌,
}
pub use course_pj.Base.{int_minus_one, int_is_neg}
use course_pj.FileIo.{FileInfo, Opening}
use course_pj.BufferPool
use course_pj.BufferPool.{BufferPool, Ptr, init_buffer_pool, close_buffer_pool, load, modify}
use course_pj.Table.{Rid}
use course_pj.Str.Chunk.{no_rid}

-- `DEGREE` is 3 and `LIMIT_M_2` is 3 at 128 bytes a page; `order` is `2 * DEGREE`.
abbrev pub order : ℕ
order = 6

abbrev pub limit_m_2 : ℕ
limit_m_2 = 3

-- A page of the index. The control block lies over the first two words of a node: `root_node` is
-- read as `n` and `free_node_head` as `next`.
pub record BNode : Type 0 where
  pub n : ℕ
  pub next : ℕ
  pub child : ℕ → ℕ
  pub row_ptr : ℕ → Rid
  pub leaf : ℕ

abbrev pub zero_rid : Rid
zero_rid = record { block_addr = 0; idx = 0 }

-- `EMPTY_PAGE` read as a node.
abbrev pub empty_node : BNode
empty_node = record { n = 0; next = 0; child = λ _. 0; row_ptr = λ _. zero_rid; leaf = 0 }

pub record Index (T : Type 0) : Type 0 where
  pub pool : BufferPool BNode
  pub tables : T

module _ {T : Type 0} where
  abbrev pub on_pool : {A : Type 0} → Cmd (BufferPool BNode) A → Cmd (Index T) A
  on_pool = lift (λ s. s.pool) (λ p s. record s { pool = p })

  abbrev pub on_tables : {A : Type 0} → Cmd T A → Cmd (Index T) A
  on_tables = lift (λ s. s.tables) (λ t s. record s { tables = t })

  abbrev pub get_page : ℕ → Cmd (Index T) Ptr
  get_page addr = on_pool (BufferPool.get_page addr)

  abbrev pub release : ℕ → Cmd (Index T) (Unit {0})
  release addr = on_pool (BufferPool.release addr)

  abbrev pub node : Ptr → Cmd (Index T) BNode
  node p = on_pool (load p)

  abbrev pub get_n : Ptr → Cmd (Index T) ℕ
  get_n p = node p >>= λ x. pure x.n

  abbrev pub set_n : Ptr → ℕ → Cmd (Index T) (Unit {0})
  set_n p v = on_pool (modify p λ x. record x { n = v })

  abbrev pub get_next : Ptr → Cmd (Index T) ℕ
  get_next p = node p >>= λ x. pure x.next

  abbrev pub set_next : Ptr → ℕ → Cmd (Index T) (Unit {0})
  set_next p v = on_pool (modify p λ x. record x { next = v })

  -- An index outside the arrays of a node is a fault.
  abbrev pub get_child : Ptr → ℕ → Cmd (Index T) ℕ
  get_child p i = if ltb i order then (node p >>= λ x. pure (x.child i)) else crash

  abbrev pub set_child : Ptr → ℕ → ℕ → Cmd (Index T) (Unit {0})
  set_child p i v =
      if ltb i order then on_pool (modify p λ x. record x { child = write x.child i v }) else crash

  abbrev pub get_row : Ptr → ℕ → Cmd (Index T) Rid
  get_row p i = if ltb i order then (node p >>= λ x. pure (x.row_ptr i)) else crash

  abbrev pub set_row : Ptr → ℕ → Rid → Cmd (Index T) (Unit {0})
  set_row p i v =
      if ltb i order
      then on_pool (modify p λ x. record x { row_ptr = write x.row_ptr i v })
      else crash

  abbrev pub get_root : Ptr → Cmd (Index T) ℕ
  get_root = get_n

  abbrev pub set_root : Ptr → ℕ → Cmd (Index T) (Unit {0})
  set_root = set_n

-- The loop that clears the entries of a node: `child[i] = -1; row_ptr[i] = null_rid`.
unfoldable pub clear_entries : BNode → BNode
clear_entries x = record x {
  child = λ i. if ltb i order then minus_one else x.child i;
  row_ptr = λ i. if ltb i order then no_rid else x.row_ptr i;
}

module _ {T : Type 0} where
  init_root : Cmd (Index T) (Unit {0})
  unfolding clear_entries
  init_root = do
    ctrl ← get_page 0
    set_root ctrl minus_one
    set_next ctrl 256
    root ← get_page 128
    on_pool (modify root λ x. record x { leaf = b'T'; n = 0; next = minus_one })
    on_pool (modify root clear_entries)
    release 128
    set_root ctrl 128
    release 0

  -- `fresh` and `opening` are what `open_file` is given.
  unfoldable pub b_tree_init : FileInfo BNode → Opening BNode → Cmd (Index T) (Unit {0})
  unfolding init_root
  b_tree_init fresh opening = do
    on_pool (λ pool. ok tt (init_buffer_pool empty_node fresh opening pool))
    length ← on_pool (λ pool. ok pool.file.length pool)
    if length == 0 then init_root else pure tt

  unfoldable pub b_tree_close : Cmd (Index T) (Unit {0})
  b_tree_close = on_pool (λ pool. ok tt (close_buffer_pool pool))

  unfoldable pub create_new_node : Cmd (Index T) ℕ
  unfolding clear_entries
  create_new_node = do
    ctrl ← get_page 0
    new_addr ← get_next ctrl
    set_next ctrl ((new_addr + 128) % 2 ^ 64)
    new ← get_page new_addr
    on_pool (modify new clear_entries)
    set_next new minus_one
    set_n new 0
    release new_addr
    release 0
    pure new_addr

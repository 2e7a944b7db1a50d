-- ===== src/BTree/Insert.antt =====
-- `b_tree_insert`, `RecursiveInsert`, `SplitNode` and `FindSibling` of myjql/src/b_tree.c. `cmp` is
-- the comparison of two rows; `fuel` bounds the depth of the recursion.
use course_pj.Base.{
  ℕ, zero, suc, ◌+◌, ◌-◌, ◌/◌, Bool, true, not, ◌==◌, ltb, if◌then◌else◌, minus_one, add64, sub64,
  Cmd, pure, spin, ◌>>=◌, ◌>>◌,
}
use course_pj.BufferPool.{Ptr}
use course_pj.Table.{Rid}
use course_pj.Str.Chunk.{no_rid}
use course_pj.BTree.Node.{
  Index, order, get_page, release, get_n, set_n, get_child, set_child, get_row, set_row, get_root,
  set_root, create_new_node,
}
use course_pj.BTree.Element.{insert_element_key, insert_element_node}
use course_pj.BTree.Search.{compare_row, find_end}
use course_pj.BTree.Move.{move_entries}

-- `Limit` of `RecursiveInsert` and `FindSibling`.
abbrev limit : ℕ
limit = order - 1

module _ {T : Type 0} where
  -- The loop of `SplitNode` in `m` rounds: the entries from `j` on go to the new node, from `k` on.
  split_entries : ℕ → ℕ → ℕ → Ptr → Ptr → Cmd (Index T) (Unit {0})
  split_entries zero j k x new = pure tt
  split_entries (suc m) j k x new = do
    first ← get_child x 0
    if first == minus_one
        then pure tt
        else (do moved ← get_child x j; set_child new k moved; set_child x j minus_one)
    row ← get_row x j
    set_row new k row
    set_row x j no_rid
    n ← get_n new
    set_n new (add64 n 1)
    n ← get_n x
    set_n x (sub64 n 1)
    split_entries m (j + 1) (k + 1) x new

  -- The two halves of the root go under a new root.
  grow_root : ℕ → ℕ → Cmd (Index T) ℕ
  grow_root x_addr new_addr = do
    root_addr ← create_new_node
    insert_element_node root_addr x_addr 0
    insert_element_node root_addr new_addr 1
    release x_addr
    release new_addr
    pure root_addr

  unfoldable pub split_node : ℕ → ℕ → ℕ → Cmd (Index T) ℕ
  unfolding split_entries grow_root
  split_node parent_addr x_addr i = do
    new_addr ← create_new_node
    x ← get_page x_addr
    new ← get_page new_addr
    n ← get_n x
    split_entries (n - n / 2) (n / 2) 0 x new
    if parent_addr == minus_one then grow_root x_addr new_addr else do
      insert_element_node parent_addr new_addr (i + 1)
      release x_addr
      release new_addr
      pure x_addr

  -- The sibling if it has room, else what was chosen before.
  sibling_with_room : Ptr → ℕ → Bool → ℕ → Cmd (Index T) ℕ
  sibling_with_room parent i allowed otherwise = do
    child_addr ← get_child parent i
    child ← get_page child_addr
    chosen ←
        if not allowed
        then pure otherwise
        else (do n ← get_n child; if ltb n limit then get_child parent i else pure otherwise)
    release child_addr
    pure chosen

  unfoldable pub find_sibling : ℕ → ℕ → Cmd (Index T) ℕ
  unfolding sibling_with_room
  find_sibling parent_addr i = do
    parent ← get_page parent_addr
    sibling ← if i == 0 then sibling_with_room parent 1 true minus_one else (do
      left ← sibling_with_room parent (i - 1) true minus_one
      n ← get_n parent
      sibling_with_room parent (i + 1) (ltb (i + 1) n) left)
    release parent_addr
    pure sibling

  module _ (cmp : Rid → Rid → Cmd T ℕ) where
    -- What `RecursiveInsert` does with a node that has become too large.
    relieve : ℕ → ℕ → ℕ → ℕ → Cmd (Index T) ℕ
    relieve fuel parent_addr t_addr i =
        if parent_addr == minus_one
        then (do release t_addr; split_node parent_addr t_addr i)
        else (do
          sibling ← find_sibling parent_addr i
          if sibling == minus_one
              then (do release t_addr; split_node parent_addr t_addr i)
              else (do move_entries fuel cmp t_addr sibling parent_addr i 1; pure t_addr))

    -- The end of `RecursiveInsert`; `t` is the pointer that was taken at its start.
    finish_insert : ℕ → ℕ → ℕ → Ptr → ℕ → Cmd (Index T) ℕ
    unfolding relieve
    finish_insert fuel parent_addr t_addr t i = do
      n ← get_n t
      t_addr' ← if ltb limit n then relieve fuel parent_addr t_addr i else pure t_addr
      if parent_addr == minus_one then pure tt else (do
        parent ← get_page parent_addr
        first ← get_row t 0
        set_row parent i first
        release parent_addr)
      release t_addr'
      pure t_addr'

    -- `depth` bounds the recursion, `fuel` what is called on the way.
    unfoldable pub recursive_insert : ℕ → ℕ → ℕ → Rid → ℕ → ℕ → Cmd (Index T) ℕ
    unfolding finish_insert
    recursive_insert fuel zero t_addr key i parent_addr = spin
    recursive_insert fuel (suc depth) t_addr key i parent_addr = do
      t ← get_page t_addr
      j ← find_end (cmp key) (order + 1) t 0
      first ← get_child t 0
      if first == minus_one
          then (do
            c ← compare_row (cmp key) t j
            if c == 0 then (do release t_addr; pure t_addr) else (do
              release t_addr
              t_addr' ← insert_element_key parent_addr t_addr key i j
              finish_insert fuel parent_addr t_addr' t i))
          else (do
            let at = if j == 0 then 0 else j - 1
            child ← get_child t at
            child' ← recursive_insert fuel depth child key at t_addr
            set_child t at child'
            finish_insert fuel parent_addr t_addr t i)

    unfoldable pub b_tree_insert : ℕ → Rid → Cmd (Index T) Rid
    unfolding recursive_insert
    b_tree_insert fuel rid = do
      ctrl ← get_page 0
      last_root ← get_root ctrl
      get_page last_root
      root ← recursive_insert fuel fuel last_root rid 0 minus_one
      set_root ctrl root
      release last_root
      release 0
      pure rid

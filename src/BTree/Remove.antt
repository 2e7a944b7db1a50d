-- ===== src/BTree/Remove.antt =====
-- `b_tree_delete`, `RecursiveRemove`, `FindSiblingn_M_2` and `MergeNode` of myjql/src/b_tree.c.
-- `cmp` is the comparison of two rows; `fuel` bounds the depth of the recursion.
use course_pj.Base.{
  ℕ, zero, suc, ◌+◌, ◌-◌, Bool, true, not, ◌&&◌, ◌==◌, ltb, if◌then◌else◌, minus_one, Cmd, pure,
  spin, ◌>>=◌, ◌>>◌,
}
use course_pj.BufferPool.{Ptr}
use course_pj.Table.{Rid}
use course_pj.BTree.Node.{
  Index, order, limit_m_2, get_page, release, get_n, get_child, set_child, get_root, set_root,
}
use course_pj.BTree.Search.{find_position, misses_key, step_back}
use course_pj.BTree.Adjust.{remove_element_key, remove_element_node}
use course_pj.BTree.Move.{move_entries}

module _ {T : Type 0} where
  -- The sibling at place `i` and that place, if it has an entry to spare.
  sibling_to_spare : Ptr → ℕ → Bool → ℕ × ℕ → Cmd (Index T) (ℕ × ℕ)
  sibling_to_spare parent i allowed otherwise = do
    child_addr ← get_child parent i
    child ← get_page child_addr
    chosen ← if not allowed then pure otherwise else (do
      n ← get_n child
      if ltb limit_m_2 n
          then (get_child parent i >>= λ sibling. pure (sibling, i))
          else pure otherwise)
    release child_addr
    pure chosen

  -- The sibling, and the new value of `*j`.
  unfoldable pub find_sibling_n_m_2 : ℕ → ℕ → ℕ → Cmd (Index T) (ℕ × ℕ)
  unfolding sibling_to_spare
  find_sibling_n_m_2 parent_addr i j = do
    parent ← get_page parent_addr
    chosen ← if i == 0 then sibling_to_spare parent 1 true (minus_one, j) else (do
      left ← sibling_to_spare parent (i - 1) true (minus_one, j)
      n ← get_n parent
      sibling_to_spare parent (i + 1) (ltb (i + 1) n) left)
    release parent_addr
    pure chosen

  module _ (cmp : Rid → Rid → Cmd T ℕ) where
    unfoldable pub merge_node : ℕ → ℕ → ℕ → ℕ → ℕ → Cmd (Index T) ℕ
    merge_node fuel parent_addr x_addr s_addr i = do
      get_page parent_addr
      x ← get_page x_addr
      s ← get_page s_addr
      n ← get_n s
      if ltb limit_m_2 n
          then (do move_entries fuel cmp s_addr x_addr parent_addr i 1; pure tt)
          else (do
            all ← get_n x
            move_entries fuel cmp x_addr s_addr parent_addr i all
            remove_element_node parent_addr x_addr i
            pure tt)
      release parent_addr
      release x_addr
      release s_addr
      pure parent_addr

    -- A node that has become too small takes an entry from a sibling, or is merged with one.
    refill : ℕ → ℕ → ℕ → ℕ → ℕ → Cmd (Index T) ℕ
    unfolding merge_node
    refill fuel parent_addr t_addr i j = do
      (sibling, j') ← find_sibling_n_m_2 parent_addr i j
      if not (sibling == minus_one)
          then (do move_entries fuel cmp sibling t_addr parent_addr j' 1; pure t_addr)
          else (do
            parent ← get_page parent_addr
            sibling ← get_child parent (if i == 0 then 1 else i - 1)
            release parent_addr
            parent_addr' ← merge_node fuel parent_addr t_addr sibling i
            parent ← get_page parent_addr'
            release t_addr
            t_addr' ← get_child parent i
            release parent_addr'
            pure t_addr')

    -- `NeedAdjust` and what follows it; `t` is the pointer that was taken at the start.
    finish_remove : ℕ → ℕ → ℕ → Ptr → ℕ → ℕ → Cmd (Index T) ℕ
    unfolding refill
    finish_remove fuel parent_addr t_addr t i j = do
      first ← get_child t 0
      n ← get_n t
      if parent_addr == minus_one
          then (if not (first == minus_one) && ltb n 2
              then (do release t_addr; get_child t 0)
              else (do release t_addr; pure t_addr))
          else (do
            t_addr' ← if ltb n limit_m_2 then refill fuel parent_addr t_addr i j else pure t_addr
            release t_addr'
            pure t_addr')

    -- `depth` bounds the recursion, `fuel` what is called on the way.
    unfoldable pub recursive_remove : ℕ → ℕ → ℕ → Rid → ℕ → ℕ → Cmd (Index T) ℕ
    unfolding finish_remove
    recursive_remove fuel zero t_addr key i parent_addr = spin
    recursive_remove fuel (suc depth) t_addr key i parent_addr = do
      t ← get_page t_addr
      (j, _) ← find_position (cmp key) (order + 1) t 0
      first ← get_child t 0
      if first == minus_one
          then (do
            missing ← misses_key (cmp key) t j
            if missing then (do release t_addr; pure t_addr) else (do
              t_addr' ← remove_element_key fuel cmp parent_addr t_addr i j
              finish_remove fuel parent_addr t_addr' t i j))
          else (do
            j' ← step_back (cmp key) t j
            child ← get_child t j'
            child' ← recursive_remove fuel depth child key j' t_addr
            set_child t j' child'
            finish_remove fuel parent_addr t_addr t i j')

    unfoldable pub b_tree_delete : ℕ → Rid → Cmd (Index T) (Unit {0})
    unfolding recursive_remove
    b_tree_delete fuel rid = do
      ctrl ← get_page 0
      last_root ← get_root ctrl
      get_page last_root
      root ← recursive_remove fuel fuel last_root rid 0 minus_one
      set_root ctrl root
      release last_root
      release 0

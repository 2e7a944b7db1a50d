-- ===== src/BTree/Search.antt =====
-- The walk over the entries of a node, and `b_tree_search` and `RecursiveSearch` of
-- myjql/src/b_tree.c. `cmp` is the callback with the key that is looked for, `fuel` bounds the
-- depth of the recursion.
use course_pj.Base.{
  ℕ, zero, suc, ◌+◌, ◌-◌, Bool, true, false, not, ◌&&◌, ◌==◌, ltb, if◌then◌else◌, minus_one, Cmd,
  pure, spin, ◌>>=◌, ◌>>◌,
}
use course_pj.BufferPool.{Ptr}
use course_pj.Table.{Rid}
use course_pj.Str.Chunk.{no_rid}
use course_pj.BTree.Node.{
  Index, order, on_tables, int_is_neg, get_page, release, get_n, get_child, get_row, get_root,
}

module _ {T : Type 0} (cmp : Rid → Cmd T ℕ) where
  unfoldable pub compare_row : Ptr → ℕ → Cmd (Index T) ℕ
  compare_row t j = do row ← get_row t j; on_tables (cmp row)

  -- `cmp(key, row_ptr[j]) == 1 || cmp(key, row_ptr[j]) == 0`.
  unfoldable pub not_below : Ptr → ℕ → Cmd (Index T) Bool
  unfolding compare_row
  not_below t j = do
    c ← compare_row t j
    if c == 1 then pure true else do c ← compare_row t j; pure (c == 0)

  -- The loop that stops at an equal key: the place where it ends, and whether the key is there.
  unfoldable pub find_position : ℕ → Ptr → ℕ → Cmd (Index T) (ℕ × Bool)
  unfolding not_below compare_row
  find_position zero t j = spin
  find_position (suc fuel) t j = do
    n ← get_n t
    if not (ltb j n) then pure (j, false) else do
      go ← not_below t j
      if not go then pure (j, false) else do
        c ← compare_row t j
        if c == 0 then pure (j, true) else find_position fuel t (j + 1)

  -- The loop of the insertion, which goes on behind an equal key.
  unfoldable pub find_end : ℕ → Ptr → ℕ → Cmd (Index T) ℕ
  unfolding not_below
  find_end zero t j = spin
  find_end (suc fuel) t j = do
    n ← get_n t
    if not (ltb j n)
        then pure j
        else do go ← not_below t j; if not go then pure j else find_end fuel t (j + 1)

  -- `cmp(key, row_ptr[j]) != 0 || j == n`: the leaf does not hold the key.
  unfoldable pub misses_key : Ptr → ℕ → Cmd (Index T) Bool
  unfolding compare_row
  misses_key t j = do
    c ← compare_row t j
    if not (c == 0) then pure true else do n ← get_n t; pure (j == n)

  -- `if ((j == n || cmp(key, row_ptr[j]) < 0) && j > 0) j--;`
  unfoldable pub step_back : Ptr → ℕ → Cmd (Index T) ℕ
  unfolding compare_row
  step_back t j = do
    n ← get_n t
    back ← if j == n then pure true else (do c ← compare_row t j; pure (int_is_neg c))
    pure (if back && ltb 0 j then j - 1 else j)

  unfoldable pub recursive_search : ℕ → ℕ → Cmd (Index T) Rid
  unfolding find_position misses_key step_back
  recursive_search zero t_addr = spin
  recursive_search (suc fuel) t_addr = do
    t ← get_page t_addr
    (j, _) ← find_position (order + 1) t 0
    first ← get_child t 0
    if first == minus_one
        then (do
          missing ← misses_key t j
          if missing
              then (do release t_addr; pure no_rid)
              else (do ans ← get_row t j; release t_addr; pure ans))
        else (do
          j' ← step_back t j
          child ← get_child t j'
          ans ← recursive_search fuel child
          release t_addr
          pure ans)

  unfoldable pub b_tree_search : ℕ → Cmd (Index T) Rid
  unfolding recursive_search
  b_tree_search fuel = do
    ctrl ← get_page 0
    root ← get_root ctrl
    ans ← recursive_search fuel root
    release 0
    pure ans

-- ===== src/BTree/Element.antt =====
-- `InsertElement` of myjql/src/b_tree.c: a key enters a leaf, or a node enters its parent.
use course_pj.Base.{
  ℕ, zero, suc, ◌+◌, ◌-◌, ◌==◌, ltb, if◌then◌else◌, minus_one, add64, Cmd, pure, ◌>>=◌, ◌>>◌,
}
use course_pj.BufferPool.{Ptr}
use course_pj.Table.{Rid}
use course_pj.BTree.Node.{
  Index, get_page, release, get_n, set_n, set_next, get_child, set_child, get_row, set_row,
}

module _ {T : Type 0} where
  -- `k = n - 1; while (k >= j) { row_ptr[k + 1] = row_ptr[k]; k--; }` in `m` rounds, the last of
  -- them at `j`.
  shift_rows : ℕ → ℕ → Ptr → Cmd (Index T) (Unit {0})
  shift_rows zero j x = pure tt
  shift_rows (suc m) j x = do
    moved ← get_row x (j + m)
    set_row x (j + m + 1) moved
    shift_rows m j x

  -- The same loop over both arrays.
  shift_entries : ℕ → ℕ → Ptr → Cmd (Index T) (Unit {0})
  shift_entries zero i p = pure tt
  shift_entries (suc m) i p = do
    moved ← get_child p (i + m)
    set_child p (i + m + 1) moved
    moved ← get_row p (i + m)
    set_row p (i + m + 1) moved
    shift_entries m i p

  -- The node that precedes the new one in the chain of leaves, and the one that follows it.
  link_leaf : Ptr → ℕ → Ptr → ℕ → Cmd (Index T) (Unit {0})
  link_leaf parent x_addr x i = do
    if ltb 0 i
        then (do
          child_addr ← get_child parent (i - 1)
          child ← get_page child_addr
          set_next child x_addr
          release child_addr)
        else pure tt
    after ← get_child parent i
    set_next x after

  insert_key : ℕ → Ptr → Ptr → Rid → ℕ → ℕ → Cmd (Index T) (Unit {0})
  unfolding shift_rows
  insert_key parent_addr parent x key i j = do
    n ← get_n x
    shift_rows (n - j) j x
    set_row x j key
    if parent_addr == minus_one then pure tt else (do first ← get_row x 0; set_row parent i first)
    n ← get_n x
    set_n x (add64 n 1)

  insert_node : Ptr → ℕ → Ptr → ℕ → Cmd (Index T) (Unit {0})
  unfolding shift_entries link_leaf
  insert_node parent x_addr x i = do
    first ← get_child x 0
    if first == minus_one then link_leaf parent x_addr x i else pure tt
    n ← get_n parent
    shift_entries (n - i) i parent
    key ← get_row x 0
    set_row parent i key
    set_child parent i x_addr
    n ← get_n parent
    set_n parent (add64 n 1)

  -- `isKey` is 1: `key` goes to place `j` of the node at `x_addr`, the `i`-th child of its parent.
  unfoldable pub insert_element_key : ℕ → ℕ → Rid → ℕ → ℕ → Cmd (Index T) ℕ
  unfolding insert_key
  insert_element_key parent_addr x_addr key i j = do
    x ← get_page x_addr
    parent ← get_page parent_addr
    insert_key parent_addr parent x key i j
    release x_addr
    release parent_addr
    pure x_addr

  -- `isKey` is 0: the node at `x_addr` becomes the `i`-th child.
  unfoldable pub insert_element_node : ℕ → ℕ → ℕ → Cmd (Index T) ℕ
  unfolding insert_node
  insert_element_node parent_addr x_addr i = do
    x ← get_page x_addr
    parent ← get_page parent_addr
    insert_node parent x_addr x i
    release x_addr
    release parent_addr
    pure x_addr

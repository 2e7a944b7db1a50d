-- ===== src/BTree/Adjust.antt =====
-- `ReAdj` and `ReMove` of myjql/src/b_tree.c: an entry leaves a node, and the keys above it that
-- named the entry are replaced. `fuel` bounds the depth of the recursion.
use course_pj.Base.{
  ℕ, zero, suc, ◌+◌, ◌-◌, ◌&&◌, ◌==◌, ltb, if◌then◌else◌, minus_one, sub64, Cmd, pure, spin, ◌>>=◌,
  ◌>>◌,
}
use course_pj.BufferPool.{Ptr}
use course_pj.Table.{Rid}
use course_pj.Str.Chunk.{no_rid}
use course_pj.BTree.Node.{
  Index, order, get_page, release, get_n, set_n, set_next, get_child, set_child, get_row, set_row,
  get_root,
}
use course_pj.BTree.Search.{compare_row, find_position, misses_key, step_back}

module _ {T : Type 0} where
  -- `cmp` compares with the key that is replaced by `target`.
  unfoldable pub re_adj : ℕ → (Rid → Cmd T ℕ) → Rid → ℕ → Cmd (Index T) ℕ
  re_adj zero cmp target t_addr = spin
  re_adj (suc fuel) cmp target t_addr = do
    t ← get_page t_addr
    (j, found) ← find_position cmp (order + 1) t 0
    let j_rec : ℕ = if found then j else 0
    first ← get_child t 0
    if first == minus_one then (do misses_key cmp t j; release t_addr; pure t_addr) else (do
      j' ← step_back cmp t j
      c ← compare_row cmp t j_rec
      if c == 0 then set_row t j_rec target else pure tt
      child ← get_child t j'
      child' ← re_adj fuel cmp target child
      set_child t j' child'
      release t_addr
      pure t_addr)

  -- `for (k = j + 1; k < n; k++) row_ptr[k - 1] = row_ptr[k];` in `m` rounds.
  pull_rows : ℕ → ℕ → Ptr → Cmd (Index T) (Unit {0})
  pull_rows zero j x = pure tt
  pull_rows (suc m) j x = do moved ← get_row x (j + 1); set_row x j moved; pull_rows m (j + 1) x

  -- The same loop over both arrays.
  pull_entries : ℕ → ℕ → Ptr → Cmd (Index T) (Unit {0})
  pull_entries zero i p = pure tt
  pull_entries (suc m) i p = do
    moved ← get_child p (i + 1)
    set_child p i moved
    moved ← get_row p (i + 1)
    set_row p i moved
    pull_entries m (i + 1) p

  -- `isKey` is 1: the key at place `j` leaves the node at `x_addr`, the `i`-th child of its parent.
  unfoldable pub remove_element_key : ℕ → (Rid → Rid → Cmd T ℕ) → ℕ → ℕ → ℕ → ℕ → Cmd (Index T) ℕ
  unfolding pull_rows re_adj
  remove_element_key fuel cmp parent_addr x_addr i j = do
    parent ← get_page parent_addr
    x ← get_page x_addr
    n ← get_n x
    pull_rows (n - (j + 1)) j x
    n ← get_n x
    set_row x (sub64 n 1) no_rid
    temp ← get_row parent i
    first ← get_row x 0
    set_row parent i first
    first ← get_row x 0
    if first.block_addr == minus_one then pure tt else (do
      ctrl ← get_page 0
      root ← get_root ctrl
      first ← get_row x 0
      re_adj fuel (cmp temp) first root
      release 0)
    n ← get_n x
    set_n x (sub64 n 1)
    release parent_addr
    release x_addr
    pure x_addr

  -- The leaf before the removed one is linked to the one behind it.
  unlink_leaf : Ptr → ℕ → Cmd (Index T) (Unit {0})
  unlink_leaf parent i = do
    child_addr ← get_child parent (i - 1)
    child ← get_page child_addr
    after ← get_child parent (i + 1)
    set_next child after
    release child_addr

  -- `isKey` is 0: the `i`-th child leaves its parent.
  unfoldable pub remove_element_node : ℕ → ℕ → ℕ → Cmd (Index T) ℕ
  unfolding pull_entries unlink_leaf
  remove_element_node parent_addr x_addr i = do
    parent ← get_page parent_addr
    x ← get_page x_addr
    first ← get_child x 0
    if (first == minus_one) && ltb 0 i then unlink_leaf parent i else pure tt
    n ← get_n parent
    pull_entries (n - (i + 1)) i parent
    n ← get_n parent
    set_child parent (sub64 n 1) minus_one
    set_row parent (sub64 n 1) no_rid
    set_n parent (sub64 n 1)
    release parent_addr
    release x_addr
    pure x_addr

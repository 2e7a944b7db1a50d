-- ===== src/BTree/Move.antt =====
-- `Move`, `FindMostRight` and `FindMostLeft` of myjql/src/b_tree.c: entries go over to a sibling.
-- `fuel` bounds the depth of the walks.
use course_pj.Base.{
  ℕ, zero, suc, ◌+◌, ◌==◌, ltb, none, some, if◌then◌else◌, minus_one, sub64, Cmd, pure, spin, ◌>>=◌,
  ◌>>◌,
}
use course_pj.BufferPool.{Ptr}
use course_pj.Table.{Rid}
use course_pj.BTree.Node.{
  Index, int_minus_one, on_tables, get_page, release, get_n, set_next, get_child, get_row, set_row,
}
use course_pj.BTree.Element.{insert_element_key, insert_element_node}
use course_pj.BTree.Adjust.{remove_element_key, remove_element_node}

module _ {T : Type 0} where
  -- The last child of a node.
  last_child : Ptr → Cmd (Index T) ℕ
  last_child p = do n ← get_n p; get_child p (sub64 n 1)

  most_right_loop : ℕ → ℕ → Ptr → Cmd (Index T) ℕ
  unfolding last_child
  most_right_loop zero addr p = spin
  most_right_loop (suc fuel) addr none = do release addr; pure addr
  most_right_loop (suc fuel) addr (some i) = do
    child ← last_child (some i)
    if child == minus_one then (do release addr; pure addr) else do
      release addr
      addr' ← last_child (some i)
      p' ← get_page addr'
      most_right_loop fuel addr' p'

  unfoldable pub find_most_right : ℕ → ℕ → Cmd (Index T) ℕ
  unfolding most_right_loop
  find_most_right fuel addr = do p ← get_page addr; most_right_loop fuel addr p

  -- The test is of the first child, the step goes to the last one.
  most_left_loop : ℕ → ℕ → Ptr → Cmd (Index T) ℕ
  unfolding last_child
  most_left_loop zero addr p = spin
  most_left_loop (suc fuel) addr none = do release addr; pure addr
  most_left_loop (suc fuel) addr (some i) = do
    child ← get_child (some i) 0
    if child == minus_one then (do release addr; pure addr) else do
      release addr
      addr' ← last_child (some i)
      p' ← get_page addr'
      most_left_loop fuel addr' p'

  unfoldable pub find_most_left : ℕ → ℕ → Cmd (Index T) ℕ
  unfolding most_left_loop
  find_most_left fuel addr = do p ← get_page addr; most_left_loop fuel addr p

  -- The last leaf of one subtree is linked to what `FindMostLeft` finds in the other.
  link_subtrees : ℕ → ℕ → ℕ → Cmd (Index T) (Unit {0})
  link_subtrees fuel front_addr back_addr = do
    right_addr ← find_most_right fuel front_addr
    left_addr ← find_most_left fuel back_addr
    right ← get_page right_addr
    set_next right left_addr
    release right_addr

  module _ (fuel : ℕ) (cmp : Rid → Rid → Cmd T ℕ) (src_addr dst_addr parent_addr : ℕ) where
    -- The last child of the source becomes the first one of the destination.
    move_node_forward : ℕ → Ptr → Cmd (Index T) (Unit {0})
    unfolding last_child
    move_node_forward zero src = pure tt
    move_node_forward (suc m) src = do
      child_addr ← last_child src
      n ← get_n src
      remove_element_node src_addr child_addr (sub64 n 1)
      insert_element_node dst_addr child_addr 0
      move_node_forward m src

    move_key_forward : ℕ → Ptr → ℕ → Cmd (Index T) (Unit {0})
    move_key_forward zero src i = pure tt
    move_key_forward (suc m) src i = do
      n ← get_n src
      key ← get_row src (sub64 n 1)
      n ← get_n src
      remove_element_key fuel cmp parent_addr src_addr i (sub64 n 1)
      insert_element_key parent_addr dst_addr key (i + 1) 0
      move_key_forward m src i

    -- The first child of the source becomes the last one of the destination.
    move_node_back : ℕ → Ptr → Ptr → Cmd (Index T) (Unit {0})
    move_node_back zero src dst = pure tt
    move_node_back (suc m) src dst = do
      child_addr ← get_child src 0
      remove_element_node src_addr child_addr 0
      n ← get_n dst
      insert_element_node dst_addr child_addr n
      move_node_back m src dst

    move_key_back : ℕ → Ptr → Ptr → ℕ → Cmd (Index T) (Unit {0})
    move_key_back zero src dst i = pure tt
    move_key_back (suc m) src dst i = do
      key ← get_row src 0
      remove_element_key fuel cmp parent_addr src_addr i 0
      n ← get_n dst
      insert_element_key parent_addr dst_addr key (sub64 i 1) n
      move_key_back m src dst i

    -- The source stands in front of the destination.
    move_forward : Ptr → Ptr → Ptr → ℕ → ℕ → Cmd (Index T) (Unit {0})
    unfolding move_node_forward move_key_forward link_subtrees
    move_forward src dst parent i m = do
      first ← get_child src 0
      if first == minus_one then move_key_forward m src i else move_node_forward m src
      first ← get_row dst 0
      set_row parent (i + 1) first
      n ← get_n src
      if ltb 0 n then link_subtrees fuel src_addr dst_addr else pure tt

    move_back : Ptr → Ptr → Ptr → ℕ → ℕ → Cmd (Index T) (Unit {0})
    unfolding move_node_back move_key_back link_subtrees
    move_back src dst parent i m = do
      first ← get_child src 0
      if first == minus_one then move_key_back m src dst i else move_node_back m src dst
      first ← get_row src 0
      set_row parent i first
      n ← get_n src
      if ltb 0 n then link_subtrees fuel dst_addr src_addr else pure tt

    -- `Move` of `m` entries; the source is the `i`-th child of the parent.
    unfoldable pub move_entries : ℕ → ℕ → Cmd (Index T) ℕ
    unfolding move_forward move_back
    move_entries i m = do
      src ← get_page src_addr
      dst ← get_page dst_addr
      parent ← get_page parent_addr
      a ← get_row src 0
      b ← get_row dst 0
      c ← on_tables (cmp a b)
      if c == int_minus_one then move_forward src dst parent i m else move_back src dst parent i m
      release src_addr
      release dst_addr
      release parent_addr
      pure parent_addr

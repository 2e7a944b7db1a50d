-- ===== src/BTree/Print.antt =====
-- The queue and `Print_b_tree` of myjql/src/b_tree.c. What is printed is the result. `rounds_left`
-- bounds the nodes that are visited.
use course_pj.Base.{
  ℕ, zero, suc, ◌+◌, ◌-◌, ◌%◌, ◌^◌, List, [], ◌∷◌, ◌++◌, ◌==◌, ltb, if◌then◌else◌, minus_one, Cmd,
  spin, pure, ◌>>=◌, ◌>>◌,
}
use course_pj.BufferPool.{Ptr}
use course_pj.Table.{Rid}
use course_pj.BTree.Node.{Index, order, get_page, release, get_n, get_child, get_row, get_root}

-- The chain of nodes from `front` to `rear`, and the count, an `int`.
pub record Queue : Type 0 where
  pub items : List ℕ
  pub size : ℕ

abbrev pub empty_queue : Queue
empty_queue = record { items = []; size = 0 }

-- An empty queue gives -1 and stays.
unfoldable pub get_q_front : Queue → ℕ × Queue
get_q_front q = elim q.items [
  | [] ↦ (minus_one, q)
  | addr ∷ items ↦ (addr, record { items = items; size = (q.size + (2 ^ 32 - 1)) % 2 ^ 32 })
]

unfoldable pub q_push_back : Queue → ℕ → Queue
q_push_back q addr = record { items = q.items ++ (addr ∷ []); size = (q.size + 1) % 2 ^ 32 }

pub record NodeLine : Type 0 where
  pub addr : ℕ
  pub rows : List Rid

module _ {T : Type 0} where
  -- `if (p->child[i] != -1) q_push_back(&q, p->child[i]);`
  push_child : Ptr → ℕ → Queue → Cmd (Index T) Queue
  unfolding q_push_back
  push_child p i q = do
    child ← get_child p i
    pure (if child == minus_one then q else q_push_back q child)

  -- The rows of a node from the `i`-th on, and the place behind them; an index outside of the arrays
  -- is a fault.
  print_rows : ℕ → Ptr → ℕ → Queue → Cmd (Index T) (List Rid × ℕ × Queue)
  unfolding push_child
  print_rows zero p i q = spin
  print_rows (suc fuel) p i q = do
    n ← get_n p
    if ltb i n
        then (do
          row ← get_row p i
          q' ← push_child p i q
          (rows, last, q'') ← print_rows fuel p (i + 1) q'
          pure (row ∷ rows, last, q''))
        else pure ([], i, q)

  print_nodes : ℕ → Queue → Cmd (Index T) (List NodeLine)
  unfolding get_q_front print_rows
  print_nodes zero q = spin
  print_nodes (suc rounds_left) q = if q.size == 0 then pure [] else do
    let (addr, q') = get_q_front q
    p ← get_page addr
    (rows, last, q'') ← print_rows (order + 2) p 0 q'
    q''' ← push_child p last q''
    release addr
    lines ← print_nodes rounds_left q'''
    pure (record { addr = addr; rows = rows } ∷ lines)

  -- The reference to page 0 is not given back.
  unfoldable pub print_b_tree : ℕ → Cmd (Index T) (List NodeLine)
  unfolding print_nodes
  print_b_tree rounds_left = do
    ctrl ← get_page 0
    root ← get_root ctrl
    print_nodes rounds_left (q_push_back empty_queue root)

-- ===== src/Tests/Trees.antt =====
-- An index of a root and two leaves for myjql/src/b_tree.c: rows 3 and 4, and rows 6 and 7. The key
-- that is looked for is 7, then 5.
use mathlib.Core.Path.{subst}
use course_pj.Base.{
  ℕ, ◌+◌, ◌*◌, ◌<◌, ◌≡◌, refl, sym, ◌≢◌, inl, inr, true, false, ◌==◌, ltb, if◌then◌else◌, arith, ok,
  Cmd, List, replicate, minus_one, eq-cases,
}
use course_pj.FileIo.{FileInfo}
use course_pj.BufferPool.{BufferPool}
use course_pj.BufferPool.Init.{fresh_pool, fresh_pool-IsPool, fresh_pool-view}
use course_pj.BufferPool.Refs.{zeros}
use course_pj.BufferPool.Session.{Session}
use course_pj.Table.{Rid}
use course_pj.Str.Chunk.{no_rid}
use course_pj.BTree.Node.{BNode, empty_node, int_minus_one}
use course_pj.BTree.Position.{Compares}
use course_pj.BTree.Lookup.{IsTree, leaf, inner, lookup}
use course_pj.BTree.Keys.{Row, here, below, LeafOrdered, ChildOrdered, Ordered}
use course_pj.BTree.Found.{
  Searched, b_tree_search-lookup, b_tree_search-finds, b_tree_search-absent,
}

abbrev row : ℕ → Rid
row k = record { block_addr = 0; idx = k }

-- The comparison of a key with the number of a row.
abbrev sign : ℕ → Rid → ℕ
sign key r = if ltb r.idx key then 1 else if r.idx == key then 0 else int_minus_one

abbrev compare_key : ℕ → Rid → Cmd (Unit {0}) ℕ
compare_key key r t = ok (sign key r) t

abbrev NoCondition : Unit {0} → Type 0
NoCondition t = Unit {0}

compare_key-Compares : (key : ℕ) → Compares (compare_key key) (sign key) NoCondition
compare_key-Compares key = record { runs = λ r t it. (t, refl, it) }

abbrev control : BNode
control = record { n = 128; next = 512; child = λ i. minus_one; row_ptr = λ i. row 1; leaf = 0 }

abbrev root : BNode
root = record {
  n = 2;
  next = minus_one;
  child = λ i. 256 + 128 * i;
  row_ptr = λ i. row (3 + 3 * i);
  leaf = 0;
}

abbrev left : BNode
left = record { n = 2; next = 384; child = λ i. minus_one; row_ptr = λ i. row (3 + i); leaf = 0 }

abbrev right : BNode
right = record {
  n = 2;
  next = minus_one;
  child = λ i. minus_one;
  row_ptr = λ i. row (6 + i);
  leaf = 0;
}

abbrev nodes : ℕ → BNode
nodes a = if a == 0 then control else if a == 128 then root else if a == 256 then left else right

abbrev level : ℕ → ℕ
level a = if a == 0 then 2 else if a == 128 then 1 else 0

leaves : (i : ℕ) → i < 2 → IsTree nodes 512 level (256 + 128 * i)
leaves i lt = elim (eq-cases i 0) [
  | inl e ↦
      subst (λ j. IsTree nodes 512 level (256 + 128 * j)) (sym e)
        (leaf 256 refl (omega arith) (omega arith) refl)
  | inr n ↦
      let e : i ≡ 1 = omega arith in
      subst (λ j. IsTree nodes 512 level (256 + 128 * j)) (sym e)
        (leaf 384 refl (omega arith) (omega arith) refl)
]

tree : IsTree nodes 512 level 128
tree =
    inner 128 refl (omega arith) (omega arith) (omega arith) (λ e. omega (arith, e))
      (λ i lt. ground arith) leaves

abbrev index_file : FileInfo BNode
index_file = record {
  is_open = true;
  length = 512;
  pages = nodes;
  faulty = λ a. false;
  torn = λ a p. p;
}

abbrev pool : BufferPool BNode
pool = fresh_pool empty_node index_file

abbrev unreferenced : List ℕ
unreferenced = replicate 8 0

pool-Session : Session 512 unreferenced nodes pool
pool-Session = record {
  valid =
      fresh_pool-IsPool empty_node index_file (record { whole = refl; room = omega arith })
        (λ a. refl);
  length = refl;
  short = omega arith;
  refs_are = refl;
  pages = λ a al lt. fresh_pool-view empty_node index_file a al;
}

all-free : 2 < zeros unreferenced
unfolding zeros
all-free = omega arith

b_tree_search-lookup_example :
    Searched
      (compare_key 7)
      (sign 7)
      NoCondition
      (compare_key-Compares 7)
      512
      nodes
      level
      2
      unreferenced
      pool
      tt
      (lookup (sign 7) nodes 2 128)
b_tree_search-lookup_example =
    b_tree_search-lookup (compare_key 7) (sign 7) NoCondition (compare_key-Compares 7) 512 nodes
      level 2 unreferenced pool tt (omega arith) tree (omega arith) (omega arith) all-free
      pool-Session tt

-- No row of the left leaf is the key 7, and no row at all is the key 5.
left-small : (r : Rid) → Row nodes r 256 → sign 7 r ≢ 0
left-small r (here _ i _ lt m) e = ground arith
left-small r (below _ i n lt deeper) e = n refl

left-differs : (r : Rid) → Row nodes r 256 → sign 5 r ≢ 0
left-differs r (here _ i _ lt m) e = ground arith
left-differs r (below _ i n lt deeper) e = n refl

right-differs : (r : Rid) → Row nodes r 384 → sign 5 r ≢ 0
right-differs r (here _ i _ lt m) e = ground arith
right-differs r (below _ i n lt deeper) e = n refl

all-differ : (r : Rid) → Row nodes r 128 → sign 5 r ≢ 0
all-differ r (here _ i is_leaf lt m) e = omega (arith, is_leaf)
all-differ r (below _ i n lt deeper) e = elim (eq-cases i 0) [
  | inl z ↦ left-differs r (subst (λ j. Row nodes r (256 + 128 * j)) z deeper) e
  | inr z ↦
      let o : i ≡ 1 = omega arith in
      right-differs r (subst (λ j. Row nodes r (256 + 128 * j)) o deeper) e
]

-- Every page but the root is a leaf.
only-root : (a : ℕ) → (nodes a).child 0 ≢ minus_one → a ≡ 128
only-root a n = ground arith

leaf-LeafOrdered : (a : ℕ) → (nodes a).child 0 ≡ minus_one → LeafOrdered (sign 7) (nodes a)
leaf-LeafOrdered a is_leaf = record { before = λ i k lt e u. ground arith }

root-ChildOrdered :
    (i : ℕ) (r : Rid)
    → i < 2
    → Row nodes r (256 + 128 * i)
    → sign 7 r ≡ 0
    → ChildOrdered (sign 7) root i
root-ChildOrdered i r lt deeper e = elim (eq-cases i 0) [
  | inl z ↦ absurd (left-small r (subst (λ j. Row nodes r (256 + 128 * j)) z deeper) e)
  | inr z ↦ record {
    before = λ k u. ground arith;
    own = inr (inl (ground arith));
    behind = λ k u w. absurd (omega arith);
  }
]

nodes-Ordered : Ordered (sign 7) nodes
nodes-Ordered = record {
  leaf_ordered = leaf-LeafOrdered;
  child_ordered = λ a i r is_inner lt deeper e.
      let at = only-root a is_inner in
      subst (λ b. ChildOrdered (sign 7) (nodes b) i) (sym at)
        (root-ChildOrdered i r (subst (λ b. i < (nodes b).n) at lt)
          (subst (λ b. Row nodes r ((nodes b).child i)) at deeper) e);
}

seven : Row nodes (row 7) 128
seven = below 128 1 (λ e. omega (arith, e)) (omega arith) (here 384 1 refl (omega arith) refl)

b_tree_search-finds_example :
    Searched
      (compare_key 7)
      (sign 7)
      NoCondition
      (compare_key-Compares 7)
      512
      nodes
      level
      2
      unreferenced
      pool
      tt
      (row 7)
b_tree_search-finds_example =
    b_tree_search-finds (compare_key 7) (sign 7) NoCondition (compare_key-Compares 7) 512 nodes
      level 2 unreferenced pool tt (row 7) (omega arith) tree (omega arith) (omega arith) all-free
      pool-Session tt nodes-Ordered seven refl

b_tree_search-absent_example :
    Searched
      (compare_key 5)
      (sign 5)
      NoCondition
      (compare_key-Compares 5)
      512
      nodes
      level
      2
      unreferenced
      pool
      tt
      no_rid
b_tree_search-absent_example =
    b_tree_search-absent (compare_key 5) (sign 5) NoCondition (compare_key-Compares 5) 512 nodes
      level 2 unreferenced pool tt (omega arith) tree (omega arith) (omega arith) all-free
      pool-Session tt all-differ

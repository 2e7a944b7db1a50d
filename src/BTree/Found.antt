-- ===== src/BTree/Found.antt =====
-- `b_tree_search` of myjql/src/b_tree.c on an index whose pages form a tree.
use mathlib.Core.Path.{subst}
use course_pj.Base.{
  run_bind, ℕ, zero, suc, ◌+◌, ◌<◌, ◌≡◌, refl, sym, ◌≢◌, inl, inr, some, arith, Cmd, ok, pure,
  minus_one, ==-ne, List,
}
use course_pj.BufferPool
use course_pj.BufferPool.{BufferPool, Ptr, load}
use course_pj.BufferPool.Refs.{inc, dec-inc, zeros, zeros-inc}
use course_pj.BufferPool.Session.{Session, cached, get_page-Session, load-Session, release-Session}
use course_pj.Table.{Rid}
use course_pj.Str.Chunk.{no_rid}
use course_pj.BTree.Node.{BNode, get_page, release, get_root}
use course_pj.BTree.Search.{recursive_search, b_tree_search}
use course_pj.BTree.Position.{Compares, get_n-Gives}
use course_pj.BTree.Keys.{Row, Ordered, lookup-found, lookup-cases}
use course_pj.BTree.Lookup.{
  child_place, leaf_answer, lookup, IsTree, leaf, inner, child_place-lt, run_pool,
}
use course_pj.BTree.Descend.{Answers, search_leaf, search_inner}

lookup-leaf :
    (c : Rid → ℕ) (v : ℕ → BNode) (depth a : ℕ)
    → (v a).child 0 ≡ minus_one
    → lookup c v (suc depth) a ≡ leaf_answer c (v a)
unfolding lookup
lookup-leaf c v depth a e = rw e refl

lookup-inner :
    (c : Rid → ℕ) (v : ℕ → BNode) (depth a : ℕ)
    → (v a).child 0 ≢ minus_one
    → lookup c v (suc depth) a ≡ lookup c v depth ((v a).child (child_place c (v a)))
unfolding lookup
lookup-inner c v depth a n = rw (==-ne ((v a).child 0) minus_one n) refl

module _ {T : Type 0} (cmp : Rid → Cmd T ℕ) (c : Rid → ℕ) (I : T → Type 0) (good : Compares cmp c I)
    (len : ℕ) (v : ℕ → BNode) (level : ℕ → ℕ) where
  recursive_search-lookup :
      (depth a : ℕ) (rs : List ℕ) (pool : BufferPool BNode) (t : T)
      → IsTree v len level a
      → level a < depth
      → level a < zeros rs
      → Session len rs v pool
      → I t
      → Answers cmp c I good len v level
          (recursive_search cmp depth a (record { pool = pool; tables = t }))
          a
          (lookup c v depth a)
          rs
          pool
  recursive_search-lookup zero a rs pool t tree d free s it = absurd (omega arith)
  recursive_search-lookup (suc depth) a rs pool t (leaf _ al lt n is_leaf) d free s it =
      subst
        (λ (r : Rid).
          Answers cmp c I good len v level
            (recursive_search cmp (suc depth) a (record { pool = pool; tables = t })) a r rs pool)
        (sym (lookup-leaf c v depth a is_leaf))
        (search_leaf cmp c I good len v level depth a rs pool t al lt n is_leaf (omega arith) s it)
  recursive_search-lookup (suc depth) a rs pool t (inner _ al lt n pos is_inner lower trees) d free
        s it =
      let way = child_place-lt c (v a) pos in
      let down = lower (child_place c (v a)) way in
      subst
        (λ (r : Rid).
          Answers cmp c I good len v level
            (recursive_search cmp (suc depth) a (record { pool = pool; tables = t })) a r rs pool)
        (sym (lookup-inner c v depth a is_inner))
        (search_inner cmp c I good len v level depth a rs pool t al lt n pos is_inner down
          (omega arith) s it _
          (λ i new t' s' it'.
            recursive_search-lookup depth ((v a).child (child_place c (v a))) (inc i rs) new t'
              (trees (child_place c (v a)) way) (omega arith) (omega (arith, zeros-inc i rs)) s'
              it'))

  -- Page 0 names a root, the root of a tree of nodes of at most five rows whose levels go down from
  -- node to child and are below that of page 0. With more fuel than the level of the root, at least
  -- two slots more than that level without a reference, and a comparison that gives the same result
  -- for a row whenever it is called, `b_tree_search` returns what `lookup` finds on the pages alone,
  -- changes no page and gives all its references back.
  pub b_tree_search-lookup :
      (depth : ℕ) (rs : List ℕ) (pool : BufferPool BNode) (t : T)
      → 0 < len
      → IsTree v len level (v 0).n
      → level (v 0).n < level 0
      → level (v 0).n < depth
      → level (v 0).n + 1 < zeros rs
      → Session len rs v pool
      → I t
      → (pool' : BufferPool BNode) × (t' : T) × (b_tree_search cmp depth
            (record { pool = pool; tables = t })
          ≡ ok (lookup c v depth (v 0).n) (record { pool = pool'; tables = t' }))
        × Session len rs v pool'
        × I t'
  unfolding b_tree_search
  b_tree_search-lookup depth rs pool t some_page tree above d free s it =
      let (i, p1, e1, s1, at, _) = get_page-Session 0 s (omega arith) some_page (omega arith) in
      let reads = load-Session i 0 s1 (omega arith) some_page (cached at) in
      let (t1, e2, i1) = get_n-Gives p1 I (some i) (v 0) reads t it in
      let (p2, t2, e3, s2, i2, keep) =
        recursive_search-lookup depth (v 0).n (inc i rs) p1 t1 tree d
          (omega (arith, zeros-inc i rs)) s1 i1 in
      let (p3, e4, s3, _, _) = release-Session i 0 s2 (omega arith) some_page (keep i 0 above at) in
      let ans = lookup c v depth (v 0).n in
      (
        p3,
        t2,
        run_bind (get_page 0) _ _ _ (some i) _
            (run_pool (BufferPool.get_page 0) pool p1 t (some i) e1)
            (run_bind (get_root (some i)) _ _ _ _ _ e2 (
              run_bind (recursive_search cmp depth (v 0).n) _ _ _ _ _ e3 (
                run_bind (release 0) (λ _. pure ans) _ _ tt _
                  (run_pool (BufferPool.release 0) p2 p3 t2 tt e4) refl))),
        subst (λ (r : List ℕ). Session len r v p3) (dec-inc i rs) s3,
        i2,
      )

  -- What `b_tree_search` leaves behind besides its answer: the pages and the references of before.
  abbrev pub Searched : ℕ → List ℕ → BufferPool BNode → T → Rid → Type 0
  Searched depth rs pool t r =
      (pool' : BufferPool BNode) × (t' : T) × (b_tree_search cmp depth
          (record { pool = pool; tables = t })
        ≡ ok r (record { pool = pool'; tables = t' }))
      × Session len rs v pool'
      × I t'

  -- Page 0 names a root, the root of a tree of nodes of at most five rows whose levels go down from
  -- node to child and are below that of page 0, with the rows in the order of the comparison. With
  -- more fuel than the level of the root, at least two slots more than that level without a
  -- reference, and a comparison that gives the same result for a row whenever it is called,
  -- `b_tree_search` returns any row of a leaf of the tree that equals the key, changes no page and
  -- gives all its references back.
  pub b_tree_search-finds :
      (depth : ℕ) (rs : List ℕ) (pool : BufferPool BNode) (t : T) (r : Rid)
      → 0 < len
      → IsTree v len level (v 0).n
      → level (v 0).n < level 0
      → level (v 0).n < depth
      → level (v 0).n + 1 < zeros rs
      → Session len rs v pool
      → I t
      → Ordered c v
      → Row v r (v 0).n
      → c r ≡ 0
      → Searched depth rs pool t r
  b_tree_search-finds depth rs pool t r some_page tree above d free s it o row e =
      subst (Searched depth rs pool t) (lookup-found c v len level depth (v 0).n r o tree d row e)
        (b_tree_search-lookup depth rs pool t some_page tree above d free s it)

  -- Page 0 names a root, the root of a tree of nodes of at most five rows whose levels go down from
  -- node to child and are below that of page 0. With more fuel than the level of the root, at least
  -- two slots more than that level without a reference, and a comparison that gives the same result
  -- for a row whenever it is called, `b_tree_search` returns the null record id if no row of a leaf
  -- of the tree equals the key, changes no page and gives all its references back.
  pub b_tree_search-absent :
      (depth : ℕ) (rs : List ℕ) (pool : BufferPool BNode) (t : T)
      → 0 < len
      → IsTree v len level (v 0).n
      → level (v 0).n < level 0
      → level (v 0).n < depth
      → level (v 0).n + 1 < zeros rs
      → Session len rs v pool
      → I t
      → ((r : Rid) → Row v r (v 0).n → c r ≢ 0)
      → Searched depth rs pool t no_rid
  b_tree_search-absent depth rs pool t some_page tree above d free s it absent =
      subst (Searched depth rs pool t)
        (elim (lookup-cases c v len level depth (v 0).n tree d) [
          | inl e ↦ e
          | inr (e, row) ↦ absurd (absent _ row e)
        ])
        (b_tree_search-lookup depth rs pool t some_page tree above d free s it)

-- ===== src/BTree/Descend.antt =====
-- `RecursiveSearch` of myjql/src/b_tree.c on one node: the page is pinned, walked and given back.
use mathlib.Core.Path.{subst}
use course_pj.Base.{
  run_bind, ℕ, suc, ◌+◌, ◌%◌, ◌<◌, ◌≡◌, refl, sym, ap, ◌≢◌, inl, inr, Bool, not, ◌||◌, ◌==◌,
  if◌then◌else◌, some, arith, Cmd, Res, ok, pure, ◌>>=◌, ◌>>◌, minus_one, Bool-cases, ==-ne, List,
}
use course_pj.BufferPool
use course_pj.BufferPool.{BufferPool, Ptr, load}
use course_pj.BufferPool.Refs.{inc, dec-inc, zeros}
use course_pj.BufferPool.Session.{
  Session, Points, cached, get_page-Session, load-Session, release-Session,
}
use course_pj.Table.{Rid}
use course_pj.Str.Chunk.{no_rid}
use course_pj.BTree.Node.{Index, BNode, order, get_page, release, get_row, get_child}
use course_pj.BTree.Search.{find_position, misses_key, step_back, recursive_search}
use course_pj.BTree.Position.{
  Compares, get_row-Gives, get_child-Gives, find_position-Gives, misses_key-Gives, step_back-Gives,
}
use course_pj.BTree.Lookup.{
  key_place, child_place, leaf_answer, position_le, child_place-lt, run_pool,
}

module _ {T : Type 0} (cmp : Rid → Cmd T ℕ) (c : Rid → ℕ) (I : T → Type 0) (good : Compares cmp c I)
    (len : ℕ) (v : ℕ → BNode) (level : ℕ → ℕ) where
  -- The result of a search: its answer, with the pages and the references of before, and with the
  -- pointers to the pages above it.
  abbrev pub Answers : Res (Index T) Rid → ℕ → Rid → List ℕ → BufferPool BNode → Type 0
  Answers result a ans rs pool =
      (pool' : BufferPool BNode) × (t' : T) × (result
        ≡ ok ans (record { pool = pool'; tables = t' }))
      × Session len rs v pool'
      × I t'
      × ((j b : ℕ) → level a < level b → Points j b pool → Points j b pool')

  -- The end of a search: the page of the node is given back.
  finish :
      (i a : ℕ) (ans : Rid) (rs : List ℕ) (pool old : BufferPool BNode) (t : T)
      → a % 128 ≡ 0
      → a < len
      → Session len (inc i rs) v pool
      → I t
      → Points i a pool
      → ((j b : ℕ) → level a < level b → Points j b old → Points j b pool)
      → Answers ((release a >> pure ans) (record { pool = pool; tables = t })) a ans rs old
  finish i a ans rs pool old t al lt s it at kept =
      let (new, e, s', _, keep) = release-Session i a s al lt at in
      (
        new,
        t,
        run_bind (release a) (λ _. pure ans) _ _ tt _
            (run_pool (BufferPool.release a) pool new t tt e) refl,
        subst (λ (r : List ℕ). Session len r v new) (dec-inc i rs) s',
        it,
        λ j b above q. keep j b (λ e. omega (arith, ap level e)) (kept j b above q),
      )

  -- The start of a search: the page is pinned and the walk ends at the place of the key.
  Entered : ℕ → List ℕ → BufferPool BNode → T → Type 0
  Entered a rs pool t =
      (i : ℕ) × (new : BufferPool BNode) × (t' : T) × (found : Bool) × (get_page a
          (record { pool = pool; tables = t })
        ≡ ok (some i) (record { pool = new; tables = t }))
      × (find_position cmp (order + 1) (some i) 0 (record { pool = new; tables = t })
          ≡ ok (key_place c (v a), found) (record { pool = new; tables = t' }))
      × Session len (inc i rs) v new
      × I t'
      × Points i a new
      × ((j b : ℕ) → Points j b pool → Points j b new)
      × (load (some i) new ≡ ok (v a) new)

  enter :
      (a : ℕ) (rs : List ℕ) (pool : BufferPool BNode) (t : T)
      → a % 128 ≡ 0
      → a < len
      → (v a).n < order
      → 0 < zeros rs
      → Session len rs v pool
      → I t
      → Entered a rs pool t
  unfolding Entered
  enter a rs pool t al lt n free s it =
      let (i, new, e, s', at, keep) = get_page-Session a s al lt free in
      let reads = load-Session i a s' al lt (cached at) in
      let (found, walk) =
        find_position-Gives new I (some i) (v a) reads cmp c good (order + 1) (v a).n 0
          (omega arith) (omega arith) n in
      let (t', e', it') = walk t it in
      (
        i,
        new,
        t',
        found,
        run_pool (BufferPool.get_page a) pool new t (some i) e,
        e',
        s',
        it',
        at,
        keep,
        reads,
      )

  -- At a leaf the search answers from the rows of the leaf.
  pub search_leaf :
      (depth a : ℕ) (rs : List ℕ) (pool : BufferPool BNode) (t : T)
      → a % 128 ≡ 0
      → a < len
      → (v a).n < order
      → (v a).child 0 ≡ minus_one
      → 0 < zeros rs
      → Session len rs v pool
      → I t
      → Answers
          (recursive_search cmp (suc depth) a (record { pool = pool; tables = t }))
          a
          (leaf_answer c (v a))
          rs
          pool
  unfolding recursive_search Entered
  search_leaf depth a rs pool t al lt n is_leaf free s it =
      let (i, p1, t1, found, e1, e2, s1, i1, at, keep, reads) =
        enter a rs pool t al lt n free s it in
      let place : key_place c (v a) < order =
        omega (arith, position_le c (v a).row_ptr (v a).n 0) in
      let (t2, e3, i2) = get_child-Gives p1 I (some i) (v a) reads 0 (omega arith) t1 i1 in
      let (t3, e4, i3) =
        misses_key-Gives p1 I (some i) (v a) reads cmp c good (key_place c (v a)) place t2 i2 in
      let (t4, e5, i4) = get_row-Gives p1 I (some i) (v a) reads (key_place c (v a)) place t3 i3 in
      let row = (v a).row_ptr (key_place c (v a)) in
      let missing = not (c row == 0) || (key_place c (v a) == (v a).n) in
      let run : recursive_search cmp (suc depth) a (record { pool = pool; tables = t })
          ≡ (if missing
                then release a >> pure no_rid
                else (get_row (some i) (key_place c (v a)) >>= (λ ans. release a >> pure ans)))
              (record { pool = p1; tables = t3 }) =
        run_bind (get_page a) _ _ _ (some i) _ e1 (
          run_bind (find_position cmp (order + 1) (some i) 0) _ _ _ _ _ e2 (
            run_bind (get_child (some i) 0) _ _ _ _ _ e3 (
              rw is_leaf
                (run_bind (misses_key cmp (some i) (key_place c (v a))) _ _ _ _ _ e4 refl)))) in
      subst (λ (r : Res (Index T) Rid). Answers r a (leaf_answer c (v a)) rs pool) (sym run)
        (elim (Bool-cases missing) [
          | inl miss ↦
              rw miss (finish i a no_rid rs p1 pool t3 al lt s1 i3 at (λ j b _ q. keep j b q))
          | inr hit ↦ rw hit (
              subst (λ (r : Res (Index T) Rid). Answers r a row rs pool)
                (sym (
                  run_bind (get_row (some i) (key_place c (v a))) (λ ans. release a >> pure ans) _ _
                    _ _ e5 refl))
                (finish i a row rs p1 pool t4 al lt s1 i4 at (λ j b _ q. keep j b q)))
        ])

  -- At an inner node it goes on to a child, and gives the page of the node back afterwards.
  pub search_inner :
      (depth a : ℕ) (rs : List ℕ) (pool : BufferPool BNode) (t : T)
      → a % 128 ≡ 0
      → a < len
      → (v a).n < order
      → 0 < (v a).n
      → (v a).child 0 ≢ minus_one
      → level ((v a).child (child_place c (v a))) < level a
      → 0 < zeros rs
      → Session len rs v pool
      → I t
      → (ans : Rid)
      → ((i : ℕ) (new : BufferPool BNode) (t' : T)
          → Session len (inc i rs) v new
          → I t'
          → Answers
              (recursive_search cmp depth
                ((v a).child (child_place c (v a)))
                (record { pool = new; tables = t' }))
              ((v a).child (child_place c (v a)))
              ans
              (inc i rs)
              new)
      → Answers
          (recursive_search cmp (suc depth) a (record { pool = pool; tables = t }))
          a
          ans
          rs
          pool
  unfolding recursive_search Entered
  search_inner depth a rs pool t al lt n pos is_inner lower free s it ans below =
      let (i, p1, t1, found, e1, e2, s1, i1, at, keep, reads) =
        enter a rs pool t al lt n free s it in
      let place : key_place c (v a) < order =
        omega (arith, position_le c (v a).row_ptr (v a).n 0) in
      let way : child_place c (v a) < order = omega (arith, child_place-lt c (v a) pos) in
      let child = (v a).child (child_place c (v a)) in
      let (t2, e3, i2) = get_child-Gives p1 I (some i) (v a) reads 0 (omega arith) t1 i1 in
      let (t3, e4, i3) =
        step_back-Gives p1 I (some i) (v a) reads cmp c good (key_place c (v a)) place t2 i2 in
      let (t4, e5, i4) =
        get_child-Gives p1 I (some i) (v a) reads (child_place c (v a)) way t3 i3 in
      let (p2, t5, e6, s2, i5, kept) = below i p1 t4 s1 i4 in
      let run : recursive_search cmp (suc depth) a (record { pool = pool; tables = t })
          ≡ (release a >> pure ans) (record { pool = p2; tables = t5 }) =
        run_bind (get_page a) _ _ _ (some i) _ e1 (
          run_bind (find_position cmp (order + 1) (some i) 0) _ _ _ _ _ e2 (
            run_bind (get_child (some i) 0) _ _ _ _ _ e3 (
              rw (==-ne ((v a).child 0) minus_one is_inner) (
                run_bind (step_back cmp (some i) (key_place c (v a))) _ _ _ _ _ e4 (
                  run_bind (get_child (some i) (child_place c (v a))) _ _ _ _ _ e5
                    (run_bind (recursive_search cmp depth child) _ _ _ _ _ e6 refl)))))) in
      subst (λ (r : Res (Index T) Rid). Answers r a ans rs pool) (sym run)
        (finish i a ans rs p2 pool t5 al lt s2 i5 (kept i a lower at)
          (λ j b above q. kept j b (omega arith) (keep j b q)))

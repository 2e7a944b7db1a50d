-- ===== src/BTree/Lookup.antt =====
-- `RecursiveSearch` of myjql/src/b_tree.c against a search on the pages that the index shows.
use course_pj.Base.{
  ℕ, zero, suc, ◌+◌, ◌-◌, ◌%◌, ◌≤◌, ◌<◌, ◌≡◌, ◌≢◌, not, ◌&&◌, ◌||◌, ◌==◌, ltb, if◌then◌else◌, arith,
  Cmd, ok, minus_one, lift_lem,
}
use course_pj.BufferPool.{BufferPool}
use course_pj.Table.{Rid}
use course_pj.Str.Chunk.{no_rid}
use course_pj.BTree.Node.{Index, BNode, order, on_pool, int_is_neg}
use course_pj.BTree.Position.{position}

module _ (c : Rid → ℕ) where
  abbrev pub key_place : BNode → ℕ
  key_place x = position c x.row_ptr x.n 0

  -- The child that the search goes on to.
  abbrev pub child_place : BNode → ℕ
  child_place x =
      let j = key_place x in
      if ((j == x.n) || int_is_neg (c (x.row_ptr j))) && ltb 0 j then j - 1 else j

  abbrev pub leaf_answer : BNode → Rid
  leaf_answer x =
      let j = key_place x in
      if not (c (x.row_ptr j) == 0) || (j == x.n) then no_rid else x.row_ptr j

  -- The search on the pages `v` without a pool, at most `depth` nodes deep.
  unfoldable pub lookup : (ℕ → BNode) → ℕ → ℕ → Rid
  lookup v zero a = no_rid
  lookup v (suc depth) a =
      let below = lookup v depth ((v a).child (child_place (v a))) in
      if (v a).child 0 == minus_one then leaf_answer (v a) else below

-- The page at `a` is a node of at most five rows, the root of a tree in which every child of an
-- inner node is on a lower level, so that no node stands above itself.
pub data IsTree (v : ℕ → BNode) (len : ℕ) (level : ℕ → ℕ) : ℕ → Type 0 where
  leaf :
      (a : ℕ)
      → a % 128 ≡ 0
      → a < len
      → (v a).n < order
      → (v a).child 0 ≡ minus_one
      → IsTree v len level a
  inner :
      (a : ℕ)
      → a % 128 ≡ 0
      → a < len
      → (v a).n < order
      → 0 < (v a).n
      → (v a).child 0 ≢ minus_one
      → ((i : ℕ) → i < (v a).n → level ((v a).child i) < level a)
      → ((i : ℕ) → i < (v a).n → IsTree v len level ((v a).child i))
      → IsTree v len level a

pub position_le : (c : Rid → ℕ) (row : ℕ → Rid) (m j : ℕ) → position c row m j ≤ j + m
unfolding position
position_le c row zero j = omega arith
position_le c row (suc m) j = ground (arith, position_le c row m (j + 1))

pub child_place-lt : (c : Rid → ℕ) (x : BNode) → 0 < x.n → child_place c x < x.n
child_place-lt c x pos = ground (arith, position_le c x.row_ptr x.n 0)

pub run_pool :
    {T A : Type 0} (m : Cmd (BufferPool BNode) A) (pool new : BufferPool BNode) (t : T) (a : A)
    → m pool ≡ ok a new
    → on_pool m (record { pool = pool; tables = t }) ≡ ok a (record { pool = new; tables = t })
run_pool {T} m pool new t a e =
    lift_lem (λ (s : Index T). s.pool) (λ q s. record s { pool = q }) m _ a new e

-- ===== src/BTree/Keys.antt =====
-- Which row the search of myjql/src/b_tree.c finds: the rows of a tree, and their order as the
-- comparison with the key sees it.
use course_pj.Base.{
  ℕ, zero, suc, ◌+◌, ◌^◌, ◌≤◌, ◌<◌, ◌≡◌, refl, sym, ◌∙◌, ap, ◌≢◌, ◌⊎◌, inl, inr, true, ◌==◌, arith,
  minus_one, eq-cases, ==-ne, ==-refl,
}
use course_pj.Table.{Rid}
use course_pj.Str.Chunk.{no_rid}
use course_pj.BTree.Node.{BNode}
use course_pj.BTree.Position.{position}
use course_pj.BTree.Lookup.{
  key_place, child_place, leaf_answer, lookup, IsTree, leaf, inner, child_place-lt, position_le,
}

-- A leaf at or below `a` has the row.
pub data Row (v : ℕ → BNode) (r : Rid) : ℕ → Type 0 where
  here : (a i : ℕ) → (v a).child 0 ≡ minus_one → i < (v a).n → (v a).row_ptr i ≡ r → Row v r a
  below : (a i : ℕ) → (v a).child 0 ≢ minus_one → i < (v a).n → Row v r ((v a).child i) → Row v r a

-- The rows are in order for the key: of a leaf those before an equal row are below the key; of an
-- inner node those up to a child with an equal row are, but for its own, which may be equal or the
-- first one, and those behind it are above the key.
pub record LeafOrdered (c : Rid → ℕ) (x : BNode) : Type 0 where
  pub before : (i k : ℕ) → i < x.n → c (x.row_ptr i) ≡ 0 → k < i → c (x.row_ptr k) ≡ 1

pub record ChildOrdered (c : Rid → ℕ) (x : BNode) (i : ℕ) : Type 0 where
  pub before : (k : ℕ) → k < i → c (x.row_ptr k) ≡ 1
  pub own : (c (x.row_ptr i) ≡ 0) ⊎ (c (x.row_ptr i) ≡ 1) ⊎ ((i ≡ 0) × (2 ^ 31 ≤ c (x.row_ptr i)))
  pub behind : (k : ℕ) → i < k → k < x.n → 2 ^ 31 ≤ c (x.row_ptr k)

pub record Ordered (c : Rid → ℕ) (v : ℕ → BNode) : Type 0 where
  pub leaf_ordered : (a : ℕ) → (v a).child 0 ≡ minus_one → LeafOrdered c (v a)
  pub child_ordered :
      (a i : ℕ) (r : Rid)
      → (v a).child 0 ≢ minus_one
      → i < (v a).n
      → Row v r ((v a).child i)
      → c r ≡ 0
      → ChildOrdered c (v a) i

-- The walk passes the rows that are below the key, and stops at the first that is not.
position-at :
    (c : Rid → ℕ) (row : ℕ → Rid) (m j i : ℕ)
    → j ≤ i
    → i < j + m
    → ((k : ℕ) → j ≤ k → k < i → c (row k) ≡ 1)
    → c (row i) ≢ 1
    → position c row m j ≡ i
unfolding position
position-at c row zero j i lo hi h n = absurd (omega arith)
position-at c row (suc m) j i lo hi h n = elim (eq-cases j i) [
  | inl e ↦ ground arith
  | inr ne ↦
      let e = h j (omega arith) (omega arith) in
      rw e
        (position-at c row m (j + 1) i (omega arith) (omega arith) (λ k l u. h k (omega arith) u) n)
]

position-all :
    (c : Rid → ℕ) (row : ℕ → Rid) (m j : ℕ)
    → ((k : ℕ) → j ≤ k → k < j + m → c (row k) ≡ 1)
    → position c row m j ≡ j + m
unfolding position
position-all c row zero j h = omega arith
position-all c row (suc m) j h =
    let e = h j (omega arith) (omega arith) in
    rw e (position-all c row m (j + 1) (λ k l u. h k (omega arith) (omega arith)) ∙ omega arith)

leaf_answer-found :
    (c : Rid → ℕ) (x : BNode) (i : ℕ)
    → LeafOrdered c x
    → i < x.n
    → c (x.row_ptr i) ≡ 0
    → leaf_answer c x ≡ x.row_ptr i
leaf_answer-found c x i o lt e =
    let p : key_place c x ≡ i =
      position-at c x.row_ptr x.n 0 i (omega arith) (omega arith) (λ k l u. o.before i k lt e u)
        (omega arith) in
    rw (p, e, ==-ne i x.n (omega arith)) refl

child_place-found :
    (c : Rid → ℕ) (x : BNode) (i : ℕ) → ChildOrdered c x i → i < x.n → child_place c x ≡ i
child_place-found c x i o lt = elim o.own [
  | inl e ↦
      let p : key_place c x ≡ i =
        position-at c x.row_ptr x.n 0 i (omega arith) (omega arith) (λ k l u. o.before k u)
          (omega arith) in
      ground arith
  | inr (inl e) ↦
      let up_to : (k : ℕ) → k ≤ i → c (x.row_ptr k) ≡ 1 = λ k u. elim (eq-cases k i) [
        | inl m ↦ ap (λ j. c (x.row_ptr j)) m ∙ e
        | inr n ↦ o.before k (omega arith)
      ] in
      elim (eq-cases (i + 1) x.n) [
        | inl m ↦
            let p : key_place c x ≡ i + 1 =
              position-all c x.row_ptr x.n 0 (λ k l u. up_to k (omega arith)) ∙ omega arith in
            ground arith
        | inr n ↦
            let high = o.behind (i + 1) (omega arith) (omega arith) in
            let p : key_place c x ≡ i + 1 =
              position-at c x.row_ptr x.n 0 (i + 1) (omega arith) (omega arith)
                (λ k l u. up_to k (omega arith)) (omega arith) in
            rw p (ground arith)
      ]
  | inr (inr (z, neg)) ↦
      let p : key_place c x ≡ i =
        position-at c x.row_ptr x.n 0 i (omega arith) (omega arith) (λ k l u. o.before k u)
          (omega arith) in
      ground arith
]

-- A row that equals the key and stands in the tree is found.
pub lookup-found :
    (c : Rid → ℕ) (v : ℕ → BNode) (len : ℕ) (level : ℕ → ℕ) (depth a : ℕ) (r : Rid)
    → Ordered c v
    → IsTree v len level a
    → level a < depth
    → Row v r a
    → c r ≡ 0
    → lookup c v depth a ≡ r
unfolding lookup
lookup-found c v len level zero a r o tree d row e = absurd (omega arith)
lookup-found c v len level (suc depth) a r o tree d (here _ i is_leaf lt m) e =
    rw is_leaf (leaf_answer-found c (v a) i (o.leaf_ordered a is_leaf) lt (ap c m ∙ e) ∙ m)
lookup-found c v len level (suc depth) a r o (leaf _ _ _ _ is_leaf) d (below _ i is_inner lt row)
      e =
    absurd (is_inner is_leaf)
lookup-found c v len level (suc depth) a r o (inner _ _ _ _ _ _ lower trees) d
      (below _ i is_inner lt row) e =
    let place = child_place-found c (v a) i (o.child_ordered a i r is_inner lt row e) lt in
    let down = lower i lt in
    rw (==-ne ((v a).child 0) minus_one is_inner) (
      ap (λ j. lookup c v depth ((v a).child j)) place
      ∙ lookup-found c v len level depth ((v a).child i) r o (trees i lt) (omega arith) row e)

leaf_answer-cases :
    (c : Rid → ℕ) (v : ℕ → BNode) (a : ℕ)
    → (v a).child 0 ≡ minus_one
    → (leaf_answer c (v a) ≡ no_rid)
      ⊎ ((c (leaf_answer c (v a)) ≡ 0) × Row v (leaf_answer c (v a)) a)
leaf_answer-cases c v a is_leaf =
    let j = key_place c (v a) in
    let le = position_le c (v a).row_ptr (v a).n 0 in
    elim (eq-cases (c ((v a).row_ptr j)) 0) [
      | inr n ↦ inl (rw (==-ne (c ((v a).row_ptr j)) 0 n) refl)
      | inl e ↦ elim (eq-cases j (v a).n) [
        | inl m ↦ inl (let t : (j == (v a).n) ≡ true = rw m (==-refl (v a).n) in rw (e, t) refl)
        | inr n ↦
            let is : leaf_answer c (v a) ≡ (v a).row_ptr j = rw (e, ==-ne j (v a).n n) refl in
            inr (ap c is ∙ e, here a j is_leaf (omega arith) (sym is))
      ]
    ]

-- What the search finds is a row of the tree that equals the key.
pub lookup-cases :
    (c : Rid → ℕ) (v : ℕ → BNode) (len : ℕ) (level : ℕ → ℕ) (depth a : ℕ)
    → IsTree v len level a
    → level a < depth
    → (lookup c v depth a ≡ no_rid) ⊎ ((c (lookup c v depth a) ≡ 0) × Row v (lookup c v depth a) a)
unfolding lookup
lookup-cases c v len level zero a tree d = absurd (omega arith)
lookup-cases c v len level (suc depth) a (leaf _ _ _ _ is_leaf) d =
    rw is_leaf (leaf_answer-cases c v a is_leaf)
lookup-cases c v len level (suc depth) a (inner _ _ _ _ pos is_inner lower trees) d =
    let way = child_place-lt c (v a) pos in
    let down = lower (child_place c (v a)) way in
    rw (==-ne ((v a).child 0) minus_one is_inner)
      (elim (lookup-cases c v len level depth ((v a).child (child_place c (v a)))
        (trees (child_place c (v a)) way) (omega arith)) [
          | inl e ↦ inl e
          | inr (e, row) ↦ inr (e, below a (child_place c (v a)) is_inner way row)
        ])

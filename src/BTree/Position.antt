-- ===== src/BTree/Position.antt =====
-- The walk over the entries of a node of myjql/src/b_tree.c, with a comparison that gives the same
-- result whenever it is called.
use mathlib.Core.Path.{subst}
use course_pj.Base.{
  ℕ, zero, suc, ◌+◌, ◌-◌, ◌<◌, ◌≡◌, refl, inl, inr, Bool, true, false, not, ◌&&◌, ◌||◌, ◌==◌, ltb,
  if◌then◌else◌, arith, Cmd, ok, pure, ◌>>=◌, lift_lem, Bool-cases, eq-cases, ==-ne,
}
use course_pj.BufferPool.{BufferPool, Ptr, load}
use course_pj.Table.{Rid}
use course_pj.BTree.Node.{
  Index, BNode, order, on_tables, int_is_neg, get_n, get_row, get_child, node,
}
use course_pj.BTree.Search.{compare_row, not_below, find_position, misses_key, step_back}

-- The comparison gives `c` of the row, and keeps what holds of its state.
pub record Compares {T : Type 0} (cmp : Rid → Cmd T ℕ) (c : Rid → ℕ) (I : T → Type 0) : Type 0 where
  pub runs : (row : Rid) (t : T) → I t → (t' : T) × (cmp row t ≡ ok (c row) t') × I t'

-- The place among `n` rows from the `j`-th on where the walk ends: the first row that is not below
-- the key.
unfoldable pub position : (Rid → ℕ) → (ℕ → Rid) → ℕ → ℕ → ℕ
position c row zero j = j
position c row (suc n) j = let rest = position c row n (j + 1) in if c (row j) == 1 then rest else j

-- A command on the tables ends with `a`, and leaves the pool alone.
abbrev pub Gives : {T A : Type 0} → BufferPool BNode → (T → Type 0) → Cmd (Index T) A → A → Type 0
Gives {T} pool I m a =
    (t : T)
    → I t
    → (t' : T) × (m (record { pool = pool; tables = t })
        ≡ ok a (record { pool = pool; tables = t' }))
      × I t'

module _ {T : Type 0} (pool : BufferPool BNode) (I : T → Type 0) where
  pub Gives-pure : {A : Type 0} (a : A) → Gives pool I (pure a) a
  Gives-pure a t it = (t, refl, it)

  pub Gives-bind :
      {A B : Type 0} (m : Cmd (Index T) A) (k : A → Cmd (Index T) B) (a : A) (b : B)
      → Gives pool I m a
      → Gives pool I (k a) b
      → Gives pool I (m >>= k) b
  Gives-bind m k a b g h t it =
      let (t1, e1, i1) = g t it in let (t2, e2, i2) = h t1 i1 in (t2, rw e1 e2, i2)

  module _ (p : Ptr) (x : BNode) (reads : load p pool ≡ ok x pool) where
    node-Gives : Gives pool I (node p) x
    node-Gives t it = (
      t,
      lift_lem (λ (s : Index T). s.pool) (λ q s. record s { pool = q }) (load p) _ x pool reads,
      it,
    )

    pub get_n-Gives : Gives pool I (get_n p) x.n
    get_n-Gives = Gives-bind (node p) (λ y. pure y.n) x x.n node-Gives (Gives-pure x.n)

    pub get_row-Gives : (j : ℕ) → j < order → Gives pool I (get_row p j) (x.row_ptr j)
    get_row-Gives j lt =
        let b : ltb j order ≡ true = ground arith in
        rw b (
          Gives-bind (node p) (λ y. pure (y.row_ptr j)) x (x.row_ptr j) node-Gives
            (Gives-pure (x.row_ptr j)))

    pub get_child-Gives : (j : ℕ) → j < order → Gives pool I (get_child p j) (x.child j)
    get_child-Gives j lt =
        let b : ltb j order ≡ true = ground arith in
        rw b (
          Gives-bind (node p) (λ y. pure (y.child j)) x (x.child j) node-Gives
            (Gives-pure (x.child j)))

    module _ (cmp : Rid → Cmd T ℕ) (c : Rid → ℕ) (good : Compares cmp c I) where
      pub compare_row-Gives :
          (j : ℕ) → j < order → Gives pool I (compare_row cmp p j) (c (x.row_ptr j))
      unfolding compare_row
      compare_row-Gives j lt =
          Gives-bind (get_row p j) (λ row. on_tables (cmp row)) (x.row_ptr j) (c (x.row_ptr j))
            (get_row-Gives j lt)
            (λ t it.
              let (t', e, it') = good.runs (x.row_ptr j) t it in
              (
                t',
                lift_lem (λ (s : Index T). s.tables) (λ u s. record s { tables = u })
                    (cmp (x.row_ptr j)) (record { pool = pool; tables = t }) (c (x.row_ptr j)) t' e,
                it',
              ))

      not_below-Gives :
          (j : ℕ)
          → j < order
          → Gives pool I (not_below cmp p j) ((c (x.row_ptr j) == 1) || (c (x.row_ptr j) == 0))
      unfolding not_below
      not_below-Gives j lt =
          Gives-bind (compare_row cmp p j) _ (c (x.row_ptr j)) _ (compare_row-Gives j lt)
            (elim (Bool-cases (c (x.row_ptr j) == 1)) [
              | inl e ↦ rw e (Gives-pure true)
              | inr e ↦ rw e (
                  Gives-bind (compare_row cmp p j) _ (c (x.row_ptr j)) _ (compare_row-Gives j lt)
                    (Gives-pure (c (x.row_ptr j) == 0)))
            ])

      -- The walk ends at `position`, if the fuel is enough for the rows that are left.
      pub find_position-Gives :
          (fuel m j : ℕ)
          → m < fuel
          → x.n ≡ j + m
          → x.n < order
          → (found : Bool) × Gives pool I
              (find_position cmp fuel p j)
              (position c x.row_ptr m j, found)
      unfolding find_position position
      find_position-Gives zero m j lt e le = absurd (omega arith)
      find_position-Gives (suc fuel) zero j lt e le =
          let b : ltb j x.n ≡ false = ground arith in
          (false, Gives-bind (get_n p) _ x.n _ get_n-Gives (rw b (Gives-pure (j, false))))
      find_position-Gives (suc fuel) (suc m) j lt e le =
          let b : ltb j x.n ≡ true = ground arith in
          let (found, rest) = find_position-Gives fuel m (j + 1) (omega arith) (omega arith) le in
          let here = compare_row-Gives j (omega arith) in
          let walk = not_below-Gives j (omega arith) in
          elim (eq-cases (c (x.row_ptr j)) 1) [
            | inl one ↦ (
              found,
              Gives-bind (get_n p) _ x.n _ get_n-Gives (
                  rw b (
                    Gives-bind (not_below cmp p j) _ _ _ walk (
                      rw one (
                        Gives-bind (compare_row cmp p j) _ 1 _
                          (subst (Gives pool I (compare_row cmp p j)) one here) rest)))),
            )
            | inr ne ↦ elim (eq-cases (c (x.row_ptr j)) 0) [
              | inl nought ↦ (
                true,
                Gives-bind (get_n p) _ x.n _ get_n-Gives (
                    rw b (
                      Gives-bind (not_below cmp p j) _ _ _ walk (
                        rw nought (
                          Gives-bind (compare_row cmp p j) _ 0 _
                            (subst (Gives pool I (compare_row cmp p j)) nought here)
                            (Gives-pure (j, true)))))),
              )
              | inr ne' ↦ (
                false,
                Gives-bind (get_n p) _ x.n _ get_n-Gives (
                    rw b (
                      Gives-bind (not_below cmp p j) _ _ _ walk (
                        rw (==-ne (c (x.row_ptr j)) 1 ne, ==-ne (c (x.row_ptr j)) 0 ne')
                          (Gives-pure (j, false))))),
              )
            ]
          ]

      -- The test of a leaf: the walk has ended behind the rows, or at a row that is not the key.
      pub misses_key-Gives :
          (j : ℕ)
          → j < order
          → Gives pool I (misses_key cmp p j) (not (c (x.row_ptr j) == 0) || (j == x.n))
      unfolding misses_key
      misses_key-Gives j lt =
          Gives-bind (compare_row cmp p j) _ (c (x.row_ptr j)) _ (compare_row-Gives j lt)
            (elim (Bool-cases (c (x.row_ptr j) == 0)) [
              | inl e ↦ rw e (Gives-bind (get_n p) _ x.n _ get_n-Gives (Gives-pure (j == x.n)))
              | inr e ↦ rw e (Gives-pure true)
            ])

      -- The step back to the child whose rows may hold the key.
      pub step_back-Gives :
          (j : ℕ)
          → j < order
          → Gives pool I
              (step_back cmp p j)
              (if ((j == x.n) || int_is_neg (c (x.row_ptr j))) && ltb 0 j then j - 1 else j)
      unfolding step_back
      step_back-Gives j lt =
          Gives-bind (get_n p) _ x.n _ get_n-Gives (elim (Bool-cases (j == x.n)) [
            | inl e ↦ rw e (Gives-pure (if ltb 0 j then j - 1 else j))
            | inr e ↦ rw e (
                Gives-bind (compare_row cmp p j >>= (λ r. pure (int_is_neg r))) _ _ _
                  (Gives-bind (compare_row cmp p j) _ (c (x.row_ptr j)) _ (compare_row-Gives j lt)
                    (Gives-pure (int_is_neg (c (x.row_ptr j)))))
                  (Gives-pure _))
          ])

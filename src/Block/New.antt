-- ===== src/Block/New.antt =====
-- `new_item` and `get_block_size` of myjql/src/block.c on a block that satisfies its invariant.
use mathlib.Core.Path.{subst}
use course_pj.Base.{
  ℕ, zero, suc, ◌+◌, ◌-◌, ◌*◌, ◌^◌, ◌≤◌, ◌<◌, ◌≡◌, refl, sym, ◌∙◌, ◌⊎◌, inl, inr, none, some, arith,
  Bytes, eq-cases, Option-cases, short_minus_one, short_lt, true, sub16, add16,
}
use course_pj.Block.{
  Block, get_item_id_availability, find_available, avai_space, reuse_item, append_item, new_item,
  get_block_size, init_block,
}
use course_pj.Block.Items.{id, IsBlock}
use course_pj.Block.Place.{Added, placed_block, placed_block-Added}

module _ (b : Block) (v : IsBlock b) where
  -- An index that `new_item` finds is free, and below the count.
  find_available-some :
      (n i j : ℕ)
      → find_available b.data_bytes n i ≡ some j
      → (i ≤ j) × (j < i + n) × (get_item_id_availability (id b j) ≡ 1)
  unfolding find_available
  find_available-some zero i j h = ground arith
  find_available-some (suc n) i j h = ground (arith, find_available-some n (i + 1) j)

  find_available-none :
      (n i j : ℕ)
      → find_available b.data_bytes n i ≡ none
      → i ≤ j
      → j < i + n
      → get_item_id_availability (id b j) ≡ 0
  unfolding find_available
  find_available-none zero i j h lo hi = absurd (omega arith)
  find_available-none (suc n) i j h lo hi = elim (eq-cases i j) [
    | inl e ↦ ground arith
    | inr ne ↦ ground (arith, find_available-none n (i + 1) j)
  ]

  -- The item fits if the free space that `get_block_size` reports, which is negative as a `short`
  -- if not even an id fits, is at least its size.
  pub record FitsIn (size : ℕ) : Type 0 where
    pub filled : 0 < size
    pub free : size ≤ get_block_size b
    pub positive : get_block_size b < 2 ^ 15

  avai_space-sub : avai_space b ≡ b.tail_ptr - b.head_ptr
  avai_space-sub = let o = v.ordered in let t = v.in_page in omega arith

  get_block_size-none :
      find_available b.data_bytes b.n_items 0 ≡ none → get_block_size b ≡ sub16 (avai_space b) 4
  unfolding get_block_size
  get_block_size-none e = rw (e, get_block_size)

  get_block_size-some :
      (i : ℕ) → find_available b.data_bytes b.n_items 0 ≡ some i → get_block_size b ≡ avai_space b
  unfolding get_block_size
  get_block_size-some i e = rw (e, get_block_size)

  append_item-placed :
      (item : Bytes) (size : ℕ)
      → b.head_ptr + 4 + size ≤ b.tail_ptr
      → append_item b item size
        ≡ (placed_block b (b.n_items + 1) b.n_items (b.tail_ptr - size) item size, b.n_items)
  unfolding append_item
  append_item-placed item size h =
      let w = v.head in
      let t = v.in_page in
      let tail : sub16 b.tail_ptr size ≡ b.tail_ptr - size = omega arith in
      let head : add16 b.head_ptr 4 ≡ 6 + 4 * (b.n_items + 1) = omega arith in
      let n : add16 b.n_items 1 ≡ b.n_items + 1 = omega arith in ground arith

  reuse_item-placed :
      (i : ℕ) (item : Bytes) (size : ℕ)
      → b.head_ptr + size ≤ b.tail_ptr
      → reuse_item b i item size ≡ (placed_block b b.n_items i (b.tail_ptr - size) item size, i)
  unfolding reuse_item
  reuse_item-placed i item size h =
      let w = v.head in
      let t = v.in_page in
      let tail : sub16 b.tail_ptr size ≡ b.tail_ptr - size = omega arith in ground arith

  new_item-none :
      (item : Bytes) (size : ℕ)
      → find_available b.data_bytes b.n_items 0 ≡ none
      → new_item b item size ≡ append_item b item size
  unfolding new_item
  new_item-none item size e = rw (e, new_item)

  new_item-some :
      (item : Bytes) (size i : ℕ)
      → find_available b.data_bytes b.n_items 0 ≡ some i
      → new_item b item size ≡ reuse_item b i item size
  unfolding new_item
  new_item-some item size i e = rw (e, new_item)

  -- An item that is not empty and no larger than the non-negative free space that `get_block_size`
  -- reports is held at the index that is returned; the invariant is kept, every other item is held
  -- as before, and the free space ends lower by the size of the item.
  pub new_item-Added :
      (item : Bytes) (size : ℕ)
      → FitsIn size
      → Added b (new_item b item size).1 size item (new_item b item size).0
  new_item-Added item size f = elim (Option-cases (find_available b.data_bytes b.n_items 0)) [
    | inl e ↦
        let fits : b.head_ptr + 4 + size ≤ b.tail_ptr =
          omega (arith, f.free, f.positive, get_block_size-none e, v.ordered, v.in_page) in
        subst (λ (r : Block × ℕ). Added b r.1 size item r.0)
          (sym (new_item-none item size e ∙ append_item-placed item size fits))
          (placed_block-Added b v (b.n_items + 1) b.n_items (b.tail_ptr - size) size item f.filled
            (omega (arith, v.head)) (omega arith) (omega arith) (omega arith)
            (λ i ne lt. omega arith) (λ u. omega (arith, u.below)))
    | inr (i, e) ↦
        let found = find_available-some b.n_items 0 i e in
        let fits : b.head_ptr + size ≤ b.tail_ptr =
          omega (arith, f.free, get_block_size-some i e, avai_space-sub, f.filled) in
        subst (λ (r : Block × ℕ). Added b r.1 size item r.0)
          (sym (new_item-some item size i e ∙ reuse_item-placed i item size fits))
          (placed_block-Added b v b.n_items i (b.tail_ptr - size) size item f.filled
            (omega (arith, v.head)) (omega arith) (omega arith) (omega arith) (λ j ne lt. lt)
            (λ u. omega (arith, u.taken, found)))
  ]

  append_item-full :
      (item : Bytes) (size : ℕ)
      → b.tail_ptr < b.head_ptr + 4 + size
      → size < 2 ^ 15
      → append_item b item size ≡ (b, short_minus_one)
  unfolding append_item
  append_item-full item size h small = let o = v.ordered in let t = v.in_page in ground arith

  reuse_item-full :
      (i : ℕ) (item : Bytes) (size : ℕ)
      → b.tail_ptr < b.head_ptr + size
      → size < 2 ^ 15
      → reuse_item b i item size ≡ (b, i)
  unfolding reuse_item
  reuse_item-full i item size h small = let o = v.ordered in let t = v.in_page in ground arith

  -- In a block that satisfies its invariant, an item of a size that is not negative, larger than the
  -- free space that `get_block_size` reports, which may be negative, changes nothing.
  -- Without an available id the result is -1; with one it is the index of an id that is still
  -- available, the same result as that of an item which was stored.
  pub new_item-full :
      (item : Bytes) (size : ℕ)
      → short_lt (get_block_size b) size ≡ true
      → size < 2 ^ 15
      → ((find_available b.data_bytes b.n_items 0 ≡ none)
          × (new_item b item size ≡ (b, short_minus_one)))
        ⊎ ((i : ℕ) × (new_item b item size ≡ (b, i))
            × (i < b.n_items)
            × (get_item_id_availability (id b i) ≡ 1))
  new_item-full item size h small = elim (Option-cases (find_available b.data_bytes b.n_items 0)) [
    | inl e ↦ inl (
      e,
      new_item-none item size e
          ∙ append_item-full item size
              (let g = get_block_size-none e in
                let s = avai_space-sub in let o = v.ordered in let t = v.in_page in ground arith)
              small,
    )
    | inr (i, e) ↦
        let found = find_available-some b.n_items 0 i e in
        inr (
          i,
          new_item-some item size i e
              ∙ reuse_item-full i item size
                  (let g = get_block_size-some i e in
                    let s = avai_space-sub in
                    let o = v.ordered in let t = v.in_page in ground arith)
                  small,
          omega arith,
          found.2,
        )
  ]

-- An initialised block satisfies the invariant, whatever its bytes were.
pub init_block-IsBlock : (b : Block) → IsBlock (init_block b)
unfolding init_block
init_block-IsBlock b = record {
  head = refl;
  ordered = omega arith;
  in_page = omega arith;
  placed = λ i u. absurd (omega (arith, u.below));
  separate = λ i j u w n. absurd (omega (arith, u.below));
}

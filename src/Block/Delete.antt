-- ===== src/Block/Delete.antt =====
-- `delete_item` of myjql/src/block.c on a block that satisfies its invariant.
use mathlib.Core.Path.{subst}
use course_pj.Base.{
  ℕ, ◌+◌, ◌-◌, ◌*◌, ◌≤◌, ◌<◌, ◌≡◌, refl, sym, ◌∙◌, ap, ◌≢◌, ◌⊎◌, inl, inr, arith, Bytes, eq-cases,
  sub16, add16,
}
use course_pj.Block.{
  Block, get_item_id, set_item_id, get_item_id_availability, get_item_id_offset, get_item_id_size,
  compose_item_id, item_bytes, header_size, move_up, moved_bytes, relocate_items, drop_item_id,
  delete_item,
}
use course_pj.Block.Items.{
  id, Used, Placed, Separate, IsBlock, Holds, get_item_id-set_self, get_item_id-set_ne,
  set_item_id-byte, get_item_id-eq,
}
use course_pj.Block.Compaction.{
  move_up-kept, move_up-moved, relocated, relocate_items-id, relocate_items-byte,
}

-- The item at `idx` has gone: its index is free, its bytes are free space, and the block holds
-- every other item as before.
pub record Removed (b : Block) (idx : ℕ) (d : Block) : Type 0 where
  pub valid : IsBlock d
  pub gone : Used d idx → ⊥
  pub keeps : (i k : ℕ) (c : Bytes) → i ≢ idx → Holds b i k c → Holds d i k c
  pub tail : d.tail_ptr ≡ b.tail_ptr + get_item_id_size (id b idx)

module _ (b : Block) (v : IsBlock b) (idx : ℕ) (u : Used b idx) where
  abbrev pos : ℕ
  pos = get_item_id_offset (id b idx)

  abbrev size : ℕ
  size = get_item_id_size (id b idx)

  abbrev moved : Bytes
  moved = move_up b.data_bytes b.tail_ptr size (pos - b.tail_ptr)

  -- What the end of `delete_item` must leave of the ids and bytes.
  record Leaves (d : Block) : Type 0 where
    head : d.head_ptr ≡ 6 + 4 * d.n_items
    tail : d.tail_ptr ≡ b.tail_ptr + size
    fewer : d.n_items ≤ b.n_items
    others : (i : ℕ) → Used d i → i ≢ idx
    ids :
        (i : ℕ) → i < b.n_items → i ≢ idx → (i < d.n_items) × (id d i ≡ relocated pos size (id b i))
    bytes : (x : ℕ) → 4 * b.n_items ≤ x → d.data_bytes x ≡ moved x

  module _ (d : Block) (l : Leaves d) where
    Used-back : (i : ℕ) → Used d i → Used b i
    Used-back i w =
        let ne = l.others i w in
        let lt : i < b.n_items = omega (arith, w.below, l.fewer) in
        record { below = lt; taken = ground (arith, l.ids i lt ne, w.taken) }

    -- An item below the deleted one moves up, one above it stays.
    abbrev Moves : ℕ → Type 0
    Moves i =
        (get_item_id_availability (id d i) ≡ 0)
        × (get_item_id_size (id d i) ≡ get_item_id_size (id b i))
        × (((get_item_id_offset (id b i) + get_item_id_size (id b i) ≤ pos)
              × (get_item_id_offset (id d i) ≡ get_item_id_offset (id b i) + size))
            ⊎ ((pos + size ≤ get_item_id_offset (id b i))
                × (get_item_id_offset (id d i) ≡ get_item_id_offset (id b i))))

    moves : (i : ℕ) → Used b i → i ≢ idx → Moves i
    moves i w ne =
        let p = v.placed i w in
        let q = v.placed idx u in
        let s = v.separate i idx w u ne in
        let e = (l.ids i w.below ne).1 in
        elim s [
          | inl below ↦ (ground arith, ground arith, inl (below, ground arith))
          | inr above ↦ (ground arith, ground arith, inr (above, ground arith))
        ]

    after-Placed : (i : ℕ) → Used d i → Placed d i
    after-Placed i w =
        let o = Used-back i w in
        let p = v.placed i o in
        let q = v.placed idx u in
        let m = moves i o (l.others i w) in
        record {
          after_tail = omega (arith, m.2, l.tail, p.after_tail, q.after_tail);
          in_page = omega (arith, m.2, m.1, p.in_page, q.in_page);
          filled = omega (arith, m.1, p.filled);
        }

    after-Separate : (i j : ℕ) → Used d i → Used d j → i ≢ j → Separate d i j
    after-Separate i j wi wj ne =
        let oi = Used-back i wi in
        let oj = Used-back j wj in
        let mi = moves i oi (l.others i wi) in
        let mj = moves j oj (l.others j wj) in
        let s = v.separate i j oi oj ne in
        let pi = v.placed i oi in
        let pj = v.placed j oj in omega (arith, mi.2, mj.2, mi.1, mj.1, s, pi.filled, pj.filled)

    after-IsBlock : IsBlock d
    after-IsBlock = record {
      head = l.head;
      ordered = omega (arith, l.head, l.tail, l.fewer, v.head, v.ordered);
      in_page = omega (arith, l.tail, (v.placed idx u).after_tail, (v.placed idx u).in_page);
      placed = after-Placed;
      separate = after-Separate;
    }

    -- The bytes of an item are where its id says.
    after-bytes :
        (i j : ℕ)
        → Used b i
        → i ≢ idx
        → j < get_item_id_size (id b i)
        → item_bytes d (get_item_id_offset (id d i)) j
          ≡ item_bytes b (get_item_id_offset (id b i)) j
    after-bytes i j w ne lt =
        let p = v.placed i w in
        let q = v.placed idx u in
        let h : 6 ≤ b.tail_ptr = omega (arith, v.head, v.ordered) in
        elim (moves i w ne).2 [
          | inl (below, e) ↦
              let at : get_item_id_offset (id d i) + j - header_size
                  ≡ b.tail_ptr
                    + (get_item_id_offset (id b i) + j - b.tail_ptr)
                    + size
                    - header_size =
                omega (arith, p.after_tail) in
              let from : b.tail_ptr + (get_item_id_offset (id b i) + j - b.tail_ptr) - header_size
                  ≡ get_item_id_offset (id b i) + j - header_size =
                omega (arith, p.after_tail) in
              l.bytes (get_item_id_offset (id d i) + j - header_size)
                (omega (arith, v.head, v.ordered, p.after_tail))
              ∙ ap moved at
              ∙ move_up-moved b.data_bytes b.tail_ptr size (pos - b.tail_ptr)
                  (get_item_id_offset (id b i) + j - b.tail_ptr) h q.filled
                  (omega (arith, p.after_tail))
              ∙ ap b.data_bytes from
          | inr (above, e) ↦
              ap (λ o. d.data_bytes (o + j - header_size)) e
              ∙ l.bytes (get_item_id_offset (id b i) + j - header_size)
                  (omega (arith, v.head, v.ordered, p.after_tail))
              ∙ move_up-kept b.data_bytes b.tail_ptr size (pos - b.tail_ptr)
                  (get_item_id_offset (id b i) + j - header_size) h
                  (omega (arith, p.after_tail, q.after_tail))
        ]

    after-Removed : Removed b idx d
    after-Removed = record {
      valid = after-IsBlock;
      gone = λ w. l.others idx w refl;
      keeps = λ i k c ne h. record {
        used = record { below = (l.ids i h.used.below ne).0; taken = (moves i h.used ne).0 };
        size_is = (moves i h.used ne).1 ∙ h.size_is;
        bytes = λ j lt. after-bytes i j h.used ne (omega (arith, h.size_is)) ∙ h.bytes j lt;
      };
      tail = l.tail;
    }

  -- The block before its last statement.
  relocated_block : Block
  relocated_block = record b {
    tail_ptr = add16 b.tail_ptr size;
    data_bytes = relocate_items moved pos size b.n_items;
  }

  all_moved : moved_bytes b pos size ≡ pos - b.tail_ptr
  unfolding moved_bytes
  all_moved = let q = v.placed idx u in ground (arith, q.in_page)

  delete_item-drop : delete_item b idx ≡ drop_item_id relocated_block idx
  unfolding delete_item relocated_block
  delete_item-drop =
      let h = v.head in
      let o = v.ordered in
      let t = v.in_page in let lt = u.below in let e = all_moved in ground arith

  moved-id : (i : ℕ) → i < b.n_items → get_item_id moved i ≡ id b i
  moved-id i lt = get_item_id-eq moved b.data_bytes i (λ x h.
      move_up-kept b.data_bytes b.tail_ptr size (pos - b.tail_ptr) x
        (omega (arith, v.head, v.ordered)) (omega (arith, v.head, v.ordered, lt)))

  relocated-id : (i : ℕ) → i < b.n_items → id relocated_block i ≡ relocated pos size (id b i)
  unfolding relocated_block
  relocated-id i lt =
      relocate_items-id pos size moved b.n_items i lt ∙ ap (relocated pos size) (moved-id i lt)

  relocated-byte : (x : ℕ) → 4 * b.n_items ≤ x → relocated_block.data_bytes x ≡ moved x
  unfolding relocated_block
  relocated-byte x h = relocate_items-byte pos size moved b.n_items x h

  -- Its two outcomes.
  shorter_block : Block
  shorter_block = record relocated_block {
    head_ptr = sub16 relocated_block.head_ptr 4;
    n_items = sub16 relocated_block.n_items 1;
  }

  freed_block : Block
  freed_block = record relocated_block {
    data_bytes = set_item_id relocated_block.data_bytes idx (compose_item_id 1 0 0);
  }

  drop-last : idx ≡ b.n_items - 1 → drop_item_id relocated_block idx ≡ shorter_block
  unfolding drop_item_id relocated_block shorter_block
  drop-last e = ground arith

  drop-other : idx ≢ b.n_items - 1 → drop_item_id relocated_block idx ≡ freed_block
  unfolding drop_item_id relocated_block freed_block
  drop-other ne = ground arith

  relocated_block-tail : relocated_block.tail_ptr ≡ b.tail_ptr + size
  unfolding relocated_block
  relocated_block-tail = let q = v.placed idx u in omega (arith, q.after_tail, q.in_page)

  relocated_block-same :
      (relocated_block.n_items ≡ b.n_items) × (relocated_block.head_ptr ≡ b.head_ptr)
  unfolding relocated_block
  relocated_block-same = (refl, refl)

  shorter_block-Leaves : idx ≡ b.n_items - 1 → Leaves shorter_block
  unfolding shorter_block
  shorter_block-Leaves e =
      let h = v.head in
      let o = v.ordered in
      let t = v.in_page in
      let lt = u.below in
      let same = relocated_block-same in
      record {
        head = omega arith;
        tail = relocated_block-tail;
        fewer = omega arith;
        others = λ i w m. omega (arith, w.below);
        ids = λ i k ne. (omega arith, relocated-id i k);
        bytes = relocated-byte;
      }

  freed_block-Leaves : idx ≢ b.n_items - 1 → Leaves freed_block
  unfolding freed_block
  freed_block-Leaves last =
      let lt = u.below in
      let same = relocated_block-same in
      record {
        head = omega (arith, v.head);
        tail = relocated_block-tail;
        fewer = omega arith;
        others = λ i w m. omega (
          arith,
          w.taken,
          get_item_id-set_self relocated_block.data_bytes idx (compose_item_id 1 0 0) (omega arith),
          ap (get_item_id freed_block.data_bytes) m,
        );
        ids = λ i k ne. (
          omega arith,
          get_item_id-set_ne relocated_block.data_bytes idx i (compose_item_id 1 0 0) ne
              ∙ relocated-id i k,
        );
        bytes = λ x k.
            set_item_id-byte relocated_block.data_bytes idx (compose_item_id 1 0 0) x (omega arith)
            ∙ relocated-byte x k;
      }

  -- Deleting an item in use from a block that satisfies the invariant keeps the invariant, leaves
  -- the index unused, moves the end of the free space up by the size of the item, and every other
  -- item is still held at its index with its size and its bytes.
  pub delete_item-Removed : Removed b idx (delete_item b idx)
  delete_item-Removed =
      subst (Removed b idx) (sym delete_item-drop) (elim (eq-cases idx (b.n_items - 1)) [
        | inl e ↦
            subst (Removed b idx) (sym (drop-last e))
              (after-Removed shorter_block (shorter_block-Leaves e))
        | inr ne ↦
            subst (Removed b idx) (sym (drop-other ne))
              (after-Removed freed_block (freed_block-Leaves ne))
      ])

-- ===== src/Block/Place.antt =====
-- An item that is put into a block of myjql/src/block.c at an index that is not in use.
use course_pj.Base.{
  ℕ, ◌+◌, ◌-◌, ◌*◌, ◌≤◌, ◌<◌, ◌≡◌, refl, sym, ◌∙◌, ap, ◌≢◌, ◌⊎◌, inl, inr, arith, Bytes, eq-cases,
}
use course_pj.Block.{
  Block, get_item_id_availability, get_item_id_offset, get_item_id_size, compose_item_id,
  header_size, place_item,
}
use course_pj.Block.Items.{
  id, Used, Placed, Separate, IsBlock, Holds, place_item-id_self, place_item-id_ne,
  place_item-inside, place_item-above,
}

-- An item has come in: the block holds it, and what it held before.
pub record Added (b : Block) (idx size : ℕ) (item : Bytes) (b' : Block) : Type 0 where
  pub valid : IsBlock b'
  pub holds : Holds b' idx size item
  pub keeps : (i k : ℕ) (c : Bytes) → Holds b i k c → Holds b' i k c
  pub tail : b'.tail_ptr + size ≡ b.tail_ptr

-- The block with an item placed at `idx`, and `n` ids.
abbrev pub placed_block : Block → ℕ → ℕ → ℕ → Bytes → ℕ → Block
placed_block b n idx tail item size = record {
  n_items = n;
  head_ptr = 6 + 4 * n;
  tail_ptr = tail;
  data_bytes = place_item b.data_bytes idx tail item size;
}

module _ (b : Block) (v : IsBlock b) (n idx tail size : ℕ) (item : Bytes) (pos : 0 < size)
    (room : 6 + 4 * n ≤ tail) (whole : tail + size ≡ b.tail_ptr) (below : idx < n)
    (grows : b.n_items ≤ n) (old : (i : ℕ) → i ≢ idx → i < n → i < b.n_items)
    (free : Used b idx → ⊥) where
  id_self : id (placed_block b n idx tail item size) idx ≡ compose_item_id 0 tail size
  id_self =
      place_item-id_self b.data_bytes idx tail item size (omega arith) (omega (arith, v.in_page))

  id-ne : (i : ℕ) → i ≢ idx → i < n → id (placed_block b n idx tail item size) i ≡ id b i
  id-ne i ne lt =
      place_item-id_ne b.data_bytes idx tail item size (omega arith) (omega (arith, v.in_page)) i ne
        (omega arith)

  offset_self : get_item_id_offset (id (placed_block b n idx tail item size) idx) ≡ tail
  offset_self = ap get_item_id_offset id_self ∙ omega (arith, v.in_page)

  size_self : get_item_id_size (id (placed_block b n idx tail item size) idx) ≡ size
  size_self = ap get_item_id_size id_self ∙ omega (arith, v.in_page)

  Used-cases :
      (i : ℕ) → Used (placed_block b n idx tail item size) i → (i ≡ idx) ⊎ ((i ≢ idx) × Used b i)
  Used-cases i u = elim (eq-cases i idx) [
    | inl e ↦ inl e
    | inr ne ↦ inr (
      ne,
      record {
        below = old i ne u.below;
        taken = ap get_item_id_availability (sym (id-ne i ne u.below)) ∙ u.taken;
      },
    )
  ]

  Placed-self : Placed (placed_block b n idx tail item size) idx
  Placed-self = record {
    after_tail = omega (arith, offset_self);
    in_page = omega (arith, offset_self, size_self, v.in_page);
    filled = omega (arith, size_self);
  }

  Placed-ne : (i : ℕ) → i ≢ idx → Used b i → Placed (placed_block b n idx tail item size) i
  Placed-ne i ne u =
      let p = v.placed i u in
      let e = id-ne i ne (omega (arith, u.below)) in
      record {
        after_tail = omega (arith, p.after_tail, ap get_item_id_offset e);
        in_page = omega (arith, p.in_page, ap get_item_id_offset e, ap get_item_id_size e);
        filled = omega (arith, p.filled, ap get_item_id_size e);
      }

  offset-ne :
      (i : ℕ)
      → i ≢ idx
      → Used b i
      → get_item_id_offset (id (placed_block b n idx tail item size) i)
        ≡ get_item_id_offset (id b i)
  offset-ne i ne u = ap get_item_id_offset (id-ne i ne (omega (arith, u.below)))

  sizes-ne :
      (i : ℕ)
      → i ≢ idx
      → Used b i
      → get_item_id_size (id (placed_block b n idx tail item size) i) ≡ get_item_id_size (id b i)
  sizes-ne i ne u = ap get_item_id_size (id-ne i ne (omega (arith, u.below)))

  placed_block-Separate :
      (i j : ℕ)
      → Used (placed_block b n idx tail item size) i
      → Used (placed_block b n idx tail item size) j
      → i ≢ j
      → Separate (placed_block b n idx tail item size) i j
  placed_block-Separate i j ui uj d = elim (Used-cases i ui) [
    | inl ei ↦ elim (Used-cases j uj) [
      | inl ej ↦ absurd (d (ei ∙ sym ej))
      | inr (nj, oj) ↦ rw ei (
          inl
            (omega (arith, offset_self, size_self, offset-ne j nj oj, (v.placed j oj).after_tail)))
    ]
    | inr (ni, oi) ↦ elim (Used-cases j uj) [
      | inl ej ↦ rw ej (
          inr
            (omega (arith, offset_self, size_self, offset-ne i ni oi, (v.placed i oi).after_tail)))
      | inr (nj, oj) ↦ omega (
        arith,
        v.separate i j oi oj d,
        offset-ne i ni oi,
        sizes-ne i ni oi,
        offset-ne j nj oj,
        sizes-ne j nj oj,
      )
    ]
  ]

  placed_block-keeps :
      (i k : ℕ) (c : Bytes) → Holds b i k c → Holds (placed_block b n idx tail item size) i k c
  placed_block-keeps i k c h =
      let u = h.used in
      let ne : i ≢ idx = λ e. free (rw e at u) in
      let p = v.placed i u in
      record {
        used = record {
          below = omega (arith, u.below);
          taken = ap get_item_id_availability (id-ne i ne (omega (arith, u.below))) ∙ u.taken;
        };
        size_is = sizes-ne i ne u ∙ h.size_is;
        bytes = λ j lt.
            ap (λ o. place_item b.data_bytes idx tail item size (o + j - header_size))
              (offset-ne i ne u)
            ∙ place_item-above b.data_bytes idx tail item size (omega arith)
                (omega (arith, v.in_page)) (get_item_id_offset (id b i) + j - header_size)
                (omega (arith, p.after_tail))
            ∙ h.bytes j lt;
      }

  placed_block-IsBlock : IsBlock (placed_block b n idx tail item size)
  placed_block-IsBlock = record {
    head = refl;
    ordered = room;
    in_page = omega (arith, v.in_page);
    placed = λ i u. elim (Used-cases i u) [
      | inl e ↦ rw e Placed-self
      | inr (ne, old_use) ↦ Placed-ne i ne old_use
    ];
    separate = placed_block-Separate;
  }

  pub placed_block-Added : Added b idx size item (placed_block b n idx tail item size)
  placed_block-Added = record {
    valid = placed_block-IsBlock;
    holds = record {
      used = record { below = below; taken = ap get_item_id_availability id_self ∙ omega arith };
      size_is = size_self;
      bytes = λ j h.
          ap (λ o. place_item b.data_bytes idx tail item size (o + j - header_size)) offset_self
          ∙ place_item-inside b.data_bytes idx tail item size (omega arith)
              (omega (arith, v.in_page)) j h;
    };
    keeps = placed_block-keeps;
    tail = whole;
  }

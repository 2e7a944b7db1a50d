-- ===== src/Block/Items.antt =====
-- The items of a block of myjql/src/block.c: what a block holds at an index, and its invariant.
use course_pj.Base.{
  ℕ, ◌+◌, ◌-◌, ◌*◌, ◌%◌, ◌^◌, ◌≤◌, ◌<◌, ◌≡◌, ◌∙◌, ap, ◌≢◌, inl, arith, Bytes, copy_bytes,
}
use course_pj.Base.Memory.Laws.{
  Apart, read32-write32, read32-write32_ne, write32-byte, copy_bytes-inside, copy_bytes-outside,
  read32-eq,
}
use course_pj.Block.{
  Block, get_item_id, set_item_id, get_item_id_availability, get_item_id_offset, get_item_id_size,
  compose_item_id, item_bytes, item_id_size, header_size, place_item,
}

abbrev pub id : Block → ℕ → ℕ
id b i = get_item_id b.data_bytes i

-- The id at an index below the count is in use.
pub record Used (b : Block) (i : ℕ) : Type 0 where
  pub below : i < b.n_items
  pub taken : get_item_id_availability (id b i) ≡ 0

-- The place of an item between the free space and the end of the page.
pub record Placed (b : Block) (i : ℕ) : Type 0 where
  pub after_tail : b.tail_ptr ≤ get_item_id_offset (id b i)
  pub in_page : get_item_id_offset (id b i) + get_item_id_size (id b i) ≤ 128
  pub filled : 0 < get_item_id_size (id b i)

abbrev pub Separate : Block → ℕ → ℕ → Type 0
Separate b i j =
    Apart (get_item_id_offset (id b i)) (get_item_id_size (id b i)) (get_item_id_offset (id b j))
      (get_item_id_size (id b j))

pub record IsBlock (b : Block) : Type 0 where
  pub head : b.head_ptr ≡ 6 + 4 * b.n_items
  pub ordered : b.head_ptr ≤ b.tail_ptr
  pub in_page : b.tail_ptr ≤ 128
  pub placed : (i : ℕ) → Used b i → Placed b i
  pub separate : (i j : ℕ) → Used b i → Used b j → i ≢ j → Separate b i j

-- The block has an item of `size` bytes at `i`, the bytes `item`.
pub record Holds (b : Block) (i size : ℕ) (item : Bytes) : Type 0 where
  pub used : Used b i
  pub size_is : get_item_id_size (id b i) ≡ size
  pub bytes : (j : ℕ) → j < size → item_bytes b (get_item_id_offset (id b i)) j ≡ item j

-- The three fields of an id that was put together.
pub compose_availability : (a o s : ℕ) → get_item_id_availability (compose_item_id a o s) ≡ a % 2
compose_availability a o s = omega arith

pub compose_offset : (a o s : ℕ) → get_item_id_offset (compose_item_id a o s) ≡ o % 2 ^ 15
compose_offset a o s = omega arith

pub compose_size : (a o s : ℕ) → get_item_id_size (compose_item_id a o s) ≡ s % 2 ^ 15
compose_size a o s = omega arith

pub compose-lt : (a o s : ℕ) → compose_item_id a o s < 2 ^ 32
compose-lt a o s = omega arith

pub get_item_id-set_self :
    (m : Bytes) (i v : ℕ) → v < 2 ^ 32 → get_item_id (set_item_id m i v) i ≡ v
unfolding get_item_id set_item_id
get_item_id-set_self m i v h = read32-write32 m (item_id_size * i) v ∙ omega arith

pub get_item_id-set_ne :
    (m : Bytes) (i j v : ℕ) → j ≢ i → get_item_id (set_item_id m i v) j ≡ get_item_id m j
unfolding get_item_id set_item_id
get_item_id-set_ne m i j v n =
    read32-write32_ne m (item_id_size * j) (item_id_size * i) v (omega arith)

pub set_item_id-byte : (m : Bytes) (i v b : ℕ) → 4 * i + 4 ≤ b → set_item_id m i v b ≡ m b
unfolding set_item_id
set_item_id-byte m i v b h = write32-byte m (item_id_size * i) v b (omega arith)

-- An id depends on its four bytes.
pub get_item_id-eq :
    (m n : Bytes) (i : ℕ)
    → ((b : ℕ) → b < 4 * i + 4 → m b ≡ n b)
    → get_item_id m i ≡ get_item_id n i
unfolding get_item_id
get_item_id-eq m n i h = read32-eq m n (item_id_size * i) (λ b lo hi. h b (omega arith))

-- An item that was placed above the ids.
module _ (m : Bytes) (idx tail : ℕ) (item : Bytes) (size : ℕ) (above : 6 + 4 * idx + 4 ≤ tail)
    (small : size ≤ 128) where
  place_item-copy :
      place_item m idx tail item size
      ≡ copy_bytes (set_item_id m idx (compose_item_id 0 tail size)) (tail - header_size) item size
  unfolding place_item
  place_item-copy =
      ap (copy_bytes (set_item_id m idx (compose_item_id 0 tail size)) (tail - header_size) item)
        (ground arith)

  place_item-below :
      (b : ℕ)
      → b < tail - header_size
      → place_item m idx tail item size b ≡ set_item_id m idx (compose_item_id 0 tail size) b
  place_item-below b h =
      ap (λ (f : Bytes). f b) place_item-copy
      ∙ copy_bytes-outside _ (tail - header_size) item size b (inl (omega arith))

  pub place_item-id_self :
      get_item_id (place_item m idx tail item size) idx ≡ compose_item_id 0 tail size
  place_item-id_self =
      get_item_id-eq _ _ idx (λ b h. place_item-below b (omega arith))
      ∙ get_item_id-set_self m idx (compose_item_id 0 tail size) (compose-lt 0 tail size)

  pub place_item-id_ne :
      (i : ℕ)
      → i ≢ idx
      → 6 + 4 * i + 4 ≤ tail
      → get_item_id (place_item m idx tail item size) i ≡ get_item_id m i
  place_item-id_ne i n h =
      get_item_id-eq _ _ i (λ b k. place_item-below b (omega arith))
      ∙ get_item_id-set_ne m idx i (compose_item_id 0 tail size) n

  pub place_item-inside :
      (j : ℕ) → j < size → place_item m idx tail item size (tail + j - header_size) ≡ item j
  place_item-inside j h =
      let e : tail + j - header_size ≡ tail - header_size + j = omega arith in
      ap (λ (f : Bytes). f (tail + j - header_size)) place_item-copy
      ∙ rw e (copy_bytes-inside _ (tail - header_size) item size j h)

  pub place_item-above :
      (b : ℕ) → tail + size - header_size ≤ b → place_item m idx tail item size b ≡ m b
  place_item-above b h =
      ap (λ (f : Bytes). f b) place_item-copy
      ∙ copy_bytes-outside _ (tail - header_size) item size b (omega arith)
      ∙ set_item_id-byte m idx (compose_item_id 0 tail size) b (omega arith)

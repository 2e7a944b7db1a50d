-- ===== src/Block.antt =====
-- myjql/src/block.c and myjql/include/block.h: a page of items, each behind an item id. The ids
-- grow from the front of `data`, the items from its back.
pub mod Items
pub mod Place
pub mod New
pub mod Compaction
pub mod Delete
pub mod Print
use course_pj.Base.{
  ℕ, zero, suc, ◌+◌, ◌-◌, ◌*◌, ◌/◌, ◌%◌, ◌^◌, Option, none, some, ◌||◌, not, ◌==◌, ltb,
  if◌then◌else◌, Bytes, read32, write32, copy_bytes, write, mod64, sign_extend, short_is_neg,
  short_lt, short_minus_one, add16, sub16, rounds,
}
use course_pj.FileIo.{page_size}

-- The three shorts are 16-bit patterns; `data` begins at offset 6 of the page.
pub record Block : Type 0 where
  pub n_items : ℕ
  pub head_ptr : ℕ
  pub tail_ptr : ℕ
  pub data_bytes : Bytes

-- `3 * sizeof(short)`, the offset of `data` in a block.
abbrev pub header_size : ℕ
header_size = 6

abbrev pub item_id_size : ℕ
item_id_size = 4

abbrev pub get_item_id_availability : ℕ → ℕ
get_item_id_availability item_id = item_id / 2 ^ 30 % 2

abbrev pub get_item_id_offset : ℕ → ℕ
get_item_id_offset item_id = item_id / 2 ^ 15 % 2 ^ 15

abbrev pub get_item_id_size : ℕ → ℕ
get_item_id_size item_id = item_id % 2 ^ 15

-- The three fields share no bit, so `|` is `+`.
abbrev pub compose_item_id : ℕ → ℕ → ℕ → ℕ
compose_item_id availability offset size =
    availability % 2 * 2 ^ 30 + offset % 2 ^ 15 * 2 ^ 15 + size % 2 ^ 15

unfoldable pub get_item_id : Bytes → ℕ → ℕ
get_item_id data_bytes idx = read32 data_bytes (item_id_size * idx)

unfoldable pub set_item_id : Bytes → ℕ → ℕ → Bytes
set_item_id data_bytes idx item_id = write32 data_bytes (item_id_size * idx) item_id

unfoldable pub init_block : Block → Block
init_block block = record block { n_items = 0; head_ptr = header_size; tail_ptr = page_size }

-- The offset of the item in the page; `none` is the null pointer.
unfoldable pub get_item : Block → ℕ → Option ℕ
get_item block idx =
    if short_is_neg idx || not (short_lt idx block.n_items)
    then none
    else let item_id = get_item_id block.data_bytes idx in
      if get_item_id_availability item_id == 1 then none else some (get_item_id_offset item_id)

-- The bytes behind a pointer into the page, from offset 6 on.
abbrev pub item_bytes : Block → ℕ → Bytes
item_bytes block offset j = block.data_bytes (offset + j - header_size)

-- The first index from `i` on, in so many rounds, whose id is available.
unfoldable pub find_available : Bytes → ℕ → ℕ → Option ℕ
find_available data_bytes zero i = none
find_available data_bytes (suc n) i =
    if get_item_id_availability (get_item_id data_bytes i) == 1
    then some i
    else find_available data_bytes n (i + 1)

-- The id and the bytes of an item that begins at `tail`.
unfoldable pub place_item : Bytes → ℕ → ℕ → Bytes → ℕ → Bytes
place_item data_bytes idx tail item item_size =
    copy_bytes (set_item_id data_bytes idx (compose_item_id 0 tail item_size)) (tail - header_size)
      item (rounds item_size)

abbrev pub avai_space : Block → ℕ
avai_space block = sub16 block.tail_ptr block.head_ptr

-- With an available id: its index is returned also when the item does not fit.
reuse_item : Block → ℕ → Bytes → ℕ → Block × ℕ
reuse_item block i item item_size =
    if short_lt (avai_space block) item_size
    then (block, i)
    else let tail = sub16 block.tail_ptr item_size in
      (
        record block {
          tail_ptr = tail;
          data_bytes = place_item block.data_bytes i tail item item_size;
        },
        i,
      )

-- With none: the sum with `sizeof` is unsigned.
append_item : Block → Bytes → ℕ → Block × ℕ
append_item block item item_size =
    if ltb (sign_extend (avai_space block)) ((item_id_size + sign_extend item_size) % mod64)
    then (block, short_minus_one)
    else let tail = sub16 block.tail_ptr item_size in
      (
        record {
          head_ptr = add16 block.head_ptr item_id_size;
          tail_ptr = tail;
          n_items = add16 block.n_items 1;
          data_bytes = place_item block.data_bytes block.n_items tail item item_size;
        },
        block.n_items,
      )

unfoldable pub new_item : Block → Bytes → ℕ → Block × ℕ
unfolding reuse_item append_item
new_item block item item_size = elim (find_available block.data_bytes block.n_items 0) [
  | some i ↦ reuse_item block i item item_size
  | none ↦ append_item block item item_size
]

-- The first loop of `delete_item`: `n` bytes from `tail` on move up by `size`, the last one first.
unfoldable pub move_up : Bytes → ℕ → ℕ → ℕ → Bytes
move_up data_bytes tail size zero = data_bytes
move_up data_bytes tail size (suc n) =
    move_up (write data_bytes (tail + n + size - header_size) (data_bytes (tail + n - header_size)))
      tail size n

-- The rounds of that loop, from `end - 1 - size` down to `tail_ptr`: an `end` that wraps is negative.
unfoldable pub moved_bytes : Block → ℕ → ℕ → ℕ
moved_bytes block pos size =
    let end = add16 pos size in if short_is_neg end then 0 else end - size - block.tail_ptr

-- The body of the second loop: an item that was below the deleted one has moved.
unfoldable pub relocate_item : Bytes → ℕ → ℕ → ℕ → Bytes
relocate_item data_bytes pos size i =
    let item_id = get_item_id data_bytes i in
    if ltb (get_item_id_offset item_id) pos
    then set_item_id data_bytes i (
        compose_item_id (get_item_id_availability item_id) (get_item_id_offset item_id + size)
          (get_item_id_size item_id))
    else data_bytes

unfoldable pub relocate_items : Bytes → ℕ → ℕ → ℕ → Bytes
relocate_items data_bytes pos size zero = data_bytes
relocate_items data_bytes pos size (suc n) =
    relocate_item (relocate_items data_bytes pos size n) pos size n

-- The end of `delete_item`: the last id is given back, any other becomes available.
unfoldable pub drop_item_id : Block → ℕ → Block
drop_item_id block idx =
    if idx == block.n_items - 1
    then record block {
      head_ptr = sub16 block.head_ptr item_id_size;
      n_items = sub16 block.n_items 1;
    }
    else record block { data_bytes = set_item_id block.data_bytes idx (compose_item_id 1 0 0) }

unfoldable pub delete_item : Block → ℕ → Block
delete_item block idx =
    if short_is_neg idx || not (short_lt idx block.n_items)
    then block
    else let item_id = get_item_id block.data_bytes idx in
      let pos = get_item_id_offset item_id in
      let size = get_item_id_size item_id in
      let moved = move_up block.data_bytes block.tail_ptr size (moved_bytes block pos size) in
      drop_item_id
        (record block {
          tail_ptr = add16 block.tail_ptr size;
          data_bytes = relocate_items moved pos size block.n_items;
        })
        idx

unfoldable pub get_block_size : Block → ℕ
get_block_size block = elim (find_available block.data_bytes block.n_items 0) [
  | some _ ↦ avai_space block
  | none ↦ sub16 (avai_space block) item_id_size
]

-- ===== src/Block/Print.antt =====
-- `print_block` and `str_printer` of myjql/src/block.c. What they print is their result.
use course_pj.Base.{
  ℕ, zero, suc, ◌+◌, Option, none, some, List, [], ◌∷◌, ◌==◌, if◌then◌else◌, Bytes, rounds,
}
use course_pj.Block.{
  Block, get_item, get_item_id, get_item_id_availability, get_item_id_offset, get_item_id_size,
  item_bytes,
}

-- The characters of an item; `none` is `NULL`.
characters : Bytes → ℕ → ℕ → List ℕ
characters item zero i = []
characters item (suc n) i = item i ∷ characters item n (i + 1)

unfoldable pub str_printer : Block → Option ℕ → ℕ → Option (List ℕ)
unfolding characters
str_printer block none item_size = none
str_printer block (some offset) item_size =
    some (characters (item_bytes block offset) (rounds item_size) 0)

-- A line of the listing.
pub record ItemLine : Type 0 where
  pub idx : ℕ
  pub availability : ℕ
  pub offset : ℕ
  pub size : ℕ
  pub text : Option (List ℕ)

print_item : Block → ℕ → ItemLine
unfolding str_printer
print_item block i =
    let item_id = get_item_id block.data_bytes i in
    let availability = get_item_id_availability item_id in
    record {
      idx = i;
      availability = availability;
      offset = get_item_id_offset item_id;
      size = get_item_id_size item_id;
      text =
          str_printer block (if availability == 0 then get_item block i else none)
            (get_item_id_size item_id);
    }

print_items : Block → ℕ → ℕ → List ItemLine
unfolding print_item
print_items block zero i = []
print_items block (suc n) i = print_item block i ∷ print_items block n (i + 1)

-- The three numbers of the head, and the lines.
unfoldable pub print_block : Block → (ℕ × ℕ × ℕ) × List ItemLine
unfolding print_items
print_block block =
    ((block.n_items, block.head_ptr, block.tail_ptr), print_items block (rounds block.n_items) 0)

-- ===== src/Tests/Blocks.antt =====
-- Blocks of one and two items for myjql/src/block.c.
use course_pj.Base.{ℕ, ◌+◌, ◌<◌, ◌≡◌, refl, ◌⊎◌, arith, none, Bytes, short_minus_one}
use course_pj.Block.{
  Block, init_block, new_item, delete_item, find_available, get_block_size,
  get_item_id_availability,
}
use course_pj.Block.Items.{id}
use course_pj.Block.Place.{Added}
use course_pj.Block.New.{FitsIn, init_block-IsBlock, new_item-Added, new_item-full}
use course_pj.Block.Delete.{Removed, delete_item-Removed}

abbrev fresh : Block
fresh = record { n_items = 9; head_ptr = 9; tail_ptr = 9; data_bytes = λ i. 0 }

abbrev letters : Bytes
letters i = 65 + i

ten-fit : FitsIn (init_block fresh) (init_block-IsBlock fresh) 10
unfolding init_block get_block_size find_available
ten-fit = record { filled = omega arith; free = omega arith; positive = omega arith }

new_item-Added_example :
    Added
      (init_block fresh)
      (new_item (init_block fresh) letters 10).1
      10
      letters
      (new_item (init_block fresh) letters 10).0
new_item-Added_example =
    new_item-Added (init_block fresh) (init_block-IsBlock fresh) letters 10 ten-fit

first :
    Added
      (init_block fresh)
      (new_item (init_block fresh) letters 10).1
      10
      letters
      (new_item (init_block fresh) letters 10).0
first = new_item-Added (init_block fresh) (init_block-IsBlock fresh) letters 10 ten-fit

delete_item-Removed_example :
    Removed (new_item (init_block fresh) letters 10).0 (new_item (init_block fresh) letters 10).1 (
      delete_item
        (new_item (init_block fresh) letters 10).0
        (new_item (init_block fresh) letters 10).1)
delete_item-Removed_example =
    delete_item-Removed (new_item (init_block fresh) letters 10).0 first.valid
      (new_item (init_block fresh) letters 10).1 first.holds.used

free_of_fresh : get_block_size (init_block fresh) ≡ 118
unfolding init_block get_block_size find_available
free_of_fresh = refl

new_item-full_example :
    ((find_available (init_block fresh).data_bytes (init_block fresh).n_items 0 ≡ none)
      × (new_item (init_block fresh) letters 119 ≡ (init_block fresh, short_minus_one)))
    ⊎ ((i : ℕ) × (new_item (init_block fresh) letters 119 ≡ (init_block fresh, i))
        × (i < (init_block fresh).n_items)
        × (get_item_id_availability (id (init_block fresh) i) ≡ 1))
new_item-full_example =
    new_item-full (init_block fresh) (init_block-IsBlock fresh) letters 119
      (let g = free_of_fresh in ground arith) (omega arith)

-- ===== src/Tests/Values.antt =====
-- A string of one chunk in a table of two pages, for `load_string` of myjql/src/str.c.
use course_pj.Base.{
  ℕ, ◌+◌, ◌<◌, ◌≡◌, refl, true, false, arith, List, [], ◌∷◌, replicate, Bytes, write, store_list,
  load_list, ok, ◌>>=◌, copy_bytes, read16, read32, read64, write16, write64, read32, write32,
}
use course_pj.FileIo.{FileInfo}
use course_pj.BufferPool.{BufferPool}
use course_pj.BufferPool.Init.{fresh_pool, fresh_pool-IsPool, fresh_pool-view}
use course_pj.BufferPool.Refs.{zeros}
use course_pj.BufferPool.Session.{Session}
use course_pj.Block.{
  Block, init_block, new_item, get_block_size, find_available, get_item_id, set_item_id, place_item,
}
use course_pj.Block.Place.{Added}
use course_pj.Block.New.{FitsIn, init_block-IsBlock, new_item-Added}
use course_pj.HashMap.Page.{empty_words}
use course_pj.Table.{Table, Rid, empty_block}
use course_pj.Table.Read.{with_item}
use course_pj.Str.Chunk.{
  no_rid, calc_str_chunk_size, get_str_chunk_size, get_str_chunk_rid, read_rid, write_rid,
}
use course_pj.Str.Read.{read_string, load_string, Buffer}
use course_pj.Str.Read.Chain.{Stored, ends}
use course_pj.Str.Read.Load.{load_string-Stored}
use course_pj.Str.Write.{fill_chunk}
use course_pj.Tests.Database.{zeros_memory}

abbrev pub chunk : Bytes
chunk = fill_chunk zeros_memory no_rid 2 (λ i. 120 + i)

chunk_fits :
    FitsIn (init_block empty_block) (init_block-IsBlock empty_block) (calc_str_chunk_size 2)
unfolding init_block get_block_size find_available
chunk_fits = record { filled = omega arith; free = omega arith; positive = omega arith }

abbrev pub with_chunk : Block × ℕ
with_chunk = new_item (init_block empty_block) chunk (calc_str_chunk_size 2)

pub with_chunk-Added :
    Added (init_block empty_block) with_chunk.1 (calc_str_chunk_size 2) chunk with_chunk.0
with_chunk-Added =
    new_item-Added (init_block empty_block) (init_block-IsBlock empty_block) chunk
      (calc_str_chunk_size 2) chunk_fits

abbrev pub unreferenced : List ℕ
unreferenced = replicate 8 0

pub one-free : 0 < zeros unreferenced
unfolding zeros
one-free = omega arith

-- A table of two pages that are both this block.
abbrev pub file_of : Block → FileInfo Block
file_of b = record {
  is_open = true;
  length = 256;
  pages = λ a. b;
  faulty = λ a. false;
  torn = λ a p. p;
}

abbrev pub table_of : Block → Table
table_of b = record {
  data_pool = fresh_pool empty_block (file_of b);
  fsm_pool = fresh_pool empty_words (record {
    is_open = true;
    length = 0;
    pages = λ a. empty_words;
    faulty = λ a. false;
    torn = λ a p. p;
  });
}

pub table_of-Session : (b : Block) → Session 256 unreferenced (λ a. b) (table_of b).data_pool
table_of-Session b = record {
  valid =
      fresh_pool-IsPool empty_block (file_of b) (record { whole = refl; room = omega arith })
        (λ a. refl);
  length = refl;
  short = omega arith;
  refs_are = refl;
  pages = λ a al lt. fresh_pool-view empty_block (file_of b) a al;
}

abbrev pub string_place : Rid
string_place = record { block_addr = 128; idx = with_chunk.1 }

abbrev pub xy : List ℕ
xy = 120 ∷ 121 ∷ []

pub xy-Stored : Stored 256 (λ a. with_chunk.0) zeros_memory string_place xy
unfolding load_list new_item find_available init_block get_str_chunk_size read16 copy_bytes
    get_item_id read32 place_item set_item_id write32 fill_chunk write_rid write64 write16
    get_str_chunk_rid read_rid read64
xy-Stored = record {
  aligned = refl;
  below = omega arith;
  block = with_chunk-Added.valid;
  used = with_chunk-Added.holds.used;
  short = omega arith;
  rest = [];
  behind = ends (with_item with_chunk.0 with_chunk.1 zeros_memory) refl;
  whole = refl;
}

abbrev text_buffer : Buffer
text_buffer = record { bytes = zeros_memory; room = 1025 }

load_string-Stored_example :
    (new : BufferPool Block) × ((read_string zeros_memory string_place
          >>= (λ r. load_string r text_buffer 1024))
        (table_of with_chunk.0)
      ≡ ok
          (2, write (store_list zeros_memory 0 xy) 2 0)
          (record (table_of with_chunk.0) { data_pool = new }))
    × Session 256 unreferenced (λ a. with_chunk.0) new
load_string-Stored_example =
    load_string-Stored zeros_memory string_place xy text_buffer 1024 (table_of with_chunk.0)
      xy-Stored (table_of-Session with_chunk.0) one-free

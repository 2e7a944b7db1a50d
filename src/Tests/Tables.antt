-- ===== src/Tests/Tables.antt =====
-- A table of records over one block with one record, for myjql/src/table.c and myjql/src/myjql.c.
use course_pj.Base.{ℕ, ◌<◌, ◌≤◌, ◌≡◌, refl, true, false, arith, ok, Bytes, List, replicate}
use course_pj.FileIo.{FileInfo}
use course_pj.FileIo.Pages.{IsFile}
use course_pj.BufferPool.{BufferPool}
use course_pj.BufferPool.Init.{fresh_pool, fresh_pool-IsPool, fresh_pool-view}
use course_pj.BufferPool.Refs.{zeros}
use course_pj.BufferPool.Session.{Session}
use course_pj.Block.{Block, init_block, new_item, get_block_size, find_available}
use course_pj.Block.Place.{Added}
use course_pj.Block.New.{FitsIn, init_block-IsBlock, new_item-Added}
use course_pj.HashMap.Page.{empty_words}
use course_pj.Table.{Table, Rid, empty_block, table_read}
use course_pj.Table.Read.{table_read-Holds}
use course_pj.Str.Chunk.Fields.{IsRid}
use course_pj.MyJql.{Record, encode_record, record_size, read_record}
use course_pj.MyJql.Records.{read_record-encode_record}

abbrev zeros_memory : Bytes
zeros_memory i = 0

abbrev stored : Record
stored = record {
  key = record { block_addr = 0; idx = 0 };
  value = record { block_addr = 128; idx = 1 };
}

record_fits : FitsIn (init_block empty_block) (init_block-IsBlock empty_block) record_size
unfolding init_block get_block_size find_available
record_fits = record { filled = omega arith; free = omega arith; positive = omega arith }

abbrev item : Bytes
item = encode_record zeros_memory stored

abbrev with_record : Block × ℕ
with_record = new_item (init_block empty_block) item record_size

with_record-Added : Added (init_block empty_block) with_record.1 record_size item with_record.0
with_record-Added =
    new_item-Added (init_block empty_block) (init_block-IsBlock empty_block) item record_size
      record_fits

abbrev data_file : FileInfo Block
data_file = record {
  is_open = true;
  length = 256;
  pages = λ a. with_record.0;
  faulty = λ a. false;
  torn = λ a p. p;
}

abbrev blocks : BufferPool Block
blocks = fresh_pool empty_block data_file

data_file-IsFile : IsFile data_file
data_file-IsFile = record { whole = refl; room = omega arith }

abbrev unreferenced : List ℕ
unreferenced = replicate 8 0

blocks-Session : Session 256 unreferenced (λ a. with_record.0) blocks
blocks-Session = record {
  valid = fresh_pool-IsPool empty_block data_file data_file-IsFile (λ a. refl);
  length = refl;
  short = omega arith;
  refs_are = refl;
  pages = λ a al lt. fresh_pool-view empty_block data_file a al;
}

abbrev table : Table
table = record {
  data_pool = blocks;
  fsm_pool = fresh_pool empty_words (record {
    is_open = true;
    length = 0;
    pages = λ a. empty_words;
    faulty = λ a. false;
    torn = λ a p. p;
  });
}

one-free : 0 < zeros unreferenced
unfolding zeros
one-free = omega arith

abbrev place : Rid
place = record { block_addr = 128; idx = with_record.1 }

table_read-Holds_example :
    (bytes : Bytes) × (new : BufferPool Block) × (table_read place zeros_memory table
      ≡ ok bytes (record table { data_pool = new }))
    × Session 256 unreferenced (λ a. with_record.0) new
    × ((j : ℕ) → j < record_size → bytes j ≡ item j)
    × ((j : ℕ) → record_size ≤ j → bytes j ≡ zeros_memory j)
table_read-Holds_example =
    table_read-Holds table place record_size item zeros_memory blocks-Session refl (omega arith)
      one-free with_record-Added.valid with_record-Added.holds

key-IsRid : IsRid stored.key
key-IsRid = record { addr = omega arith; idx = omega arith }

value-IsRid : IsRid stored.value
value-IsRid = record { addr = omega arith; idx = omega arith }

read_record-encode_record_example :
    (new : BufferPool Block) × (read_record zeros_memory place table
      ≡ ok stored (record table { data_pool = new }))
    × Session 256 unreferenced (λ a. with_record.0) new
read_record-encode_record_example =
    read_record-encode_record zeros_memory zeros_memory stored place table key-IsRid value-IsRid
      blocks-Session refl (omega arith) one-free with_record-Added.valid with_record-Added.holds

-- ===== src/Tests/Keys.antt =====
-- A database with the key "xy" whose value is "xy", for `myjql_get` of myjql/src/myjql.c.
use mathlib.Core.Path.{subst}
use course_pj.Base.{
  ap, sym, ◌∙◌, ℕ, ◌≡◌, refl, true, false, ◌==◌, if◌then◌else◌, arith, minus_one, Bytes, write,
  store_list, load_list, Res, ok, fault, hang, copy_bytes, read16, read32, read64, write16, write64,
  read32, write32,
}
use course_pj.FileIo.{read_page}
use course_pj.BufferPool.{get_page, load, release}
use course_pj.BufferPool.Init.{fresh_pool}
use course_pj.Block.{
  Block, init_block, new_item, get_block_size, find_available, get_item, get_item_id, set_item_id,
  place_item,
}
use course_pj.Block.Place.{Added}
use course_pj.Block.New.{FitsIn, init_block-IsBlock, new_item-Added}
use course_pj.Table.{Rid, empty_block, table_read}
use course_pj.Str.Chunk.{no_rid, get_str_chunk_size, get_str_chunk_rid, read_rid, write_rid}
use course_pj.Str.Chunk.Fields.{IsRid}
use course_pj.Str.Read.{read_string, load_string, has_next_char, next_char}
use course_pj.Str.Write.{fill_chunk}
use course_pj.BTree.Node.{BNode, empty_node}
use course_pj.BTree.Search.{b_tree_search}
use course_pj.Server.{value_buffer}
use course_pj.MyJql.{
  Db, Tables, Record, encode_record, decode_record, record_size, find_key, myjql_get,
  rid_ptr_row_cmp, strcmp_from,
}
use course_pj.MyJql.Get.{Recorded, Contents, TablesHold, myjql_get-Stored, rid_ptr_row_cmp-Stored}
use course_pj.Tests.Database.{zeros_memory, limits}
use course_pj.Tests.Values.{
  with_chunk, unreferenced, one-free, table_of, table_of-Session, string_place, xy, xy-Stored,
}

abbrev xy_record : Record
xy_record = record { key = string_place; value = string_place }

record_fits : FitsIn (init_block empty_block) (init_block-IsBlock empty_block) record_size
unfolding init_block get_block_size find_available
record_fits = record { filled = omega arith; free = omega arith; positive = omega arith }

abbrev with_record : Block × ℕ
with_record = new_item (init_block empty_block) (encode_record zeros_memory xy_record) record_size

with_record-Added :
    Added
      (init_block empty_block)
      with_record.1
      record_size
      (encode_record zeros_memory xy_record)
      with_record.0
with_record-Added =
    new_item-Added (init_block empty_block) (init_block-IsBlock empty_block)
      (encode_record zeros_memory xy_record) record_size record_fits

abbrev record_place : Rid
record_place = record { block_addr = 128; idx = with_record.1 }

-- The control block, and a root that is a leaf with one row.
abbrev nodes : ℕ → BNode
nodes a =
    if a == 0
    then record { n = 128; next = 256; child = λ i. minus_one; row_ptr = λ i. no_rid; leaf = 0 }
    else record {
      n = 1;
      next = minus_one;
      child = λ i. minus_one;
      row_ptr = λ i. if i == 0 then record_place else no_rid;
      leaf = 1;
    }

abbrev one_key : Db
one_key = record {
  pool = fresh_pool empty_node (record {
    is_open = true;
    length = 256;
    pages = nodes;
    faulty = λ a. false;
    torn = λ a p. p;
  });
  tables = record { tbl_rec = table_of with_record.0; tbl_str = table_of with_chunk.0 };
}

abbrev key_xy : Bytes
key_xy = store_list zeros_memory 0 xy

abbrev found_db : Res Db Rid → Db
found_db (ok rid db) = db
found_db fault = one_key
found_db hang = one_key

abbrev found : Db
found = found_db (find_key zeros_memory limits key_xy one_key)

find_key-xy : find_key zeros_memory limits key_xy one_key ≡ ok record_place found
unfolding find_key b_tree_search get_page read_page load release load_list new_item find_available
    init_block get_str_chunk_size read16 copy_bytes get_item_id read32 place_item set_item_id
    write32 fill_chunk write_rid write64 write16 get_str_chunk_rid read_rid read64 store_list
    table_read read_string decode_record get_item encode_record load_string has_next_char next_char
find_key-xy = refl

abbrev recs : Contents
recs = record { len = 256; refs = unreferenced; pages = λ a. with_record.0 }

abbrev strs : Contents
strs = record { len = 256; refs = unreferenced; pages = λ a. with_chunk.0 }

one_key-TablesHold : TablesHold recs strs one_key.tables
one_key-TablesHold = record {
  rec_session = table_of-Session with_record.0;
  str_session = table_of-Session with_chunk.0;
  rec_free = one-free;
  str_free = one-free;
}

place-IsRid : IsRid string_place
unfolding new_item find_available init_block
place-IsRid = record { addr = omega arith; idx = omega arith }

xy-Recorded : Recorded 256 (λ a. with_record.0) zeros_memory record_place xy_record
xy-Recorded = record {
  key = place-IsRid;
  value = place-IsRid;
  aligned = refl;
  below = omega arith;
  block = with_record-Added.valid;
  held = with_record-Added.holds;
}

rid_ptr_row_cmp-Stored_example :
    (new : Tables) × (rid_ptr_row_cmp zeros_memory limits key_xy 8 record_place one_key.tables
      ≡ strcmp_from limits.differ 8 key_xy (write (store_list zeros_memory 0 xy) 2 0) 0 new)
    × TablesHold recs strs new
rid_ptr_row_cmp-Stored_example =
    rid_ptr_row_cmp-Stored recs strs zeros_memory zeros_memory limits key_xy 8 record_place
      xy_record xy one_key.tables refl xy-Recorded xy-Stored one_key-TablesHold

-- The tables after a comparison of the key with the row.
abbrev tables_of : Tables → Res Tables ℕ → Tables
tables_of t (ok c s) = s
tables_of t fault = t
tables_of t hang = t

abbrev compared : Tables → Tables
compared t = tables_of t (rid_ptr_row_cmp zeros_memory limits key_xy 8 record_place t)

strcmp-xy :
    (t : Tables)
    → strcmp_from limits.differ 8 key_xy (write (store_list zeros_memory 0 xy) 2 0) 0 t ≡ ok 0 t
unfolding strcmp_from store_list
strcmp-xy t = refl

compared-TablesHold : (t : Tables) → TablesHold recs strs t → TablesHold recs strs (compared t)
compared-TablesHold t h =
    let (new, e, held) =
      rid_ptr_row_cmp-Stored recs strs zeros_memory zeros_memory limits key_xy 8 record_place
        xy_record xy t refl xy-Recorded xy-Stored h in
    subst (TablesHold recs strs) (sym (ap (tables_of t) (e ∙ strcmp-xy new))) held

found-tables : compared (compared (compared (compared one_key.tables))) ≡ found.tables
unfolding find_key b_tree_search get_page read_page load release load_list new_item find_available
    init_block get_str_chunk_size read16 copy_bytes get_item_id read32 place_item set_item_id
    write32 fill_chunk write_rid write64 write16 get_str_chunk_rid read_rid read64 store_list
    table_read read_string decode_record get_item encode_record load_string has_next_char next_char
    rid_ptr_row_cmp
found-tables = refl

found-TablesHold : TablesHold recs strs found.tables
found-TablesHold = subst (TablesHold recs strs) found-tables (
    compared-TablesHold _ (
      compared-TablesHold _
        (compared-TablesHold _ (compared-TablesHold one_key.tables one_key-TablesHold))))

myjql_get-Stored_example :
    (new : Tables) × (myjql_get zeros_memory limits key_xy (value_buffer zeros_memory) 1024 one_key
      ≡ ok (2, write (store_list zeros_memory 0 xy) 2 0) (record found { tables = new }))
    × TablesHold recs strs new
myjql_get-Stored_example =
    myjql_get-Stored recs strs zeros_memory zeros_memory limits key_xy (value_buffer zeros_memory)
      1024 one_key found record_place xy_record xy find_key-xy refl xy-Recorded xy-Stored
      found-TablesHold

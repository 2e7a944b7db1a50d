-- ===== src/MyJql.antt =====
-- myjql/src/myjql.c: the database, an index over a table of records and a table of strings.
pub mod Records
pub mod Compare
pub mod Get
use course_pj.Base.{
  ℕ, zero, suc, ◌+◌, ◌*◌, Bool, not, ◌&&◌, ◌==◌, if◌then◌else◌, Bytes, minus_one, Cmd, pure, spin,
  lift, ◌>>=◌, ◌>>◌,
}
use course_pj.FileIo.{FileInfo, Opening}
use course_pj.Block.{Block}
use course_pj.HashMap.Page.{Words}
use course_pj.Table.{
  Table, Rid, Fuel, table_init, table_close, table_read, table_insert, table_delete,
}
use course_pj.Str.Chunk.{read_rid, write_rid, rid_size, StringRecord}
use course_pj.Str.Read.{
  read_string, compare_string_record, load_string, Buffer, Sign, less, same, more,
}
use course_pj.Str.Write.{write_string, delete_string}
use course_pj.BTree.Node.{BNode, Index, int_minus_one, on_tables, b_tree_init, b_tree_close}
use course_pj.BTree.Search.{b_tree_search}
use course_pj.BTree.Insert.{b_tree_insert}
use course_pj.BTree.Remove.{b_tree_delete}

pub record Record : Type 0 where
  pub key : Rid
  pub value : Rid

-- The global variables but for the index: `tbl_rec` and `tbl_str`.
pub record Tables : Type 0 where
  pub tbl_rec : Table
  pub tbl_str : Table

-- `bp_idx` is the pool of the index.
abbrev pub Db : Type 0
Db = Index Tables

-- What bounds the loops: those of a table, the depth of the tree, the characters of a string. With
-- them is what `strcmp` of the C library returns, by the characters in which two strings differ.
pub record Limits : Type 0 where
  pub table : Fuel
  pub depth : ℕ
  pub chars : ℕ
  pub differ : ℕ → ℕ → ℕ

module _ {A : Type 0} where
  abbrev pub on_rec : Cmd Table A → Cmd Tables A
  on_rec = lift (λ t. t.tbl_rec) (λ r t. record t { tbl_rec = r })

  abbrev pub on_str : Cmd Table A → Cmd Tables A
  on_str = lift (λ t. t.tbl_str) (λ r t. record t { tbl_str = r })

-- The twenty bytes of a record: the record ids of its key and of its value.
unfoldable pub decode_record : Bytes → Record
decode_record m = record { key = read_rid m 0; value = read_rid m rid_size }

-- A record lies over what its place in memory holds.
unfoldable pub encode_record : Bytes → Record → Bytes
encode_record m r = write_rid (write_rid m 0 r.key) rid_size r.value

abbrev pub record_size : ℕ
record_size = 2 * rid_size

-- `garbage` is the contents of a memory that `malloc` returns.
module _ (garbage : Bytes) where
  unfoldable pub read_record : Rid → Cmd Table Record
  read_record rid = do bytes ← table_read rid garbage; pure (decode_record bytes)

  unfoldable pub write_record : Fuel → Record → Cmd Table Rid
  write_record fuel r = table_insert fuel (encode_record garbage r) record_size

  unfoldable pub delete_record : Fuel → Rid → Cmd Table (Unit {0})
  delete_record fuel rid = table_delete fuel rid

  -- The string of the key of a record.
  pub read_key : Rid → Cmd Tables StringRecord
  unfolding read_record
  read_key rid = do r ← on_rec (read_record rid); on_str (read_string garbage r.key)

  abbrev int_of_sign : Sign → ℕ
  int_of_sign less = int_minus_one
  int_of_sign same = 0
  int_of_sign more = 1

  -- Both records are read from the first record id.
  compare_records : ℕ → Rid → Cmd Tables ℕ
  unfolding read_record
  compare_records chars a = do
    rec_a ← on_rec (read_record a)
    rec_b ← on_rec (read_record a)
    str_a ← on_str (read_string garbage rec_a.key)
    str_b ← on_str (read_string garbage rec_b.key)
    s ← on_str (compare_string_record chars str_a str_b)
    pure (int_of_sign s)

  unfoldable pub rid_row_row_cmp : ℕ → Rid → Rid → Cmd Tables ℕ
  unfolding compare_records
  rid_row_row_cmp chars a b =
      if (a.block_addr == minus_one) && (b.block_addr == minus_one)
      then pure 0
      else if a.block_addr == minus_one
      then pure int_minus_one
      else if b.block_addr == minus_one
      then pure 1
      else compare_records chars a

-- The C library's `strcmp`, with what it returns for strings that differ.
unfoldable pub strcmp_from : (ℕ → ℕ → ℕ) → ℕ → Bytes → Bytes → ℕ → Cmd Tables ℕ
strcmp_from differ zero a b i = spin
strcmp_from differ (suc fuel) a b i =
    if not (a i == b i)
    then pure (differ (a i) (b i))
    else if a i == 0
    then pure 0
    else (λ s. strcmp_from differ fuel a b (i + 1) s)

-- `sizeof(key)` of a pointer, which the callers of `b_tree_search` pass as the size of the key.
abbrev pub size_of_key : ℕ
size_of_key = 8

module _ (garbage : Bytes) (limits : Limits) where
  unfoldable pub rid_ptr_row_cmp : Bytes → ℕ → Rid → Cmd Tables ℕ
  unfolding read_key strcmp_from
  rid_ptr_row_cmp p size b = if b.block_addr == minus_one then pure 1 else do
    str ← read_key garbage b
    (_, dest) ← on_str (load_string str (record { bytes = garbage; room = size }) size)
    strcmp_from limits.differ limits.chars p dest 0

  -- The index entry of a key, or the null record id.
  unfoldable pub find_key : Bytes → Cmd Db Rid
  unfolding rid_ptr_row_cmp
  find_key key = b_tree_search (rid_ptr_row_cmp key size_of_key) limits.depth

  -- `get_rid_block_addr(rid) == -1 && get_rid_idx(rid) == 0`.
  abbrev pub is_null_rid : Rid → Bool
  is_null_rid rid = (rid.block_addr == minus_one) && (rid.idx == 0)

  -- The result, -1 if the key does not exist, and the bytes of the buffer.
  unfoldable pub myjql_get : Bytes → Buffer → ℕ → Cmd Db (ℕ × Bytes)
  unfolding find_key read_record
  myjql_get key value max_size = do
    rid ← find_key key
    if is_null_rid rid
        then pure (minus_one, value.bytes)
        else on_tables (do
          r ← on_rec (read_record garbage rid)
          str ← on_str (read_string garbage r.value)
          on_str (load_string str value max_size))

  -- The entry that leaves the index is looked for by the record id of the key's string.
  remove_record : Rid → Cmd Db (Unit {0})
  unfolding read_record rid_row_row_cmp
  remove_record rid = do
    r ← on_tables (on_rec (read_record garbage rid))
    b_tree_delete (rid_row_row_cmp garbage limits.chars) limits.depth r.key
    on_tables (on_str (delete_string limits.table limits.chars garbage r.key))
    on_tables (on_str (delete_string limits.table limits.chars garbage r.value))
    on_tables (on_rec (delete_record garbage limits.table rid))

  unfoldable pub myjql_del : Bytes → Cmd Db (Unit {0})
  unfolding find_key remove_record
  myjql_del key = do rid ← find_key key; if is_null_rid rid then pure tt else remove_record rid

  unfoldable pub myjql_set : Bytes → ℕ → Bytes → ℕ → Cmd Db (Unit {0})
  unfolding find_key myjql_del write_record rid_row_row_cmp
  myjql_set key key_len value value_len = do
    rid ← find_key key
    if is_null_rid rid then pure tt else myjql_del key
    k ← on_tables (on_str (write_string limits.table garbage key key_len))
    v ← on_tables (on_str (write_string limits.table garbage value value_len))
    new ← on_tables (on_rec (write_record garbage limits.table (record { key = k; value = v })))
    b_tree_insert (rid_row_row_cmp garbage limits.chars) limits.depth new
    pure tt

-- The files of the database as they are opened: the index, and the two files of each table.
pub record Files : Type 0 where
  pub idx : FileInfo BNode × Opening BNode
  pub rec_data : FileInfo Block × Opening Block
  pub rec_fsm : FileInfo Words × Opening Words
  pub str_data : FileInfo Block × Opening Block
  pub str_fsm : FileInfo Words × Opening Words

unfoldable pub myjql_init : Files → Cmd Db (Unit {0})
myjql_init f = do
  b_tree_init f.idx.0 f.idx.1
  on_tables (on_rec (table_init f.rec_data.0 f.rec_data.1 f.rec_fsm.0 f.rec_fsm.1))
  on_tables (on_str (table_init f.str_data.0 f.str_data.1 f.str_fsm.0 f.str_fsm.1))

unfoldable pub myjql_close : Cmd Db (Unit {0})
myjql_close = do b_tree_close; on_tables (on_rec table_close); on_tables (on_str table_close)

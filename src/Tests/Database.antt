-- ===== src/Tests/Database.antt =====
-- A database with no key, for the runs of the server, the client and the shell.
use course_pj.Base.{
  ℕ, ◌≡◌, refl, true, false, if◌then◌else◌, ◌==◌, ltb, int_minus_one, Bytes, minus_one, store_list,
  List, [], ◌∷◌, Res, ok, fault, hang,
}
use course_pj.FileIo.{FileInfo, read_page}
use course_pj.BufferPool.Init.{fresh_pool}
use course_pj.HashMap.Page.{empty_words}
use course_pj.Table.{Table, empty_block}
use course_pj.Str.Chunk.{no_rid}
use course_pj.BTree.Node.{BNode, empty_node}
use course_pj.MyJql.{Db, Limits, myjql_get}
use course_pj.BTree.Search.{b_tree_search}
use course_pj.BufferPool.{get_page, load, release}
use course_pj.Server.{value_buffer}
use course_pj.Server.Replies.{c_string}

abbrev pub zeros_memory : Bytes
zeros_memory i = 0

abbrev pub limits : Limits
limits = record {
  table = record { chain = 4; sizes = 4 };
  depth = 4;
  chars = 8;
  differ = λ x y. if ltb x y then int_minus_one else 1;
}

-- The control block, and a root that is a leaf with no row.
abbrev pub nodes : ℕ → BNode
nodes a =
    if a == 0
    then record { n = 128; next = 256; child = λ i. minus_one; row_ptr = λ i. no_rid; leaf = 0 }
    else record { n = 0; next = minus_one; child = λ i. minus_one; row_ptr = λ i. no_rid; leaf = 1 }

abbrev pub index_file : FileInfo BNode
index_file = record {
  is_open = true;
  length = 256;
  pages = nodes;
  faulty = λ a. false;
  torn = λ a p. p;
}

abbrev pub no_records : Table
no_records = record {
  data_pool = fresh_pool empty_block (record {
    is_open = true;
    length = 0;
    pages = λ a. empty_block;
    faulty = λ a. false;
    torn = λ a p. p;
  });
  fsm_pool = fresh_pool empty_words (record {
    is_open = true;
    length = 0;
    pages = λ a. empty_words;
    faulty = λ a. false;
    torn = λ a p. p;
  });
}

abbrev pub no_keys : Db
no_keys = record {
  pool = fresh_pool empty_node index_file;
  tables = record { tbl_rec = no_records; tbl_str = no_records };
}

abbrev pub state_of : {A : Type 0} → Res Db A → Db
state_of (ok a db) = db
state_of fault = no_keys
state_of hang = no_keys

abbrev pub key_x : List ℕ
key_x = 120 ∷ []

-- The database after a `get` that found nothing.
abbrev pub asked_once : Db
asked_once = state_of (
    myjql_get zeros_memory limits (c_string zeros_memory key_x) (value_buffer zeros_memory) 1024
      no_keys)

pub myjql_get-missing :
    myjql_get zeros_memory limits
      (c_string zeros_memory key_x)
      (value_buffer zeros_memory)
      1024
      no_keys
    ≡ ok (minus_one, zeros_memory) asked_once
unfolding myjql_get b_tree_search get_page read_page load release store_list
myjql_get-missing = refl

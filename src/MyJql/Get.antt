-- ===== src/MyJql/Get.antt =====
-- `myjql_get` of myjql/src/myjql.c once the index has given a record id.
use course_pj.Base.{
  ℕ, ◌%◌, ◌<◌, ◌≡◌, refl, ◌∙◌, ap, false, List, length, Bytes, write, store_list, take, Res, Cmd,
  ok, minus_one, ◌==◌, fault, hang, and_then, and_then_assoc, lift_lem, lift_if, run_bind, ◌>>=◌,
  ltb, if◌then◌else◌, [], ◌∷◌, true, inl, inr, Bool-cases, suc, zero, arith,
}
use course_pj.BufferPool.Refs.{zeros}
use course_pj.BufferPool.Session.{Session}
use course_pj.Block.{Block}
use course_pj.Block.Items.{IsBlock, Holds}
use course_pj.Table.{Table, Rid}
use course_pj.Str.Chunk.Fields.{IsRid}
use course_pj.Str.Read.{read_string, load_string, Buffer}
use course_pj.Str.Read.Chain.{Stored}
use course_pj.Str.Read.Load.{load_string-Stored}
use course_pj.MyJql.{
  Db, Tables, Limits, Record, on_rec, on_str, read_record, encode_record, record_size, find_key,
  is_null_rid, myjql_get, read_key, rid_ptr_row_cmp, strcmp_from,
}
use course_pj.MyJql.Records.{read_record-encode_record}

-- A record of the table of records, as it was stored.
pub record Recorded (len : ℕ) (v : ℕ → Block) (memory : Bytes) (rid : Rid) (r : Record)
    : Type 0 where
  pub key : IsRid r.key
  pub value : IsRid r.value
  pub aligned : rid.block_addr % 128 ≡ 0
  pub below : rid.block_addr < len
  pub block : IsBlock (v rid.block_addr)
  pub held : Holds (v rid.block_addr) rid.idx record_size (encode_record memory r)

regroup :
    {S A B C D : Type 0} (x : Res S A) (k : A → Cmd S B) (l : B → Cmd S C) (m : C → Cmd S D)
    → and_then (and_then x k) (λ b. l b >>= m) ≡ and_then (and_then x (λ a. k a >>= l)) m
regroup (ok a s) k l m = and_then_assoc (k a s) l m
regroup fault k l m = refl
regroup hang k l m = refl

on_str-bind :
    {A B : Type 0} (m : Cmd Table A) (k : A → Cmd Table B) (t : Tables)
    → (on_str m >>= (λ a. on_str (k a))) t ≡ on_str (m >>= k) t
on_str-bind m k t = go (m t.tbl_str)
  where
    go : (x : Res Table _) → (on_str (λ s. x) >>= (λ a. on_str (k a))) t ≡ on_str ((λ s. x) >>= k) t
    go (ok a s) = refl
    go fault = refl
    go hang = refl

-- What a table holds: the length of its data file, the references to the slots, and the pages.
pub record Contents : Type 0 where
  pub len : ℕ
  pub refs : List ℕ
  pub pages : ℕ → Block

-- Both tables with their contents; one slot of each has no reference.
pub record TablesHold (recs strs : Contents) (t : Tables) : Type 0 where
  pub rec_session : Session recs.len recs.refs recs.pages t.tbl_rec.data_pool
  pub str_session : Session strs.len strs.refs strs.pages t.tbl_str.data_pool
  pub rec_free : 0 < zeros recs.refs
  pub str_free : 0 < zeros strs.refs

take_short : (n : ℕ) (text : List ℕ) → ltb (length text) n ≡ true → take n text ≡ text
take_short zero text h = ground arith
take_short (suc n) [] h = refl
take_short (suc n) (x ∷ text) h = ap (λ xs. x ∷ xs) (take_short n text (ground arith))

take_long :
    (n : ℕ) (text : List ℕ) → ltb (length text) n ≡ false → ltb (length (take n text)) n ≡ false
take_long zero text h = ground arith
take_long (suc n) [] h = ground arith
take_long (suc n) (x ∷ text) h =
    let shorter : ltb (length (take n text)) n ≡ false = take_long n text (ground arith) in
    ground arith

module _ (recs strs : Contents) (garbage memory : Bytes) (limits : Limits) where
  -- The string at one of the two record ids of a record, loaded into a buffer.
  abbrev pub load_field : (Record → Rid) → Rid → Buffer → ℕ → Cmd Tables (ℕ × Bytes)
  load_field field rid dest size = do
    r ← on_rec (read_record garbage rid)
    str ← on_str (read_string garbage (field r))
    on_str (load_string str dest size)

  abbrev pub loaded : List ℕ → Bytes → Bytes
  loaded text dest = write (store_list dest 0 text) (length text) 0

  pub load_field-Stored :
      (field : Record → Rid) (rid : Rid) (r : Record) (text : List ℕ) (dest : Buffer) (size : ℕ)
      (t : Tables)
      → Recorded recs.len recs.pages memory rid r
      → Stored strs.len strs.pages garbage (field r) text
      → TablesHold recs strs t
      → (new : Tables) × (load_field field rid dest size t ≡ (
          if ltb (length (take size text)) dest.room
          then ok (length (take size text), loaded (take size text) dest.bytes) new
          else fault))
        × TablesHold recs strs new
  load_field-Stored field rid r text dest size t rr st held =
      let (p, e, s) =
        read_record-encode_record garbage memory r rid t.tbl_rec rr.key rr.value held.rec_session
          rr.aligned rr.below held.rec_free rr.block rr.held in
      let (q, f, u) =
        load_string-Stored garbage (field r) text dest size t.tbl_str st held.str_session
          held.str_free in
      let read : Tables = record t { tbl_rec = record t.tbl_rec { data_pool = p } } in
      let new : Tables = record read { tbl_str = record t.tbl_str { data_pool = q } } in
      (
        new,
        run_bind (on_rec (read_record garbage rid)) _ t read r _
            (lift_lem (λ (t : Tables). t.tbl_rec) (λ u t. record t { tbl_rec = u })
              (read_record garbage rid) t r (record t.tbl_rec { data_pool = p }) e)
            (on_str-bind (read_string garbage (field r)) (λ str. load_string str dest size) read
              ∙ lift_if (λ (t : Tables). t.tbl_str) (λ u t. record t { tbl_str = u })
                  (read_string garbage (field r) >>= (λ str. load_string str dest size)) read
                  (ltb (length (take size text)) dest.room) _ (record t.tbl_str { data_pool = q })
                  f),
        record {
          rec_session = s;
          str_session = u;
          rec_free = held.rec_free;
          str_free = held.str_free;
        },
      )

  compare_loaded :
      (key : Bytes) (size : ℕ) (text : List ℕ) (new : Tables)
      → and_then
          (if ltb (length (take size text)) size
            then ok (length (take size text), loaded (take size text) garbage) new
            else fault)
          (λ (x : ℕ × Bytes). strcmp_from limits.differ limits.chars key x.1 0)
        ≡ (if ltb (length text) size
            then strcmp_from limits.differ limits.chars key (loaded text garbage) 0 new
            else fault)
  compare_loaded key size text new = elim (Bool-cases (ltb (length text) size)) [
    | inl h ↦ rw (take_short size text h, h) refl
    | inr h ↦ rw (take_long size text h, h) refl
  ]

  -- `rid_ptr_row_cmp` of a row that is not null, whose record and key the tables hold, compares the key
  -- with the string of the row's key, if that has fewer characters than it is given as the size; else
  -- it writes behind the end of its buffer, which is a fault. The pages of both tables stay as they
  -- were. One slot of each table without a reference is enough.
  pub rid_ptr_row_cmp-Stored :
      (key : Bytes) (size : ℕ) (rid : Rid) (r : Record) (text : List ℕ) (t : Tables)
      → (rid.block_addr == minus_one) ≡ false
      → Recorded recs.len recs.pages memory rid r
      → Stored strs.len strs.pages garbage r.key text
      → TablesHold recs strs t
      → (new : Tables) × (rid_ptr_row_cmp garbage limits key size rid t ≡ (
          if ltb (length text) size
          then strcmp_from limits.differ limits.chars key (loaded text garbage) 0 new
          else fault))
        × TablesHold recs strs new
  unfolding rid_ptr_row_cmp read_key
  rid_ptr_row_cmp-Stored key size rid r text t some_rid rr st held =
      let dest : Buffer = record { bytes = garbage; room = size } in
      let (new, e, h) = load_field-Stored (λ r. r.key) rid r text dest size t rr st held in
      (
        new,
        rw some_rid (
            regroup (on_rec (read_record garbage rid) t) (λ r. on_str (read_string garbage r.key))
              (λ str. on_str (load_string str dest size))
              (λ x. strcmp_from limits.differ limits.chars key x.1 0)
            ∙ ap (λ x. and_then x (λ x. strcmp_from limits.differ limits.chars key x.1 0)) e
            ∙ compare_loaded key size text new),
        h,
      )

  -- Once the index gives the record id of a record that the tables hold, `myjql_get` returns the number
  -- of characters of the value's string, at most `max_size`, and the buffer has them and a zero behind
  -- them; a buffer without room for the zero is a fault. The index and the pages of both tables stay as
  -- they were.
  pub myjql_get-Stored :
      (key : Bytes) (dest : Buffer) (max_size : ℕ) (db found : Db) (rid : Rid) (r : Record)
      (text : List ℕ)
      → find_key garbage limits key db ≡ ok rid found
      → is_null_rid garbage limits rid ≡ false
      → Recorded recs.len recs.pages memory rid r
      → Stored strs.len strs.pages garbage r.value text
      → TablesHold recs strs found.tables
      → (new : Tables) × (myjql_get garbage limits key dest max_size db ≡ (
          if ltb (length (take max_size text)) dest.room
          then ok
              (
                length (take max_size text),
                write
                    (store_list dest.bytes 0 (take max_size text))
                    (length (take max_size text))
                    0,
              )
              (record found { tables = new })
          else fault))
        × TablesHold recs strs new
  unfolding myjql_get
  myjql_get-Stored key dest max_size db found rid r text e some_rid rr st held =
      let (new, f, h) =
        load_field-Stored (λ r. r.value) rid r text dest max_size found.tables rr st held in
      (
        new,
        run_bind (find_key garbage limits key) _ db found rid _ e (
            rw some_rid (
              lift_if (λ (s : Db). s.tables) (λ t s. record s { tables = t })
                (load_field (λ r. r.value) rid dest max_size) found
                (ltb (length (take max_size text)) dest.room) _ new f)),
        h,
      )

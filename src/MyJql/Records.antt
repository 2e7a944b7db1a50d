-- ===== src/MyJql/Records.antt =====
-- The records of myjql/src/myjql.c as they are stored in a table.
use course_pj.Base.{List, ap, ok, ◌%◌, ℕ, ◌<◌, ◌≡◌, ◌∙◌, arith, Bytes}
use course_pj.BufferPool.{BufferPool}
use course_pj.BufferPool.Refs.{zeros}
use course_pj.BufferPool.Session.{Session}
use course_pj.Block.{Block}
use course_pj.Block.Items.{IsBlock, Holds}
use course_pj.Table.{Table, Rid}
use course_pj.Table.Read.{table_read-Holds}
use course_pj.Str.Chunk.{write_rid, rid_size}
use course_pj.Str.Chunk.Fields.{IsRid, write_rid-byte, read_rid-write_rid, read_rid-eq}
use course_pj.MyJql.{read_record, Record, decode_record, encode_record, record_size}

-- A record whose record ids fit their machine widths is read back from any memory that has the
-- first twenty bytes of its encoding, whatever the encoding was written over.
pub decode_record-encode_record :
    (m tail : Bytes) (r : Record)
    → IsRid r.key
    → IsRid r.value
    → ((b : ℕ) → b < record_size → tail b ≡ encode_record m r b)
    → decode_record tail ≡ r
unfolding decode_record encode_record
decode_record-encode_record m tail r k v same =
    let keyed = write_rid m 0 r.key in
    let both = write_rid keyed rid_size r.value in
    let key =
      read_rid-eq tail both 0 (λ b lo hi. same b (omega arith))
      ∙ read_rid-eq both keyed 0 (λ b lo hi. write_rid-byte keyed rid_size r.value b (omega arith))
      ∙ read_rid-write_rid m 0 r.key k in
    let value =
      read_rid-eq tail both rid_size (λ b lo hi. same b (omega arith))
      ∙ read_rid-write_rid keyed rid_size r.value v in
    λ i. record { key = key i; value = value i }

-- A record id of the table of records, whose block is a page of the data file and holds the
-- encoding of a record with record ids of their widths, is read as that record; the pages of the
-- table and the references to them stay as they were. One slot without a reference is enough.
pub read_record-encode_record :
    {len : ℕ} {rs : List ℕ} {v : ℕ → Block} (garbage m : Bytes) (r : Record) (rid : Rid) (t : Table)
    → IsRid r.key
    → IsRid r.value
    → Session len rs v t.data_pool
    → rid.block_addr % 128 ≡ 0
    → rid.block_addr < len
    → 0 < zeros rs
    → IsBlock (v rid.block_addr)
    → Holds (v rid.block_addr) rid.idx record_size (encode_record m r)
    → (new : BufferPool Block) × (read_record garbage rid t ≡ ok r (record t { data_pool = new }))
      × Session len rs v new
unfolding read_record
read_record-encode_record garbage m r rid t k w s al lt free b h =
    let (bytes, new, e, s', low, _) =
      table_read-Holds t rid record_size (encode_record m r) garbage s al lt free b h in
    (
      new,
      rw e (
          ap (λ (x : Record). ok x (record t { data_pool = new }))
            (decode_record-encode_record m bytes r k w low)),
      s',
    )

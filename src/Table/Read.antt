-- ===== src/Table/Read.antt =====
-- `table_read` and `table_block_get_total_items` of myjql/src/table.c.
use course_pj.Base.{
  ℕ, ◌%◌, ◌≤◌, ◌<◌, ◌≡◌, refl, ◌∙◌, ap, List, some, arith, Bytes, copy_bytes, ok, pure, lift_lem,
  ◌>>=◌, ◌>>◌,
}
use mathlib.Core.Path.{subst}
use course_pj.Base.Memory.Laws.{copy_bytes-inside, copy_bytes-outside}
use course_pj.BufferPool.{BufferPool, get_page, release, load}
use course_pj.BufferPool.Refs.{dec-inc, zeros}
use course_pj.BufferPool.Session.{Session, cached, get_page-Session, load-Session, release-Session}
use course_pj.Block.{Block, get_item, get_item_id_offset, get_item_id_size, item_bytes}
use course_pj.Block.Items.{IsBlock, Holds, Used, id}
use course_pj.Table.{Table, Rid, table_read, copy_item, table_block_get_total_items}

pub get_item-Used :
    (b : Block) (i : ℕ) → IsBlock b → Used b i → get_item b i ≡ some (get_item_id_offset (id b i))
unfolding get_item
get_item-Used b i w u =
    let h = w.head in
    let o = w.ordered in let p = w.in_page in let lt = u.below in let k = u.taken in ground arith

-- A buffer with an item of a block copied over its start.
abbrev pub with_item : Block → ℕ → Bytes → Bytes
with_item b i buffer =
    copy_bytes buffer 0 (item_bytes b (get_item_id_offset (id b i))) (get_item_id_size (id b i))

copy_item-Used :
    (b : Block) (i : ℕ) (dest : Bytes)
    → IsBlock b
    → Used b i
    → copy_item b i dest ≡ with_item b i dest
unfolding copy_item
copy_item-Used b i dest w u = rw (get_item-Used b i w u, copy_item) refl

copy_item-Holds :
    (b : Block) (i size : ℕ) (item dest : Bytes)
    → IsBlock b
    → Holds b i size item
    → ((j : ℕ) → j < size → copy_item b i dest j ≡ item j)
      × ((j : ℕ) → size ≤ j → copy_item b i dest j ≡ dest j)
unfolding copy_item
copy_item-Holds b i size item dest w h =
    let offset = get_item_id_offset (id b i) in
    rw (get_item-Used b i w h.used, h.size_is, copy_item)
      (
        λ j lt.
            ap (copy_bytes dest 0 (item_bytes b offset) size) (omega arith)
            ∙ copy_bytes-inside dest 0 (item_bytes b offset) size j lt
            ∙ h.bytes j lt,
        λ j ge. copy_bytes-outside dest 0 (item_bytes b offset) size j (omega arith),
      )

module _ {len : ℕ} {rs : List ℕ} {v : ℕ → Block} where
  -- A page is pinned, read and given back: the pages and the reference counts are those of before.
  pub read_block :
      {A : Type 0} (pool : BufferPool Block) (a : ℕ) (f : Block → A)
      → Session len rs v pool
      → a % 128 ≡ 0
      → a < len
      → 0 < zeros rs
      → (new : BufferPool Block) × ((get_page a
              >>= (λ p. load p >>= (λ b. release a >> pure (f b))))
            pool
          ≡ ok (f (v a)) new)
        × Session len rs v new
  read_block pool a f s al lt free =
      let (i, p1, e1, s1, at, _) = get_page-Session a s al lt free in
      let e2 = load-Session i a s1 al lt (cached at) in
      let (p3, e3, s3, _, _) = release-Session i a s1 al lt at in
      (p3, rw e1 (rw e2 (rw e3 refl)), subst (λ (r : List ℕ). Session len r v p3) (dec-inc i rs) s3)

  -- The count of a block that is a page of the data file is read from it, with one slot without a
  -- reference; the pages of the table and the references to them stay as they were.
  pub table_block_get_total_items_lem :
      (t : Table) (a : ℕ)
      → Session len rs v t.data_pool
      → a % 128 ≡ 0
      → a < len
      → 0 < zeros rs
      → (new : BufferPool Block) × (table_block_get_total_items a t
          ≡ ok (v a).n_items (record t { data_pool = new }))
        × Session len rs v new
  unfolding table_block_get_total_items
  table_block_get_total_items_lem t a s al lt free =
      let (new, e, s') = read_block t.data_pool a (λ b. b.n_items) s al lt free in
      (
        new,
        lift_lem (λ t. t.data_pool) (λ p t. record t { data_pool = p })
            (get_page a >>= (λ p. load p >>= (λ b. release a >> pure b.n_items))) t _ new e,
        s',
      )

  -- Reading a record id whose block is a page of the data file and holds an item there gives the
  -- bytes of the item, followed by what the buffer had; the pages of the table and the references
  -- to them stay as they were. One slot without a reference is enough.
  pub table_read-Holds :
      (t : Table) (rid : Rid) (size : ℕ) (item dest : Bytes)
      → Session len rs v t.data_pool
      → rid.block_addr % 128 ≡ 0
      → rid.block_addr < len
      → 0 < zeros rs
      → IsBlock (v rid.block_addr)
      → Holds (v rid.block_addr) rid.idx size item
      → (bytes : Bytes) × (new : BufferPool Block) × (table_read rid dest t
          ≡ ok bytes (record t { data_pool = new }))
        × Session len rs v new
        × ((j : ℕ) → j < size → bytes j ≡ item j)
        × ((j : ℕ) → size ≤ j → bytes j ≡ dest j)
  unfolding table_read
  table_read-Holds t rid size item dest s al lt free w h =
      let (new, e, s') =
        read_block t.data_pool rid.block_addr (λ b. copy_item b rid.idx dest) s al lt free in
      let (low, high) = copy_item-Holds (v rid.block_addr) rid.idx size item dest w h in
      (
        copy_item (v rid.block_addr) rid.idx dest,
        new,
        lift_lem (λ t. t.data_pool) (λ p t. record t { data_pool = p })
            (get_page rid.block_addr >>= (λ p.
              load p >>= (λ b. release rid.block_addr >> pure (copy_item b rid.idx dest))))
            t _ new e,
        s',
        low,
        high,
      )

  -- The same with the bytes written out.
  pub table_read-Used :
      (t : Table) (rid : Rid) (dest : Bytes)
      → Session len rs v t.data_pool
      → rid.block_addr % 128 ≡ 0
      → rid.block_addr < len
      → 0 < zeros rs
      → IsBlock (v rid.block_addr)
      → Used (v rid.block_addr) rid.idx
      → (new : BufferPool Block) × (table_read rid dest t
          ≡ ok (with_item (v rid.block_addr) rid.idx dest) (record t { data_pool = new }))
        × Session len rs v new
  unfolding table_read
  table_read-Used t rid dest s al lt free w u =
      let (new, e, s') =
        read_block t.data_pool rid.block_addr (λ b. copy_item b rid.idx dest) s al lt free in
      (
        new,
        lift_lem (λ t. t.data_pool) (λ p t. record t { data_pool = p })
              (get_page rid.block_addr >>= (λ p.
                load p >>= (λ b. release rid.block_addr >> pure (copy_item b rid.idx dest))))
              t _ new e
            ∙ ap (λ bytes. ok bytes (record t { data_pool = new }))
                (copy_item-Used (v rid.block_addr) rid.idx dest w u),
        s',
      )

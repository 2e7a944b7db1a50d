-- ===== src/Str/Read/Chain.antt =====
-- A string of myjql/src/str.c as a chain of chunks, and `next_char` along it.
use mathlib.Core.Path.{subst}
use course_pj.Base.{
  ℕ, ◌+◌, ◌%◌, ◌^◌, ◌<◌, ◌≡◌, refl, true, false, some, List, [], ◌++◌, short_lt, is_neg, Bytes,
  load_list, add16, Cmd, ok, lift_lem, run_bind,
}
use course_pj.BufferPool.{BufferPool, get_page, release, load}
use course_pj.BufferPool.Refs.{zeros, dec-inc}
use course_pj.BufferPool.Session.{Session, cached, get_page-Session, load-Session, release-Session}
use course_pj.Block.{Block}
use course_pj.Block.Items.{IsBlock, Used}
use course_pj.Table.{Table, Rid, on_data}
use course_pj.Table.Read.{get_item-Used, with_item}
use course_pj.Str.Chunk.{get_str_chunk_rid, get_str_chunk_size, str_chunk_data, StringRecord}
use course_pj.Str.Read.{next_char, next_chunk, copy_chunk}

on_data-ok :
    {A : Type 0} (m : Cmd (BufferPool Block) A) (t : Table) (a : A) (new : BufferPool Block)
    → m t.data_pool ≡ ok a new
    → on_data m t ≡ ok a (record t { data_pool = new })
on_data-ok m t a new e =
    lift_lem (λ (t : Table). t.data_pool) (λ p t. record t { data_pool = p }) m t a new e

copy_chunk-Used :
    (b : Block) (i : ℕ) (chunk : Bytes) (t : Table)
    → IsBlock b
    → Used b i
    → copy_chunk b i chunk t ≡ ok (with_item b i chunk) t
unfolding copy_chunk
copy_chunk-Used b i chunk t w u = rw (get_item-Used b i w u, copy_chunk) refl

pub next_char-here :
    (r : StringRecord) (t : Table)
    → short_lt r.idx (get_str_chunk_size r.chunk) ≡ true
    → next_char r t ≡ ok (r.chunk (str_chunk_data + r.idx), record r { idx = add16 r.idx 1 }) t
unfolding next_char
next_char-here r t h = rw h refl

module _ (len : ℕ) (v : ℕ → Block) where
  -- The chunk that follows one is an item of a page of the data file.
  pub record Follows (chunk : Bytes) : Type 0 where
    pub forward : is_neg (get_str_chunk_rid chunk).block_addr ≡ false
    pub aligned : (get_str_chunk_rid chunk).block_addr % 128 ≡ 0
    pub below : (get_str_chunk_rid chunk).block_addr < len
    pub block : IsBlock (v (get_str_chunk_rid chunk).block_addr)
    pub used : Used (v (get_str_chunk_rid chunk).block_addr) (get_str_chunk_rid chunk).idx

  abbrev pub following : Bytes → Bytes
  following chunk =
      with_item (v (get_str_chunk_rid chunk).block_addr) (get_str_chunk_rid chunk).idx chunk

  abbrev pub chunk_text : Bytes → List ℕ
  chunk_text chunk = load_list chunk str_chunk_data (get_str_chunk_size chunk)

  -- The characters behind a chunk, to the end of the chain. No chunk but the first is empty.
  pub data Behind : Bytes → List ℕ → Type 0 where
    ends : (chunk : Bytes) → is_neg (get_str_chunk_rid chunk).block_addr ≡ true → Behind chunk []
    goes :
        (chunk : Bytes) (rest : List ℕ)
        → Follows chunk
        → 0 < get_str_chunk_size (following chunk)
        → get_str_chunk_size (following chunk) < 2 ^ 15
        → Behind (following chunk) rest
        → Behind chunk (chunk_text (following chunk) ++ rest)

  -- A string whose first chunk is the item at `rid`, with the characters of all its chunks.
  pub record Stored (garbage : Bytes) (rid : Rid) (text : List ℕ) : Type 0 where
    pub aligned : rid.block_addr % 128 ≡ 0
    pub below : rid.block_addr < len
    pub block : IsBlock (v rid.block_addr)
    pub used : Used (v rid.block_addr) rid.idx
    pub short : get_str_chunk_size (with_item (v rid.block_addr) rid.idx garbage) < 2 ^ 15
    pub rest : List ℕ
    pub behind : Behind (with_item (v rid.block_addr) rid.idx garbage) rest
    pub whole : text ≡ chunk_text (with_item (v rid.block_addr) rid.idx garbage) ++ rest

module _ {len : ℕ} {rs : List ℕ} {v : ℕ → Block} where
  next_chunk-Follows :
      (r : StringRecord) (t : Table)
      → Session len rs v t.data_pool
      → 0 < zeros rs
      → Follows len v r.chunk
      → (new : BufferPool Block) × (next_chunk r t
          ≡ ok (record { chunk = following len v r.chunk; idx = 0 }) (record t { data_pool = new }))
        × Session len rs v new
  unfolding next_chunk
  next_chunk-Follows r t s free f =
      let a = (get_str_chunk_rid r.chunk).block_addr in
      let (i, p1, e1, s1, at, _) = get_page-Session a s f.aligned f.below free in
      let e2 = load-Session i a s1 f.aligned f.below (cached at) in
      let (p3, e3, s3, _, _) = release-Session i a s1 f.aligned f.below at in
      let e4 =
        copy_chunk-Used (v a) (get_str_chunk_rid r.chunk).idx r.chunk (record t { data_pool = p1 })
          f.block f.used in
      (
        p3,
        run_bind (on_data (get_page a)) _ t (record t { data_pool = p1 }) (some i) _
            (on_data-ok (get_page a) t (some i) p1 e1)
            (run_bind (on_data (load (some i))) _ (record t { data_pool = p1 })
              (record t { data_pool = p1 }) (v a) _
              (on_data-ok (load (some i)) (record t { data_pool = p1 }) (v a) p1 e2)
              (run_bind (copy_chunk (v a) (get_str_chunk_rid r.chunk).idx r.chunk) _
                (record t { data_pool = p1 }) (record t { data_pool = p1 })
                (following len v r.chunk) _ e4
                (run_bind (on_data (release a)) _ (record t { data_pool = p1 })
                  (record t { data_pool = p3 }) tt _
                  (on_data-ok (release a) (record t { data_pool = p1 }) tt p3 e3) refl))),
        subst (λ (l : List ℕ). Session len l v p3) (dec-inc i rs) s3,
      )

  pub next_char-Follows :
      (r : StringRecord) (t : Table)
      → short_lt r.idx (get_str_chunk_size r.chunk) ≡ false
      → Session len rs v t.data_pool
      → 0 < zeros rs
      → Follows len v r.chunk
      → (new : BufferPool Block) × (next_char r t
          ≡ ok
              (
                following len v r.chunk str_chunk_data,
                record { chunk = following len v r.chunk; idx = 1 },
              )
              (record t { data_pool = new }))
        × Session len rs v new
  unfolding next_char
  next_char-Follows r t h s free f =
      let (new, e, s') = next_chunk-Follows r t s free f in (new, rw (h, e) refl, s')

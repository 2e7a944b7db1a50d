-- ===== src/BufferPool/Edits.antt =====
-- The pages of a file changed one after another through the buffer pool of myjql/src/buffer_pool.c,
-- from the opening of the file to its closing.
use mathlib.Core.Path.{subst}
use course_pj.Base.{
  ℕ, ◌+◌, ◌%◌, ◌^◌, ◌<◌, ◌≡◌, refl, ◌∙◌, ap, false, List, [], ◌∷◌, arith, write, replicate, Cmd, ok,
  pure, ◌>>=◌, ◌>>◌,
}
use course_pj.FileIo.{FileInfo, FileIoResult, file_io_success, Opening, open_file}
use course_pj.FileIo.Pages.{IsFile}
use course_pj.BufferPool.{
  BufferPool, get_page, release, modify, init_buffer_pool, close_buffer_pool, start_pool,
}
use course_pj.BufferPool.Init.{fresh_pool, fresh_pool-IsPool, fresh_pool-view}
use course_pj.BufferPool.Close.{close_buffer_pool-stores}
use course_pj.BufferPool.Refs.{dec-inc, zeros}
use course_pj.BufferPool.Session.{Session, get_page-Session, modify-Session, release-Session}

-- A change of the page at an address, as the clients of the pool make it.
pub record Edit (P : Type 0) : Type 0 where
  pub addr : ℕ
  pub change : P → P

all_free : 0 < zeros (replicate 8 0)
unfolding zeros
all_free = omega arith

module _ {P : Type 0} where
  abbrev pub edit_page : Edit P → Cmd (BufferPool P) (Unit {0})
  edit_page e = do p ← get_page e.addr; modify p e.change; release e.addr

  abbrev pub edit_pages : List (Edit P) → Cmd (BufferPool P) (Unit {0})
  edit_pages [] = pure tt
  edit_pages (e ∷ es) = do edit_page e; edit_pages es

  -- The same on the pages alone.
  unfoldable pub edited : List (Edit P) → (ℕ → P) → ℕ → P
  edited [] v = v
  edited (e ∷ es) v = edited es (write v e.addr (e.change (v e.addr)))

  -- Every edit is of a page of a file of `len` bytes.
  pub data InPages (len : ℕ) : List (Edit P) → Type 0 where
    no_edits : InPages len []
    one_more :
        (e : Edit P) (es : List (Edit P))
        → e.addr % 128 ≡ 0
        → e.addr < len
        → InPages len es
        → InPages len (e ∷ es)

  edit_page-Session :
      {len : ℕ} {rs : List ℕ} {v : ℕ → P} (pool : BufferPool P) (e : Edit P)
      → Session len rs v pool
      → e.addr % 128 ≡ 0
      → e.addr < len
      → 0 < zeros rs
      → (new : BufferPool P) × (edit_page e pool ≡ ok tt new)
        × Session len rs (write v e.addr (e.change (v e.addr))) new
  edit_page-Session {len} {rs} {v} pool e s al lt free =
      let (i, p1, e1, s1, at, _) = get_page-Session e.addr s al lt free in
      let (p2, e2, s2, keep, _) = modify-Session i e.addr e.change s1 al lt at in
      let (p3, e3, s3, _, _) = release-Session i e.addr s2 al lt (keep i e.addr at) in
      (
        p3,
        rw e1 (rw e2 (rw e3 refl)),
        subst (λ (r : List ℕ). Session len r (write v e.addr (e.change (v e.addr))) p3)
            (dec-inc i rs) s3,
      )

  edit_pages-Session :
      {len : ℕ} {rs : List ℕ} (es : List (Edit P))
      → InPages len es
      → (v : ℕ → P) (pool : BufferPool P) → Session len rs v pool
      → 0 < zeros rs
      → (new : BufferPool P) × (edit_pages es pool ≡ ok tt new) × Session len rs (edited es v) new
  unfolding edited
  edit_pages-Session _ no_edits v pool s free = (pool, refl, s)
  edit_pages-Session _ (one_more e es al lt more) v pool s free =
      let (p1, e1, s1) = edit_page-Session pool e s al lt free in
      let (p2, e2, s2) =
        edit_pages-Session es more (write v e.addr (e.change (v e.addr))) p1 s1 free in
      (p2, rw e1 e2, s2)

  init_buffer_pool-fresh :
      (empty : P) (fresh : FileInfo P) (opening : Opening P) (pool : BufferPool P)
      → (open_file fresh opening).0 ≡ file_io_success
      → init_buffer_pool empty fresh opening pool ≡ fresh_pool empty (open_file fresh opening).1
  unfolding init_buffer_pool
  init_buffer_pool-fresh empty fresh opening pool = go (open_file fresh opening)
    where
      go :
          (r : FileIoResult × FileInfo P)
          → r.0 ≡ file_io_success
          → start_pool empty pool r ≡ fresh_pool empty r.1
      go (file_io_success, f) e = refl
      go (_, f) e = cc

  -- On a file that opens as a whole number of pages, on a medium that does not fail, any number of
  -- changes of its pages through the pool, one after another, all succeed, and after the pool is closed
  -- the file is closed and holds what the same changes make of its pages without a pool.
  pub edit_pages-stored :
      (empty : P) (fresh : FileInfo P) (opening : Opening P) (pool : BufferPool P)
      (es : List (Edit P))
      → let file = (open_file fresh opening).1 in
        (open_file fresh opening).0 ≡ file_io_success
        → IsFile file
        → ((a : ℕ) → file.faulty a ≡ false)
        → file.length + 256 < 2 ^ 63
        → InPages file.length es
        → (new : BufferPool P) × (edit_pages es (init_buffer_pool empty fresh opening pool)
            ≡ ok tt new)
          × ((close_buffer_pool new).file.is_open ≡ false)
          × ((a : ℕ)
              → a % 128 ≡ 0
              → a < file.length
              → (close_buffer_pool new).file.pages a ≡ edited es file.pages a)
  edit_pages-stored empty fresh opening pool es opens whole sound short inside =
      let file = (open_file fresh opening).1 in
      let start : Session file.length (replicate 8 0) file.pages (fresh_pool empty file) = record {
        valid = fresh_pool-IsPool empty file whole sound;
        length = refl;
        short = short;
        refs_are = refl;
        pages = λ a al lt. fresh_pool-view empty file a al;
      } in
      let (new, ran, s) =
        edit_pages-Session es inside file.pages (fresh_pool empty file) start all_free in
      let (stored, closed, _) = close_buffer_pool-stores new s.valid in
      (
        new,
        ap (edit_pages es) (init_buffer_pool-fresh empty fresh opening pool opens) ∙ ran,
        closed,
        λ a al lt. stored a al ∙ s.pages a al lt,
      )

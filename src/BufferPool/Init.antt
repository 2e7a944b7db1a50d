-- ===== src/BufferPool/Init.antt =====
-- `init_buffer_pool` of myjql/src/buffer_pool.c.
use course_pj.Base.{ℕ, zero, suc, ◌%◌, ◌≡◌, refl, ap, ◌≢◌, arith, false, replicate, minus_one}
use course_pj.FileIo.{FileInfo, FileIoResult, file_io_success, Opening, open_file}
use course_pj.FileIo.Pages.{IsFile}
use course_pj.BufferPool.{Slot, BufferPool, cache_page, empty_slot, start_pool, init_buffer_pool}
use course_pj.BufferPool.Slots.{At, IsPool, view, view-free}

module _ {P : Type 0} (empty : P) where
  At-replicate :
      (n i : ℕ) (s : Slot P) → At (replicate n (empty_slot empty)) i s → s ≡ empty_slot empty
  At-replicate zero i s g = ground arith
  At-replicate (suc n) zero s g = ground arith
  At-replicate (suc n) (suc i) s g = At-replicate n i s g

  -- The address -1 of an empty slot is no page.
  empty-addr :
      (i : ℕ) (s : Slot P) → At (replicate cache_page (empty_slot empty)) i s → s.addr ≡ minus_one
  empty-addr i s g = ap (λ (x : Slot P). x.addr) (At-replicate cache_page i s g)

  abbrev pub fresh_pool : FileInfo P → BufferPool P
  fresh_pool file = record { file = file; slots = replicate cache_page (empty_slot empty) }

  pub fresh_pool-IsPool :
      (file : FileInfo P)
      → IsFile file
      → ((a : ℕ) → file.faulty a ≡ false)
      → IsPool (fresh_pool file)
  fresh_pool-IsPool file v sound = record {
    file = v;
    sound = sound;
    distinct = λ i j s t g k al e. absurd (omega (arith, empty-addr i s g));
    inside = λ i s g al. absurd (omega (arith, empty-addr i s g));
    clean = λ i s g r inf. absurd (omega (arith, empty-addr i s g, inf.aligned));
  }

  pub fresh_pool-view :
      (file : FileInfo P) (a : ℕ) → a % 128 ≡ 0 → view (fresh_pool file) a ≡ file.pages a
  fresh_pool-view file a al =
      view-free (fresh_pool file) a (λ i s g e. omega (arith, empty-addr i s g))

  -- If the file opens as a whole number of pages and the medium does not fail, the pool satisfies its
  -- invariant and its pages are those of the file.
  pub init_buffer_pool-IsPool :
      (fresh : FileInfo P) (opening : Opening P) (pool : BufferPool P)
      → (open_file fresh opening).0 ≡ file_io_success
      → IsFile (open_file fresh opening).1
      → ((a : ℕ) → (open_file fresh opening).1.faulty a ≡ false)
      → IsPool (init_buffer_pool empty fresh opening pool)
        × ((a : ℕ)
            → a % 128 ≡ 0
            → view (init_buffer_pool empty fresh opening pool) a
              ≡ (open_file fresh opening).1.pages a)
  unfolding init_buffer_pool
  init_buffer_pool-IsPool fresh opening pool = go (open_file fresh opening)
    where
      go :
          (r : FileIoResult × FileInfo P)
          → r.0 ≡ file_io_success
          → IsFile r.1
          → ((a : ℕ) → r.1.faulty a ≡ false)
          → IsPool (start_pool empty pool r)
            × ((a : ℕ) → a % 128 ≡ 0 → view (start_pool empty pool r) a ≡ r.1.pages a)
      go (file_io_success, f) e w h = (fresh_pool-IsPool f w h, fresh_pool-view f)
      go (_, f) e w h = cc

  -- If the file does not open, the pool is left as it was.
  pub init_buffer_pool-refused :
      (fresh : FileInfo P) (opening : Opening P) (pool : BufferPool P)
      → (open_file fresh opening).0 ≢ file_io_success
      → init_buffer_pool empty fresh opening pool ≡ pool
  unfolding init_buffer_pool
  init_buffer_pool-refused fresh opening pool = go (open_file fresh opening)
    where
      go : (r : FileIoResult × FileInfo P) → r.0 ≢ file_io_success → start_pool empty pool r ≡ pool
      go (file_io_success, f) n = absurd (n refl)
      go (_, f) n = refl

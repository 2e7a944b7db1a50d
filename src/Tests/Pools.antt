-- ===== src/Tests/Pools.antt =====
-- A pool over the file of two pages for myjql/src/buffer_pool.c.
use course_pj.Base.{
  false, ℕ, List, ◌*◌, ◌<◌, zero, [], ◌∷◌, sym, ◌∙◌, ap, ◌+◌, ◌%◌, ◌≡◌, refl, inr, some, arith, ok,
  suc,
}
use course_pj.FileIo.{existing, open_file}
use course_pj.BufferPool.{
  Slot, BufferPool, empty_slot, init_buffer_pool, close_buffer_pool, get_page, release,
}
use course_pj.BufferPool.Slots.{At, IsPool, view}
use course_pj.BufferPool.Init.{fresh_pool, fresh_pool-IsPool, init_buffer_pool-IsPool}
use course_pj.BufferPool.Pin.{Pinned}
use course_pj.BufferPool.Get.{get_page-Pinned}
use course_pj.BufferPool.Release.{Released, release-Released}
use course_pj.BufferPool.Close.{close_buffer_pool-stores}
use course_pj.BufferPool.Edits.{
  Edit, InPages, no_edits, one_more, edit_pages, edited, edit_pages-stored,
}
use course_pj.Tests.Files.{two_pages, two_pages-IsFile}

abbrev pool : BufferPool ℕ
pool = fresh_pool 0 two_pages

pool-IsPool : IsPool pool
pool-IsPool = fresh_pool-IsPool 0 two_pages two_pages-IsFile (λ a. refl)

init_buffer_pool-IsPool_example :
    IsPool (init_buffer_pool 0 two_pages (existing two_pages) pool)
    × ((a : ℕ)
        → a % 128 ≡ 0
        → view (init_buffer_pool 0 two_pages (existing two_pages) pool) a
          ≡ (open_file two_pages (existing two_pages)).1.pages a)
unfolding open_file
init_buffer_pool-IsPool_example =
    init_buffer_pool-IsPool 0 two_pages (existing two_pages) pool refl two_pages-IsFile (λ a. refl)

get_page-Pinned_example :
    (i : ℕ) × (new : BufferPool ℕ) × (get_page 128 pool ≡ ok (some i) new) × Pinned pool 128 i new
get_page-Pinned_example =
    get_page-Pinned pool pool-IsPool 128 refl (omega arith) (omega arith)
      (0, empty_slot 0, refl, inr refl)

-- A pool with one slot, which holds the second page and has one reference.
abbrev second : Slot ℕ
second = record { page = 135; addr = 128; cnt = 0; ref = 1; upd = 0 }

abbrev pinned : BufferPool ℕ
pinned = record { file = two_pages; slots = second ∷ [] }

only : (i : ℕ) (s : Slot ℕ) → At pinned.slots i s → (i ≡ 0) × (s ≡ second)
only zero s g = ground arith
only (suc i) s g = cc

pinned-IsPool : IsPool pinned
pinned-IsPool = record {
  file = two_pages-IsFile;
  sound = λ a. refl;
  distinct = λ i j s t g k al e. (only i s g).0 ∙ sym (only j t k).0;
  inside = λ i s g al. omega (arith, ap (λ (x : Slot ℕ). x.addr) (only i s g).1);
  clean = λ i s g r inf. absurd (omega (arith, ap (λ (x : Slot ℕ). x.ref) (only i s g).1));
}

release-Released_example :
    (new : BufferPool ℕ) × (release 128 pinned ≡ ok tt new) × Released pinned 128 new
release-Released_example =
    release-Released pinned pinned-IsPool 128 (record { aligned = refl; below = omega arith })

close_buffer_pool-stores_example :
    ((a : ℕ) → a % 128 ≡ 0 → (close_buffer_pool pinned).file.pages a ≡ view pinned a)
    × ((close_buffer_pool pinned).file.is_open ≡ false)
    × ((close_buffer_pool pinned).slots ≡ [])
close_buffer_pool-stores_example = close_buffer_pool-stores pinned pinned-IsPool

-- The page at 128 is made one more, then three times as much, with the page at 0 between.
abbrev edits : List (Edit ℕ)
edits =
    record { addr = 128; change = λ x. x + 1 }
    ∷ record { addr = 0; change = λ x. 9 }
    ∷ record { addr = 128; change = λ x. 3 * x }
    ∷ []

edits-InPages : InPages 256 edits
edits-InPages =
    one_more _ _ refl (omega arith)
      (one_more _ _ refl (omega arith) (one_more _ _ refl (omega arith) no_edits))

edit_pages-stored_example :
    (new : BufferPool ℕ) × (edit_pages edits
        (init_buffer_pool 0 two_pages (existing two_pages) pool)
      ≡ ok tt new)
    × ((close_buffer_pool new).file.is_open ≡ false)
    × ((a : ℕ)
        → a % 128 ≡ 0
        → a < 256
        → (close_buffer_pool new).file.pages a
          ≡ edited edits (open_file two_pages (existing two_pages)).1.pages a)
unfolding open_file
edit_pages-stored_example =
    edit_pages-stored 0 two_pages (existing two_pages) pool edits refl two_pages-IsFile (λ a. refl)
      (omega arith) edits-InPages

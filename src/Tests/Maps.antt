-- ===== src/Tests/Maps.antt =====
-- A free space map of three pages with an empty directory for myjql/src/hash_map.c.
use course_pj.Base.{ℕ, ◌<◌, ◌≡◌, refl, true, false, ◌==◌, if◌then◌else◌, arith, ok, List, replicate}
use course_pj.FileIo.{FileInfo}
use course_pj.BufferPool.Init.{fresh_pool, fresh_pool-IsPool, fresh_pool-view}
use course_pj.BufferPool.Refs.{zeros}
use course_pj.BufferPool.Session.{Session}
use course_pj.HashMap.Page.{Words, Fsm, empty_words}
use course_pj.HashMap.Insert.{hash_table_insert}
use course_pj.HashMap.Insert.Fresh.{taken, entered, hash_table_insert-fresh}

-- The free list begins at the third page.
abbrev pages : ℕ → Words
pages a k = if a == 0 then (if k == 0 then 256 else 0) else 0

abbrev map_file : FileInfo Words
map_file = record {
  is_open = true;
  length = 384;
  pages = pages;
  faulty = λ a. false;
  torn = λ a p. p;
}

abbrev pool : Fsm
pool = fresh_pool empty_words map_file

abbrev unreferenced : List ℕ
unreferenced = replicate 8 0

pool-Session : Session 384 unreferenced pages pool
pool-Session = record {
  valid =
      fresh_pool-IsPool empty_words map_file (record { whole = refl; room = omega arith })
        (λ a. refl);
  length = refl;
  short = omega arith;
  refs_are = refl;
  pages = λ a al lt. fresh_pool-view empty_words map_file a al;
}

all-free : 2 < zeros unreferenced
unfolding zeros
all-free = omega arith

-- A block with 5 bytes of free space, at address 640.
hash_table_insert-fresh_example :
    (new : Fsm) × (hash_table_insert 0 5 640 pool ≡ ok tt new)
    × Session 384 unreferenced (taken (entered pages 128 5 256) 256 640) new
hash_table_insert-fresh_example =
    hash_table_insert-fresh 0 5 640 pool (omega arith) (λ e. omega (arith, e)) refl refl
      (omega arith) (λ e. omega (arith, e)) (λ e. omega (arith, e)) all-free pool-Session

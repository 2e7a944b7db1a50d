-- ===== src/HashMap/Pages.antt =====
-- Words of the pages of the free space map of myjql/src/hash_map.c, through pinned pages.
use course_pj.Base.{run_bind, ℕ, ◌%◌, ◌<◌, ◌≡◌, refl, true, List, some, arith, ltb, write, ok, pure}
use course_pj.BufferPool.{load}
use course_pj.BufferPool.Session.{Session, Points, Cached, load-Session, modify-Session}
use course_pj.HashMap.Page.{Words, Fsm, word, set_word}

module _ {len : ℕ} {rs : List ℕ} {v : ℕ → Words} {pool : Fsm} where
  pub word-Session :
      (i a k : ℕ)
      → Session len rs v pool
      → a % 128 ≡ 0
      → a < len
      → Cached i a pool
      → k < 16
      → word (some i) k pool ≡ ok (v a k) pool
  word-Session i a k s al lt c h =
      let b : ltb k 16 ≡ true = ground arith in
      rw b (
        run_bind (load (some i)) (λ page. pure (page k)) pool pool (v a) _
          (load-Session i a s al lt c) refl)

  pub set_word-Session :
      (i a k x : ℕ)
      → Session len rs v pool
      → a % 128 ≡ 0
      → a < len
      → Points i a pool
      → k < 16
      → (new : Fsm) × (set_word (some i) k x pool ≡ ok tt new)
        × Session len rs (write v a (write (v a) k x)) new
        × ((j b : ℕ) → Points j b pool → Points j b new)
  set_word-Session i a k x s al lt p h =
      let b : ltb k 16 ≡ true = ground arith in
      let (new, e, s', keep, _) = modify-Session i a (λ page. write page k x) s al lt p in
      (new, rw b e, s', keep)

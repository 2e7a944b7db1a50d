-- ===== src/BufferPool/Modify.antt =====
-- Writes through a pointer that `get_page` of myjql/src/buffer_pool.c returned.
use course_pj.Base.{ℕ, ◌<◌, ◌≡◌, refl, sym, ◌∙◌, ap, ◌≢◌, some, arith, ok}
use course_pj.FileIo.Pages.{InFile}
use course_pj.BufferPool.{Slot, BufferPool, modify}
use course_pj.BufferPool.Slots.{At, IsPool, Fits, put_slot, put_slot-IsPool, view, view-held}
use course_pj.BufferPool.Put.{put_slot_self, put_slot-view_ne}

module _ {P : Type 0} (pool : BufferPool P) (v : IsPool pool) where
  modify-eq :
      (i : ℕ) (s : Slot P) (f : P → P)
      → At pool.slots i s
      → modify (some i) f pool ≡ ok tt (put_slot pool i (record s { page = f s.page }) pool.file)
  unfolding modify
  modify-eq i s f g = rw (g, modify)

  -- In a pool that satisfies the invariant, a write through a pointer to a slot that holds a page of
  -- the file and has a reference keeps the invariant, changes the view of that page by the written
  -- function, and the view of no other page of the file.
  pub modify-view :
      (a i : ℕ) (s : Slot P) (f : P → P)
      → InFile pool.file a
      → At pool.slots i s
      → s.addr ≡ a
      → 0 < s.ref
      → let new = put_slot pool i (record s { page = f s.page }) pool.file in
        (modify (some i) f pool ≡ ok tt new)
        × IsPool new
        × (view new a ≡ f (view pool a))
        × ((b : ℕ) → InFile pool.file b → b ≢ a → view new b ≡ view pool b)
  modify-view a i s f inf g m pos =
      let s' : Slot P = record s { page = f s.page } in
      let fits : Fits pool i s' pool.file = record {
        file = v.file;
        sound = v.sound;
        grows = omega arith;
        pages = λ b k. refl;
        inside = v.inside i s g;
        alone = λ j t n k al e. n (v.distinct j i t s k g (ground arith) e);
        clean = λ z at. absurd (omega arith);
      } in
      let valid = put_slot-IsPool pool i s s' pool.file v g fits in
      let self = put_slot_self pool v i s s' pool.file g fits in
      (
        modify-eq i s f g,
        valid,
        view-held (put_slot pool i s' pool.file) a i s' valid inf.aligned self m
            ∙ ap f (sym (view-held pool a i s v inf.aligned g m)),
        λ b at n.
            put_slot-view_ne pool v i s s' pool.file g fits b at (λ e. n (sym e ∙ m))
              (λ e. n (sym e ∙ m)),
      )

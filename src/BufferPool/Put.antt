-- ===== src/BufferPool/Put.antt =====
-- A pool after one of its slots was written.
use course_pj.Base.{ℕ, ◌≡◌, sym, ◌∙◌, ◌≢◌, inl, inr, arith, get_elem?-set_self, get_elem?-set_ne}
use course_pj.FileIo.{FileInfo}
use course_pj.FileIo.Pages.{InFile}
use course_pj.BufferPool.{Slot, BufferPool}
use course_pj.BufferPool.Slots.{
  At, IsPool, Fits, put_slot, put_slot-IsPool, At-set, view, view-cases, view-held, view-free,
}

module _ {P : Type 0} (pool : BufferPool P) (v : IsPool pool) where
  -- Slot `i` goes over to the page at `a`, which no other slot holds.
  module _ (i : ℕ) (s s' : Slot P) (f' : FileInfo P) (g : At pool.slots i s)
      (fits : Fits pool i s' f') where
    pub put_slot-others :
        (j : ℕ) (t : Slot P) → j ≢ i → At pool.slots j t → At (put_slot pool i s' f').slots j t
    put_slot-others j t ne k = get_elem?-set_ne pool.slots i j s' ne ∙ k

    pub put_slot_self : At (put_slot pool i s' f').slots i s'
    put_slot_self = get_elem?-set_self pool.slots i s' s g

    -- The view of a page that slot `i` did not and does not hold.
    pub put_slot-view_ne :
        (b : ℕ)
        → InFile pool.file b
        → s.addr ≢ b
        → s'.addr ≢ b
        → view (put_slot pool i s' f') b ≡ view pool b
    put_slot-view_ne b inf n n' = elim (view-cases pool b v inf.aligned) [
      | inl (j, t, k, m, _, e) ↦
          view-held (put_slot pool i s' f') b j t (put_slot-IsPool pool i s s' f' v g fits)
            inf.aligned (put_slot-others j t (λ ji. n (ground arith)) k) m
          ∙ sym e
      | inr (absent, _, e) ↦
          view-free (put_slot pool i s' f') b (λ j t k. elim (At-set pool.slots i j s s' t g k) [
            | inl (_, te) ↦ ground arith
            | inr (_, old) ↦ absent j t old
          ])
          ∙ fits.pages b inf.below
          ∙ sym e
    ]

-- ===== src/BufferPool/Close.antt =====
-- `close_buffer_pool` of myjql/src/buffer_pool.c: what the file holds afterwards.
use course_pj.Base.{
  ℕ, suc, ◌%◌, ◌<◌, ◌≡◌, refl, sym, ◌∙◌, ap, ◌≢◌, inl, inr, false, List, [], ◌∷◌, arith, eq-cases,
  write, write-at, write-off, ==-ne,
}
use course_pj.FileIo.{FileInfo, FileIoResult, invalid_addr, write_page, close_file}
use course_pj.FileIo.Pages.{IsFile, InFile, write_page-InFile}
use course_pj.BufferPool.{Slot, BufferPool, close_loop, close_buffer_pool}
use course_pj.BufferPool.Slots.{At, Distinct, IsPool, view, view_slots, view-absent}

module _ {P : Type 0} where
  -- The slots whose address is aligned hold pages of the file, each its own.
  record Closable (f : FileInfo P) (slots : List (Slot P)) : Type 0 where
    pub file : IsFile f
    pub sound : (a : ℕ) → f.faulty a ≡ false
    pub distinct : Distinct slots
    pub inside : (i : ℕ) (s : Slot P) → At slots i s → s.addr % 128 ≡ 0 → s.addr < f.length

  -- The file after one slot was written back.
  abbrev stored : FileInfo P → Slot P → FileInfo P
  stored f s = record f { pages = write f.pages s.addr s.page }

  write_page-unaligned :
      (f : FileInfo P) (s : Slot P)
      → s.addr % 128 ≢ 0
      → write_page s.page f s.addr ≡ (invalid_addr, f)
  unfolding write_page
  write_page-unaligned f s n = ground arith

  close_loop-aligned :
      (f : FileInfo P) (s : Slot P) (slots : List (Slot P))
      → Closable f (s ∷ slots)
      → s.addr % 128 ≡ 0
      → close_loop f (s ∷ slots) ≡ close_loop (stored f s) slots
  unfolding close_loop
  close_loop-aligned f s slots c al =
      let here : InFile f s.addr = record { aligned = al; below = c.inside 0 s refl al } in
      let w = write_page-InFile c.file s.page s.addr here (c.sound s.addr) in
      rw (w, close_loop) (ap (λ (r : FileIoResult × FileInfo P). close_loop r.1 slots) w)

  close_loop-unaligned :
      (f : FileInfo P) (s : Slot P) (slots : List (Slot P))
      → s.addr % 128 ≢ 0
      → close_loop f (s ∷ slots) ≡ close_loop f slots
  unfolding close_loop
  close_loop-unaligned f s slots n =
      rw (write_page-unaligned f s n, close_loop)
        (ap (λ (r : FileIoResult × FileInfo P). close_loop r.1 slots) (write_page-unaligned f s n))

  Closable-tail :
      (f : FileInfo P) (s : Slot P) (slots : List (Slot P))
      → Closable f (s ∷ slots)
      → Closable f slots
  Closable-tail f s slots c = record {
    file = c.file;
    sound = c.sound;
    distinct = λ i j t u g k al e. ground (arith, c.distinct (suc i) (suc j) t u g k al e);
    inside = λ i t g al. c.inside (suc i) t g al;
  }

  Closable-stored :
      (f : FileInfo P) (s : Slot P) (slots : List (Slot P))
      → Closable f slots
      → Closable (stored f s) slots
  Closable-stored f s slots c = record {
    file = record { whole = c.file.whole; room = c.file.room };
    sound = c.sound;
    distinct = c.distinct;
    inside = c.inside;
  }

  -- A page that the first slot holds is in no other.
  alone :
      (f : FileInfo P) (s : Slot P) (slots : List (Slot P))
      → Closable f (s ∷ slots)
      → s.addr % 128 ≡ 0
      → (i : ℕ) (t : Slot P) → At slots i t
      → t.addr ≢ s.addr
  alone f s slots c al i t g e = omega (arith, c.distinct 0 (suc i) s t refl g al (sym e))

  -- Every page ends as the slots show it, the file is closed, and the slots are freed.
  close_loop_lem :
      (f : FileInfo P) (slots : List (Slot P))
      → Closable f slots
      → ((a : ℕ) → a % 128 ≡ 0 → (close_loop f slots).file.pages a ≡ view_slots a (f.pages a) slots)
        × ((close_loop f slots).file.is_open ≡ false)
        × ((close_loop f slots).slots ≡ [])
  unfolding close_loop close_file
  close_loop_lem f [] c = (λ a al. refl, refl, refl)
  close_loop_lem f (s ∷ slots) c = elim (eq-cases (s.addr % 128) 0) [
    | inl al ↦
        let (pages, closed, freed) =
          close_loop_lem (stored f s) slots
            (Closable-stored f s slots (Closable-tail f s slots c)) in
        let e = close_loop-aligned f s slots c al in
        (
          λ a al'.
              ap (λ (p : BufferPool P). p.file.pages a) e ∙ pages a al' ∙ elim (eq-cases s.addr a) [
                | inl m ↦ ground (
                  arith,
                  view-absent a (write f.pages s.addr s.page a) slots
                      (λ i t g n. alone f s slots c al i t g (n ∙ sym m)),
                  write-at f.pages s.addr s.page a (sym m),
                )
                | inr n ↦ rw (==-ne s.addr a n) (
                    ap (λ (page : P). view_slots a page slots)
                      (write-off f.pages s.addr s.page a (λ k. n (sym k))))
              ],
          ap (λ (p : BufferPool P). p.file.is_open) e ∙ closed,
          ap (λ (p : BufferPool P). p.slots) e ∙ freed,
        )
    | inr n ↦
        let (pages, closed, freed) = close_loop_lem f slots (Closable-tail f s slots c) in
        let e = close_loop-unaligned f s slots n in
        (
          λ a al'.
              ap (λ (p : BufferPool P). p.file.pages a) e
              ∙ pages a al'
              ∙ sym (rw (==-ne s.addr a (λ m. n (ap (λ b. b % 128) m ∙ al'))) refl),
          ap (λ (p : BufferPool P). p.file.is_open) e ∙ closed,
          ap (λ (p : BufferPool P). p.slots) e ∙ freed,
        )
  ]

  -- Closing a pool that satisfies the invariant stores every page as the pool shows it, also those
  -- that are still referred to or that no `release` wrote; it closes the file and frees the slots.
  pub close_buffer_pool-stores :
      (pool : BufferPool P)
      → IsPool pool
      → ((a : ℕ) → a % 128 ≡ 0 → (close_buffer_pool pool).file.pages a ≡ view pool a)
        × ((close_buffer_pool pool).file.is_open ≡ false)
        × ((close_buffer_pool pool).slots ≡ [])
  unfolding close_buffer_pool view
  close_buffer_pool-stores pool v =
      close_loop_lem pool.file pool.slots
        (record { file = v.file; sound = v.sound; distinct = v.distinct; inside = v.inside })

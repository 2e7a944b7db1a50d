-- ===== src/BufferPool/Get.antt =====
-- `get_page` of myjql/src/buffer_pool.c on a pool that satisfies its invariant.
use course_pj.Base.{
  ℕ, ◌+◌, ◌%◌, ◌^◌, ◌≤◌, ◌<◌, ◌≡◌, refl, ◌∙◌, ap, ◌≢◌, ◌⊎◌, inl, inr, false, none, some, arith,
  Option-cases, ==→eq, ==→ne, ok,
}
use mathlib.Core.Path.{subst}
use course_pj.FileIo.Pages.{IsFile}
use course_pj.BufferPool.{
  Slot, BufferPool, find_slot, holds, unpinned, pin, write_back, finish_take, take_slot, miss,
  find_page, get_page,
}
use course_pj.BufferPool.Slots.{At, IsPool, put_slot, view-cases, find_slot-some, find_slot-none}
use course_pj.BufferPool.Fill.{write_back_lem, fill_lem, Filled}
use course_pj.BufferPool.Pin.{Pinned, hit_lem, miss_lem}

module _ {P : Type 0} (pool : BufferPool P) (v : IsPool pool) where
  take_slot_lem :
      (a i : ℕ) (s : Slot P)
      → a % 128 ≡ 0
      → a ≤ pool.file.length
      → pool.file.length + 256 < 2 ^ 63
      → At pool.slots i s
      → s.ref ≡ 0
      → ((j : ℕ) (t : Slot P) → At pool.slots j t → t.addr ≢ a)
      → (new : BufferPool P) × (take_slot pool i s a ≡ ok (some i) new) × Pinned pool a i new
  take_slot_lem a i s h le room g r absent =
      let back = write_back_lem v.file v.sound s (v.inside i s g) (v.clean i s g r) in
      let same = back.0 in
      let file : IsFile (write_back pool.file s).0 = record {
        whole = omega (arith, same.length, v.file);
        room = omega (arith, same.length);
      } in
      let sound : (b : ℕ) → (write_back pool.file s).0.faulty b ≡ false =
        λ b. same.faulty b ∙ v.sound b in
      let (s', f', e, filled) =
        fill_lem file sound (write_back pool.file s).1 a h (omega (arith, same.length))
          (omega (arith, same.length)) in
      (
        put_slot pool i s' f',
        unfold take_slot in ap (finish_take pool i) e,
        miss_lem pool v a i s s' (write_back pool.file s).0 f' h g r absent same (
            subst (λ n. Filled (write_back pool.file s).0 n a s' f')
              (ap (λ (x : Slot P). x.ref) back.1) filled),
      )

  -- A slot is at hand for a page: one that holds it, or one that nobody refers to.
  abbrev pub HasRoom : ℕ → Type 0
  HasRoom a = (i : ℕ) × (s : Slot P) × At pool.slots i s × ((s.addr ≡ a) ⊎ (s.ref ≡ 0))

  find_unpinned :
      (a : ℕ)
      → HasRoom a
      → ((j : ℕ) (t : Slot P) → At pool.slots j t → t.addr ≢ a)
      → (i : ℕ) × (s : Slot P) × At pool.slots i s
        × (s.ref ≡ 0)
        × (find_slot unpinned pool.slots ≡ some i)
  find_unpinned a (i, s, g, is) absent = elim (Option-cases (find_slot unpinned pool.slots)) [
    | inl e ↦ absurd (elim is [
      | inl m ↦ absent i s g m
      | inr r ↦ ==→ne s.ref 0 (find_slot-none unpinned pool.slots i s e g) r
    ])
    | inr (j, e) ↦
        let (t, k, m) = find_slot-some unpinned pool.slots j e in (j, t, k, ==→eq t.ref 0 m, e)
  ]

  get_page-hit :
      (a i : ℕ) (s : Slot P)
      → find_slot (holds a) pool.slots ≡ some i
      → At pool.slots i s
      → get_page a pool ≡ ok (some i) (put_slot pool i (pin s) pool.file)
  unfolding get_page
  get_page-hit a i s e g = rw (e, find_page) (rw (g, find_page))

  find_page-none : (a : ℕ) → find_page pool a none ≡ miss pool a (find_slot unpinned pool.slots)
  unfolding find_page
  find_page-none a = refl

  find_page-get_page : (a : ℕ) → get_page a pool ≡ find_page pool a (find_slot (holds a) pool.slots)
  unfolding get_page
  find_page-get_page a = refl

  miss-some :
      (a i : ℕ) (s : Slot P) → At pool.slots i s → miss pool a (some i) ≡ take_slot pool i s a
  unfolding miss
  miss-some a i s g = rw (g, miss)

  get_page-miss :
      (a i : ℕ) (s : Slot P)
      → find_slot (holds a) pool.slots ≡ none
      → find_slot unpinned pool.slots ≡ some i
      → At pool.slots i s
      → get_page a pool ≡ take_slot pool i s a
  get_page-miss a i s e u g =
      find_page-get_page a
      ∙ ap (find_page pool a) e
      ∙ find_page-none a
      ∙ ap (miss pool a) u
      ∙ miss-some a i s g

  -- In a pool that satisfies the invariant, with a file that stays short of 2^63 bytes, for an
  -- aligned address of a page or of the end of the file and with a slot that holds the page or has
  -- no reference, `get_page` returns a pointer to a slot with that page. The slot has one reference
  -- more, the invariant is kept, the view of every page of the file stays, and the other slots and
  -- their reference counts stay as they were.
  pub get_page-Pinned :
      (a : ℕ)
      → a % 128 ≡ 0
      → a ≤ pool.file.length
      → pool.file.length + 256 < 2 ^ 63
      → HasRoom a
      → (i : ℕ) × (new : BufferPool P) × (get_page a pool ≡ ok (some i) new) × Pinned pool a i new
  get_page-Pinned a h le room free = elim (view-cases pool a v h) [
    | inl (i, s, g, m, e, _) ↦
        (i, put_slot pool i (pin s) pool.file, get_page-hit a i s e g, hit_lem pool v a i s h g m)
    | inr (absent, e, _) ↦
        let (i, s, g, r, u) = find_unpinned a free absent in
        let (new, t, pinned) = take_slot_lem a i s h le room g r absent in
        (i, new, get_page-miss a i s e u g ∙ t, pinned)
  ]

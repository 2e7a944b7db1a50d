-- ===== src/BufferPool/Fill.antt =====
-- How a slot of myjql/src/buffer_pool.c takes a page in.
use course_pj.Base.{ℕ, ◌+◌, ◌%◌, ◌^◌, ◌≤◌, ◌<◌, ◌≡◌, refl, inl, inr, false, arith, write, eq-cases}
use course_pj.FileIo.{FileInfo, write_page}
use course_pj.FileIo.Pages.{IsFile, InFile, read_page-InFile, read_page-end, write_page-end}
use course_pj.BufferPool.{Slot, took, write_back, fill}

-- Two files with the same pages.
pub record SameFile {P : Type 0} (f g : FileInfo P) : Type 0 where
  pub length : g.length ≡ f.length
  pub faulty : (a : ℕ) → g.faulty a ≡ f.faulty a
  pub pages : (a : ℕ) → g.pages a ≡ f.pages a

-- A slot has taken in the page at `a`, and the file still has every page that it had.
pub record Filled {P : Type 0} (f : FileInfo P) (ref : ℕ) (a : ℕ) (s' : Slot P) (f' : FileInfo P)
    : Type 0 where
  pub addr : s'.addr ≡ a
  pub refs : s'.ref ≡ ref + 1
  pub file : IsFile f'
  pub sound : (b : ℕ) → f'.faulty b ≡ false
  pub grows : f.length ≤ f'.length
  pub length : a < f.length → f'.length ≡ f.length
  pub below : a < f'.length
  pub page : s'.page ≡ f'.pages a
  pub pages : (b : ℕ) → b < f.length → f'.pages b ≡ f.pages b

module _ {P : Type 0} {f : FileInfo P} (v : IsFile f) (sound : (a : ℕ) → f.faulty a ≡ false) where
  pub write_back_lem :
      (s : Slot P)
      → (s.addr % 128 ≡ 0 → s.addr < f.length)
      → (InFile f s.addr → s.page ≡ f.pages s.addr)
      → SameFile f (write_back f s).0
        × ((write_back f s).1 ≡ record s { upd = (write_back f s).1.upd })
  unfolding write_back write_page
  write_back_lem s inside clean = elim (eq-cases (s.addr % 128) 0) [
    | inl e ↦
        let i : InFile f s.addr = record { aligned = e; below = inside e } in
        let c = clean i in
        let g = sound s.addr in
        (
          record { length = ground arith; faulty = λ a. ground arith; pages = λ a. ground arith },
          ground arith,
        )
    | inr n ↦ (
      record { length = ground arith; faulty = λ a. ground arith; pages = λ a. ground arith },
      ground arith,
    )
  ]

  pub fill_lem :
      (s : Slot P) (a : ℕ)
      → a % 128 ≡ 0
      → a ≤ f.length
      → f.length + 256 < 2 ^ 63
      → (s' : Slot P) × (f' : FileInfo P) × (fill f s a ≡ (took s', f')) × Filled f s.ref a s' f'
  unfolding fill
  fill_lem s a h le room = elim (eq-cases a f.length) [
    | inr ne ↦
        let i : InFile f a = record { aligned = h; below = omega arith } in
        (
          record s { addr = a; ref = s.ref + 1; page = f.pages a },
          f,
          ground (arith, read_page-InFile v s.page a i (sound a)),
          record {
            addr = refl;
            refs = refl;
            file = v;
            sound = sound;
            grows = omega arith;
            length = λ lt. refl;
            below = i.below;
            page = refl;
            pages = λ b k. refl;
          },
        )
    | inl e ↦
        let w = v.whole in
        (
          record s { addr = a; ref = s.ref + 1 },
          record f { pages = write f.pages f.length s.page; length = f.length + 128 },
          ground (
            arith,
            read_page-end v s.page a h (omega arith),
            write_page-end v s.page (sound f.length),
          ),
          record {
            addr = refl;
            refs = refl;
            file = record { whole = omega arith; room = omega arith };
            sound = sound;
            grows = omega arith;
            length = λ lt. absurd (omega arith);
            below = omega arith;
            page = ground arith;
            pages = λ b k. ground arith;
          },
        )
  ]

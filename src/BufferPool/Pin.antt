-- ===== src/BufferPool/Pin.antt =====
-- The two ways in which `get_page` of myjql/src/buffer_pool.c pins a page.
use course_pj.Base.{ℕ, ◌%◌, ◌≤◌, ◌<◌, ◌≡◌, refl, sym, ◌∙◌, ap, ◌≢◌, inl, inr, arith, eq-cases}
use course_pj.FileIo.{FileInfo}
use course_pj.FileIo.Pages.{InFile}
use course_pj.BufferPool.{Slot, BufferPool, pin}
use course_pj.BufferPool.Refs.{inc, refs, refs-set-inc}
use course_pj.BufferPool.Slots.{
  At, IsPool, Fits, put_slot, put_slot-IsPool, At-set, view, view-held, view-free,
}
use course_pj.BufferPool.Fill.{SameFile, Filled}
use course_pj.BufferPool.Put.{put_slot-others, put_slot_self, put_slot-view_ne}

-- A page has been pinned: `slot` holds `a`, and every page of the pool is what it was.
pub record Pinned {P : Type 0} (old : BufferPool P) (a slot : ℕ) (new : BufferPool P) : Type 0 where
  pub valid : IsPool new
  pub grows : old.file.length ≤ new.file.length
  pub held : (s : Slot P) × At new.slots slot s × (s.addr ≡ a) × (0 < s.ref) × (s.page ≡ view new a)
  pub same : (b : ℕ) → InFile old.file b → view new b ≡ view old b
  pub refs_are : refs new.slots ≡ inc slot (refs old.slots)
  pub length : a < old.file.length → new.file.length ≡ old.file.length
  pub kept : (t : Slot P) → At old.slots slot t → 0 < t.ref → t.addr ≡ a
  pub others : (j : ℕ) (t : Slot P) → j ≢ slot → At old.slots j t → At new.slots j t

module _ {P : Type 0} (pool : BufferPool P) (v : IsPool pool) where
  pub hit_lem :
      (a i : ℕ) (s : Slot P)
      → a % 128 ≡ 0
      → At pool.slots i s
      → s.addr ≡ a
      → Pinned pool a i (put_slot pool i (pin s) pool.file)
  hit_lem a i s h g e = record {
    valid = valid;
    grows = omega arith;
    held = (
      pin s,
      self,
      e,
      omega arith,
      sym (view-held (put_slot pool i (pin s) pool.file) a i (pin s) valid h self e),
    );
    same = λ b inf. elim (eq-cases s.addr b) [
      | inl hit ↦
          view-held (put_slot pool i (pin s) pool.file) b i (pin s) valid inf.aligned self hit
          ∙ sym (view-held pool b i s v inf.aligned g hit)
      | inr n ↦ put_slot-view_ne pool v i s (pin s) pool.file g fits b inf n n
    ];
    refs_are = refs-set-inc pool.slots i s (pin s) g refl;
    length = λ lt. refl;
    kept = λ t gt p. ground arith;
    others = put_slot-others pool v i s (pin s) pool.file g fits;
  }
    where
      fits : Fits pool i (pin s) pool.file
      fits = record {
        file = v.file;
        sound = v.sound;
        grows = omega arith;
        pages = λ b k. refl;
        inside = v.inside i s g;
        alone = λ j t n k al m. n (v.distinct j i t s k g (ground arith) m);
        clean = λ r inf. absurd (omega arith);
      }

      valid : IsPool (put_slot pool i (pin s) pool.file)
      valid = put_slot-IsPool pool i s (pin s) pool.file v g fits

      self : At (put_slot pool i (pin s) pool.file).slots i (pin s)
      self = put_slot_self pool v i s (pin s) pool.file g fits

  pub miss_lem :
      (a i : ℕ) (s s' : Slot P) (f f' : FileInfo P)
      → a % 128 ≡ 0
      → At pool.slots i s
      → s.ref ≡ 0
      → ((j : ℕ) (t : Slot P) → At pool.slots j t → t.addr ≢ a)
      → SameFile pool.file f
      → Filled f s.ref a s' f'
      → Pinned pool a i (put_slot pool i s' f')
  miss_lem a i s s' f f' h g r absent sf filled = record {
    valid = valid;
    grows = omega (arith, sf.length, filled.grows);
    held = (
      s',
      self,
      filled.addr,
      omega (arith, filled.refs),
      sym (view-held (put_slot pool i s' f') a i s' valid h self filled.addr),
    );
    same = λ b inf. elim (eq-cases a b) [
      | inl hit ↦
          view-held (put_slot pool i s' f') b i s' valid inf.aligned self (filled.addr ∙ hit)
          ∙ filled.page
          ∙ ap f'.pages hit
          ∙ pages b inf.below
          ∙ sym (view-free pool b (λ j t k m. absent j t k (m ∙ sym hit)))
      | inr n ↦ elim (eq-cases s.addr b) [
        | inl old ↦
            view-free (put_slot pool i s' f') b (λ j t k. elim (At-set pool.slots i j s s' t g k) [
              | inl (_, te) ↦ λ m. n (sym filled.addr ∙ ap (λ (x : Slot P). x.addr) (sym te) ∙ m)
              | inr (ne, kept) ↦ λ m. ne (v.distinct j i t s kept g (ground arith) (m ∙ sym old))
            ])
            ∙ pages b inf.below
            ∙ ap pool.file.pages (sym old)
            ∙ sym (v.clean i s g r (record { aligned = ground arith; below = ground arith }))
            ∙ sym (view-held pool b i s v inf.aligned g old)
        | inr apart ↦
            put_slot-view_ne pool v i s s' f' g fits b inf apart (λ m. n (sym filled.addr ∙ m))
      ]
    ];
    refs_are = refs-set-inc pool.slots i s s' g filled.refs;
    length = λ lt. filled.length (omega (arith, sf.length)) ∙ sf.length;
    kept = λ t gt p. absurd (ground arith);
    others = put_slot-others pool v i s s' f' g fits;
  }
    where
      pages : (b : ℕ) → b < pool.file.length → f'.pages b ≡ pool.file.pages b
      pages b k = filled.pages b (omega (arith, sf.length)) ∙ sf.pages b

      fits : Fits pool i s' f'
      fits = record {
        file = filled.file;
        sound = filled.sound;
        grows = omega (arith, sf.length, filled.grows);
        pages = pages;
        inside = λ al. omega (arith, filled.addr, filled.below);
        alone = λ j t n k al m. absent j t k (m ∙ filled.addr);
        clean = λ z inf. absurd (omega (arith, filled.refs));
      }

      valid : IsPool (put_slot pool i s' f')
      valid = put_slot-IsPool pool i s s' f' v g fits

      self : At (put_slot pool i s' f').slots i s'
      self = put_slot_self pool v i s s' f' g fits

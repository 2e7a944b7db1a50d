-- ===== src/BufferPool/Session.antt =====
-- The buffer pool as its clients see it: pages that can be pinned, read, written and given back,
-- with the reference counts of the slots beside them.
use course_pj.Base.{
  ℕ, zero, suc, ◌+◌, ◌-◌, ◌%◌, ◌^◌, ◌<◌, ◌≡◌, refl, sym, ◌∙◌, ap, ◌≢◌, inl, inr, List, [], ◌∷◌,
  some, arith, get_elem?, get_elem?-set_self, get_elem?-set_ne, set, write, write-at, write-off,
  map, ok, eq-cases,
}
use course_pj.FileIo.Pages.{InFile}
use course_pj.BufferPool.{Slot, BufferPool, get_page, release, load, modify}
use course_pj.BufferPool.Slots.{At, IsPool, put_slot, view, view-held}
use course_pj.BufferPool.Refs.{inc, dec, zeros, refs, refs-set_same, zeros-find}
use course_pj.BufferPool.Get.{HasRoom, get_page-Pinned}
use course_pj.BufferPool.WriteThrough.{unpin, unpin-addr, map-At}
use course_pj.BufferPool.Release.{release-Released}
use course_pj.BufferPool.Modify.{modify-view}

-- The pool holds the pages `v` in a file of `len` bytes, and has the reference counts `rs`.
pub record Session {P : Type 0} (len : ℕ) (rs : List ℕ) (v : ℕ → P) (pool : BufferPool P)
    : Type 0 where
  pub valid : IsPool pool
  pub length : pool.file.length ≡ len
  pub short : len + 256 < 2 ^ 63
  pub refs_are : refs pool.slots ≡ rs
  pub pages : (a : ℕ) → a % 128 ≡ 0 → a < len → view pool a ≡ v a

-- Slot `i` holds the page at `a`, and somebody refers to it.
pub record Points {P : Type 0} (i a : ℕ) (pool : BufferPool P) : Type 0 where
  pub slot : Slot P
  pub at : At pool.slots i slot
  pub addr : slot.addr ≡ a
  pub pinned : 0 < slot.ref

-- Slot `i` holds the page at `a`, perhaps with nobody referring to it any more.
pub record Cached {P : Type 0} (i a : ℕ) (pool : BufferPool P) : Type 0 where
  pub slot : Slot P
  pub at : At pool.slots i slot
  pub addr : slot.addr ≡ a

pub cached : {P : Type 0} {i a : ℕ} {pool : BufferPool P} → Points i a pool → Cached i a pool
cached q = record { slot = q.slot; at = q.at; addr = q.addr }

unpin-other : {P : Type 0} (a : ℕ) (s : Slot P) → s.addr ≢ a → unpin a s ≡ s
unpin-other a s n = ground arith

refs-others :
    {P : Type 0} (a : ℕ) (slots : List (Slot P))
    → ((j : ℕ) (t : Slot P) → At slots j t → t.addr ≢ a)
    → refs (map (unpin a) slots) ≡ refs slots
refs-others a [] h = refl
refs-others a (t ∷ slots) h = λ k. head k ∷ refs-others a slots (λ j u g. h (suc j) u g) k
  where
    head : (unpin a t).ref ≡ t.ref
    head = let n = h 0 t refl in ground arith

refs-unpin :
    {P : Type 0} (a : ℕ) (slots : List (Slot P)) (i : ℕ) (s : Slot P)
    → At slots i s
    → s.addr ≡ a
    → ((j : ℕ) (t : Slot P) → At slots j t → t.addr ≡ a → j ≡ i)
    → refs (map (unpin a) slots) ≡ dec i (refs slots)
unfolding dec
refs-unpin a [] i s g m only = refl
refs-unpin a (t ∷ slots) zero s g m only =
    λ k. head k ∷ refs-others a slots (λ j u h e. only_tail j u h e) k
  where
    head : (unpin a t).ref ≡ t.ref - 1
    head = ground arith

    only_tail : (j : ℕ) (u : Slot _) → At slots j u → u.addr ≡ a → ⊥
    only_tail j u h e = omega (arith, only (suc j) u h e)
refs-unpin a (t ∷ slots) (suc i) s g m only =
    λ k. head k ∷ refs-unpin a slots i s g m (λ j u h e. omega (arith, only (suc j) u h e)) k
  where
    head : (unpin a t).ref ≡ t.ref
    head = elim (eq-cases t.addr a) [
      | inl e ↦ absurd (omega (arith, only 0 t refl e))
      | inr n ↦ ground arith
    ]

-- A slot that is written keeps its address and its references.
set_kept :
    {P : Type 0} (slots : List (Slot P)) (i j : ℕ) (s s' t : Slot P)
    → At slots i s
    → At slots j t
    → s'.addr ≡ s.addr
    → s'.ref ≡ s.ref
    → (t' : Slot P) × At (set slots i s') j t' × (t'.addr ≡ t.addr) × (t'.ref ≡ t.ref)
set_kept slots i j s s' t g k a r = elim (eq-cases j i) [
  | inl e ↦ (s', rw e (get_elem?-set_self slots i s' s g), ground arith, ground arith)
  | inr n ↦ (t, get_elem?-set_ne slots i j s' n ∙ k, refl, refl)
]

module _ {P : Type 0} {len : ℕ} {rs : List ℕ} {v : ℕ → P} {pool : BufferPool P} where
  -- A page of the file is pinned, in a slot of its own, while one is free.
  pub get_page-Session :
      (a : ℕ)
      → Session len rs v pool
      → a % 128 ≡ 0
      → a < len
      → 0 < zeros rs
      → (i : ℕ) × (new : BufferPool P) × (get_page a pool ≡ ok (some i) new)
        × Session len (inc i rs) v new
        × Points i a new
        × ((j b : ℕ) → Points j b pool → Points j b new)
  get_page-Session a s al lt free =
      let room : HasRoom pool s.valid a =
        (let (i, t, g, z) = zeros-find pool.slots (ground (arith, s.refs_are)) in
          (i, t, g, inr z)) in
      let (i, new, e, p) =
        get_page-Pinned pool s.valid a al (omega (arith, s.length))
          (omega (arith, s.length, s.short)) room in
      let (t, g, m, pos, _) = p.held in
      (
        i,
        new,
        e,
        record {
          valid = p.valid;
          length = p.length (omega (arith, s.length)) ∙ s.length;
          short = s.short;
          refs_are = p.refs_are ∙ ap (inc i) s.refs_are;
          pages = λ b bl blt.
              p.same b (record { aligned = bl; below = omega (arith, s.length) })
              ∙ s.pages b bl blt;
        },
        record { slot = t; at = g; addr = m; pinned = pos },
        λ j b q. elim (eq-cases j i) [
          | inl ji ↦ record {
            slot = t;
            at = rw ji g;
            addr = m ∙ sym (p.kept q.slot (rw ji at q.at) q.pinned) ∙ q.addr;
            pinned = pos;
          }
          | inr n ↦ record {
            slot = q.slot;
            at = p.others j q.slot n q.at;
            addr = q.addr;
            pinned = q.pinned;
          }
        ],
      )

  -- Reading through a pointer gives the page.
  pub load-Session :
      (i a : ℕ)
      → Session len rs v pool
      → a % 128 ≡ 0
      → a < len
      → Cached i a pool
      → load (some i) pool ≡ ok (v a) pool
  unfolding load
  load-Session i a s al lt c =
      rw (c.at, load)
        (ap (λ (p : P). ok p pool)
          (sym (view-held pool a i c.slot s.valid al c.at c.addr) ∙ s.pages a al lt))

  -- Writing through a pointer changes the page, and no other.
  pub modify-Session :
      (i a : ℕ) (f : P → P)
      → Session len rs v pool
      → a % 128 ≡ 0
      → a < len
      → Points i a pool
      → (new : BufferPool P) × (modify (some i) f pool ≡ ok tt new)
        × Session len rs (write v a (f (v a))) new
        × ((j b : ℕ) → Points j b pool → Points j b new)
        × ((j b : ℕ) → Cached j b pool → Cached j b new)
  modify-Session i a f s al lt p =
      let inf : InFile pool.file a = record { aligned = al; below = omega (arith, s.length) } in
      let new = put_slot pool i (record p.slot { page = f p.slot.page }) pool.file in
      let (e, valid, hit, other) = modify-view pool s.valid a i p.slot f inf p.at p.addr p.pinned in
      (
        new,
        e,
        record {
          valid = valid;
          length = s.length;
          short = s.short;
          refs_are = refs-set_same pool.slots i p.slot _ p.at refl ∙ s.refs_are;
          pages = λ b bl blt. elim (eq-cases b a) [
            | inl m ↦
                ap (view new) m ∙ hit ∙ ap f (s.pages a al lt) ∙ sym (write-at v a (f (v a)) b m)
            | inr n ↦
                other b (record { aligned = bl; below = omega (arith, s.length) }) n
                ∙ s.pages b bl blt
                ∙ sym (write-off v a (f (v a)) b n)
          ];
        },
        λ j b q.
            let (t, g, m, r) =
              set_kept pool.slots i j p.slot (record p.slot { page = f p.slot.page }) q.slot p.at
                q.at refl refl in
            record { slot = t; at = g; addr = m ∙ q.addr; pinned = omega (arith, r, q.pinned) },
        λ j b q.
            let (t, g, m, _) =
              set_kept pool.slots i j p.slot (record p.slot { page = f p.slot.page }) q.slot p.at
                q.at refl refl in
            record { slot = t; at = g; addr = m ∙ q.addr },
      )

  -- A reference is given back. The slot still holds the page, and the other references stay.
  pub release-Session :
      (i a : ℕ)
      → Session len rs v pool
      → a % 128 ≡ 0
      → a < len
      → Points i a pool
      → (new : BufferPool P) × (release a pool ≡ ok tt new)
        × Session len (dec i rs) v new
        × Cached i a new
        × ((j b : ℕ) → b ≢ a → Points j b pool → Points j b new)
  release-Session i a s al lt p =
      let (new, e, r) =
        release-Released pool s.valid a
          (record { aligned = al; below = omega (arith, s.length) }) in
      (
        new,
        e,
        record {
          valid = r.valid;
          length = r.length ∙ s.length;
          short = s.short;
          refs_are =
              ap refs r.slots
              ∙ refs-unpin a pool.slots i p.slot p.at p.addr (λ j t g m.
                s.valid.distinct j i t p.slot g p.at (ground (arith, p.addr)) (m ∙ sym p.addr))
              ∙ ap (dec i) s.refs_are;
          pages = λ b bl blt.
              r.same b (record { aligned = bl; below = omega (arith, s.length) })
              ∙ s.pages b bl blt;
        },
        record {
          slot = unpin a p.slot;
          at =
              ap (λ (slots : List (Slot P)). get_elem? slots i) r.slots
              ∙ map-At a pool.slots i p.slot p.at;
          addr = unpin-addr a p.slot ∙ p.addr;
        },
        λ j b n q. record {
          slot = q.slot;
          at =
              ap (λ (slots : List (Slot P)). get_elem? slots j) r.slots
              ∙ map-At a pool.slots j q.slot q.at
              ∙ ap some (unpin-other a q.slot (λ e. n (sym q.addr ∙ e)));
          addr = q.addr;
          pinned = q.pinned;
        },
      )

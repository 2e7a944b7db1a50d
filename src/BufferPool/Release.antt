-- ===== src/BufferPool/Release.antt =====
-- `release` of myjql/src/buffer_pool.c on a pool that satisfies its invariant.
use course_pj.Base.{ℕ, ◌%◌, ◌<◌, ◌≡◌, refl, sym, ◌∙◌, ap, inl, inr, arith, eq-cases, map, ok}
use course_pj.FileIo.Pages.{InFile}
use course_pj.BufferPool.{Slot, BufferPool, release_loop, release}
use course_pj.BufferPool.Slots.{At, IsPool, view, view-held, view-free}
use course_pj.BufferPool.WriteThrough.{
  unpin, Written, release_loop-Written, unpin-addr, unpin-page, At-map, view_slots-unpin,
}

-- A reference to the page at `a` was given back: the file has its page if there was one, and every
-- page of the pool is what it was.
pub record Released {P : Type 0} (old : BufferPool P) (a : ℕ) (new : BufferPool P) : Type 0 where
  pub valid : IsPool new
  pub length : new.file.length ≡ old.file.length
  pub slots : new.slots ≡ map (unpin a) old.slots
  pub same : (b : ℕ) → InFile old.file b → view new b ≡ view old b
  pub stored :
      (i : ℕ) (s : Slot P)
      → At old.slots i s
      → s.addr ≡ a
      → 0 < s.ref
      → new.file.pages a ≡ view old a

module _ {P : Type 0} (pool : BufferPool P) (v : IsPool pool) (a : ℕ)
    (inf : InFile pool.file a) where
  loop_facts :
      Written a pool.file (view pool a) (release_loop a pool.file pool.slots).0
      × ((release_loop a pool.file pool.slots).1 ≡ map (unpin a) pool.slots)
      × ((i : ℕ) (s : Slot P)
          → At pool.slots i s
          → s.addr ≡ a
          → 0 < s.ref
          → (release_loop a pool.file pool.slots).0.pages a ≡ view pool a)
  loop_facts =
      release_loop-Written a (view pool a) pool.file pool.slots (v.sound a) inf v.file
        (λ i s g m. sym (view-held pool a i s v inf.aligned g m))

  -- The pool after the call, its slots written out.
  after : BufferPool P
  after = record {
    file = (release_loop a pool.file pool.slots).0;
    slots = map (unpin a) pool.slots;
  }

  release-after : release a pool ≡ ok tt after
  unfolding release after
  release-after =
      ap (λ slots. ok tt (record { file = (release_loop a pool.file pool.slots).0; slots = slots }))
        loop_facts.1

  unpin-clean :
      (i : ℕ) (s : Slot P)
      → At pool.slots i s
      → (unpin a s).ref ≡ 0
      → InFile pool.file s.addr
      → s.page ≡ (release_loop a pool.file pool.slots).0.pages s.addr
  unpin-clean i s g r at = elim (eq-cases s.addr a) [
    | inl m ↦
        let held = view-held pool a i s v inf.aligned g m in
        let pages = (release_loop a pool.file pool.slots).0.pages in
        (elim (eq-cases s.ref 0) [
          | inl z ↦ elim loop_facts.0.same [
            | inl e ↦ v.clean i s g z at ∙ ap pool.file.pages m ∙ sym e
            | inr e ↦ sym (e ∙ held)
          ]
          | inr nz ↦ sym (loop_facts.2 i s g m (omega arith) ∙ held)
        ])
        ∙ ap pages (sym m)
    | inr n ↦ v.clean i s g (ground arith) at ∙ sym (loop_facts.0.others s.addr n)
  ]

  after-IsPool : IsPool after
  unfolding after
  after-IsPool = record {
    file = record {
      whole = omega (arith, loop_facts.0.length, v.file);
      room = omega (arith, loop_facts.0.length, v.file);
    };
    sound = λ b. loop_facts.0.faulty b ∙ v.sound b;
    distinct = λ i j s t g k al e.
        let (s', g', es) = At-map a pool.slots i s g in
        let (t', k', et) = At-map a pool.slots j t k in
        v.distinct i j s' t' g' k' (ground (arith, unpin-addr a s'))
          (ground (arith, unpin-addr a s', unpin-addr a t'));
    inside = λ i s g al.
        let (s', g', es) = At-map a pool.slots i s g in
        let lt = v.inside i s' g' (ground (arith, unpin-addr a s')) in
        ground (arith, unpin-addr a s', loop_facts.0.length);
    clean = λ i s g r inf'.
        let (s', g', es) = At-map a pool.slots i s g in
        let same_addr = ap (λ (x : Slot P). x.addr) es ∙ unpin-addr a s' in
        ap (λ (x : Slot P). x.page) es
        ∙ unpin-page a s'
        ∙ unpin-clean i s' g' (ap (λ (x : Slot P). x.ref) (sym es) ∙ r) (record {
          aligned = ap (λ b. b % 128) (sym same_addr) ∙ inf'.aligned;
          below = omega (arith, same_addr, inf'.below, loop_facts.0.length);
        })
        ∙ ap (release_loop a pool.file pool.slots).0.pages (sym same_addr);
  }

  after-view : (b : ℕ) → InFile pool.file b → view after b ≡ view pool b
  unfolding after view
  after-view b at = view_slots-unpin a b _ _ pool.slots (λ absent. elim (eq-cases b a) [
    | inl m ↦ elim loop_facts.0.same [
      | inl e ↦ ap (release_loop a pool.file pool.slots).0.pages m ∙ e ∙ ap pool.file.pages (sym m)
      | inr e ↦
          ap (release_loop a pool.file pool.slots).0.pages m
          ∙ e
          ∙ view-free pool a (λ i s g n. absent i s g (n ∙ sym m))
          ∙ ap pool.file.pages (sym m)
    ]
    | inr n ↦ loop_facts.0.others b n
  ])

  -- In a pool that satisfies the invariant, `release` of a page of the file keeps the invariant, the
  -- length of the file and the view of every page. The slot of the page has one reference less, none
  -- if it had none, and if it had one the file now stores the page as the pool shows it.
  pub release-Released : (new : BufferPool P) × (release a pool ≡ ok tt new) × Released pool a new
  unfolding after
  release-Released = (
    after,
    release-after,
    record {
      valid = after-IsPool;
      length = loop_facts.0.length;
      slots = refl;
      same = after-view;
      stored = loop_facts.2;
    },
  )

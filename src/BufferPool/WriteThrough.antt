-- ===== src/BufferPool/WriteThrough.antt =====
-- The loop of `release` of myjql/src/buffer_pool.c: the page goes to the file.
use course_pj.Base.{
  ℕ, zero, suc, ◌-◌, ◌<◌, ◌≡◌, refl, ◌∙◌, ap, ◌≢◌, ◌⊎◌, inl, inr, false, List, [], ◌∷◌, ◌==◌,
  if◌then◌else◌, arith, eq-cases, map,
}
use course_pj.FileIo.{FileInfo}
use course_pj.FileIo.Pages.{IsFile, InFile, write_page-InFile}
use course_pj.BufferPool.{Slot, release_slot, release_loop}
use course_pj.BufferPool.Slots.{At, view_slots}

module _ {P : Type 0} (a : ℕ) where
  -- What `release` does to a slot; the page goes to the file.
  abbrev pub unpin : Slot P → Slot P
  unpin s = if s.addr == a then record s { ref = s.ref - 1; upd = 0 } else s

  -- Only the page at `a` may have changed, to `page`; it has if `written`.
  pub record Written (f : FileInfo P) (page : P) (g : FileInfo P) : Type 0 where
    pub length : g.length ≡ f.length
    pub faulty : (b : ℕ) → g.faulty b ≡ f.faulty b
    pub others : (b : ℕ) → b ≢ a → g.pages b ≡ f.pages b
    pub same : (g.pages a ≡ f.pages a) ⊎ (g.pages a ≡ page)

  module _ (page : P) where
    pub release_slot-Written :
        (f : FileInfo P) (s : Slot P)
        → f.faulty a ≡ false
        → InFile f a
        → IsFile f
        → (s.addr ≡ a → s.page ≡ page)
        → Written f page (release_slot a f s).0
          × ((release_slot a f s).1 ≡ unpin s)
          × (s.addr ≡ a → 0 < s.ref → (release_slot a f s).0.pages a ≡ page)
    unfolding release_slot
    release_slot-Written f s h inf v e = elim (eq-cases s.addr a) [
      | inl m ↦
          let i : InFile f s.addr = record { aligned = ground arith; below = ground arith } in
          let w = write_page-InFile v s.page s.addr i (ap f.faulty m ∙ h) in
          (
            record {
              length = ground (arith, w);
              faulty = λ b. ground (arith, w);
              others = λ b n. ground (arith, w);
              same = ground (arith, w, e m);
            },
            ground arith,
            λ _ r. ground (arith, w, e m),
          )
      | inr n ↦ (
        record {
          length = ground arith;
          faulty = λ b. ground arith;
          others = λ b k. ground arith;
          same = inl (ground arith);
        },
        ground arith,
        λ m r. absurd (n m),
      )
    ]

    Written-trans : (f g h : FileInfo P) → Written f page g → Written g page h → Written f page h
    Written-trans f g h x y = record {
      length = y.length ∙ x.length;
      faulty = λ b. y.faulty b ∙ x.faulty b;
      others = λ b n. y.others b n ∙ x.others b n;
      same = elim y.same [
        | inr e ↦ inr e
        | inl e ↦ elim x.same [ inl k ↦ inl (e ∙ k) | inr k ↦ inr (e ∙ k) ]
      ];
    }

    Written-keeps : (f g : FileInfo P) → Written f page g → f.pages a ≡ page → g.pages a ≡ page
    Written-keeps f g x e = elim x.same [ inl k ↦ k ∙ e | inr k ↦ k ]

    -- The whole loop, where every slot at the address has the same page.
    pub release_loop-Written :
        (f : FileInfo P) (slots : List (Slot P))
        → f.faulty a ≡ false
        → InFile f a
        → IsFile f
        → ((i : ℕ) (s : Slot P) → At slots i s → s.addr ≡ a → s.page ≡ page)
        → Written f page (release_loop a f slots).0
          × ((release_loop a f slots).1 ≡ map unpin slots)
          × ((i : ℕ) (s : Slot P)
              → At slots i s
              → s.addr ≡ a
              → 0 < s.ref
              → (release_loop a f slots).0.pages a ≡ page)
    unfolding release_loop
    release_loop-Written f [] h inf v e = (
      record { length = refl; faulty = λ b. refl; others = λ b n. refl; same = inl refl },
      refl,
      λ i s g. ground arith,
    )
    release_loop-Written f (s ∷ slots) h inf v e =
        let one = release_slot-Written f s h inf v (e 0 s refl) in
        let w = one.0 in
        let f' = (release_slot a f s).0 in
        let rest =
          release_loop-Written f' slots (w.faulty a ∙ h)
            (record { aligned = inf.aligned; below = omega (arith, w.length, inf.below) })
            (record { whole = omega (arith, w.length, v); room = omega (arith, w.length, v) })
            (λ i t g. e (suc i) t g) in
        (
          Written-trans f f' _ w rest.0,
          λ i. one.1 i ∷ rest.1 i,
          elim [
            | zero ↦ λ t g m r. Written-keeps f' _ rest.0 (one.2 (ground arith) (ground arith))
            | suc i ↦ λ t g. rest.2 i t g
          ],
        )

  pub unpin-addr : (s : Slot P) → (unpin s).addr ≡ s.addr
  unpin-addr s = ground arith

  pub unpin-page : (s : Slot P) → (unpin s).page ≡ s.page
  unpin-page s = ground arith

  pub At-map :
      (slots : List (Slot P)) (i : ℕ) (t : Slot P)
      → At (map unpin slots) i t
      → (s : Slot P) × At slots i s × (t ≡ unpin s)
  At-map [] i t g = ground arith
  At-map (s ∷ slots) zero t g = (s, refl, ground arith)
  At-map (s ∷ slots) (suc i) t g = At-map slots i t g

  pub map-At :
      (slots : List (Slot P)) (i : ℕ) (s : Slot P) → At slots i s → At (map unpin slots) i (unpin s)
  map-At [] i s g = ground arith
  map-At (t ∷ slots) zero s g = ground arith
  map-At (t ∷ slots) (suc i) s g = map-At slots i s g

  pub view_slots-unpin :
      (b : ℕ) (p q : P) (slots : List (Slot P))
      → ((((i : ℕ) (s : Slot P) → At slots i s → s.addr ≢ b)) → p ≡ q)
      → view_slots b p (map unpin slots) ≡ view_slots b q slots
  view_slots-unpin b p q [] h = h (λ i s g. ground arith)
  view_slots-unpin b p q (s ∷ slots) h = elim (eq-cases s.addr b) [
    | inl m ↦ ground arith
    | inr n ↦ ground (
      arith,
      view_slots-unpin b p q slots
          (λ absent. h (elim [ zero ↦ λ t g m. n (ground arith) | suc i ↦ λ t g. absent i t g ])),
    )
  ]

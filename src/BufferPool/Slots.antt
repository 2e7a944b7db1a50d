-- ===== src/BufferPool/Slots.antt =====
-- The slots of a buffer pool, and the pages that a pool stands for.
use course_pj.Base.{
  ℕ, zero, suc, ◌%◌, ◌≤◌, ◌<◌, ◌≡◌, refl, sym, ◌∙◌, ◌≢◌, ◌⊎◌, inl, inr, Bool, true, false, none,
  some, List, [], ◌∷◌, ◌==◌, if◌then◌else◌, arith, get_elem?, get_elem?-set_self, get_elem?-set_ne,
  eq-cases, set, Bool-cases, Option-cases, ==-ne, ==→eq, ==→ne,
}
use mathlib.Core.Path.{subst}
use course_pj.FileIo.{FileInfo}
use course_pj.FileIo.Pages.{IsFile, InFile}
use course_pj.BufferPool.{Slot, BufferPool, find_slot, holds}

module _ {P : Type 0} where
  -- What the loops of `get_page` find passes the test.
  pub find_slot-some :
      (test : Slot P → Bool) (slots : List (Slot P)) (i : ℕ)
      → find_slot test slots ≡ some i
      → (s : Slot P) × (get_elem? slots i ≡ some s) × (test s ≡ true)
  find_slot-some test [] i h = ground arith
  find_slot-some test (s ∷ slots) zero h =
      (s, refl, ground (arith, Option-cases (find_slot test slots)))
  find_slot-some test (s ∷ slots) (suc i) h =
      find_slot-some test slots i (ground (arith, Option-cases (find_slot test slots)))

  pub find_slot-none :
      (test : Slot P → Bool) (slots : List (Slot P)) (i : ℕ) (s : Slot P)
      → find_slot test slots ≡ none
      → get_elem? slots i ≡ some s
      → test s ≡ false
  find_slot-none test [] i s h g = ground arith
  find_slot-none test (t ∷ slots) zero s h g = ground arith
  find_slot-none test (t ∷ slots) (suc i) s h g = ground (arith, find_slot-none test slots i s)

  -- What a pool holds at an address: the page of a slot, or else that of the file.
  abbrev pub view_slots : ℕ → P → List (Slot P) → P
  view_slots a page [] = page
  view_slots a page (s ∷ slots) = if s.addr == a then s.page else view_slots a page slots

  abbrev pub At : List (Slot P) → ℕ → Slot P → Type 0
  At slots i s = get_elem? slots i ≡ some s

  pub view-absent :
      (a : ℕ) (page : P) (slots : List (Slot P))
      → ((i : ℕ) (s : Slot P) → At slots i s → s.addr ≢ a)
      → view_slots a page slots ≡ page
  view-absent a page [] h = refl
  view-absent a page (s ∷ slots) h =
      rw (==-ne s.addr a (h 0 s refl)) (view-absent a page slots (λ i t g. h (suc i) t g))

  pub view-At :
      (a : ℕ) (page : P) (slots : List (Slot P)) (i : ℕ) (s : Slot P)
      → At slots i s
      → s.addr ≡ a
      → ((j : ℕ) (t : Slot P) → At slots j t → t.addr ≡ a → j ≡ i)
      → view_slots a page slots ≡ s.page
  view-At a page [] i s g e only = ground arith
  view-At a page (t ∷ slots) zero s g e only = ground arith
  view-At a page (t ∷ slots) (suc i) s g e only = elim (Bool-cases (t.addr == a)) [
    | inl hit ↦ ground (arith, only 0 t refl (==→eq t.addr a hit))
    | inr miss ↦
        rw miss (view-At a page slots i s g e (λ j u k m. ground (arith, only (suc j) u k m)))
  ]

  -- An aligned address is held by one slot at most.
  abbrev pub Distinct : List (Slot P) → Type 0
  Distinct slots =
      (i j : ℕ) (s t : Slot P)
      → At slots i s
      → At slots j t
      → s.addr % 128 ≡ 0
      → s.addr ≡ t.addr
      → i ≡ j

  -- The invariant of a pool on a medium that does not fail: aligned addresses are pages of the file,
  -- each in one slot, and a page that nobody refers to is the page of the file.
  pub record IsPool (pool : BufferPool P) : Type 0 where
    pub file : IsFile pool.file
    pub sound : (a : ℕ) → pool.file.faulty a ≡ false
    pub distinct : Distinct pool.slots
    pub inside :
        (i : ℕ) (s : Slot P) → At pool.slots i s → s.addr % 128 ≡ 0 → s.addr < pool.file.length
    pub clean :
        (i : ℕ) (s : Slot P)
        → At pool.slots i s
        → s.ref ≡ 0
        → InFile pool.file s.addr
        → s.page ≡ pool.file.pages s.addr

  unfoldable pub view : BufferPool P → ℕ → P
  view pool a = view_slots a (pool.file.pages a) pool.slots

  -- The two cases of a page: it is in a slot, or only in the file.
  pub view-cases :
      (pool : BufferPool P) (a : ℕ)
      → IsPool pool
      → a % 128 ≡ 0
      → ((i : ℕ) × (s : Slot P) × At pool.slots i s
          × (s.addr ≡ a)
          × (find_slot (holds a) pool.slots ≡ some i)
          × (view pool a ≡ s.page))
        ⊎ (((i : ℕ) (s : Slot P) → At pool.slots i s → s.addr ≢ a)
            × (find_slot (holds a) pool.slots ≡ none)
            × (view pool a ≡ pool.file.pages a))
  unfolding view
  view-cases pool a v h = elim (Option-cases (find_slot (holds a) pool.slots)) [
    | inl e ↦
        let absent : (i : ℕ) (s : Slot P) → At pool.slots i s → s.addr ≢ a =
          λ i s g. ==→ne s.addr a (find_slot-none (holds a) pool.slots i s e g) in
        inr (absent, e, view-absent a _ pool.slots absent)
    | inr (i, e) ↦
        let (s, g, t) = find_slot-some (holds a) pool.slots i e in
        let m = ==→eq s.addr a t in
        inl (
          i,
          s,
          g,
          m,
          e,
          view-At a _ pool.slots i s g m
              (λ j u k n. v.distinct j i u s k g (ground arith) (ground arith)),
        )
  ]

  pub view-held :
      (pool : BufferPool P) (a i : ℕ) (s : Slot P)
      → IsPool pool
      → a % 128 ≡ 0
      → At pool.slots i s
      → s.addr ≡ a
      → view pool a ≡ s.page
  unfolding view
  view-held pool a i s v h g m =
      view-At a _ pool.slots i s g m
        (λ j u k n. v.distinct j i u s k g (ground arith) (ground arith))

  pub view-free :
      (pool : BufferPool P) (a : ℕ)
      → ((i : ℕ) (s : Slot P) → At pool.slots i s → s.addr ≢ a)
      → view pool a ≡ pool.file.pages a
  unfolding view
  view-free pool a absent = view-absent a _ pool.slots absent

  -- The slots after one of them was written.
  pub At-set :
      (slots : List (Slot P)) (i j : ℕ) (s s' t : Slot P)
      → At slots i s
      → At (set slots i s') j t
      → ((j ≡ i) × (t ≡ s')) ⊎ ((j ≢ i) × At slots j t)
  At-set slots i j s s' t g k = elim (eq-cases j i) [
    | inl e ↦ inl (e, ground (arith, get_elem?-set_self slots i s' s g))
    | inr n ↦ inr (n, ground (arith, get_elem?-set_ne slots i j s' n))
  ]

  -- What a new slot and a new file must satisfy for the invariant to stay.
  pub record Fits (pool : BufferPool P) (i : ℕ) (s' : Slot P) (f' : FileInfo P) : Type 0 where
    pub file : IsFile f'
    pub sound : (a : ℕ) → f'.faulty a ≡ false
    pub grows : pool.file.length ≤ f'.length
    pub pages : (b : ℕ) → b < pool.file.length → f'.pages b ≡ pool.file.pages b
    pub inside : s'.addr % 128 ≡ 0 → s'.addr < f'.length
    pub alone :
        (j : ℕ) (t : Slot P) → j ≢ i → At pool.slots j t → s'.addr % 128 ≡ 0 → t.addr ≢ s'.addr
    pub clean : s'.ref ≡ 0 → InFile f' s'.addr → s'.page ≡ f'.pages s'.addr

  abbrev pub put_slot : BufferPool P → ℕ → Slot P → FileInfo P → BufferPool P
  put_slot pool i s' f' = record { file = f'; slots = set pool.slots i s' }

  put_slot-Distinct :
      (pool : BufferPool P) (i : ℕ) (s s' : Slot P) (f' : FileInfo P)
      → IsPool pool
      → At pool.slots i s
      → Fits pool i s' f'
      → Distinct (put_slot pool i s' f').slots
  put_slot-Distinct pool i s s' f' v g fits j k t u gt gu h e =
      elim (At-set pool.slots i j s s' t g gt) [
        | inl (jt, te) ↦ elim (At-set pool.slots i k s s' u g gu) [
          | inl (ku, ue) ↦ jt ∙ sym ku
          | inr (ku, ug) ↦ absurd (fits.alone k u ku ug (ground arith) (ground arith))
        ]
        | inr (jt, tg) ↦ elim (At-set pool.slots i k s s' u g gu) [
          | inl (ku, ue) ↦ absurd (fits.alone j t jt tg (ground arith) (ground arith))
          | inr (ku, ug) ↦ v.distinct j k t u tg ug h e
        ]
      ]

  pub put_slot-IsPool :
      (pool : BufferPool P) (i : ℕ) (s s' : Slot P) (f' : FileInfo P)
      → IsPool pool
      → At pool.slots i s
      → Fits pool i s' f'
      → IsPool (put_slot pool i s' f')
  put_slot-IsPool pool i s s' f' v g fits = record {
    file = fits.file;
    sound = fits.sound;
    distinct = put_slot-Distinct pool i s s' f' v g fits;
    inside = λ j t gt h. elim (At-set pool.slots i j s s' t g gt) [
      | inl (_, e) ↦ ground (arith, fits.inside)
      | inr (_, k) ↦ omega (arith, v.inside j t k h, fits.grows)
    ];
    clean = λ j t gt r inf. elim (At-set pool.slots i j s s' t g gt) [
      | inl (_, e) ↦
          subst (λ x. x.ref ≡ 0 → InFile f' x.addr → x.page ≡ f'.pages x.addr) (sym e) fits.clean r
            inf
      | inr (_, k) ↦
          let lt = v.inside j t k inf.aligned in
          v.clean j t k r (record { aligned = inf.aligned; below = lt })
          ∙ sym (fits.pages t.addr lt)
    ];
  }

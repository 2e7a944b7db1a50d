-- ===== src/BufferPool/Refs.antt =====
-- The reference counts of the slots of a pool.
use course_pj.Base.{
  ℕ, zero, suc, ◌+◌, ◌-◌, ◌≤◌, ◌<◌, ◌≡◌, refl, ◌≢◌, List, [], ◌∷◌, ◌==◌, if◌then◌else◌, arith,
  eq-cases, inl, inr, set, map,
}
use course_pj.BufferPool.{Slot}
use course_pj.BufferPool.Slots.{At}

-- One reference more, or less, at an index.
unfoldable pub inc : ℕ → List ℕ → List ℕ
inc i [] = []
inc zero (r ∷ rs) = (r + 1) ∷ rs
inc (suc i) (r ∷ rs) = r ∷ inc i rs

unfoldable pub dec : ℕ → List ℕ → List ℕ
dec i [] = []
dec zero (r ∷ rs) = (r - 1) ∷ rs
dec (suc i) (r ∷ rs) = r ∷ dec i rs

-- The slots that nobody refers to.
unfoldable pub zeros : List ℕ → ℕ
zeros [] = 0
zeros (r ∷ rs) = (if r == 0 then 1 else 0) + zeros rs

-- Taking a reference and giving it back changes nothing.
pub dec-inc : (i : ℕ) (rs : List ℕ) → dec i (inc i rs) ≡ rs
unfolding inc dec
dec-inc i [] = refl
dec-inc zero (r ∷ rs) = ground arith
dec-inc (suc i) (r ∷ rs) = λ k. r ∷ dec-inc i rs k

pub dec-inc_ne : (i j : ℕ) (rs : List ℕ) → i ≢ j → dec i (inc j rs) ≡ inc j (dec i rs)
unfolding inc dec
dec-inc_ne i j [] n = refl
dec-inc_ne zero zero (r ∷ rs) n = absurd (n refl)
dec-inc_ne zero (suc j) (r ∷ rs) n = refl
dec-inc_ne (suc i) zero (r ∷ rs) n = refl
dec-inc_ne (suc i) (suc j) (r ∷ rs) n = λ k. r ∷ dec-inc_ne i j rs (λ e. n (ground arith)) k

-- A reference uses up one free slot at most.
pub zeros-inc : (i : ℕ) (rs : List ℕ) → zeros rs ≤ zeros (inc i rs) + 1
unfolding inc zeros
zeros-inc i [] = omega arith
zeros-inc zero (r ∷ rs) = ground arith
zeros-inc (suc i) (r ∷ rs) = ground (arith, zeros-inc i rs)

module _ {P : Type 0} where
  abbrev pub refs : List (Slot P) → List ℕ
  refs slots = map (λ s. s.ref) slots

  pub refs-set-inc :
      (slots : List (Slot P)) (i : ℕ) (s s' : Slot P)
      → At slots i s
      → s'.ref ≡ s.ref + 1
      → refs (set slots i s') ≡ inc i (refs slots)
  unfolding inc
  refs-set-inc [] i s s' g e = refl
  refs-set-inc (t ∷ slots) zero s s' g e = ground arith
  refs-set-inc (t ∷ slots) (suc i) s s' g e = λ k. t.ref ∷ refs-set-inc slots i s s' g e k

  pub refs-set_same :
      (slots : List (Slot P)) (i : ℕ) (s s' : Slot P)
      → At slots i s
      → s'.ref ≡ s.ref
      → refs (set slots i s') ≡ refs slots
  refs-set_same [] i s s' g e = refl
  refs-set_same (t ∷ slots) zero s s' g e = ground arith
  refs-set_same (t ∷ slots) (suc i) s s' g e = λ k. t.ref ∷ refs-set_same slots i s s' g e k

  -- A free slot can be found.
  pub zeros-find :
      (slots : List (Slot P))
      → 0 < zeros (refs slots)
      → (i : ℕ) × (s : Slot P) × At slots i s × (s.ref ≡ 0)
  unfolding zeros
  zeros-find [] h = absurd (omega arith)
  zeros-find (s ∷ slots) h = elim (eq-cases s.ref 0) [
    | inl e ↦ (0, s, refl, e)
    | inr n ↦ let (i, t, g, z) = zeros-find slots (ground arith) in (suc i, t, g, z)
  ]

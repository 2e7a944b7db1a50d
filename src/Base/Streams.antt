-- ===== src/Base/Streams.antt =====
-- Rows of bytes: parts of a list, a list stored in a memory and read from it, and an `int` in four
-- bytes.
use Prim.Native.Nat.{ℕ, zero, suc, ◌+◌, ◌/◌, ◌%◌, ◌^◌, ◌≤◌, ◌<◌}
use mathlib.Core.Path.{◌≡◌, refl, ◌∙◌, ap}
use mathlib.Core.List.{List, [], ◌∷◌, ◌++◌}
use native.Mathlib.Omega.{arith}
use course_pj.Base.Lists.{write, length}
use course_pj.Base.Memory.{Bytes, read32}

abbrev pub take {ℓ} : {A : Type ℓ} → ℕ → List A → List A
take zero xs = []
take (suc n) [] = []
take (suc n) (x ∷ xs) = x ∷ take n xs

-- The bytes of `xs` from `at` on.
unfoldable pub store_list : Bytes → ℕ → List ℕ → Bytes
store_list m at [] = m
store_list m at (x ∷ xs) = store_list (write m at x) (at + 1) xs

unfoldable pub load_list : Bytes → ℕ → ℕ → List ℕ
load_list m at zero = []
load_list m at (suc n) = m at ∷ load_list m (at + 1) n

-- An `int`, the lowest byte first.
abbrev pub int_bytes : ℕ → List ℕ
int_bytes v =
    (v % 0x100) ∷ (v / 0x100 % 0x100) ∷ (v / 0x1_0000 % 0x100) ∷ (v / 0x100_0000 % 0x100) ∷ []

-- A `char*` read up to its end, or to the end of the list.
abbrev pub until_nul : List ℕ → List ℕ
until_nul [] = []
until_nul (zero ∷ xs) = []
until_nul (suc c ∷ xs) = suc c ∷ until_nul xs

pub take-length {ℓ} : {A : Type ℓ} (xs : List A) → take (length xs) xs ≡ xs
take-length [] = refl
take-length (x ∷ xs) = ap (λ ys. x ∷ ys) (take-length xs)

pub take-append {ℓ} : {A : Type ℓ} (xs ys : List A) → take (length xs) (xs ++ ys) ≡ xs
take-append [] ys = elim ys [ [] ↦ refl | y ∷ ys ↦ refl ]
take-append (x ∷ xs) ys = ap (λ zs. x ∷ zs) (take-append xs ys)

pub take-nil {ℓ} : {A : Type ℓ} (n : ℕ) → take {A = A} n [] ≡ []
take-nil zero = refl
take-nil (suc n) = refl

pub read32-int_bytes :
    (m : Bytes) (v : ℕ) → v < 2 ^ 32 → read32 (store_list m 0 (int_bytes v)) 0 ≡ v
unfolding read32 store_list
read32-int_bytes m v h = ground arith

pub length-load_list : (m : Bytes) (at n : ℕ) → length (load_list m at n) ≡ n
unfolding load_list
length-load_list m at zero = refl
length-load_list m at (suc n) = ap suc (length-load_list m (at + 1) n)

store_list-before : (m : Bytes) (at : ℕ) (xs : List ℕ) (k : ℕ) → k < at → store_list m at xs k ≡ m k
unfolding store_list
store_list-before m at [] k h = refl
store_list-before m at (x ∷ xs) k h =
    store_list-before (write m at x) (at + 1) xs k (omega arith) ∙ ground arith

-- What was stored is read back.
pub load_list-store_list :
    (m : Bytes) (at : ℕ) (xs : List ℕ) → load_list (store_list m at xs) at (length xs) ≡ xs
unfolding load_list store_list
load_list-store_list m at [] = refl
load_list-store_list m at (x ∷ xs) =
    let first : store_list (write m at x) (at + 1) xs at ≡ x =
      store_list-before (write m at x) (at + 1) xs at (omega arith) ∙ ground arith in
    λ i. first i ∷ load_list-store_list (write m at x) (at + 1) xs i

-- The bytes before `at` do not see what is written there.
pub load_list-write :
    (m : Bytes) (start n at v : ℕ)
    → start + n ≤ at
    → load_list (write m at v) start n ≡ load_list m start n
unfolding load_list
load_list-write m start zero at v h = refl
load_list-write m start (suc n) at v h =
    let first : write m at v start ≡ m start = ground arith in
    λ i. first i ∷ load_list-write m (start + 1) n at v (omega arith) i

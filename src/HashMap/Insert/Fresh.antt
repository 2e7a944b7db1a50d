-- ===== src/HashMap/Insert/Fresh.antt =====
-- `hash_table_insert` of myjql/src/hash_map.c where the directory has no chain for the size yet.
use mathlib.Core.Path.{subst}
use course_pj.Base.{
  run_bind, ℕ, ◌%◌, ◌<◌, ◌≡◌, refl, sym, ◌≢◌, inl, inr, List, some, arith, ◌==◌, ==-ne, ==-refl,
  eq-cases, if◌then◌else◌, write, Cmd, ok, ◌>>=◌, ◌>>◌, fun_ext, add64, sign_extend,
}
use course_pj.BufferPool.{get_page, release}
use course_pj.BufferPool.Refs.{inc, dec, dec-inc, zeros, zeros-inc}
use course_pj.BufferPool.Session.{Session, Points, cached, get_page-Session, release-Session}
use course_pj.HashMap.Page.{
  Words, Fsm, word, set_word, free_block_head, next, n_items, table, dir_addr, dir_index,
}
use course_pj.HashMap.Pages.{word-Session, set_word-Session}
use course_pj.HashMap.Insert.{add_item, take_block, hash_table_insert}

-- The pages when the block at `f` has left the free list and got its first item.
unfoldable pub taken : (ℕ → Words) → ℕ → ℕ → ℕ → Words
taken w f addr b k =
    if b == f
    then if k == next
      then 0
      else if k == n_items
      then add64 (w f n_items) 1
      else if k == 2
      then addr
      else w f k
    else if b == 0
    then if k == free_block_head then w f next else w 0 k
    else w b k

abbrev listed : (ℕ → Words) → ℕ → ℕ → Words
listed w f = write w 0 (write (w 0) 0 (w f 0))

abbrev cut : (ℕ → Words) → ℕ → ℕ → Words
cut w f = write w f (write (w f) 0 0)

abbrev filled : (ℕ → Words) → ℕ → ℕ → ℕ → Words
filled w f addr = write w f (write (w f) 2 addr)

abbrev counted : (ℕ → Words) → ℕ → ℕ → Words
counted w f = write w f (write (w f) 1 (add64 (w f 1) 1))

taken-steps :
    (w : ℕ → Words) (f addr : ℕ)
    → f ≢ 0
    → counted (filled (cut (listed w f) f) f addr) f ≡ taken w f addr
unfolding taken
taken-steps w f addr n = fun_ext (λ b. fun_ext (λ k. elim (eq-cases b f) [
  | inl e ↦ rw (e, ==-refl f, ==-ne f 0 n, taken) (ground arith)
  | inr m ↦ elim (eq-cases b 0) [
    | inl z ↦ rw (==-ne b f m, z, taken) (ground arith)
    | inr z ↦ rw (==-ne b f m, ==-ne b 0 z, taken) refl
  ]
]))

module _ {len : ℕ} {rs : List ℕ} {w : ℕ → Words} where
  -- The block behind `block` leaves the free list with its first item, and is given back.
  pub take_block-taken :
      (i0 i f addr : ℕ) (pool : Fsm)
      → 0 < len
      → f % 128 ≡ 0
      → f < len
      → f ≢ 0
      → Session len (inc i rs) w pool
      → Points i0 0 pool
      → Points i f pool
      → (new : Fsm) × (take_block (some i0) (some i) f addr pool ≡ ok tt new)
        × Session len rs (taken w f addr) new
        × ((j b : ℕ) → b ≢ f → Points j b pool → Points j b new)
  unfolding take_block add_item
  take_block-taken i0 i f addr pool some_page al lt n s at0 at =
      let zero-page : 0 % 128 ≡ 0 = omega arith in
      let e1 = word-Session i f next s al lt (cached at) (omega arith) in
      let (p1, e2, s1, k1) =
        set_word-Session i0 0 free_block_head (w f 0) s zero-page some_page at0 (omega arith) in
      let w1 = listed w f in
      let (p2, e3, s2, k2) = set_word-Session i f next 0 s1 al lt (k1 i f at) (omega arith) in
      let w2 = cut w1 f in
      let at2 = k2 i f (k1 i f at) in
      let (p3, e4, s3, k3) = set_word-Session i f (table 0) addr s2 al lt at2 (omega arith) in
      let w3 = filled w2 f addr in
      let at3 = k3 i f at2 in
      let e5 = word-Session i f n_items s3 al lt (cached at3) (omega arith) in
      let (p4, e6, s4, k4) =
        set_word-Session i f n_items (add64 (w3 f 1) 1) s3 al lt at3 (omega arith) in
      let at4 = k4 i f at3 in
      let (p5, e7, s5, _, k5) = release-Session i f s4 al lt at4 in
      (
        p5,
        run_bind (word (some i) next) _ pool pool (w f 0) _ e1 (
            run_bind (set_word (some i0) free_block_head (w f 0)) _ pool p1 tt _ e2 (
              run_bind (set_word (some i) next 0) _ p1 p2 tt _ e3 (
                run_bind (add_item (some i) 0 addr) _ p2 p4 tt _
                  (run_bind (set_word (some i) (table 0) addr) _ p2 p3 tt _ e4
                    (run_bind (word (some i) n_items) _ p3 p3 _ _ e5 e6))
                  e7))),
        subst (λ (r : List ℕ). Session len r (taken w f addr) p5) (dec-inc i rs)
            (subst (λ (x : ℕ → Words). Session len (dec i (inc i rs)) x p5) (taken-steps w f addr n)
              s5),
        λ j b m q. k5 j b m (k4 j b (k3 j b (k2 j b (k1 j b q)))),
      )

-- The steps of an insertion under an entry that is 0.
hash_table_insert-run :
    (fuel size addr f : ℕ) (i0 i1 i2 : ℕ) (pool p1 p2 p3 p4 p5 p6 p7 : Fsm)
    → get_page 0 pool ≡ ok (some i0) p1
    → get_page (dir_addr (sign_extend size)) p1 ≡ ok (some i1) p2
    → word (some i1) (dir_index (sign_extend size)) p2 ≡ ok 0 p2
    → word (some i0) free_block_head p2 ≡ ok f p2
    → get_page f p2 ≡ ok (some i2) p3
    → set_word (some i1) (dir_index (sign_extend size)) f p3 ≡ ok tt p4
    → take_block (some i0) (some i2) f addr p4 ≡ ok tt p5
    → release (dir_addr (sign_extend size)) p5 ≡ ok tt p6
    → release 0 p6 ≡ ok tt p7
    → hash_table_insert fuel size addr pool ≡ ok tt p7
unfolding hash_table_insert
hash_table_insert-run fuel size addr f i0 i1 i2 pool p1 p2 p3 p4 p5 p6 p7 e1 e2 e3 e4 e5 e6 e7 e8
      e9 =
    let d = dir_addr (sign_extend size) in
    let e = dir_index (sign_extend size) in
    let first_block : Cmd Fsm (Unit {0}) = word (some i0) free_block_head >>= (λ pre.
      get_page pre
      >>= (λ block. set_word (some i1) e pre >> take_block (some i0) block pre addr)) in
    let taking : first_block p2 ≡ ok tt p5 =
      run_bind (word (some i0) free_block_head) _ p2 p2 _ _ e4 (
        run_bind (get_page f) _ p2 p3 (some i2) _ e5
          (run_bind (set_word (some i1) e f) _ p3 p4 tt _ e6 e7)) in
    run_bind (get_page 0) _ pool p1 (some i0) _ e1 (
      run_bind (get_page d) _ p1 p2 (some i1) _ e2 (
        run_bind (word (some i1) e) _ p2 p2 0 _ e3
          (run_bind first_block _ p2 p5 tt _ taking (run_bind (release d) _ p5 p6 tt _ e8 e9))))

-- The pages when the entry `e` of the directory page `d` leads to `f`.
abbrev pub entered : (ℕ → Words) → ℕ → ℕ → ℕ → ℕ → Words
entered v d e f = write v d (write (v d) e f)

module _ {len : ℕ} {rs : List ℕ} {v : ℕ → Words} where
  -- The directory page of the size and the head of the free list are different pages of the file
  -- behind page 0, the entry of the size is 0, and three slots have no reference. Then, on any fuel,
  -- `hash_table_insert` takes the head of the free list as the chain of the size, with the address
  -- as its first item and with no successor, and the free list goes on behind it. It changes nothing
  -- else and gives all its references back.
  pub hash_table_insert-fresh :
      (fuel size addr : ℕ) (pool : Fsm)
      → dir_addr (sign_extend size) < len
      → dir_addr (sign_extend size) ≢ 0
      → v (dir_addr (sign_extend size)) (dir_index (sign_extend size)) ≡ 0
      → v 0 free_block_head % 128 ≡ 0
      → v 0 free_block_head < len
      → v 0 free_block_head ≢ 0
      → v 0 free_block_head ≢ dir_addr (sign_extend size)
      → 2 < zeros rs
      → Session len rs v pool
      → (new : Fsm) × (hash_table_insert fuel size addr pool ≡ ok tt new)
        × Session len rs
            (taken
              (entered v
                (dir_addr (sign_extend size))
                (dir_index (sign_extend size))
                (v 0 free_block_head))
              (v 0 free_block_head)
              addr)
            new
  hash_table_insert-fresh fuel size addr pool dlt dne empty fal flt fne fd free s =
      let key = sign_extend size in
      let d = dir_addr key in
      let e = dir_index key in
      let f = v 0 free_block_head in
      let start : 0 % 128 ≡ 0 = omega arith in
      let some_page : 0 < len = omega arith in
      let dal : d % 128 ≡ 0 = omega arith in
      let elt : e < 16 = omega arith in
      let (i0, p1, e1, s1, at0, _) = get_page-Session 0 s start some_page (omega arith) in
      let (i1, p2, e2, s2, at1, k2) =
        get_page-Session d s1 dal dlt (omega (arith, zeros-inc i0 rs)) in
      let e3 = word-Session i1 d e s2 dal dlt (cached at1) elt in
      let e4 =
        word-Session i0 0 free_block_head s2 start some_page (cached (k2 i0 0 at0)) (omega arith) in
      let (i2, p3, e5, s3, at2, k3) =
        get_page-Session f s2 fal flt (omega (arith, zeros-inc i0 rs, zeros-inc i1 (inc i0 rs))) in
      let (p4, e6, s4, k4) = set_word-Session i1 d e f s3 dal dlt (k3 i1 d at1) elt in
      let (p5, e7, s5, k5) =
        take_block-taken i0 i2 f addr p4 some_page fal flt fne s4 (k4 i0 0 (k3 i0 0 (k2 i0 0 at0)))
          (k4 i2 f at2) in
      let (p6, e8, s6, _, k6) =
        release-Session i1 d s5 dal dlt (k5 i1 d (λ m. fd (sym m)) (k4 i1 d (k3 i1 d at1))) in
      let s6' =
        subst (λ (r : List ℕ). Session len r (taken (entered v d e f) f addr) p6)
          (dec-inc i1 (inc i0 rs)) s6 in
      let (p7, e9, s7, _, _) = release-Session i0 0 s6' start some_page (
        k6 i0 0 (λ m. dne (sym m))
          (k5 i0 0 (λ m. fne (sym m)) (k4 i0 0 (k3 i0 0 (k2 i0 0 at0))))) in
      let nought : word (some i1) e p2 ≡ ok 0 p2 =
        subst (λ (x : ℕ). word (some i1) e p2 ≡ ok x p2) empty e3 in
      (
        p7,
        hash_table_insert-run fuel size addr f i0 i1 i2 pool p1 p2 p3 p4 p5 p6 p7 e1 e2 nought e4 e5
            e6 e7 e8 e9,
        subst (λ (r : List ℕ). Session len r (taken (entered v d e f) f addr) p7) (dec-inc i0 rs)
            s7,
      )

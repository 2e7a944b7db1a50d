-- ===== src/Str/Read/Load.antt =====
-- `load_string` of myjql/src/str.c along a chain of chunks.
use mathlib.Core.Path.{subst}
use course_pj.Base.{
  ℕ, zero, suc, ◌+◌, ◌-◌, ◌^◌, ◌<◌, ◌≡◌, refl, sym, ◌∙◌, ap, Bool, true, false, inl, inr,
  Bool-cases, ltb, if◌then◌else◌, fault, pure, and_then, List, ◌∷◌, ◌++◌, arith, length, short_lt,
  Bytes, write, store_list, load_list, take, add16, ok, run_bind, ◌>>=◌,
}
use course_pj.BufferPool.{BufferPool}
use course_pj.BufferPool.Refs.{zeros}
use course_pj.BufferPool.Session.{Session}
use course_pj.Block.{Block}
use course_pj.Table.{Table, Rid}
use course_pj.Table.Read.{with_item, table_read-Used}
use course_pj.Str.Chunk.{get_str_chunk_size, str_chunk_data, StringRecord}
use course_pj.Str.Read.{has_next_char, next_char, load_chars, load_string, Buffer, put, read_string}
use course_pj.Str.Read.Chain.{
  following, chunk_text, Behind, ends, goes, Stored, next_char-here, next_char-Follows,
}

-- Whether `n` bytes from the `i`th on are inside of a memory; no byte is so anywhere.
fits : ℕ → ℕ → ℕ → Bool
fits i zero room = true
fits i (suc n) room = ltb (i + n) room

-- What `load_chars` gives: so many characters, the buffer with them, and the table as it was.
Loaded :
    (len : ℕ) (rs : List ℕ) (v : ℕ → Block) (bound i : ℕ) (r : StringRecord) (dest : Buffer)
    (t : Table)
    → List ℕ
    → Type 0
Loaded len rs v bound i r dest t text =
    (new : BufferPool Block) × (load_chars bound i r dest t ≡ (
      if fits i (length (take bound text)) dest.room
      then ok
          (
            i + length (take bound text),
            record dest { bytes = store_list dest.bytes i (take bound text) },
          )
          (record t { data_pool = new })
      else fault))
    × Session len rs v new

fits-inside : (i n room : ℕ) → ltb i room ≡ true → fits i (suc n) room ≡ fits (i + 1) n room
unfolding fits
fits-inside i zero room h = ground arith
fits-inside i (suc n) room h = ap (λ k. ltb k room) (omega arith)

fits-outside : (i n room : ℕ) → ltb i room ≡ false → fits i (suc n) room ≡ false
unfolding fits
fits-outside i n room h = ground arith

fits-short : (n room : ℕ) → fits 0 n room ≡ false → ltb n room ≡ false
unfolding fits
fits-short zero room h = ground arith
fits-short (suc n) room h = ground arith

-- One character more.
Loaded-step :
    (len : ℕ) (rs : List ℕ) (v : ℕ → Block) (bound i c : ℕ) (r r' : StringRecord) (dest : Buffer)
    (t : Table) (p : BufferPool Block) (text : List ℕ)
    → has_next_char r ≡ true
    → next_char r t ≡ ok (c, r') (record t { data_pool = p })
    → Loaded len rs v bound
        (i + 1)
        r'
        (record dest { bytes = write dest.bytes i c })
        (record t { data_pool = p })
        text
    → Loaded len rs v (suc bound) i r dest t (c ∷ text)
unfolding load_chars Loaded store_list
Loaded-step len rs v bound i c r r' dest t p text has e (new, loaded, s) = (
  new,
  rw has (
      run_bind (next_char r) (λ x. put dest i x.0 >>= (λ d. load_chars bound (i + 1) x.1 d)) t
        (record t { data_pool = p }) (c, r') _ e
        (elim (Bool-cases (ltb i dest.room)) [
          | inr h ↦ rw (h, fits-outside i (length (take bound text)) dest.room h) refl
          | inl h ↦
              rw (h, fits-inside i (length (take bound text)) dest.room h)
                (loaded
                  ∙ ap
                      (λ k.
                        if fits (i + 1) (length (take bound text)) dest.room
                        then ok
                            (
                              k,
                              record dest {
                                bytes = store_list (write dest.bytes i c) (i + 1) (take bound text);
                              },
                            )
                            (record t { data_pool = new })
                        else fault)
                      (omega arith))
        ])),
  s,
)

-- The zero behind the characters.
finish :
    (text : List ℕ) (dest : Buffer) (t : Table)
    → and_then {B = ℕ × Bytes}
        (if fits 0 (length text) dest.room
          then ok (0 + length text, record dest { bytes = store_list dest.bytes 0 text }) t
          else fault)
        (λ (x : ℕ × Buffer). put x.1 x.0 0 >>= (λ d. pure (x.0, d.bytes)))
      ≡ (if ltb (length text) dest.room
          then ok (length text, write (store_list dest.bytes 0 text) (length text) 0) t
          else fault)
finish text dest t =
    rw (let at : 0 + length text ≡ length text = omega arith in at)
      (elim (Bool-cases (fits 0 (length text) dest.room)) [
        | inr h ↦ rw (h, fits-short (length text) dest.room h) refl
        | inl h ↦ rw h (elim (Bool-cases (ltb (length text) dest.room)) [
          | inl g ↦ rw g refl
          | inr g ↦ rw g refl
        ])
      ])

module _ {len : ℕ} {rs : List ℕ} {v : ℕ → Block} where
  load_chars-Behind :
      (bound i n idx : ℕ) (chunk : Bytes) (rest : List ℕ) (dest : Buffer) (t : Table)
      → idx + n ≡ get_str_chunk_size chunk
      → get_str_chunk_size chunk < 2 ^ 15
      → Behind len v chunk rest
      → Session len rs v t.data_pool
      → 0 < zeros rs
      → Loaded len rs v bound i
          (record { chunk = chunk; idx = idx })
          dest
          t
          (load_list chunk (str_chunk_data + idx) n ++ rest)
  unfolding load_chars Loaded fits load_list store_list has_next_char
  load_chars-Behind zero i n idx chunk rest dest t whole short b s free =
      (t.data_pool, ap (λ k. ok (k, dest) t) (omega arith), s)
  load_chars-Behind (suc bound) i zero idx chunk _ dest t whole short (ends _ neg) s free =
      let out : short_lt idx (get_str_chunk_size chunk) ≡ false = ground arith in
      (t.data_pool, rw (out, neg) (ap (λ k. ok (k, dest) t) (omega arith)), s)
  load_chars-Behind (suc bound) i zero idx chunk _ dest t whole short (goes _ rest f one shorter b)
        s free =
      let m : Bytes = following len v chunk in
      let out : short_lt idx (get_str_chunk_size chunk) ≡ false = ground arith in
      let (p, e, s') = next_char-Follows (record { chunk = chunk; idx = idx }) t out s free f in
      subst
        (λ k.
          Loaded len rs v (suc bound) i (record { chunk = chunk; idx = idx }) dest t
            (load_list m str_chunk_data k ++ rest))
        (let last : suc (get_str_chunk_size m - 1) ≡ get_str_chunk_size m = omega arith in last)
        (Loaded-step len rs v bound i (m str_chunk_data) (record { chunk = chunk; idx = idx })
          (record { chunk = m; idx = 1 }) dest t p
          (load_list m (str_chunk_data + 1) (get_str_chunk_size m - 1) ++ rest)
          (rw (out, f.forward) refl) e
          (load_chars-Behind bound (i + 1) (get_str_chunk_size m - 1) 1 m rest
            (record dest { bytes = write dest.bytes i (m str_chunk_data) })
            (record t { data_pool = p }) (omega arith) shorter b s' free))
  load_chars-Behind (suc bound) i (suc n) idx chunk rest dest t whole short b s free =
      let inside : short_lt idx (get_str_chunk_size chunk) ≡ true = ground arith in
      let advance : add16 idx 1 ≡ idx + 1 = omega arith in
      let here : str_chunk_data + (idx + 1) ≡ str_chunk_data + idx + 1 = omega arith in
      Loaded-step len rs v bound i (chunk (str_chunk_data + idx))
        (record { chunk = chunk; idx = idx }) (record { chunk = chunk; idx = idx + 1 }) dest t
        t.data_pool (load_list chunk (str_chunk_data + idx + 1) n ++ rest) (rw inside refl)
        (next_char-here (record { chunk = chunk; idx = idx }) t inside
          ∙ ap (λ j. ok (chunk (str_chunk_data + idx), record { chunk = chunk; idx = j }) t)
              advance)
        (subst
          (λ k.
            Loaded len rs v bound (i + 1) (record { chunk = chunk; idx = idx + 1 })
              (record dest { bytes = write dest.bytes i (chunk (str_chunk_data + idx)) }) t
              (load_list chunk k n ++ rest))
          here
          (load_chars-Behind bound (i + 1) n (idx + 1) chunk rest
            (record dest { bytes = write dest.bytes i (chunk (str_chunk_data + idx)) }) t
            (omega arith) short b s free))

  -- A string whose chunks behind the first one are items of pages of the data file, none of them empty,
  -- is loaded whole up to the limit: the result is the number of characters, the buffer has them and a
  -- zero behind them, and the pages of the table and the references to them stay as they were. A buffer
  -- without room for the zero is a fault. One slot without a reference is enough.
  pub load_string-Behind :
      (chunk : Bytes) (rest : List ℕ) (dest : Buffer) (max_size : ℕ) (t : Table)
      → let text = take max_size (chunk_text len v chunk ++ rest) in
        get_str_chunk_size chunk < 2 ^ 15
        → Behind len v chunk rest
        → Session len rs v t.data_pool
        → 0 < zeros rs
        → (new : BufferPool Block) × (load_string
              (record { chunk = chunk; idx = 0 })
              dest
              max_size
              t
            ≡ (if ltb (length text) dest.room
                then ok
                    (length text, write (store_list dest.bytes 0 text) (length text) 0)
                    (record t { data_pool = new })
                else fault))
          × Session len rs v new
  unfolding load_string Loaded
  load_string-Behind chunk rest dest max_size t short b s free =
      let (new, e, s') =
        load_chars-Behind max_size 0 (get_str_chunk_size chunk) 0 chunk rest dest t (omega arith)
          short b s free in
      (
        new,
        ap (λ x. and_then x (λ (x : ℕ × Buffer). put x.1 x.0 0 >>= (λ d. pure (x.0, d.bytes)))) e
            ∙ finish (take max_size (chunk_text len v chunk ++ rest)) dest
                (record t { data_pool = new }),
        s',
      )

  -- A stored string that is opened by `read_string` is loaded by `load_string` whole up to the limit:
  -- the result is the number of characters, the buffer has them and a zero behind them, and the pages of
  -- the table and the references to them stay as they were. A buffer without room for the zero is a
  -- fault. One slot without a reference is enough.
  pub load_string-Stored :
      (garbage : Bytes) (rid : Rid) (text : List ℕ) (dest : Buffer) (max_size : ℕ) (t : Table)
      → Stored len v garbage rid text
      → Session len rs v t.data_pool
      → 0 < zeros rs
      → (new : BufferPool Block) × ((read_string garbage rid >>= (λ r. load_string r dest max_size))
            t
          ≡ (if ltb (length (take max_size text)) dest.room
              then ok
                  (
                    length (take max_size text),
                    write
                        (store_list dest.bytes 0 (take max_size text))
                        (length (take max_size text))
                        0,
                  )
                  (record t { data_pool = new })
              else fault))
        × Session len rs v new
  unfolding read_string
  load_string-Stored garbage rid text dest max_size t k s free =
      let chunk : Bytes = with_item (v rid.block_addr) rid.idx garbage in
      let (p, e, s1) = table_read-Used t rid garbage s k.aligned k.below free k.block k.used in
      let (new, f, s2) =
        load_string-Behind chunk k.rest dest max_size (record t { data_pool = p }) k.short k.behind
          s1 free in
      (
        new,
        rw (e, f)
            (ap
              (λ cs.
                if ltb (length (take max_size cs)) dest.room
                then ok
                    (
                      length (take max_size cs),
                      write (store_list dest.bytes 0 (take max_size cs)) (length (take max_size cs))
                          0,
                    )
                    (record t { data_pool = new })
                else fault)
              (sym k.whole)),
        s2,
      )

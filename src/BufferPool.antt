-- ===== src/BufferPool.antt =====
-- myjql/src/buffer_pool.c and myjql/include/buffer_pool.h: eight slots that hold pages of a file.
-- The five arrays of pointers are one list of slots. A pointer to a page is the index of its slot;
-- the null pointer is `none`.
pub mod Slots
pub mod Init
pub mod Refs
pub mod Fill
pub mod Put
pub mod Pin
pub mod Get
pub mod WriteThrough
pub mod Release
pub mod Modify
pub mod Close
pub mod Session
pub mod Edits
use course_pj.Base.{
  ℕ, suc, ◌+◌, ◌-◌, Bool, Option, none, some, List, [], ◌∷◌, ◌==◌, ltb, if◌then◌else◌, get_elem?,
  set, replicate, map, minus_one, Res, Cmd, ok, fault,
}
use mathlib.Core.Option
use course_pj.FileIo.{
  FileInfo, FileIoResult, file_io_success, file_io_failed, addr_out_of_range, Opening, open_file,
  close_file, read_page, write_page,
}

abbrev pub cache_page : ℕ
cache_page = 8

pub record Slot (P : Type 0) : Type 0 where
  pub page : P
  pub addr : ℕ
  pub cnt : ℕ
  pub ref : ℕ
  pub upd : ℕ

pub record BufferPool (P : Type 0) : Type 0 where
  pub file : FileInfo P
  pub slots : List (Slot P)

-- What becomes of a slot that is to take a page in: it has the page, or the read failed and it stays
-- with its old address.
pub data Taking (P : Type 0) : Type 0 where
  took stayed : Slot P → Taking P

abbrev pub Ptr : Type 0
Ptr = Option ℕ

module _ {P : Type 0} where
  -- The first slot that passes a test: the loops of `get_page`.
  abbrev pub find_slot : (Slot P → Bool) → List (Slot P) → Option ℕ
  find_slot test [] = none
  find_slot test (s ∷ slots) = if test s then some 0 else Option.map suc (find_slot test slots)

  abbrev pub holds : ℕ → Slot P → Bool
  holds addr s = s.addr == addr

  abbrev pub unpinned : Slot P → Bool
  unpinned s = s.ref == 0

  -- A slot as `init_buffer_pool` allocates it; `empty_page` is `EMPTY_PAGE`.
  abbrev pub empty_slot : P → Slot P
  empty_slot empty_page = record { page = empty_page; addr = minus_one; cnt = 0; ref = 0; upd = 0 }

  pub start_pool : P → BufferPool P → FileIoResult × FileInfo P → BufferPool P
  start_pool empty_page pool (file_io_success, file) = record {
    file = file;
    slots = replicate cache_page (empty_slot empty_page);
  }
  start_pool empty_page pool (_, file) = pool

  -- `fresh` is the uninitialised `FileInfo`; `pool` is the storage that is filled.
  unfoldable pub init_buffer_pool : P → FileInfo P → Opening P → BufferPool P → BufferPool P
  unfolding start_pool
  init_buffer_pool empty_page fresh opening pool =
      start_pool empty_page pool (open_file fresh opening)

  -- The loop of `close_buffer_pool` writes each slot back, whatever its address, and frees it; the
  -- first failure ends the function with the file open.
  pub close_loop : FileInfo P → List (Slot P) → BufferPool P
  close_loop file [] = record { file = close_file file; slots = [] }
  close_loop file (s ∷ slots) =
      let (result, file') = write_page s.page file s.addr in
      elim result [
        | file_io_failed ↦ record { file = file'; slots = s ∷ slots }
        | _ ↦ close_loop file' slots
      ]

  unfoldable pub close_buffer_pool : BufferPool P → BufferPool P
  unfolding close_loop
  close_buffer_pool pool = close_loop pool.file pool.slots

  abbrev pub pin : Slot P → Slot P
  pin s = record s { ref = s.ref + 1 }

  -- The write-back of an updated page before its slot is used again.
  pub write_back : FileInfo P → Slot P → FileInfo P × Slot P
  write_back file s =
      if s.upd == 1 then ((write_page s.page file s.addr).1, record s { upd = 0 }) else (file, s)

  -- The slot takes a page in. A page that the file does not have yet is appended with what the slot
  -- held before, if the address is the end of the file.
  pub fill : FileInfo P → Slot P → ℕ → Taking P × FileInfo P
  fill file s addr =
      let (result, page) = read_page s.page file addr in
      elim result [
        | file_io_failed ↦ (stayed (record s { page = page }), file)
        | addr_out_of_range ↦ (
          took (record s { addr = addr; ref = s.ref + 1; page = page }),
          (write_page page file addr).1,
        )
        | _ ↦ (took (record s { addr = addr; ref = s.ref + 1; page = page }), file)
      ]

  -- A failed read gives the null pointer.
  finish_take : BufferPool P → ℕ → Taking P × FileInfo P → Res (BufferPool P) Ptr
  finish_take pool i (stayed s, file) = ok none (record { file = file; slots = set pool.slots i s })
  finish_take pool i (took s, file) =
      ok (some i) (record { file = file; slots = set pool.slots i s })

  take_slot : BufferPool P → ℕ → Slot P → ℕ → Res (BufferPool P) Ptr
  unfolding write_back fill finish_take
  take_slot pool i s addr =
      let (file, clean) = write_back pool.file s in finish_take pool i (fill file clean addr)

  hit_slot : BufferPool P → ℕ → Slot P → Res (BufferPool P) Ptr
  hit_slot pool i s = ok (some i) (record pool { slots = set pool.slots i (pin s) })

  miss : BufferPool P → ℕ → Option ℕ → Res (BufferPool P) Ptr
  unfolding take_slot
  miss pool addr none = ok none pool
  miss pool addr (some i) = elim (get_elem? pool.slots i) [
    | none ↦ fault
    | some s ↦ take_slot pool i s addr
  ]

  find_page : BufferPool P → ℕ → Option ℕ → Res (BufferPool P) Ptr
  unfolding miss hit_slot
  find_page pool addr none = miss pool addr (find_slot unpinned pool.slots)
  find_page pool addr (some i) = elim (get_elem? pool.slots i) [
    | none ↦ fault
    | some s ↦ hit_slot pool i s
  ]

  unfoldable pub get_page : ℕ → Cmd (BufferPool P) Ptr
  unfolding find_page
  get_page addr pool = find_page pool addr (find_slot (holds addr) pool.slots)

  mark : ℕ → Slot P → Slot P
  mark addr s = if holds addr s then record s { upd = 1 } else s

  unfoldable pub update : ℕ → Cmd (BufferPool P) (Unit {0})
  unfolding mark
  update addr pool = ok tt (record pool { slots = map (mark addr) pool.slots })

  -- One round of the loop of `release`: the last reference is not needed for the write.
  pub release_slot : ℕ → FileInfo P → Slot P → FileInfo P × Slot P
  release_slot addr file s =
      if holds addr s
      then if ltb 0 s.ref
        then ((write_page s.page file s.addr).1, record s { ref = s.ref - 1; upd = 0 })
        else (file, record s { upd = 0 })
      else (file, s)

  pub release_loop : ℕ → FileInfo P → List (Slot P) → FileInfo P × List (Slot P)
  unfolding release_slot
  release_loop addr file [] = (file, [])
  release_loop addr file (s ∷ slots) =
      let (file', s') = release_slot addr file s in
      let (file'', slots') = release_loop addr file' slots in (file'', s' ∷ slots')

  unfoldable pub release : ℕ → Cmd (BufferPool P) (Unit {0})
  unfolding release_loop
  release addr pool =
      let (file, slots) = release_loop addr pool.file pool.slots in
      ok tt (record { file = file; slots = slots })

  -- Reading and writing a page through a pointer.
  unfoldable pub load : Ptr → Cmd (BufferPool P) P
  load none pool = fault
  load (some i) pool = elim (get_elem? pool.slots i) [ none ↦ fault | some s ↦ ok s.page pool ]

  unfoldable pub modify : Ptr → (P → P) → Cmd (BufferPool P) (Unit {0})
  modify none f pool = fault
  modify (some i) f pool = elim (get_elem? pool.slots i) [
    | none ↦ fault
    | some s ↦ ok tt (record pool { slots = set pool.slots i (record s { page = f s.page }) })
  ]

-- ===== src/HashMap/Page.antt =====
-- A page of the free space map is sixteen words of type `off_t`; the control block, a directory
-- block and a hash map block of myjql/include/hash_map.h are three readings of one page.
use course_pj.Base.{
  ℕ, ◌+◌, ◌*◌, ◌/◌, ◌%◌, ◌^◌, ltb, if◌then◌else◌, write, mod64, Cmd, crash, pure, ◌>>=◌,
}
use course_pj.FileIo.{page_size}
use course_pj.BufferPool.{BufferPool, Ptr, load, modify}

abbrev pub Words : Type 0
Words = ℕ → ℕ

-- `EMPTY_PAGE`.
abbrev pub empty_words : Words
empty_words k = 0

abbrev pub Fsm : Type 0
Fsm = BufferPool Words

abbrev pub dir_block_size : ℕ
dir_block_size = 16

abbrev pub hash_block_size : ℕ
hash_block_size = 14

-- A word of a page behind a pointer; an index past the page is a fault.
abbrev pub word : Ptr → ℕ → Cmd Fsm ℕ
word p k = if ltb k 16 then (load p >>= λ page. pure (page k)) else crash

abbrev pub set_word : Ptr → ℕ → ℕ → Cmd Fsm (Unit {0})
set_word p k v = if ltb k 16 then modify p (λ page. write page k v) else crash

-- The fields of `HashMapControlBlock`.
abbrev pub free_block_head : ℕ
free_block_head = 0

abbrev pub n_directory_blocks : ℕ
n_directory_blocks = 1

abbrev pub max_size : ℕ
max_size = 2

abbrev pub free_block_last : ℕ
free_block_last = 3

-- Those of `HashMapBlock`.
abbrev pub next : ℕ
next = 0

abbrev pub n_items : ℕ
n_items = 1

abbrev pub table : ℕ → ℕ
table i = (2 + i) % 2 ^ 64

-- `(size / HASH_MAP_DIR_BLOCK_SIZE + 1) * PAGE_SIZE` and `size % HASH_MAP_DIR_BLOCK_SIZE`, where
-- the unsigned constant converts `size` to 64 bits.
abbrev pub dir_addr : ℕ → ℕ
dir_addr size = (size / dir_block_size + 1) * page_size % mod64

abbrev pub dir_index : ℕ → ℕ
dir_index size = size % dir_block_size

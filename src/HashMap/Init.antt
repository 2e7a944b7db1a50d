-- ===== src/HashMap/Init.antt =====
-- `hash_table_init` and `hash_table_close` of myjql/src/hash_map.c.
use course_pj.Base.{
  ℕ, zero, suc, ◌+◌, ◌*◌, ◌/◌, ◌%◌, ◌==◌, if◌then◌else◌, mod64, Cmd, ok, gets, pure, ◌>>=◌, ◌>>◌,
}
use course_pj.FileIo.{page_size, FileInfo, Opening}
use course_pj.BufferPool.{Ptr, init_buffer_pool, close_buffer_pool, get_page, release}
use course_pj.HashMap.Page.{
  Words, empty_words, Fsm, dir_block_size, hash_block_size, set_word, free_block_head,
  n_directory_blocks, max_size, free_block_last, next, n_items, table,
}

-- `PAGE_SIZE / HASH_MAP_DIR_BLOCK_SIZE`, the pages of the directory.
abbrev pub directory_pages : ℕ
directory_pages = page_size / dir_block_size

abbrev free_blocks : ℕ
free_blocks = 200000

-- `for (j = 0; j < n; j++)` over the words from `k` on.
clear_words : ℕ → ℕ → Ptr → Cmd Fsm (Unit {0})
clear_words zero k block = pure tt
clear_words (suc n) k block = do set_word block k 0; clear_words n (k + 1) block

clear_directory : ℕ → ℕ → Cmd Fsm (Unit {0})
unfolding clear_words
clear_directory zero i = pure tt
clear_directory (suc n) i = do
  dir_block ← get_page ((i + 1) * page_size)
  clear_words dir_block_size 0 dir_block
  release ((i + 1) * page_size)
  clear_directory n (i + 1)

-- Each new block is linked to the one behind it.
unfoldable pub link_blocks : ℕ → ℕ → Cmd Fsm (Unit {0})
unfolding clear_words
link_blocks zero i = pure tt
link_blocks (suc n) i = do
  block ← get_page ((i + directory_pages + 1) * page_size)
  set_word block n_items 0
  set_word block next ((i + directory_pages + 2) * page_size)
  clear_words hash_block_size (table 0) block
  release ((i + directory_pages + 1) * page_size)
  link_blocks n (i + 1)

init_pages : ℕ → Cmd Fsm (Unit {0})
unfolding clear_directory link_blocks
init_pages directory_blocks = do
  ctrl ← get_page 0
  set_word ctrl free_block_head ((directory_pages + 1) * page_size)
  set_word ctrl n_directory_blocks directory_blocks
  set_word ctrl max_size (dir_block_size * directory_blocks % mod64)
  set_word ctrl free_block_last ((free_blocks + 1 + directory_pages) * page_size)
  clear_directory directory_blocks 0
  link_blocks free_blocks 0

-- `fresh` and `opening` are what `open_file` is given, `pool` is the storage that is filled.
unfoldable pub hash_table_init : FileInfo Words → Opening Words → ℕ → Cmd Fsm (Unit {0})
unfolding init_pages
hash_table_init fresh opening directory_blocks pool =
    start (init_buffer_pool empty_words fresh opening pool)
  where
    start : Cmd Fsm (Unit {0})
    start = do
      length ← gets (λ p. p.file.length)
      if length == 0 then init_pages directory_blocks else pure tt
      release 0

unfoldable pub hash_table_close : Cmd Fsm (Unit {0})
hash_table_close pool = ok tt (close_buffer_pool pool)

-- ===== src/FileIo.antt =====
-- myjql/src/file_io.c and myjql/include/file_io.h: a file as a row of pages of 128 bytes.
-- The type `P` is what a page is read as by the code above; the file never looks into a page.
pub mod Pages
use course_pj.Base.{
  ℕ, ◌+◌, ◌%◌, Bool, true, false, ◌||◌, not, ◌==◌, is_neg, slt, if◌then◌else◌, write,
}

abbrev pub page_size : ℕ
page_size = 128

pub data FileIoResult : Type 0 where
  file_io_success file_io_failed invalid_len invalid_addr addr_out_of_range : FileIoResult

-- What `fp` gives access to stands beside `length`: the page at each offset, the offsets at which a
-- seek, a read or a write of the standard library fails, and what a failed read leaves of the page
-- that it reads into.
pub record FileInfo (P : Type 0) : Type 0 where
  pub is_open : Bool
  pub length : ℕ
  pub pages : ℕ → P
  pub faulty : ℕ → Bool
  pub torn : ℕ → P → P

-- What the two calls of `fopen` meet: a file that is there, one that is made, or neither.
pub data Opening (P : Type 0) : Type 0 where
  existing created : FileInfo P → Opening P
  refused : Opening P

-- `addr & PAGE_MASK` of an address.
abbrev pub page_mask : ℕ → ℕ
page_mask addr = addr % page_size

module _ {P : Type 0} where
  unfoldable pub close_file : FileInfo P → FileInfo P
  close_file file = record file { is_open = false; length = 0 }

  open_stream : FileInfo P → FileIoResult × FileInfo P
  unfolding close_file
  open_stream file =
      if file.faulty file.length
      then (file_io_failed, file)
      else if not (page_mask file.length == 0)
      then (invalid_len, close_file file)
      else (file_io_success, file)

  -- A file that `fopen` makes is empty.
  unfoldable pub open_file : FileInfo P → Opening P → FileIoResult × FileInfo P
  unfolding open_stream
  open_file file (existing f) = open_stream (record f { is_open = true })
  open_file file (created f) = open_stream (record f { is_open = true; length = 0 })
  open_file file refused = (file_io_failed, record file { is_open = false })

  unfoldable pub read_page : P → FileInfo P → ℕ → FileIoResult × P
  read_page page file addr =
      if not (page_mask addr == 0)
      then (invalid_addr, page)
      else if is_neg addr || not (slt addr file.length)
      then (addr_out_of_range, page)
      else if file.faulty addr
      then (file_io_failed, file.torn addr page)
      else (file_io_success, file.pages addr)

  unfoldable pub write_page : P → FileInfo P → ℕ → FileIoResult × FileInfo P
  write_page page file addr =
      if not (page_mask addr == 0)
      then (invalid_addr, file)
      else if is_neg addr || slt file.length addr
      then (addr_out_of_range, file)
      else if file.faulty addr
      then (file_io_failed, file)
      else (
        file_io_success,
        record file {
          pages = write file.pages addr page;
          length = if addr == file.length then file.length + page_size else file.length;
        },
      )

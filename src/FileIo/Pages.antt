-- ===== src/FileIo/Pages.antt =====
-- Reading and writing pages of myjql/src/file_io.c: when they succeed, and what is read back.
use course_pj.Base.{
  ℕ, ◌+◌, ◌%◌, ◌^◌, ◌≤◌, ◌<◌, ◌≡◌, ◌≢◌, ◌↔◌, ◌⊎◌, false, ◌==◌, if◌then◌else◌, arith, write,
}
use course_pj.FileIo.{FileInfo, file_io_success, addr_out_of_range, read_page, write_page}

-- A file is a whole number of pages, and one more page still has a positive offset.
pub record IsFile {P : Type 0} (f : FileInfo P) : Type 0 where
  pub whole : f.length % 128 ≡ 0
  pub room : f.length + 128 < 2 ^ 63

-- An address at which a page of the file stands.
pub record InFile {P : Type 0} (f : FileInfo P) (a : ℕ) : Type 0 where
  pub aligned : a % 128 ≡ 0
  pub below : a < f.length

module _ {P : Type 0} {f : FileInfo P} (ok : IsFile f) where
  -- In a file of whole pages below 2^63 bytes, `read_page` succeeds exactly at an aligned address
  -- below the length at which the medium does not fail.
  pub read_page-success :
      (page : P) (a : ℕ)
      → ((read_page page f a).0 ≡ file_io_success) ↔ (InFile f a × (f.faulty a ≡ false))
  unfolding read_page
  read_page-success page a = (λ h. ground arith, λ h. ground arith)

  pub read_page-InFile :
      (page : P) (a : ℕ)
      → InFile f a
      → f.faulty a ≡ false
      → read_page page f a ≡ (file_io_success, f.pages a)
  unfolding read_page
  read_page-InFile page a i h = ground arith

  pub read_page-end :
      (page : P) (a : ℕ)
      → a % 128 ≡ 0
      → f.length ≤ a
      → read_page page f a ≡ (addr_out_of_range, page)
  unfolding read_page
  read_page-end page a i h = ground arith

  pub write_page-end :
      (page : P)
      → f.faulty f.length ≡ false
      → write_page page f f.length ≡ (
        file_io_success,
        record f { pages = write f.pages f.length page; length = f.length + 128 },
      )
  unfolding write_page
  write_page-end page h = let w = ok.whole in let r = ok.room in ground arith

  -- In a file of whole pages below 2^63 bytes, `write_page` succeeds exactly at an aligned address up
  -- to the length, the end included, at which the medium does not fail.
  pub write_page-success :
      (page : P) (a : ℕ)
      → ((write_page page f a).0 ≡ file_io_success)
        ↔ ((a % 128 ≡ 0) × (a ≤ f.length) × (f.faulty a ≡ false))
  unfolding write_page
  write_page-success page a = (λ h. ground arith, λ h. ground arith)

  pub write_page-InFile :
      (page : P) (a : ℕ)
      → InFile f a
      → f.faulty a ≡ false
      → write_page page f a ≡ (file_io_success, record f { pages = write f.pages a page })
  unfolding write_page
  write_page-InFile page a i h = ground arith

  -- In a file of whole pages below 2^63 bytes, a `write_page` that does not succeed leaves the file
  -- as it was.
  pub write_page-failed :
      (page : P) (a : ℕ) → (write_page page f a).0 ≢ file_io_success → (write_page page f a).1 ≡ f
  unfolding write_page
  write_page-failed page a h = ground arith

  pub write_page-IsFile :
      (page : P) (a : ℕ) → f.length + 256 < 2 ^ 63 → IsFile (write_page page f a).1
  unfolding write_page
  write_page-IsFile page a h = record { whole = ground arith; room = ground arith }

  -- After a `write_page` that succeeded in a file of whole pages below 2^63 bytes, `read_page` at an
  -- address where the medium does not fail gives the page that was written, and at any other
  -- address, but for the end of the file before, the result it gave before.
  pub read_page-write_page :
      (page q : P) (a b : ℕ)
      → (write_page page f a).0 ≡ file_io_success
      → (b ≢ f.length) ⊎ (b ≡ a)
      → f.faulty b ≡ false
      → read_page q (write_page page f a).1 b
        ≡ (if b == a then (file_io_success, page) else read_page q f b)
  unfolding write_page read_page
  read_page-write_page page q a b h n g = ground arith

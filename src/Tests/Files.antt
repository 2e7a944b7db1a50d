-- ===== src/Tests/Files.antt =====
-- A file of two pages, each a number, for myjql/src/file_io.c.
use course_pj.Base.{ℕ, ◌+◌, true, false, ◌≡◌, refl, ◌↔◌, inr, arith, ◌==◌, if◌then◌else◌, ◌%◌, ◌≤◌}
use course_pj.FileIo.{FileInfo, file_io_success, addr_out_of_range, read_page, write_page}
use course_pj.FileIo.Pages.{IsFile, write_page-success, read_page-write_page}

abbrev pub two_pages : FileInfo ℕ
two_pages = record {
  is_open = true;
  length = 256;
  pages = λ a. a + 7;
  faulty = λ a. false;
  torn = λ a p. p;
}

pub two_pages-IsFile : IsFile two_pages
two_pages-IsFile = record { whole = refl; room = omega arith }

write_page-success_example :
    ((write_page 5 two_pages 256).0 ≡ file_io_success)
    ↔ ((256 % 128 ≡ 0) × (256 ≤ 256) × (two_pages.faulty 256 ≡ false))
write_page-success_example = write_page-success two_pages-IsFile 5 256

past_end : (write_page 5 two_pages 384).0 ≡ addr_out_of_range
unfolding write_page
past_end = refl

at_end : (write_page 5 two_pages 256).0 ≡ file_io_success
unfolding write_page
at_end = refl

read_page-write_page_example :
    read_page 0 (write_page 5 two_pages 256).1 256
    ≡ (if 256 == 256 then (file_io_success, 5) else read_page 0 two_pages 256)
read_page-write_page_example =
    read_page-write_page two_pages-IsFile 5 0 256 256 at_end (inr refl) refl

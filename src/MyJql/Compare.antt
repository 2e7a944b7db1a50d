-- ===== src/MyJql/Compare.antt =====
-- The comparisons of myjql/src/myjql.c that order the index.
use course_pj.Base.{ℕ, ◌≡◌, ◌≢◌, Bytes, minus_one, ==-ne}
use course_pj.Table.{Rid}
use course_pj.MyJql.{rid_row_row_cmp}

-- For three record ids that are not null, the comparison of the first with the second is that of
-- the first with the third: of two rows the second one is never looked at.
pub rid_row_row_cmp-second :
    (garbage : Bytes) (chars : ℕ) (a b c : Rid)
    → a.block_addr ≢ minus_one
    → b.block_addr ≢ minus_one
    → c.block_addr ≢ minus_one
    → rid_row_row_cmp garbage chars a b ≡ rid_row_row_cmp garbage chars a c
unfolding rid_row_row_cmp
rid_row_row_cmp-second garbage chars a b c ha hb hc = rw (
  ==-ne a.block_addr minus_one ha,
  ==-ne b.block_addr minus_one hb,
  ==-ne c.block_addr minus_one hc,
)

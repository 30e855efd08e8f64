-- ===== src/Tests/PageFile.antt =====
-- storage/page_manager.cpp on a new data file.
use database_engine.Base.{ℕ, ◌+◌, ◌≤◌, ◌<◌, ◌≡◌, refl, ◌∙◌, ◌⊎◌, arith, ◌==◌, if◌then◌else◌}
use database_engine.Util.Status.{ok, err, invalid_argument}
use database_engine.Storage.Page.{Page, page_size}
use database_engine.Storage.PageFile.{
  PageManager, create, write_file_header, write_at, allocate_page, write_page,
}
use database_engine.Storage.PageFile.Contents.{
  content, IsValid, create-IsValid, allocate_page_lem, Written, HasPage, write_page_lem,
}
use database_engine.Storage.PageFile.Reopen.{reopened, open_file-close}

pub create_count : create.page_count ≡ 1
unfolding create write_file_header write_at
create_count = refl

-- A data file of one page beside the header.
abbrev pub one_page : PageManager
one_page = (allocate_page create).1

pub one_page-IsValid : IsValid one_page
one_page-IsValid = (allocate_page_lem create create-IsValid (omega (arith, create_count))).1

pub one_page_count : one_page.page_count ≡ 2
one_page_count =
    (allocate_page_lem create create-IsValid (omega (arith, create_count))).2
    ∙ omega (arith, create_count)

abbrev pub sevens : Page
sevens i = 7

allocate_page_lem_example :
    ((allocate_page create).0 ≡ ok create.page_count)
    × IsValid (allocate_page create).1
    × ((allocate_page create).1.page_count ≡ create.page_count + 1)
    × ((jd i : ℕ)
        → 1 ≤ jd
        → i < page_size
        → content (allocate_page create).1 jd i
          ≡ (if create.page_count == jd then 0 else content create jd i))
allocate_page_lem_example = allocate_page_lem create create-IsValid (omega (arith, create_count))

write_page_lem_example :
    (HasPage one_page 1
      × ((write_page one_page 1 sevens).0 ≡ ok tt)
      × Written one_page 1 sevens (write_page one_page 1 sevens).1)
    ⊎ ((¬ HasPage one_page 1) × (write_page one_page 1 sevens ≡ (err invalid_argument, one_page)))
write_page_lem_example = write_page_lem one_page 1 sevens one_page-IsValid

open_file-close_example :
    IsValid (reopened one_page one_page-IsValid (omega (arith, one_page_count)))
    × ((reopened one_page one_page-IsValid (omega (arith, one_page_count))).page_count
        ≡ one_page.page_count)
    × ((jd i : ℕ)
        → 1 ≤ jd
        → i < page_size
        → content (reopened one_page one_page-IsValid (omega (arith, one_page_count))) jd i
          ≡ content one_page jd i)
open_file-close_example = open_file-close one_page one_page-IsValid (omega (arith, one_page_count))

-- ===== src/Storage/PageFile.antt =====
-- storage/page_manager.hpp and page_manager.cpp: the data file, page by page. A page id is its
-- 32-bit pattern. `file_` is its bytes, its size and whether the stream is good: a stream that has
-- failed ignores seeks, reads and writes until it is cleared. The mutex is left out.
pub mod Contents
pub mod Reopen
use database_engine.Base.{
  ℕ, zero, suc, ◌+◌, ◌-◌, ◌*◌, ◌/◌, ◌%◌, ◌^◌, ◌≤◌, ◌<◌, ◌≡◌, refl, sym, ap, ◌∙◌, fun_ext, subst,
  ◌≢◌, ◌↔◌, ◌⊎◌, inl, inr, Bool, true, false, not, ◌&&◌, ◌||◌, Option, none, some, List, [], ◌∷◌,
  ◌++◌, map, append_assoc, append-nil, arith, ltb, leb, ◌==◌, if◌then◌else◌, ltb→lt, lt→ltb, le→ltb,
  leb→le, ==_iff, Bool-cases, Option-cases, lt-or-le, length, get_elem?, set, get_or, take, drop,
  replicate, All, length-append, length-replicate, take_append, drop_append, length-take,
  length-drop, length-set, get_elem?-set_self, get_elem?-set_ne,
}
use database_engine.Util.Status.{Result, ok, err, invalid_argument, io_error, Status}
use database_engine.Util.Bytes.{Memory, write_fixed, read_fixed}
use database_engine.Storage.Page.{Page, blank, page_size, header_page_id, first_data_page_id}

pub record PageManager : Type 0 where
  pub file : Memory
  pub file_size : ℕ
  pub good : Bool
  pub next_page_id : ℕ
  pub page_count : ℕ

abbrev pub encode_header_page : ℕ → ℕ → Page
encode_header_page next count = write_fixed 4 (write_fixed 4 blank 0 next) 4 (count % 2 ^ 32)

-- The next page id and the page count.
abbrev pub decode_header_page : Page → ℕ × ℕ
decode_header_page p = (read_fixed 4 p 0, read_fixed 4 p 4)

abbrev pub offset_of : ℕ → ℕ
offset_of id = id * page_size

-- `file_.seekp(at)` and `file_.write` of a page.
unfoldable pub write_at : PageManager → ℕ → Page → PageManager
write_at m at p = if not m.good then m else record m {
  file = λ i. if leb at i && ltb i (at + page_size) then p (i - at) else m.file i;
  file_size = if ltb m.file_size (at + page_size) then at + page_size else m.file_size;
}

-- `file_.seekg(at)` and `file_.read` into `out`: bytes past the end of the file are not stored.
unfoldable pub read_at : PageManager → ℕ → Page → Page
read_at m at out i =
    if m.good && (ltb i page_size && ltb (at + i) m.file_size) then m.file (at + i) else out i

unfoldable pub write_file_header : PageManager → PageManager
write_file_header m =
    write_at m (offset_of header_page_id) (encode_header_page m.next_page_id m.page_count)

unfoldable pub read_file_header : PageManager → PageManager
read_file_header m =
    let header = decode_header_page (read_at m (offset_of header_page_id) blank) in
    record m {
      next_page_id = header.0;
      page_count = header.1;
      good = m.good && leb page_size m.file_size;
    }

-- The constructor, where the file is missing.
unfoldable pub create : PageManager
create = write_file_header (record {
  file = λ i. 0;
  file_size = 0;
  good = true;
  next_page_id = first_data_page_id;
  page_count = 1;
})

-- The constructor, on an existing file of these bytes.
unfoldable pub open_file : Memory → ℕ → PageManager
open_file file size = read_file_header (record {
  file = file;
  file_size = size;
  good = true;
  next_page_id = first_data_page_id;
  page_count = 0;
})

-- The destructor: what is left is the file.
unfoldable pub close : PageManager → PageManager
close m = write_file_header m

-- `AllocatePage` counts the page, writes it blank and writes the header.
abbrev pub counted : PageManager → PageManager
counted m = record m { next_page_id = (m.next_page_id + 1) % 2 ^ 32; page_count = m.page_count + 1 }

unfoldable pub extended : PageManager → PageManager
extended m = write_file_header (write_at (counted m) (offset_of m.next_page_id) blank)

unfoldable pub allocate_page : PageManager → Result ℕ × PageManager
allocate_page m = if not m.good then (err io_error, counted m) else (ok m.next_page_id, extended m)

-- `page_id < 0 || page_id >= page_count_`.
abbrev pub out_of_range : PageManager → ℕ → Bool
out_of_range m id = leb (2 ^ 31) id || leb m.page_count id

-- `ReadPage`, with the page that is left in `out`. At the end of the file the stream is cleared.
unfoldable pub read_page : PageManager → ℕ → Page → Status × Page
read_page m id out =
    if out_of_range m id
    then (err invalid_argument, out)
    else if not m.good
    then (err io_error, out)
    else (ok tt, read_at m (offset_of id) out)

unfoldable pub write_page : PageManager → ℕ → Page → Status × PageManager
write_page m id p =
    if out_of_range m id
    then (err invalid_argument, m)
    else if not m.good
    then (err io_error, m)
    else (ok tt, write_at m (offset_of id) p)

-- ===== src/Storage/PageFile/Reopen.antt =====
-- Closing the data file of storage/page_manager.cpp and opening it again.
use database_engine.Base.{ℕ, ◌%◌, ◌^◌, ◌≤◌, ◌<◌, ◌≡◌, refl, ap, ◌∙◌, inl, true, arith}
use database_engine.Util.Bytes.{
  Memory, write_fixed, read_fixed, read_fixed-write_fixed, read_fixed-write_fixed-Apart,
  read_fixed-cong,
}
use database_engine.Storage.Page.{blank, page_size, header_page_id}
use database_engine.Storage.PageFile.{
  PageManager, read_at, write_file_header, read_file_header, open_file, close, offset_of,
  encode_header_page,
}
use database_engine.Storage.PageFile.Contents.{content, content-write_at, write_at_facts, IsValid}

decode-encode_header_page :
    (next count : ℕ)
    → next < 2 ^ 32
    → count < 2 ^ 32
    → (read_fixed 4 (encode_header_page next count) 0 ≡ next)
      × (read_fixed 4 (encode_header_page next count) 4 ≡ count)
decode-encode_header_page next count n c = (
  read_fixed-write_fixed-Apart 4 4 (write_fixed 4 blank 0 next) 0 4 (count % 2 ^ 32)
        (inl (omega arith))
      ∙ read_fixed-write_fixed 4 blank 0 next n,
  read_fixed-write_fixed 4 (write_fixed 4 blank 0 next) 4 (count % 2 ^ 32) (omega arith)
      ∙ omega arith,
)

-- What `read_file_header` finds of the header page that `write_file_header` left.
header_read_back :
    (m n : PageManager) (i : ℕ)
    → m.good ≡ true
    → n.good ≡ true
    → n.file ≡ (close m).file
    → n.file_size ≡ (close m).file_size
    → i < page_size
    → read_at n (offset_of header_page_id) blank i
      ≡ encode_header_page m.next_page_id m.page_count i
unfolding close write_file_header read_at
header_read_back m n i g h f s lt =
    let head = encode_header_page m.next_page_id m.page_count in
    let (wg, wc, wn, ws, we) = write_at_facts m (offset_of header_page_id) head g in
    ground (
      arith,
      content-write_at m header_page_id header_page_id head i g lt,
      ap (λ (t : Memory). t i) f,
    )

module _ (m : PageManager) (v : IsValid m) (room : m.page_count < 2 ^ 31) where
  abbrev pub reopened : PageManager
  reopened = open_file (close m).file (close m).file_size

  header_again : (reopened.next_page_id ≡ m.next_page_id) × (reopened.page_count ≡ m.page_count)
  unfolding open_file read_file_header
  header_again =
      let n : PageManager = record {
        file = (close m).file;
        file_size = (close m).file_size;
        good = true;
        next_page_id = 1;
        page_count = 0;
      } in
      let (next, count) =
        decode-encode_header_page m.next_page_id m.page_count (omega (arith, v.counted))
          (omega arith) in
      let same : (i : ℕ)
          → i < page_size
          → read_at n (offset_of header_page_id) blank i
            ≡ encode_header_page m.next_page_id m.page_count i =
        λ i. header_read_back m n i v.stream refl refl refl in
      (
        read_fixed-cong 4 _ (encode_header_page m.next_page_id m.page_count) 0
              (λ i p q. same i (omega arith))
            ∙ next,
        read_fixed-cong 4 _ (encode_header_page m.next_page_id m.page_count) 4
              (λ i p q. same i (omega arith))
            ∙ count,
      )

  -- A data file that is closed and opened again has the same data pages and goes on to give out the
  -- same ids. There are fewer than 2 ^ 31 pages.
  pub open_file-close :
      IsValid reopened
      × (reopened.page_count ≡ m.page_count)
      × ((jd i : ℕ) → 1 ≤ jd → i < page_size → content reopened jd i ≡ content m jd i)
  unfolding open_file read_file_header close write_file_header
  open_file-close =
      let (next, count) = header_again in
      let head = encode_header_page m.next_page_id m.page_count in
      let (wg, wc, wn, ws, we) = write_at_facts m (offset_of header_page_id) head v.stream in
      (
        record {
          counted = omega (arith, next, count, v.counted);
          header = omega (arith, count, v.header);
          in_file = omega (arith, count, v.in_file);
          stream = ground (arith, we);
        },
        count,
        λ jd i one lt. ground (arith, content-write_at m header_page_id jd head i v.stream lt),
      )

-- ===== src/Storage/PageFile/Contents.antt =====
-- What the pages of storage/page_manager.cpp hold after each operation.
use database_engine.Base.{
  ℕ, ◌+◌, ◌-◌, ◌*◌, ◌^◌, ◌≤◌, ◌<◌, ◌≡◌, refl, sym, ap, ◌∙◌, ◌⊎◌, inl, inr, true, false, arith, ◌==◌,
  if◌then◌else◌, ==_iff, Bool-cases,
}
use database_engine.Util.Status.{ok, err, invalid_argument}
use database_engine.Storage.Page.{Page, blank, page_size, header_page_id}
use database_engine.Storage.PageFile.{
  PageManager, write_at, read_at, write_file_header, create, allocate_page, counted, extended,
  read_page, write_page, offset_of, out_of_range, encode_header_page,
}

-- The bytes of a page in the file.
abbrev pub content : PageManager → ℕ → Page
content m id i = m.file (offset_of id + i)

-- Ids are given out in order, every page that was given out lies in the file, and the stream is good.
pub record IsValid (m : PageManager) : Type 0 where
  pub counted : m.page_count ≡ m.next_page_id
  pub header : 1 ≤ m.page_count
  pub in_file : m.page_count * page_size ≤ m.file_size
  pub stream : m.good ≡ true

pub content-write_at :
    (m : PageManager) (id jd : ℕ) (p : Page) (i : ℕ)
    → m.good ≡ true
    → i < page_size
    → content (write_at m (offset_of id) p) jd i ≡ (if id == jd then p i else content m jd i)
unfolding write_at
content-write_at m id jd p i g lt = elim (Bool-cases (id == jd)) [
  | inl same ↦
      let e : id ≡ jd = (==_iff id jd).0 same in
      let back : (jd * 4096 + i) - id * 4096 ≡ i = omega arith in ground (arith, ap p back)
  | inr differ ↦ ground arith
]

pub create-IsValid : IsValid create
unfolding create write_file_header write_at
create-IsValid = record {
  counted = refl;
  header = omega arith;
  in_file = omega arith;
  stream = refl;
}

-- What `write_at` does on a good stream beside the bytes.
pub write_at_facts :
    (m : PageManager) (at : ℕ) (p : Page)
    → m.good ≡ true
    → let n = write_at m at p in
      (n.good ≡ true)
      × (n.page_count ≡ m.page_count)
      × (n.next_page_id ≡ m.next_page_id)
      × (m.file_size ≤ n.file_size)
      × (at + page_size ≤ n.file_size)
unfolding write_at
write_at_facts m at p g = ground arith

allocate_page-good :
    (m : PageManager) → m.good ≡ true → allocate_page m ≡ (ok m.next_page_id, extended m)
unfolding allocate_page
allocate_page-good m g = ground arith

module _ (m : PageManager) (v : IsValid m) (room : m.page_count < 2 ^ 31) where
  -- A new page gets the id that is the count of pages so far; it reads as zeros, and every other
  -- data page is as it was. There are fewer than 2 ^ 31 pages.
  pub allocate_page_lem :
      ((allocate_page m).0 ≡ ok m.page_count)
      × IsValid (allocate_page m).1
      × ((allocate_page m).1.page_count ≡ m.page_count + 1)
      × ((jd i : ℕ)
          → 1 ≤ jd
          → i < page_size
          → content (allocate_page m).1 jd i ≡ (if m.page_count == jd then 0 else content m jd i))
  unfolding extended write_file_header blank
  allocate_page_lem =
      let c = counted m in
      let w = write_at c (offset_of m.next_page_id) blank in
      let head = encode_header_page w.next_page_id w.page_count in
      let (wg, wc, wn, ws, we) = write_at_facts c (offset_of m.next_page_id) blank v.stream in
      let (hg, hc, hn, hs, he) = write_at_facts w (offset_of header_page_id) head wg in
      rw (allocate_page-good m v.stream) (
        ap ok (sym v.counted),
        record {
          counted = omega (arith, v.counted);
          header = omega arith;
          in_file = omega (arith, v.counted, v.in_file);
          stream = hg;
        },
        omega arith,
        λ jd i one lt.
            content-write_at w header_page_id jd head i wg lt
            ∙ ground (arith, content-write_at c m.next_page_id jd blank i v.stream lt, v.counted),
      )

-- `write_page` took the page: it is there, and nothing else changed.
pub record Written (m : PageManager) (id : ℕ) (p : Page) (n : PageManager) : Type 0 where
  pub valid : IsValid n
  pub same_count : n.page_count ≡ m.page_count
  pub holds :
      (jd i : ℕ) → i < page_size → content n jd i ≡ (if id == jd then p i else content m jd i)

write_page-good :
    (m : PageManager) (id : ℕ) (p : Page)
    → m.good ≡ true
    → out_of_range m id ≡ false
    → write_page m id p ≡ (ok tt, write_at m (offset_of id) p)
unfolding write_page
write_page-good m id p g inside = ground arith

module _ (m : PageManager) (v : IsValid m) (id : ℕ) (p : Page) where
  -- The branches of `write_page` by its own test.
  pub write_page-out_of_range :
      ((out_of_range m id ≡ false)
        × ((write_page m id p).0 ≡ ok tt)
        × Written m id p (write_page m id p).1)
      ⊎ ((out_of_range m id ≡ true) × (write_page m id p ≡ (err invalid_argument, m)))
  unfolding write_page
  write_page-out_of_range = elim (Bool-cases (out_of_range m id)) [
    | inl out ↦ inr (out, rw out)
    | inr inside ↦
        let (wg, wc, wn, ws, we) = write_at_facts m (offset_of id) p v.stream in
        let taken = write_page-good m id p v.stream inside in
        inl (
          inside,
          ap (λ r. r.0) taken,
          rw taken (record {
            valid = record {
              counted = omega (arith, v.counted);
              header = omega (arith, v.header);
              in_file = omega (arith, v.in_file);
              stream = wg;
            };
            same_count = wc;
            holds = λ jd i lt. content-write_at m id jd p i v.stream lt;
          }),
        )
  ]

module _ (m : PageManager) (v : IsValid m) (id : ℕ) (out : Page) where
  -- A page that has been given out is read whole; other ids are refused and leave `out`.
  pub read_page_lem :
      ((out_of_range m id ≡ false)
        × ((read_page m id out).0 ≡ ok tt)
        × ((i : ℕ) → i < page_size → (read_page m id out).1 i ≡ content m id i))
      ⊎ ((out_of_range m id ≡ true) × (read_page m id out ≡ (err invalid_argument, out)))
  unfolding read_page read_at
  read_page_lem = elim (Bool-cases (out_of_range m id)) [
    | inl refused ↦ inr (refused, rw refused)
    | inr inside ↦
        inl (inside, ground (arith, v.stream), λ i lt. ground (arith, v.stream, v.in_file))
  ]

-- Page `id` is one of those that are counted: page 0, which is the file header, or one that has been given
-- out. An id of 2 ^ 31 or more is a negative number.
abbrev pub HasPage : PageManager → ℕ → Type 0
HasPage m id = (id < 2 ^ 31) × (id < m.page_count)

-- A page is written exactly if its id is not negative and below the number of pages, page 0 included, and
-- then that page alone changes. Other ids are refused and change nothing.
pub write_page_lem :
    (m : PageManager) (id : ℕ) (p : Page)
    → IsValid m
    → (HasPage m id × ((write_page m id p).0 ≡ ok tt) × Written m id p (write_page m id p).1)
      ⊎ ((¬ HasPage m id) × (write_page m id p ≡ (err invalid_argument, m)))
write_page_lem m id p v = elim (write_page-out_of_range m v id p) [
  | inl (inside, done, written) ↦ inl ((ground arith, ground arith), done, written)
  | inr (out, refused) ↦ inr (λ here. ground arith, refused)
]

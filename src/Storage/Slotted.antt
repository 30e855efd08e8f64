-- ===== src/Storage/Slotted.antt =====
-- storage/slotted_page.hpp: a page of records. The header takes twelve bytes, the slot directory
-- grows up behind it, and the records grow down from the end of the page.
pub mod Layout
pub mod Invariant
pub mod Preserve
pub mod Reads
pub mod History
use database_engine.Base.{
  ℕ, zero, suc, ◌+◌, ◌-◌, ◌*◌, ◌%◌, ◌^◌, Bool, true, false, Option, none, some, List, ltb, leb,
  ◌==◌, if◌then◌else◌, length,
}
use database_engine.Util.Bytes.{write_fixed, read_fixed, write_bytes, read_bytes}
use database_engine.Storage.Page.{Page, page_size}

pub record PageHeader : Type 0 where
  pub page_id : ℕ
  pub next_page_id : ℕ
  pub slot_count : ℕ
  pub free_space_offset : ℕ

-- A slot of length 0 is a tombstone.
pub record Slot : Type 0 where
  pub offset : ℕ
  pub length : ℕ

abbrev pub header_size : ℕ
header_size = 4 * 2 + 2 * 2

abbrev pub slot_size : ℕ
slot_size = 2 * 2

unfoldable pub read_header : Page → PageHeader
read_header p = record {
  page_id = read_fixed 4 p 0;
  next_page_id = read_fixed 4 p 4;
  slot_count = read_fixed 2 p 8;
  free_space_offset = read_fixed 2 p 10;
}

unfoldable pub write_header : Page → PageHeader → Page
write_header p h =
    write_fixed 2
      (write_fixed 2 (write_fixed 4 (write_fixed 4 p 0 h.page_id) 4 h.next_page_id) 8 h.slot_count)
      10 h.free_space_offset

unfoldable pub read_slot : Page → ℕ → Slot
read_slot p i = record {
  offset = read_fixed 2 p (header_size + i * slot_size);
  length = read_fixed 2 p (header_size + i * slot_size + 2);
}

unfoldable pub write_slot : Page → ℕ → Slot → Page
write_slot p i s =
    write_fixed 2 (write_fixed 2 p (header_size + i * slot_size) s.offset)
      (header_size + i * slot_size + 2) s.length

unfoldable pub init : Page → ℕ → ℕ → Page
init p page_id next_page_id = write_header p (record {
  page_id = page_id;
  next_page_id = next_page_id;
  slot_count = 0;
  free_space_offset = page_size % 2 ^ 16;
})

abbrev pub page_id : Page → ℕ
page_id p = (read_header p).page_id

abbrev pub next_page_id : Page → ℕ
next_page_id p = (read_header p).next_page_id

unfoldable pub set_next_page_id : Page → ℕ → Page
set_next_page_id p next = write_header p (record (read_header p) { next_page_id = next })

abbrev pub slot_count : Page → ℕ
slot_count p = (read_header p).slot_count

abbrev pub directory_end : PageHeader → ℕ
directory_end h = header_size + h.slot_count * slot_size

unfoldable pub free_space : Page → ℕ
free_space p =
    let h = read_header p in
    if ltb h.free_space_offset (directory_end h) then 0 else h.free_space_offset - directory_end h

-- The search for a tombstone: slot `i` is looked at next, and `rounds` slots are left.
unfoldable pub find_tombstone : Page → ℕ → ℕ → Option ℕ
find_tombstone p i zero = none
find_tombstone p i (suc rounds) =
    let rest = find_tombstone p (i + 1) rounds in
    if (read_slot p i).length == 0 then some i else rest

-- The directory grows by a slot unless a tombstone is reused.
abbrev pub directory_growth : Option ℕ → ℕ
directory_growth none = slot_size
directory_growth (some i) = 0

-- The slot and the header that a placed record gets.
unfoldable pub store : Page → PageHeader → Option ℕ → Slot → Option ℕ × Page
store p h (some i) s =
    (some i, write_header (write_slot p i s) (record h { free_space_offset = s.offset }))
store p h none s = (
  some h.slot_count,
  write_header (write_slot p h.slot_count s)
      (record h { slot_count = (h.slot_count + 1) % 2 ^ 16; free_space_offset = s.offset }),
)

-- What follows the search, with the slot that it found. A record that does not fit changes nothing.
unfoldable pub place : Page → PageHeader → Option ℕ → List ℕ → Option ℕ × Page
place p h reuse_slot bytes =
    let needed = directory_end h + directory_growth reuse_slot in
    let new_offset = (h.free_space_offset - length bytes) % 2 ^ 16 in
    if ltb h.free_space_offset needed
    then (none, p)
    else if ltb (h.free_space_offset - needed) (length bytes)
    then (none, p)
    else store (write_bytes p new_offset bytes) h reuse_slot
        (record { offset = new_offset; length = length bytes })

-- `InsertRecord`. The record is `bytes`, and its `uint16_t` length is below 2 ^ 16.
unfoldable pub insert_record : Page → List ℕ → Option ℕ × Page
insert_record p bytes = let h = read_header p in place p h (find_tombstone p 0 h.slot_count) bytes

-- `GetRecord`, with the bytes that the pointer and the length stand for.
unfoldable pub get_record : Page → ℕ → Option (List ℕ)
get_record p i =
    if leb (slot_count p) i
    then none
    else (let s = read_slot p i in
        if s.length == 0 then none else some (read_bytes s.length p s.offset))

unfoldable pub delete_record : Page → ℕ → Bool × Page
delete_record p i =
    if leb (slot_count p) i
    then (false, p)
    else (let s = read_slot p i in
        if s.length == 0 then (false, p) else (true, write_slot p i (record s { length = 0 })))

unfoldable pub update_record_in_place : Page → ℕ → List ℕ → Bool × Page
update_record_in_place p i bytes =
    if leb (slot_count p) i
    then (false, p)
    else (let s = read_slot p i in
        if s.length == 0 then (false, p) else if ltb s.length (length bytes) then (false, p) else (
          true,
          write_slot (write_bytes p s.offset bytes) i (record s { length = length bytes }),
        ))

unfoldable pub is_tombstoned : Page → ℕ → Bool
is_tombstoned p i = if leb (slot_count p) i then true else (read_slot p i).length == 0

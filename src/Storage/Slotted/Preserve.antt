-- ===== src/Storage/Slotted/Preserve.antt =====
-- Every operation of storage/slotted_page.hpp keeps a page well formed.
use database_engine.Base.{
  ℕ, ◌^◌, ◌≤◌, ◌<◌, ◌≡◌, ap, ◌∙◌, ◌≢◌, inr, true, List, [], arith, lt-or-le, length,
}
use database_engine.Util.Bytes.{
  Apart, write_bytes, read_bytes, read_bytes-write_bytes, read_bytes-write_bytes-Apart,
}
use database_engine.Storage.Page.{Page, page_size}
use database_engine.Storage.Slotted.{
  PageHeader, Slot, read_header, read_slot, write_slot, slot_count, directory_end, init,
  set_next_page_id, delete_record, update_record_in_place,
}
use database_engine.Storage.Slotted.Layout.{
  read_header-write_header, read_slot-write_header, read_slot-write_slot_self,
  read_slot-write_slot_ne, read_header-write_slot, read_bytes-write_slot, read_header-write_bytes,
  read_slot-write_bytes,
}
use database_engine.Storage.Slotted.Invariant.{IsValid, Placed}

-- A fresh page is well formed.
pub init-IsValid : (p : Page) (id next : ℕ) → id < 2 ^ 32 → next < 2 ^ 32 → IsValid (init p id next)
unfolding init
init-IsValid p id next a b =
    let h : PageHeader = record {
      page_id = id;
      next_page_id = next;
      slot_count = 0;
      free_space_offset = page_size;
    } in
    let head = read_header-write_header p h (omega arith) in
    record {
      header = rw head (omega arith);
      room = rw head (omega arith);
      within = rw head (omega arith);
      live = λ i lt. absurd (omega (arith, ap (λ (k : PageHeader). k.slot_count) head));
      apart = λ i j lt. absurd (omega (arith, ap (λ (k : PageHeader). k.slot_count) head));
    }

-- The next pointer does not matter.
pub set_next_page_id-IsValid :
    (p : Page) (next : ℕ) → next < 2 ^ 32 → IsValid p → IsValid (set_next_page_id p next)
unfolding set_next_page_id
set_next_page_id-IsValid p next a v =
    let h : PageHeader = record (read_header p) { next_page_id = next } in
    let head = read_header-write_header p h (omega arith) in
    record {
      header = rw head (omega arith);
      room = rw head v.room;
      within = rw head v.within;
      live = λ i. rw (slot_count, head, read_slot-write_header p h i) (v.live i);
      apart = λ i j.
          rw (slot_count, head, read_slot-write_header p h i, read_slot-write_header p h j)
            (v.apart i j);
    }

-- So the next pointer and the slots are as they were, and the record at `i` is overwritten by one that
-- is no longer.
pub record Resized (p q : Page) (i : ℕ) (bytes : List ℕ) : Type 0 where
  pub header : read_header q ≡ read_header p
  pub held : (i < slot_count p) × ((read_slot p i).length ≢ 0)
  pub shorter : length bytes ≤ (read_slot p i).length
  pub slot : read_slot q i ≡ record (read_slot p i) { length = length bytes }
  pub others : (j : ℕ) → j < slot_count p → j ≢ i → read_slot q j ≡ read_slot p j
  pub payload : read_bytes (length bytes) q (read_slot p i).offset ≡ bytes
  pub kept :
      (n at : ℕ)
      → directory_end (read_header p) ≤ at
      → Apart at n (read_slot p i).offset (length bytes)
      → read_bytes n q at ≡ read_bytes n p at

written-Resized :
    (p : Page) (i : ℕ) (bytes : List ℕ)
    → IsValid p
    → i < slot_count p
    → (read_slot p i).length ≢ 0
    → length bytes ≤ (read_slot p i).length
    → Resized p
        (write_slot
          (write_bytes p (read_slot p i).offset bytes)
          i
          (record (read_slot p i) { length = length bytes }))
        i
        bytes
written-Resized p i bytes v lt ne le =
    let off = (read_slot p i).offset in
    let s : Slot = record (read_slot p i) { length = length bytes } in
    let p₁ = write_bytes p off bytes in
    let (above, inside) = v.live i lt ne in
    let room = v.room in
    record {
      header = read_header-write_slot p₁ i s ∙ read_header-write_bytes p off bytes (omega arith);
      held = (lt, ne);
      shorter = le;
      slot = read_slot-write_slot_self p₁ i s (omega arith) (omega arith);
      others = λ j k d.
          read_slot-write_slot_ne p₁ i s j d ∙ read_slot-write_bytes p off bytes j (omega arith);
      payload =
          read_bytes-write_slot p₁ i s (length bytes) off (inr (omega arith))
          ∙ read_bytes-write_bytes p off bytes;
      kept = λ n at k a.
          read_bytes-write_slot p₁ i s n at (inr (omega arith))
          ∙ read_bytes-write_bytes-Apart n p at off bytes a;
    }

pub delete_record-Resized :
    (p q : Page) (i : ℕ) → IsValid p → delete_record p i ≡ (true, q) → Resized p q i []
unfolding delete_record write_bytes
delete_record-Resized p q i v e = ground (arith, written-Resized p i [] v)

pub update_record_in_place-Resized :
    (p q : Page) (i : ℕ) (bytes : List ℕ)
    → IsValid p
    → update_record_in_place p i bytes ≡ (true, q)
    → Resized p q i bytes
unfolding update_record_in_place
update_record_in_place-Resized p q i bytes v e = ground (arith, written-Resized p i bytes v)

pub Resized-IsValid :
    (p q : Page) (i : ℕ) (bytes : List ℕ) → IsValid p → Resized p q i bytes → IsValid q
Resized-IsValid p q i bytes v d = record {
  header = rw d.header v.header;
  room = rw d.header v.room;
  within = rw d.header v.within;
  live = λ j lt ne. grind (arith, d.header, d.slot, d.others j, d.shorter, d.held, v.live j);
  apart = λ j k ltj ltk ne nj nk. grind (
    arith,
    d.header,
    d.slot,
    d.others j,
    d.others k,
    d.shorter,
    d.held,
    v.live j,
    v.live k,
    v.apart j k,
  );
}

pub Placed-IsValid :
    (p q : Page) (i : ℕ) (bytes : List ℕ) → IsValid p → Placed p q i bytes → IsValid q
Placed-IsValid p q i bytes v d = record {
  header = d.header;
  room = d.room;
  within = omega (arith, v.within, d.taken);
  live = λ j lt ne. grind (arith, d.others j, v.live j, lt-or-le i (slot_count p));
  apart = λ j k ltj ltk ne nj nk.
      grind
        (arith, d.others j, d.others k, v.live j, v.live k, v.apart j k, lt-or-le i (slot_count p));
}

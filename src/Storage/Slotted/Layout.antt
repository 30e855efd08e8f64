-- ===== src/Storage/Slotted/Layout.antt =====
-- Which writes of storage/slotted_page.hpp each read sees.
use database_engine.Base.{ℕ, ◌+◌, ◌*◌, ◌^◌, ◌≤◌, ◌<◌, ◌≡◌, ◌≢◌, List, arith}
use database_engine.Util.Bytes.{
  Apart, write_bytes, read_bytes, read_fixed-write_fixed, read_fixed-write_fixed-Apart,
  read_bytes-write_fixed-Apart, read_fixed-write_bytes-Apart,
}
use database_engine.Storage.Page.{Page}
use database_engine.Storage.Slotted.{
  PageHeader, Slot, read_header, write_header, read_slot, write_slot, header_size, slot_size,
}

-- The fields fit the widths at which they are stored.
pub record HeaderFits (h : PageHeader) : Type 0 where
  pub page_id : h.page_id < 2 ^ 32
  pub next_page_id : h.next_page_id < 2 ^ 32
  pub slot_count : h.slot_count < 2 ^ 16
  pub free_space_offset : h.free_space_offset < 2 ^ 16

module _ (p : Page) (h : PageHeader) where
  pub read_header-write_header : HeaderFits h → read_header (write_header p h) ≡ h
  unfolding read_header write_header
  read_header-write_header f = grind (arith, read_fixed-write_fixed, read_fixed-write_fixed-Apart)

  pub read_slot-write_header : (i : ℕ) → read_slot (write_header p h) i ≡ read_slot p i
  unfolding read_slot write_header
  read_slot-write_header i = grind (arith, read_fixed-write_fixed-Apart)

  pub read_bytes-write_header :
      (n at : ℕ) → header_size ≤ at → read_bytes n (write_header p h) at ≡ read_bytes n p at
  unfolding write_header
  read_bytes-write_header n at l = grind (arith, read_bytes-write_fixed-Apart)

module _ (p : Page) (j : ℕ) (s : Slot) where
  pub read_slot-write_slot_self :
      s.offset < 2 ^ 16 → s.length < 2 ^ 16 → read_slot (write_slot p j s) j ≡ s
  unfolding read_slot write_slot
  read_slot-write_slot_self o l =
      grind (arith, read_fixed-write_fixed, read_fixed-write_fixed-Apart)

  pub read_slot-write_slot_ne : (i : ℕ) → i ≢ j → read_slot (write_slot p j s) i ≡ read_slot p i
  unfolding read_slot write_slot
  read_slot-write_slot_ne i ne = grind (arith, read_fixed-write_fixed-Apart)

  pub read_header-write_slot : read_header (write_slot p j s) ≡ read_header p
  unfolding read_header write_slot
  read_header-write_slot = grind (arith, read_fixed-write_fixed-Apart)

  pub read_bytes-write_slot :
      (n at : ℕ)
      → Apart at n (header_size + j * slot_size) slot_size
      → read_bytes n (write_slot p j s) at ≡ read_bytes n p at
  unfolding write_slot
  read_bytes-write_slot n at h = grind (arith, read_bytes-write_fixed-Apart)

module _ (p : Page) (at : ℕ) (bytes : List ℕ) where
  pub read_header-write_bytes :
      header_size ≤ at → read_header (write_bytes p at bytes) ≡ read_header p
  unfolding read_header
  read_header-write_bytes h = grind (arith, read_fixed-write_bytes-Apart)

  pub read_slot-write_bytes :
      (i : ℕ)
      → header_size + i * slot_size + slot_size ≤ at
      → read_slot (write_bytes p at bytes) i ≡ read_slot p i
  unfolding read_slot
  read_slot-write_bytes i h = grind (arith, read_fixed-write_bytes-Apart)

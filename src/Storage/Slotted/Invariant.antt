-- ===== src/Storage/Slotted/Invariant.antt =====
-- The well-formedness of a slotted page, and what a placed record changes.
use database_engine.Base.{
  ℕ, zero, suc, ◌+◌, ◌-◌, ◌*◌, ◌^◌, ◌≤◌, ◌<◌, ◌≡◌, refl, ◌∙◌, ◌≢◌, inl, inr, none, some, List,
  arith, Option-cases, length,
}
use database_engine.Util.Bytes.{
  Apart, write_bytes, read_bytes, read_bytes-write_bytes, read_bytes-write_bytes-Apart,
}
use database_engine.Storage.Page.{Page, page_size}
use database_engine.Storage.Slotted.{
  PageHeader, read_header, write_header, read_slot, write_slot, header_size, slot_size, slot_count,
  directory_end, find_tombstone, store, place, insert_record,
}
use database_engine.Storage.Slotted.Layout.{
  HeaderFits, read_header-write_header, read_slot-write_header, read_bytes-write_header,
  read_slot-write_slot_self, read_slot-write_slot_ne, read_bytes-write_slot, read_slot-write_bytes,
}

-- The directory ends before the free space does, every live record lies in the page behind the free
-- space, and no two of them overlap.
pub record IsValid (p : Page) : Type 0 where
  pub header : HeaderFits (read_header p)
  pub room : directory_end (read_header p) ≤ (read_header p).free_space_offset
  pub within : (read_header p).free_space_offset ≤ page_size
  pub live :
      (i : ℕ)
      → i < slot_count p
      → (read_slot p i).length ≢ 0
      → ((read_header p).free_space_offset ≤ (read_slot p i).offset)
        × ((read_slot p i).offset + (read_slot p i).length ≤ page_size)
  pub apart :
      (i j : ℕ)
      → i < slot_count p
      → j < slot_count p
      → i ≢ j
      → (read_slot p i).length ≢ 0
      → (read_slot p j).length ≢ 0
      → Apart
          (read_slot p i).offset
          (read_slot p i).length
          (read_slot p j).offset
          (read_slot p j).length

pub find_tombstone-some :
    (p : Page) (i rounds j : ℕ)
    → find_tombstone p i rounds ≡ some j
    → (j < i + rounds) × ((read_slot p j).length ≡ 0)
unfolding find_tombstone
find_tombstone-some p i zero j e = cc
find_tombstone-some p i (suc rounds) j e = ground (arith, find_tombstone-some p (i + 1) rounds j)

-- The three writes that place the record `bytes` at offset `off` into slot `i`.
abbrev written : Page → PageHeader → ℕ → ℕ → List ℕ → Page
written p h i off bytes =
    write_header
      (write_slot (write_bytes p off bytes) i (record { offset = off; length = length bytes })) h

module _ (p : Page) (h : PageHeader) (i off : ℕ) (bytes : List ℕ)
    (room : header_size + i * slot_size + slot_size ≤ off) where
  read_slot-written_self :
      off < 2 ^ 16
      → length bytes < 2 ^ 16
      → read_slot (written p h i off bytes) i ≡ record { offset = off; length = length bytes }
  read_slot-written_self a b = rw read_slot-write_header (read_slot-write_slot_self _ i _ a b)

  read_slot-written_ne :
      (j : ℕ)
      → j ≢ i
      → header_size + j * slot_size + slot_size ≤ off
      → read_slot (written p h i off bytes) j ≡ read_slot p j
  read_slot-written_ne j ne r =
      rw read_slot-write_header
        (read_slot-write_slot_ne _ i _ j ne ∙ read_slot-write_bytes p off bytes j r)

  read_bytes-written :
      (n at : ℕ)
      → off + length bytes ≤ at
      → read_bytes n (written p h i off bytes) at ≡ read_bytes n p at
  read_bytes-written n at r =
      read_bytes-write_header _ h n at (omega arith)
      ∙ read_bytes-write_slot _ i _ n at (inr (omega arith))
      ∙ read_bytes-write_bytes-Apart n p at off bytes (inr r)

  read_bytes-written_self : read_bytes (length bytes) (written p h i off bytes) off ≡ bytes
  read_bytes-written_self =
      read_bytes-write_header _ h (length bytes) off (omega arith)
      ∙ read_bytes-write_slot _ i _ (length bytes) off (inr (omega arith))
      ∙ read_bytes-write_bytes p off bytes

-- What a successful insertion of `bytes` at slot `i` has done to the page.
pub record Placed (p q : Page) (i : ℕ) (bytes : List ℕ) : Type 0 where
  pub header : HeaderFits (read_header q)
  pub slot_length : (read_slot q i).length ≡ length bytes
  pub slot_offset : (read_slot q i).offset ≡ (read_header q).free_space_offset
  pub taken : (read_header q).free_space_offset + length bytes ≡ (read_header p).free_space_offset
  pub room : directory_end (read_header q) ≤ (read_header q).free_space_offset
  pub dead : i < slot_count p → (read_slot p i).length ≡ 0
  pub fresh : slot_count p ≤ i → (i ≡ slot_count p) × (slot_count q ≡ slot_count p + 1)
  pub reused : i < slot_count p → slot_count q ≡ slot_count p
  pub others : (j : ℕ) → j < slot_count p → j ≢ i → read_slot q j ≡ read_slot p j
  pub payload : read_bytes (length bytes) q (read_slot q i).offset ≡ bytes
  pub kept :
      (n at : ℕ) → (read_header p).free_space_offset ≤ at → read_bytes n q at ≡ read_bytes n p at

written-Placed :
    (p : Page) (i c off : ℕ) (bytes : List ℕ)
    → IsValid p
    → off + length bytes ≡ (read_header p).free_space_offset
    → header_size + c * slot_size ≤ off
    → i < c
    → slot_count p ≤ c
    → (i < slot_count p → ((read_slot p i).length ≡ 0) × (c ≡ slot_count p))
    → (slot_count p ≤ i → (i ≡ slot_count p) × (c ≡ slot_count p + 1))
    → Placed p
        (written p (record (read_header p) { slot_count = c; free_space_offset = off }) i off bytes)
        i
        bytes
written-Placed p i c off bytes v taken room lt le old new =
    let h = record (read_header p) { slot_count = c; free_space_offset = off } in
    let fits : HeaderFits h = record {
      page_id = v.header.page_id;
      next_page_id = v.header.next_page_id;
      slot_count = omega (arith, v.within);
      free_space_offset = omega (arith, v.within);
    } in
    let head =
      read_header-write_header
        (write_slot (write_bytes p off bytes) i (record { offset = off; length = length bytes })) h
        fits in
    let self =
      read_slot-written_self p h i off bytes (omega arith) (omega (arith, v.within))
        (omega (arith, v.within)) in
    record {
      header = rw head fits;
      slot_length = rw self refl;
      slot_offset = rw (self, head) refl;
      taken = rw head taken;
      room = rw head room;
      dead = λ k. (old k).0;
      fresh = λ k. ((new k).0, rw (slot_count, head) (new k).1);
      reused = λ k. rw (slot_count, head) (old k).1;
      others = λ j k ne. read_slot-written_ne p h i off bytes (omega arith) j ne (omega arith);
      payload = rw self (read_bytes-written_self p h i off bytes (omega arith));
      kept = λ n at k. read_bytes-written p h i off bytes (omega arith) n at (omega arith);
    }

-- What the code does with the slot that the search found: the record fits, and the page is written.
abbrev Fitted : Page → ℕ → ℕ → ℕ → List ℕ → Page → Type 0
Fitted p c k i bytes q =
    let off = (read_header p).free_space_offset - length bytes in
    (off + length bytes ≡ (read_header p).free_space_offset)
    × (header_size + c * slot_size ≤ off)
    × (i ≡ k)
    × (q
        ≡ written p (record (read_header p) { slot_count = c; free_space_offset = off }) i off
            bytes)

place-Fitted-none :
    (p q : Page) (i : ℕ) (bytes : List ℕ)
    → (read_header p).free_space_offset ≤ page_size
    → directory_end (read_header p) ≤ (read_header p).free_space_offset
    → place p (read_header p) none bytes ≡ (some i, q)
    → Fitted p (slot_count p + 1) (slot_count p) i bytes q
unfolding place store
place-Fitted-none p q i bytes w r e = ground arith

place-Fitted-some :
    (p q : Page) (k i : ℕ) (bytes : List ℕ)
    → (read_header p).free_space_offset ≤ page_size
    → place p (read_header p) (some k) bytes ≡ (some i, q)
    → Fitted p (slot_count p) k i bytes q
unfolding place store
place-Fitted-some p q k i bytes w e = ground arith

-- A successful insertion places the record, an unsuccessful one changes nothing.
pub insert_record-Placed :
    (p q : Page) (i : ℕ) (bytes : List ℕ)
    → IsValid p
    → insert_record p bytes ≡ (some i, q)
    → Placed p q i bytes
unfolding insert_record
insert_record-Placed p q i bytes v e = elim (Option-cases (find_tombstone p 0 (slot_count p))) [
  | inl none_left ↦
      let (taken, room, at, eq) =
        place-Fitted-none p q i bytes v.within v.room (rw none_left at e) in
      rw (eq, at)
        (written-Placed p (slot_count p) (slot_count p + 1) _ bytes v taken room (omega arith)
          (omega arith) (λ k. absurd (omega arith)) (λ k. (refl, refl)))
  | inr (k, found) ↦
      let (taken, room, at, eq) = place-Fitted-some p q k i bytes v.within (rw found at e) in
      let (lt, dead) = find_tombstone-some p 0 (slot_count p) k found in
      rw (eq, at)
        (written-Placed p k (slot_count p) _ bytes v taken room (omega arith) (omega arith)
          (λ _. (dead, refl)) (λ h. absurd (omega arith)))
]

-- ===== src/Storage/Slotted/Reads.antt =====
-- What `GetRecord` of storage/slotted_page.hpp returns after each operation: a page is a map from
-- slots to records.
use database_engine.Base.{
  ℕ, zero, suc, ◌+◌, ◌≤◌, ◌<◌, ◌≡◌, ◌≢◌, ◌↔◌, ◌⊎◌, inl, inr, true, false, Bool-cases, none, some,
  List, [], arith, ◌==◌, if◌then◌else◌, Option-cases, lt-or-le, length,
}
use database_engine.Storage.Page.{Page}
use database_engine.Storage.Slotted.{
  read_slot, slot_count, slot_size, directory_growth, free_space, find_tombstone, place, store,
  insert_record, get_record, delete_record, update_record_in_place,
}
use database_engine.Storage.Slotted.Invariant.{
  IsValid, Placed, insert_record-Placed, find_tombstone-some,
}
use database_engine.Storage.Slotted.Preserve.{
  Resized, delete_record-Resized, update_record_in_place-Resized,
}

get_record-Placed_self :
    (p q : Page) (i : ℕ) (bytes : List ℕ)
    → Placed p q i bytes
    → get_record q i ≡ (if length bytes == 0 then none else some bytes)
unfolding get_record
get_record-Placed_self p q i bytes d =
    rw d.slot_length (ground (arith, d.payload, d.fresh, d.reused, lt-or-le i (slot_count p)))

get_record-Placed_ne :
    (p q : Page) (i : ℕ) (bytes : List ℕ) (j : ℕ)
    → IsValid p
    → Placed p q i bytes
    → j ≢ i
    → get_record q j ≡ get_record p j
unfolding get_record
get_record-Placed_ne p q i bytes j v d ne = ground (
  arith,
  d.fresh,
  d.reused,
  d.others j,
  v.live j,
  d.kept (read_slot p j).length (read_slot p j).offset,
  lt-or-le i (slot_count p),
)

get_record-Placed_old :
    (p q : Page) (i : ℕ) (bytes : List ℕ) → Placed p q i bytes → get_record p i ≡ none
unfolding get_record
get_record-Placed_old p q i bytes d = ground (arith, d.dead)

get_record-Resized_self :
    (p q : Page) (i : ℕ) (bytes : List ℕ)
    → Resized p q i bytes
    → get_record q i ≡ (if length bytes == 0 then none else some bytes)
unfolding get_record
get_record-Resized_self p q i bytes d =
    rw (d.slot, slot_count, d.header) (ground (arith, d.payload, d.held))

get_record-Resized_ne :
    (p q : Page) (i : ℕ) (bytes : List ℕ) (j : ℕ)
    → IsValid p
    → Resized p q i bytes
    → j ≢ i
    → get_record q j ≡ get_record p j
unfolding get_record
get_record-Resized_ne p q i bytes j v d ne = ground (
  arith,
  d.header,
  d.held,
  d.shorter,
  d.others j,
  v.live j,
  v.room,
  v.apart j i,
  d.kept (read_slot p j).length (read_slot p j).offset,
)

-- If a record that is not empty is inserted into a well-formed page at slot `i`, then `i` held no
-- record, `get_record` now returns the record at `i`, and at every other slot what it did before.
pub get_record-insert_record :
    (p q : Page) (i : ℕ) (bytes : List ℕ)
    → IsValid p
    → 0 < length bytes
    → insert_record p bytes ≡ (some i, q)
    → (get_record p i ≡ none)
      × (get_record q i ≡ some bytes)
      × ((j : ℕ) → j ≢ i → get_record q j ≡ get_record p j)
get_record-insert_record p q i bytes v pos e =
    let d = insert_record-Placed p q i bytes v e in
    (
      get_record-Placed_old p q i bytes d,
      ground (arith, get_record-Placed_self p q i bytes d),
      λ j. get_record-Placed_ne p q i bytes j v d,
    )

-- An empty record that is inserted into a well-formed page gets a slot id, and `get_record` finds
-- nothing there.
pub get_record-insert_record_empty :
    (p q : Page) (i : ℕ) → IsValid p → insert_record p [] ≡ (some i, q) → get_record q i ≡ none
get_record-insert_record_empty p q i v e =
    get_record-Placed_self p q i [] (insert_record-Placed p q i [] v e)

-- A slot of the directory without a record, which an insertion may use again.
abbrev pub HasTombstone : Page → Type 0
HasTombstone p = (i : ℕ) × (i < slot_count p) × (get_record p i ≡ none)

find_tombstone-none :
    (p : Page) (from rounds : ℕ)
    → find_tombstone p from rounds ≡ none
    → (i : ℕ) → from ≤ i
    → i < from + rounds
    → (read_slot p i).length ≢ 0
unfolding find_tombstone
find_tombstone-none p from zero e i low high = absurd (omega arith)
find_tombstone-none p from (suc rounds) e i low high = elim (Bool-cases (from == i)) [
  | inl here ↦ ground arith
  | inr later ↦
      find_tombstone-none p (from + 1) rounds (ground arith) i (ground arith) (ground arith)
]

without_tombstone : (p : Page) → find_tombstone p 0 (slot_count p) ≡ none → ¬ HasTombstone p
unfolding get_record
without_tombstone p e (i, small, gone) =
    let there = find_tombstone-none p 0 (slot_count p) e i (omega arith) (omega arith) in
    ground arith

with_tombstone : (p : Page) (i : ℕ) → find_tombstone p 0 (slot_count p) ≡ some i → HasTombstone p
unfolding get_record
with_tombstone p i e =
    let (small, dead) = find_tombstone-some p 0 (slot_count p) i e in
    (i, omega (arith, small), ground arith)

-- What a record needs: its bytes and, if no slot can be used again, a new slot.
abbrev pub LacksRoom : Page → List ℕ → Type 0
LacksRoom p bytes =
    (HasTombstone p × (free_space p < length bytes))
    ⊎ ((¬ HasTombstone p) × (free_space p < length bytes + slot_size))

insert_record-failed :
    (p : Page) (bytes : List ℕ)
    → IsValid p
    → ((insert_record p bytes).0 ≡ none)
      ↔ (free_space p < length bytes + directory_growth (find_tombstone p 0 (slot_count p)))
unfolding insert_record place store free_space
insert_record-failed p bytes v =
    let room = v.room in
    elim (Option-cases (find_tombstone p 0 (slot_count p))) [
      | inl e ↦ rw e (λ h. ground arith, λ h. ground arith)
      | inr (k, e) ↦ rw e (λ h. ground arith, λ h. ground arith)
    ]

insert_record-unchanged :
    (p : Page) (bytes : List ℕ) → (insert_record p bytes).0 ≡ none → (insert_record p bytes).1 ≡ p
unfolding insert_record place store
insert_record-unchanged p bytes = elim (Option-cases (find_tombstone p 0 (slot_count p))) [
  | inl e ↦ rw e (λ h. ground arith)
  | inr (k, e) ↦ rw e (λ h. ground arith)
]

-- On a well-formed page, `insert_record` fails exactly when the free space is smaller than the record or,
-- if no slot of the directory is without a record, smaller than the record and a new slot; and then the
-- page is unchanged.
pub insert_record-fails :
    (p : Page) (bytes : List ℕ)
    → IsValid p
    → (((insert_record p bytes).0 ≡ none) ↔ LacksRoom p bytes)
      × ((insert_record p bytes).0 ≡ none → (insert_record p bytes).1 ≡ p)
insert_record-fails p bytes v =
    let (failed, lacks) = insert_record-failed p bytes v in
    (
      elim (Option-cases (find_tombstone p 0 (slot_count p))) [
        | inl e ↦
            let absent = without_tombstone p e in
            (
              λ h. inr (absent, rw e at (failed h)),
              λ k. elim k [
                | inl (there, small) ↦ absurd (absent there)
                | inr (gone, small) ↦ lacks (rw e small)
              ],
            )
        | inr (i, e) ↦
            let there = with_tombstone p i e in
            (
              λ h. inl (there, omega (arith, rw e at (failed h))),
              λ k. elim k [
                | inl (here, small) ↦ lacks (rw e (omega arith))
                | inr (gone, small) ↦ absurd (gone there)
              ],
            )
      ],
      insert_record-unchanged p bytes,
    )

-- `delete_record` on a well-formed page: it succeeds exactly when a record is there, and then that
-- record alone is gone; if it fails the page is unchanged.
pub get_record-delete_record :
    (p : Page) (i : ℕ)
    → IsValid p
    → let (done, q) = delete_record p i in
      ((done ≡ true) ↔ (get_record p i ≢ none))
      × (done ≡ false → q ≡ p)
      × (done ≡ true
          → (get_record q i ≡ none) × ((j : ℕ) → j ≢ i → get_record q j ≡ get_record p j))
get_record-delete_record p i v = (
  (unfold delete_record get_record in ((λ h. ground arith), (λ h. ground arith))),
  (unfold delete_record in λ h. ground arith),
  λ h.
      let d = delete_record-Resized p (delete_record p i).1 i v (ground arith) in
      (
        get_record-Resized_self p (delete_record p i).1 i [] d,
        λ j. get_record-Resized_ne p (delete_record p i).1 i [] j v d,
      ),
)

-- `update_record_in_place` on a well-formed page: it succeeds exactly when a record at least as long is
-- there. Then `get_record` returns the new record there, or nothing if the new record is empty, and at
-- every other slot what it did before. If it fails the page is unchanged.
pub get_record-update_record :
    (p : Page) (i : ℕ) (bytes : List ℕ)
    → IsValid p
    → let (done, q) = update_record_in_place p i bytes in
      ((done ≡ true) ↔ ((get_record p i ≢ none) × (length bytes ≤ (read_slot p i).length)))
      × (done ≡ false → q ≡ p)
      × (done ≡ true
          → (get_record q i ≡ (if length bytes == 0 then none else some bytes))
            × ((j : ℕ) → j ≢ i → get_record q j ≡ get_record p j))
get_record-update_record p i bytes v = (
  (unfold update_record_in_place get_record in
      ((λ h. (λ n. ground arith, ground arith)), (λ h. ground arith))),
  (unfold update_record_in_place in λ h. ground arith),
  λ h.
      let d =
        update_record_in_place-Resized p (update_record_in_place p i bytes).1 i bytes v
          (ground arith) in
      (
        get_record-Resized_self p (update_record_in_place p i bytes).1 i bytes d,
        λ j. get_record-Resized_ne p (update_record_in_place p i bytes).1 i bytes j v d,
      ),
)

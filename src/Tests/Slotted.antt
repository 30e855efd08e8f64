-- ===== src/Tests/Slotted.antt =====
-- storage/slotted_page.hpp on a page with a few records.
use database_engine.Base.{
  ℕ, ◌≤◌, ◌≡◌, refl, ap, ◌≢◌, ◌↔◌, true, false, Option, none, some, List, [], ◌∷◌, arith,
}
use database_engine.Util.Bytes.{write_fixed, read_fixed, write_bytes, read_bytes}
use database_engine.Storage.Page.{Page, blank, invalid_page_id}
use database_engine.Storage.Slotted.{
  init, set_next_page_id, insert_record, get_record, delete_record, update_record_in_place,
  find_tombstone, read_header, write_header, read_slot, write_slot, place, store,
}
use database_engine.Storage.Slotted.Invariant.{IsValid}
use database_engine.Storage.Slotted.Preserve.{init-IsValid}
use database_engine.Storage.Slotted.Reads.{
  get_record-insert_record, get_record-insert_record_empty, insert_record-fails, LacksRoom,
  get_record-delete_record, get_record-update_record,
}
use database_engine.Storage.Slotted.History.{
  Call, inserts, deletes, updates, links, step, run, run-init-IsValid,
}

abbrev fresh : Page
fresh = init blank 1 invalid_page_id

abbrev abc : List ℕ
abc = 97 ∷ 98 ∷ 99 ∷ []

abbrev one_record : Page
one_record = (insert_record fresh abc).1

abbrev calls : List Call
calls = inserts abc ∷ inserts (1 ∷ []) ∷ deletes 0 ∷ updates 1 (2 ∷ []) ∷ links 7 ∷ []

fresh-IsValid : IsValid fresh
fresh-IsValid = init-IsValid blank 1 invalid_page_id (omega arith) (omega arith)

insert_first : (insert_record fresh abc).0 ≡ some 0
unfolding insert_record place store init read_header write_header read_slot write_slot
    find_tombstone read_fixed write_fixed write_bytes
insert_first = refl

one_record-IsValid : IsValid one_record
unfolding run step
one_record-IsValid =
    run-init-IsValid blank 1 invalid_page_id (inserts abc ∷ []) (omega arith) (omega arith)
      (omega arith)

insert_empty : (insert_record fresh []).0 ≡ some 0
unfolding insert_record place store init read_header write_header read_slot write_slot
    find_tombstone read_fixed write_fixed write_bytes
insert_empty = refl

-- A deleted record's slot is reused, and the record behind it is kept.
reuse :
    (let p = run fresh calls in
      let (slot, q) = insert_record p (5 ∷ 6 ∷ []) in
      (slot ≡ some 0) × (get_record q 0 ≡ some (5 ∷ 6 ∷ [])) × (get_record q 1 ≡ some (2 ∷ [])))
unfolding run step insert_record delete_record update_record_in_place get_record set_next_page_id
    place store init read_header write_header read_slot write_slot find_tombstone read_fixed
    write_fixed write_bytes read_bytes blank
reuse = (refl, refl, refl)

get_record-insert_record_example :
    (get_record fresh 0 ≡ none)
    × (get_record one_record 0 ≡ some abc)
    × ((j : ℕ) → j ≢ 0 → get_record one_record j ≡ get_record fresh j)
get_record-insert_record_example =
    get_record-insert_record fresh one_record 0 abc fresh-IsValid (omega arith)
      (ap (λ (s : Option ℕ). (s, one_record)) insert_first)

get_record-insert_record_empty_example : get_record (insert_record fresh []).1 0 ≡ none
get_record-insert_record_empty_example =
    get_record-insert_record_empty fresh (insert_record fresh []).1 0 fresh-IsValid
      (ap (λ (s : Option ℕ). (s, (insert_record fresh []).1)) insert_empty)

insert_record-fails_example :
    (((insert_record fresh abc).0 ≡ none) ↔ LacksRoom fresh abc)
    × ((insert_record fresh abc).0 ≡ none → (insert_record fresh abc).1 ≡ fresh)
insert_record-fails_example = insert_record-fails fresh abc fresh-IsValid

get_record-delete_record_example :
    let (done, q) = delete_record one_record 0 in
    ((done ≡ true) ↔ (get_record one_record 0 ≢ none))
    × (done ≡ false → q ≡ one_record)
    × (done ≡ true
        → (get_record q 0 ≡ none) × ((j : ℕ) → j ≢ 0 → get_record q j ≡ get_record one_record j))
get_record-delete_record_example = get_record-delete_record one_record 0 one_record-IsValid

get_record-update_record_example :
    let (done, q) = update_record_in_place one_record 0 (7 ∷ []) in
    ((done ≡ true) ↔ ((get_record one_record 0 ≢ none) × (1 ≤ (read_slot one_record 0).length)))
    × (done ≡ false → q ≡ one_record)
    × (done ≡ true
        → (get_record q 0 ≡ some (7 ∷ []))
          × ((j : ℕ) → j ≢ 0 → get_record q j ≡ get_record one_record j))
get_record-update_record_example = get_record-update_record one_record 0 (7 ∷ []) one_record-IsValid

run-init-IsValid_example : IsValid (run fresh calls)
run-init-IsValid_example =
    run-init-IsValid blank 1 invalid_page_id calls (omega arith) (omega arith) (omega arith)

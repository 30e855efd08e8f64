-- ===== src/Tests/Catalog.antt =====
-- A catalog of catalog/catalog_manager.cpp on heap files with room for one record each.
use mathlib.Core.List.{Permᴰ}
use mathlib.Core.List.Permᴰ
use database_engine.Base.{
  ℕ, ◌≡◌, refl, ap, false, Option, none, some, List, [], ◌∷◌, ◌∙◌, length, arith, subst,
}
use database_engine.Util.Status.{Result, ok, err, Code, Status, out_of_space, not_found}
use database_engine.Storage.Page.{RecordId}
use database_engine.Common.Value.{int_type}
use database_engine.Common.Schema.{Schema}
use database_engine.Catalog.Codec.{encode_table_metadata, encode_index_metadata}
use database_engine.Catalog.Metadata.{TableMetadata}
use database_engine.Catalog.Directory.{Heap, find_entry, create_entry, drop_entry, load_entries}
use database_engine.Util.Bytes.{fixed_bytes}
use database_engine.Catalog.Directory.Loading.{HeapLaws}
use database_engine.Catalog.Manager.{
  CatalogManager, open_catalog, create_table, create_index, drop_index, get_table, get_index,
}
use database_engine.Catalog.Manager.Reopen.{Called}

abbrev first_slot : RecordId
first_slot = record { page_id = 1; slot_id = 0 }

abbrev insert_one : Option (List ℕ) → List ℕ → Result RecordId × Option (List ℕ)
insert_one none bytes = (ok first_slot, some bytes)
insert_one (some other) bytes = (err out_of_space, some other)

abbrev delete_one : Option (List ℕ) → RecordId → Status × Option (List ℕ)
delete_one none rid = (err not_found, none)
delete_one (some bytes) rid = (ok tt, none)

abbrev visited_one : Option (List ℕ) → List (RecordId × List ℕ)
visited_one none = []
visited_one (some bytes) = (first_slot, bytes) ∷ []

abbrev small_heap : Heap
small_heap = record {
  State = Option (List ℕ);
  insert_record = insert_one;
  delete_record = delete_one;
  visited = visited_one;
}

-- The id of a result of `insert_one` that is ok.
abbrev rid_of : Result RecordId → RecordId
rid_of (ok rid) = rid
rid_of (err code) = first_slot

length-Permᴰ {ℓ} : {A : Type ℓ} {xs ys : List A} → Permᴰ xs ys → length xs ≡ length ys
length-Permᴰ Permᴰ.nil = refl
length-Permᴰ (Permᴰ.cons e p) = omega (arith, length-Permᴰ p)
length-Permᴰ (Permᴰ.swap e f) = refl
length-Permᴰ (Permᴰ.trans p q) = length-Permᴰ p ∙ length-Permᴰ q

insert_some :
    (h : Option (List ℕ)) (bytes : List ℕ) (rid : RecordId) (after : Option (List ℕ))
    → insert_one h bytes ≡ (ok rid, after)
    → Permᴰ (visited_one after) ((rid, bytes) ∷ visited_one h)
insert_some none bytes rid after e =
    let same : first_slot ≡ rid = ap rid_of (ap (λ p. p.0) e) in
    subst (λ h. Permᴰ (visited_one h) ((rid, bytes) ∷ [])) (ap (λ p. p.1) e)
      (Permᴰ.cons (ap (λ r. (r, bytes)) same) Permᴰ.nil)
insert_some (some other) bytes rid after e = absurd (cc e)

insert_none :
    (h : Option (List ℕ)) (bytes : List ℕ) (code : Code) (after : Option (List ℕ))
    → insert_one h bytes ≡ (err code, after)
    → Permᴰ (visited_one after) (visited_one h)
insert_none none bytes code after e = absurd (cc e)
insert_none (some other) bytes code after e =
    subst (λ h. Permᴰ (visited_one h) ((first_slot, other) ∷ [])) (ap (λ p. p.1) e)
      (Permᴰ.refl ((first_slot, other) ∷ []))

delete_some :
    (h : Option (List ℕ)) (rid : RecordId) (after : Option (List ℕ)) (bytes : List ℕ)
    (others : List (RecordId × List ℕ))
    → delete_one h rid ≡ (ok tt, after)
    → Permᴰ (visited_one h) ((rid, bytes) ∷ others)
    → Permᴰ (visited_one after) others
delete_some none rid after bytes others e p = absurd (cc e)
delete_some (some b) rid after bytes [] e p =
    subst (λ h. Permᴰ (visited_one h) []) (ap (λ p. p.1) e) Permᴰ.nil
delete_some (some b) rid after bytes (x ∷ others) e p = absurd (omega (arith, length-Permᴰ p))

delete_none :
    (h : Option (List ℕ)) (rid : RecordId) (code : Code) (after : Option (List ℕ))
    → delete_one h rid ≡ (err code, after)
    → Permᴰ (visited_one after) (visited_one h)
delete_none none rid code after e =
    subst (λ h. Permᴰ (visited_one h) []) (ap (λ p. p.1) e) Permᴰ.nil
delete_none (some b) rid code after e = absurd (cc e)

abbrev small_laws : HeapLaws small_heap
small_laws = record {
  Valid = λ h. Unit;
  inserted = λ h bytes rid after good filled e. (tt, insert_some h bytes rid after e);
  not_inserted = λ h bytes code after good e. (tt, insert_none h bytes code after e);
  deleted = λ h rid after bytes others good e p. (tt, delete_some h rid after bytes others e p);
  not_deleted = λ h rid code after good e. (tt, delete_none h rid code after e);
}

abbrev columns : Schema
columns = record { name = b'i' ∷ []; type = int_type; nullable = false; max_length = 0 } ∷ []

abbrev table_name : List ℕ
table_name = b't' ∷ []

abbrev index_name : List ℕ
index_name = b'x' ∷ []

-- One table is created, a second does not find room, and an index is created and dropped.
abbrev fresh : CatalogManager small_heap
fresh = open_catalog small_heap none none

abbrev one_table : CatalogManager small_heap
one_table = (create_table small_heap fresh table_name columns 5).1

abbrev no_room : CatalogManager small_heap
no_room = (create_table small_heap one_table index_name columns 6).1

abbrev indexed : CatalogManager small_heap
indexed = (create_index small_heap no_room index_name table_name (b'i' ∷ []) 7).1

abbrev dropped_index : CatalogManager small_heap
dropped_index = (drop_index small_heap indexed index_name).1

abbrev metadata : TableMetadata
metadata = record {
  table_id = 1;
  table_name = table_name;
  schema = columns;
  first_page_id = 5;
  catalog_record_id = first_slot;
}

dropped_index-Called : Called small_heap small_laws none none dropped_index
dropped_index-Called = Called.index_dropped index_name (
    Called.index_created index_name table_name (b'i' ∷ []) 7 (omega arith) (omega arith)
      (omega arith) (omega arith)
      (Called.table_created index_name columns 6 (omega arith) (omega arith) (omega arith)
        ((omega arith, omega arith), tt)
        (Called.table_created table_name columns 5 (omega arith) (omega arith) (omega arith)
          ((omega arith, omega arith), tt) Called.at_start)))

-- What is found in that catalog.
found_table : get_table small_heap dropped_index table_name ≡ some metadata
unfolding get_table create_table create_index drop_index open_catalog find_entry create_entry
    load_entries encode_table_metadata fixed_bytes
found_table = refl

found_index : get_index small_heap dropped_index index_name ≡ none
unfolding get_index create_table create_index drop_index open_catalog find_entry create_entry
    drop_entry load_entries encode_index_metadata fixed_bytes
found_index = refl

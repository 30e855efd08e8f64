-- ===== src/Catalog/Manager/Reopen.antt =====
-- A catalog of catalog/catalog_manager.cpp that is opened again on its heap files.
use mathlib.Core.List.{Permᴰ}
use database_engine.Base.{
  ℕ, ◌<◌, ◌^◌, ◌≡◌, refl, List, [], ◌++◌, length, arith, All, append-nil, ap, length-append,
}
use database_engine.Util.Status.{ok, ◌>>=◌}
use database_engine.Util.Bytes.{fixed_bytes, length-fixed_bytes}
use database_engine.Common.Schema.{Schema}
use database_engine.Storage.Page.{RecordId}
use database_engine.Catalog.Metadata.{TableMetadata, IndexMetadata}
use database_engine.Catalog.Codec.{
  encode_table_metadata, decode_table_metadata, encode_index_metadata, no_record,
}
use database_engine.Catalog.Codec.RoundTrip.{
  ColumnFits, TableFits, IndexFits, decode_table_metadata-encode, decode_index_metadata-encode,
}
use database_engine.Catalog.Directory.{Heap}
use database_engine.Catalog.Directory.Loading.{HeapLaws, KindLaws}
use database_engine.Catalog.Directory.Reopen.{Reached, load_entries-Reached}
use database_engine.Catalog.Manager.{
  table_kind, index_kind, CatalogManager, open_catalog, create_table, drop_table, get_table,
  create_index, drop_index, get_index, new_table, new_index,
}

numbered : (v : ℕ) (rest : List ℕ) → 0 < length (fixed_bytes 4 v ++ rest)
numbered v rest = omega (arith, length-append (fixed_bytes 4 v) rest, length-fixed_bytes 4 v)

table_decodes :
    (m : TableMetadata)
    → TableFits m
    → decode_table_metadata (encode_table_metadata m)
      ≡ ok (record m { catalog_record_id = no_record })
table_decodes m fits =
    rw (append-nil (encode_table_metadata m)) at (decode_table_metadata-encode m [] fits)

table_not_empty : (m : TableMetadata) → 0 < length (encode_table_metadata m)
unfolding encode_table_metadata
table_not_empty m = numbered m.table_id _

index_not_empty : (m : IndexMetadata) → 0 < length (encode_index_metadata m)
unfolding encode_index_metadata
index_not_empty m = numbered m.index_id _

encode-table_at_record :
    (rid : RecordId) (m : TableMetadata)
    → encode_table_metadata (table_kind.at_record rid m) ≡ encode_table_metadata m
unfolding encode_table_metadata
encode-table_at_record rid m = refl

encode-index_at_record :
    (rid : RecordId) (m : IndexMetadata)
    → encode_index_metadata (index_kind.at_record rid m) ≡ encode_index_metadata m
unfolding encode_index_metadata
encode-index_at_record rid m = refl

abbrev table_laws : KindLaws table_kind
table_laws = record {
  Fits = TableFits;
  decodes = λ m fits.
      ap (λ r. r >>= λ x. ok (table_kind.at_record m.catalog_record_id x)) (table_decodes m fits);
  not_empty = table_not_empty;
  at_record-Fits = λ rid m fits. fits;
  record_of-at_record = λ rid m. refl;
  encode-at_record = encode-table_at_record;
  name-at_record = λ rid m. refl;
}

abbrev index_laws : KindLaws index_kind
index_laws = record {
  Fits = IndexFits;
  decodes = λ m fits.
      ap (λ r. r >>= λ x. ok (index_kind.at_record m.catalog_record_id x))
        (decode_index_metadata-encode m fits);
  not_empty = index_not_empty;
  at_record-Fits = λ rid m fits. fits;
  record_of-at_record = λ rid m. refl;
  encode-at_record = encode-index_at_record;
  name-at_record = λ rid m. refl;
}

module _ (heap : Heap) (client : HeapLaws heap) where
  -- The catalogs that calls make, whatever their results, of one that has been opened on two heap files.
  pub data Called (h k : heap.State) : CatalogManager heap → Type 0 where
    at_start : Called h k (open_catalog heap h k)
    table_created :
        {c : CatalogManager heap} (name : List ℕ) (schema : Schema) (first_page_id : ℕ)
        → length name < 2 ^ 16
        → first_page_id < 2 ^ 32
        → length schema < 2 ^ 16
        → All ColumnFits schema
        → Called h k c
        → Called h k (create_table heap c name schema first_page_id).1
    table_dropped :
        {c : CatalogManager heap} (name : List ℕ)
        → Called h k c
        → Called h k (drop_table heap c name).1
    index_created :
        {c : CatalogManager heap} (index_name table_name column_name : List ℕ) (meta_page_id : ℕ)
        → length index_name < 2 ^ 16
        → length table_name < 2 ^ 16
        → length column_name < 2 ^ 16
        → meta_page_id < 2 ^ 32
        → Called h k c
        → Called h k (create_index heap c index_name table_name column_name meta_page_id).1
    index_dropped :
        {c : CatalogManager heap} (name : List ℕ)
        → Called h k c
        → Called h k (drop_index heap c name).1

  abbrev BothReached : heap.State → heap.State → CatalogManager heap → Type 0
  BothReached h k c =
      Reached table_kind table_laws heap client h c.tables
      × Reached index_kind index_laws heap client k c.indexes

  Called-Reached : (h k : heap.State) {c : CatalogManager heap} → Called h k c → BothReached h k c
  unfolding open_catalog create_table drop_table create_index drop_index
  Called-Reached h k at_start = (Reached.at_start, Reached.at_start)
  Called-Reached h k (table_created name schema first_page_id a b c d before) =
      let (tables, indexes) = Called-Reached h k before in
      (
        Reached.create name (new_table heap name schema first_page_id) (λ n. refl)
            (λ n small. (small, a, b, c, d)) tables,
        indexes,
      )
  Called-Reached h k (table_dropped name before) =
      let (tables, indexes) = Called-Reached h k before in (Reached.drop name tables, indexes)
  Called-Reached h k (index_created index_name table_name column_name meta_page_id a b c d before) =
      let (tables, indexes) = Called-Reached h k before in
      (
        tables,
        Reached.create index_name (new_index heap index_name table_name column_name meta_page_id)
            (λ n. refl) (λ n small. (small, a, b, c, d)) indexes,
      )
  Called-Reached h k (index_dropped name before) =
      let (tables, indexes) = Called-Reached h k before in (tables, Reached.drop name indexes)

  -- The catalog outlives the process: after any creations and drops of tables and indexes, whatever their
  -- results, a manager that opens the two heap files finds under each name the table and the index that
  -- the old one did, and has the same entries in some order. The heap files were empty at first and keep
  -- what is inserted until it is deleted, and what is created fits the widths of its encoding.
  pub open_catalog-Called :
      (h k : heap.State) (c : CatalogManager heap)
      → client.Valid h
      → client.Valid k
      → heap.visited h ≡ []
      → heap.visited k ≡ []
      → Called h k c
      → let again = open_catalog heap c.tables.heap_file c.indexes.heap_file in
        ((name : List ℕ)
          → (get_table heap again name ≡ get_table heap c name)
            × (get_index heap again name ≡ get_index heap c name))
        × Permᴰ again.tables.entries c.tables.entries
        × Permᴰ again.indexes.entries c.indexes.entries
  unfolding open_catalog get_table get_index
  open_catalog-Called h k c good_h good_k empty_h empty_k called =
      let (tables, indexes) = Called-Reached h k called in
      let (same_tables, find_table) =
        load_entries-Reached table_kind table_laws heap client h good_h empty_h tables in
      let (same_indexes, find_index) =
        load_entries-Reached index_kind index_laws heap client k good_k empty_k indexes in
      (λ name. (find_table name, find_index name), same_tables, same_indexes)

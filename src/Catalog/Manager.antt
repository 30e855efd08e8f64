-- ===== src/Catalog/Manager.antt =====
-- `CatalogManager` of catalog/catalog_manager.cpp: tables and indexes, each a map with its heap file. A pointer
-- to metadata is the metadata.
pub mod Reopen
use database_engine.Base.{
  ℕ, ◌+◌, ◌<◌, ◌^◌, ◌≡◌, refl, List, [], ◌∷◌, ◌++◌, map, Bool, true, false, Option, if◌then◌else◌,
  length, arith, All,
}
use database_engine.Util.Status.{Result, ok, err, Status, ◌>>=◌}
use database_engine.Common.Schema.{Schema, same_bytes}
use database_engine.Storage.Page.{RecordId}
use database_engine.Catalog.Metadata.{TableMetadata, IndexMetadata}
use database_engine.Catalog.Codec.{
  encode_table_metadata, encode_index_metadata, decode_table_metadata, decode_index_metadata,
  no_record,
}
use database_engine.Catalog.Directory.{
  Heap, Kind, Directory, find_entry, load_entries, create_entry, drop_entry,
}

abbrev pub table_kind : Kind
table_kind = record {
  Meta = TableMetadata;
  name_of = λ m. m.table_name;
  id_of = λ m. m.table_id;
  record_of = λ m. m.catalog_record_id;
  at_record = λ rid m. record m { catalog_record_id = rid };
  encode_meta = encode_table_metadata;
  decode_meta = decode_table_metadata;
}

abbrev pub index_kind : Kind
index_kind = record {
  Meta = IndexMetadata;
  name_of = λ m. m.index_name;
  id_of = λ m. m.index_id;
  record_of = λ m. m.catalog_record_id;
  at_record = λ rid m. record m { catalog_record_id = rid };
  encode_meta = encode_index_metadata;
  decode_meta = decode_index_metadata;
}

module _ (heap : Heap) where
  pub record CatalogManager : Type 0 where
    pub tables : Directory table_kind heap
    pub indexes : Directory index_kind heap

  abbrev pub load_tables_from_disk : heap.State → Directory table_kind heap
  load_tables_from_disk h = load_entries table_kind heap h

  abbrev pub load_indexes_from_disk : heap.State → Directory index_kind heap
  load_indexes_from_disk h = load_entries index_kind heap h

  -- The constructor, on the two heap files. It does not load one that it has just made: that one is empty,
  -- and the maps and numbers are the same.
  unfoldable pub open_catalog : heap.State → heap.State → CatalogManager
  open_catalog h k = record { tables = load_tables_from_disk h; indexes = load_indexes_from_disk k }

  abbrev pub new_table : List ℕ → Schema → ℕ → ℕ → TableMetadata
  new_table name schema first_page_id id = record {
    table_id = id;
    table_name = name;
    schema = schema;
    first_page_id = first_page_id;
    catalog_record_id = no_record;
  }

  unfoldable pub create_table :
      CatalogManager → List ℕ → Schema → ℕ → Result TableMetadata × CatalogManager
  create_table c name schema first_page_id =
      let (r, tables) =
        create_entry table_kind heap c.tables name (new_table name schema first_page_id) in
      (r, record c { tables = tables })

  unfoldable pub drop_table : CatalogManager → List ℕ → Status × CatalogManager
  drop_table c name =
      let (r, tables) = drop_entry table_kind heap c.tables name in
      (r, record c { tables = tables })

  unfoldable pub get_table : CatalogManager → List ℕ → Option TableMetadata
  get_table c name = find_entry table_kind name c.tables.entries

  unfoldable pub list_tables : CatalogManager → List (List ℕ)
  list_tables c = map (λ m. m.table_name) c.tables.entries

  abbrev pub new_index : List ℕ → List ℕ → List ℕ → ℕ → ℕ → IndexMetadata
  new_index index_name table_name column_name meta_page_id id = record {
    index_id = id;
    index_name = index_name;
    table_name = table_name;
    column_name = column_name;
    meta_page_id = meta_page_id;
    catalog_record_id = no_record;
  }

  unfoldable pub create_index :
      CatalogManager → List ℕ → List ℕ → List ℕ → ℕ → Result IndexMetadata × CatalogManager
  create_index c index_name table_name column_name meta_page_id =
      let made = new_index index_name table_name column_name meta_page_id in
      let (r, indexes) = create_entry index_kind heap c.indexes index_name made in
      (r, record c { indexes = indexes })

  unfoldable pub drop_index : CatalogManager → List ℕ → Status × CatalogManager
  drop_index c name =
      let (r, indexes) = drop_entry index_kind heap c.indexes name in
      (r, record c { indexes = indexes })

  unfoldable pub get_index : CatalogManager → List ℕ → Option IndexMetadata
  get_index c name = find_entry index_kind name c.indexes.entries

  -- The loop of `GetIndexesForTable`.
  unfoldable pub indexes_among : List ℕ → List IndexMetadata → List IndexMetadata
  indexes_among table [] = []
  indexes_among table (m ∷ ms) =
      let rest = indexes_among table ms in if same_bytes m.table_name table then m ∷ rest else rest

  unfoldable pub get_indexes_for_table : CatalogManager → List ℕ → List IndexMetadata
  unfolding indexes_among
  get_indexes_for_table c table = indexes_among table c.indexes.entries

  unfoldable pub list_indexes : CatalogManager → List (List ℕ)
  list_indexes c = map (λ m. m.index_name) c.indexes.entries

-- ===== src/Catalog/Directory.antt =====
-- What catalog/catalog_manager.cpp does for tables and does again for indexes: a heap file of encoded
-- metadata, and the map from a name to its metadata, which is read from the heap file when the database is
-- opened. The map is its entries, in any order; an entry stands under its own name. The heap file is what
-- the manager calls of storage/heap_file.hpp.
pub mod Entries
pub mod Loading
pub mod Reopen
use database_engine.Base.{
  ℕ, suc, ◌+◌, ◌%◌, ◌^◌, Bool, true, false, Option, none, some, List, [], ◌∷◌, ◌++◌, length, take,
  ltb, if◌then◌else◌,
}
use database_engine.Util.Status.{
  Result, ok, err, Status, invalid_argument, already_exists, not_found,
}
use database_engine.Common.Schema.{same_bytes}
use database_engine.Storage.Page.{RecordId}

-- `Scan` is the list of what it visits.
pub record Heap : Type 1 where
  pub State : Type 0
  pub insert_record : State → List ℕ → Result RecordId × State
  pub delete_record : State → RecordId → Status × State
  pub visited : State → List (RecordId × List ℕ)

-- What tables and indexes differ in.
pub record Kind : Type 1 where
  pub Meta : Type 0
  pub name_of : Meta → List ℕ
  pub id_of : Meta → ℕ
  pub record_of : Meta → RecordId
  pub at_record : RecordId → Meta → Meta
  pub encode_meta : Meta → List ℕ
  pub decode_meta : List ℕ → Result Meta

module _ (kind : Kind) where
  -- `find`, on the map.
  unfoldable pub find_entry : List ℕ → List kind.Meta → Option kind.Meta
  unfolding same_bytes
  find_entry name [] = none
  find_entry name (m ∷ ms) =
      let rest = find_entry name ms in if same_bytes (kind.name_of m) name then some m else rest

  -- `erase`.
  unfoldable pub erase_entry : List ℕ → List kind.Meta → List kind.Meta
  unfolding same_bytes
  erase_entry name [] = []
  erase_entry name (m ∷ ms) =
      let rest = erase_entry name ms in if same_bytes (kind.name_of m) name then ms else m ∷ rest

  -- `tables_[meta.table_name] = meta`.
  unfoldable pub put_entry : kind.Meta → List kind.Meta → List kind.Meta
  unfolding same_bytes
  put_entry m [] = m ∷ []
  put_entry m (x ∷ xs) =
      let rest = put_entry m xs in
      if same_bytes (kind.name_of x) (kind.name_of m) then m ∷ xs else x ∷ rest

  -- The visitor of the loading scan: a record that does not decode is passed over.
  abbrev pub visit : RecordId → List kind.Meta × ℕ → Result kind.Meta → List kind.Meta × ℕ
  visit rid (ms, max_id) (err code) = (ms, max_id)
  visit rid (ms, max_id) (ok m) = (
    put_entry (kind.at_record rid m) ms,
    if ltb max_id (kind.id_of m) then kind.id_of m else max_id,
  )

  unfoldable pub load_from : List kind.Meta × ℕ → List (RecordId × List ℕ) → List kind.Meta × ℕ
  unfolding put_entry
  load_from found [] = found
  load_from found ((rid, bytes) ∷ rest) = load_from (visit rid found (kind.decode_meta bytes)) rest

  module _ (heap : Heap) where
    pub record Directory : Type 0 where
      pub heap_file : heap.State
      pub entries : List kind.Meta
      pub next_id : ℕ

    -- `LoadTablesFromDisk`.
    unfoldable pub load_entries : heap.State → Directory
    unfolding load_from
    load_entries h =
        let (ms, max_id) = load_from ([], 0) (heap.visited h) in
        record { heap_file = h; entries = ms; next_id = (max_id + 1) % 2 ^ 32 }

    -- The end of `CreateTable`, after the insertion of the record.
    abbrev pub created :
        Directory → kind.Meta → Result RecordId × heap.State → Result kind.Meta × Directory
    created d m (err code, h) = (err code, record d { heap_file = h })
    created d m (ok rid, h) = (
      ok (kind.at_record rid m),
      record d { heap_file = h; entries = d.entries ++ (kind.at_record rid m ∷ []) },
    )

    -- `CreateTable`. The size of the record is cast to 16 bits, and the heap file takes so many bytes of it;
    -- `made` is the metadata under its name, but for the id of the catalog's record.
    unfoldable pub create_entry :
        Directory → List ℕ → (ℕ → kind.Meta) → Result kind.Meta × Directory
    unfolding find_entry
    create_entry d name made = elim (find_entry name d.entries) [
      | some m ↦ (err already_exists, d)
      | none ↦
          let m = made d.next_id in
          let encoded = kind.encode_meta m in
          let next = record d { next_id = (d.next_id + 1) % 2 ^ 32 } in
          if ltb 0xFFFF (length encoded)
          then (err invalid_argument, next)
          else created next m
              (heap.insert_record d.heap_file (take (length encoded % 2 ^ 16) encoded))
    ]

    abbrev pub dropped : Directory → List ℕ → Status × heap.State → Status × Directory
    dropped d name (err code, h) = (err code, record d { heap_file = h })
    dropped d name (ok _, h) =
        (ok tt, record d { heap_file = h; entries = erase_entry name d.entries })

    -- `DropTable`.
    unfoldable pub drop_entry : Directory → List ℕ → Status × Directory
    unfolding find_entry erase_entry
    drop_entry d name = elim (find_entry name d.entries) [
      | none ↦ (err not_found, d)
      | some m ↦ dropped d name (heap.delete_record d.heap_file (kind.record_of m))
    ]

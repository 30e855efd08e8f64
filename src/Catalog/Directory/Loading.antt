-- ===== src/Catalog/Directory/Loading.antt =====
-- `LoadTablesFromDisk` and `LoadIndexesFromDisk` of catalog/catalog_manager.cpp: the entries that a scan of the
-- heap file gives, and what is relied on of the heap file and of the encoding.
use mathlib.Core.List.{Permᴰ, filter_map, filter_map-cons-none, filter_map-cons-some}
use database_engine.Base.{
  ℕ, ◌<◌, ◌≡◌, refl, ap, sym, ◌∙◌, subst, inl, inr, Option, none, some, List, [], ◌∷◌, ◌++◌, map,
  append_assoc, append-nil, length, ltb, if◌then◌else◌, All,
}
use database_engine.Util.Status.{Result, ok, err, Code, Result-cases, ◌>>=◌}
use database_engine.Storage.Page.{RecordId}
use database_engine.Catalog.Directory.{Heap, Kind, visit, load_from}
use database_engine.Catalog.Directory.Entries.{Distinct, put_entry-Absent, Distinct-middle}

-- What a client relies on of a heap file: a record that is inserted is visited from then on, one that is
-- deleted is not, and a call that fails leaves what is visited. An empty record is not inserted.
pub record HeapLaws (heap : Heap) : Type 1 where
  pub Valid : heap.State → Type 0
  pub inserted :
      (h : heap.State) (bytes : List ℕ) (rid : RecordId) (after : heap.State)
      → Valid h
      → 0 < length bytes
      → heap.insert_record h bytes ≡ (ok rid, after)
      → Valid after × Permᴰ (heap.visited after) ((rid, bytes) ∷ heap.visited h)
  pub not_inserted :
      (h : heap.State) (bytes : List ℕ) (code : Code) (after : heap.State)
      → Valid h
      → heap.insert_record h bytes ≡ (err code, after)
      → Valid after × Permᴰ (heap.visited after) (heap.visited h)
  pub deleted :
      (h : heap.State) (rid : RecordId) (after : heap.State) (bytes : List ℕ)
      (others : List (RecordId × List ℕ))
      → Valid h
      → heap.delete_record h rid ≡ (ok tt, after)
      → Permᴰ (heap.visited h) ((rid, bytes) ∷ others)
      → Valid after × Permᴰ (heap.visited after) others
  pub not_deleted :
      (h : heap.State) (rid : RecordId) (code : Code) (after : heap.State)
      → Valid h
      → heap.delete_record h rid ≡ (err code, after)
      → Valid after × Permᴰ (heap.visited after) (heap.visited h)

-- What a kind of metadata has: its encoding is decoded, but for the id of the record, which is set after.
pub record KindLaws (kind : Kind) : Type 1 where
  pub Fits : kind.Meta → Type 0
  pub decodes :
      (m : kind.Meta)
      → Fits m
      → (kind.decode_meta (kind.encode_meta m) >>= λ x. ok (kind.at_record (kind.record_of m) x))
        ≡ ok m
  pub not_empty : (m : kind.Meta) → 0 < length (kind.encode_meta m)
  pub at_record-Fits : (rid : RecordId) (m : kind.Meta) → Fits m → Fits (kind.at_record rid m)
  pub record_of-at_record :
      (rid : RecordId) (m : kind.Meta) → kind.record_of (kind.at_record rid m) ≡ rid
  pub encode-at_record :
      (rid : RecordId) (m : kind.Meta)
      → kind.encode_meta (kind.at_record rid m) ≡ kind.encode_meta m
  pub name-at_record :
      (rid : RecordId) (m : kind.Meta) → kind.name_of (kind.at_record rid m) ≡ kind.name_of m

abbrev to_option {ℓ} : {A : Type ℓ} → Result A → Option A
to_option (ok a) = some a
to_option (err code) = none

module _ (kind : Kind) (laws : KindLaws kind) where
  -- The record of an entry, and the entry of a record.
  abbrev pub stored : kind.Meta → RecordId × List ℕ
  stored m = (kind.record_of m, kind.encode_meta m)

  abbrev pub decoded : RecordId × List ℕ → Option kind.Meta
  decoded x = to_option (kind.decode_meta x.1 >>= λ m. ok (kind.at_record x.0 m))

  pub decoded-stored :
      (ms : List kind.Meta) → All laws.Fits ms → filter_map decoded (map stored ms) ≡ ms
  unfolding filter_map
  decoded-stored [] h = refl
  decoded-stored (m ∷ ms) (fits, others) =
      filter_map-cons-some decoded (stored m) (map stored ms) (ap to_option (laws.decodes m fits))
      ∙ ap (λ l. m ∷ l) (decoded-stored ms others)

  -- Loading appends the records' entries.
  pub load_from-decoded :
      (ms : List kind.Meta) (max_id : ℕ) (xs : List (RecordId × List ℕ))
      → Distinct kind (ms ++ filter_map decoded xs)
      → (load_from kind (ms, max_id) xs).0 ≡ ms ++ filter_map decoded xs
  unfolding load_from filter_map
  load_from-decoded ms max_id [] h = sym (append-nil ms)
  load_from-decoded ms max_id ((rid, bytes) ∷ xs) h = elim (Result-cases (kind.decode_meta bytes)) [
    | inr (code, failed) ↦
        let skipped : filter_map decoded ((rid, bytes) ∷ xs) ≡ filter_map decoded xs =
          filter_map-cons-none decoded (rid, bytes) xs (rw failed refl) in
        ap (λ r. (load_from kind (visit kind rid (ms, max_id) r) xs).0) failed
        ∙ load_from-decoded ms max_id xs (rw skipped at h)
        ∙ sym (ap (λ l. ms ++ l) skipped)
    | inl (m, found) ↦
        let entry = kind.at_record rid m in
        let kept : filter_map decoded ((rid, bytes) ∷ xs) ≡ entry ∷ filter_map decoded xs =
          filter_map-cons-some decoded (rid, bytes) xs (rw found refl) in
        let whole : Distinct kind (ms ++ (entry ∷ filter_map decoded xs)) = rw kept at h in
        let moved : (ms ++ (entry ∷ [])) ++ filter_map decoded xs
            ≡ ms ++ (entry ∷ filter_map decoded xs) =
          append_assoc ms (entry ∷ []) (filter_map decoded xs) in
        let fresh =
          put_entry-Absent kind entry ms
            (Distinct-middle kind ms entry (filter_map decoded xs) whole) in
        let largest = if ltb max_id (kind.id_of m) then kind.id_of m else max_id in
        ap (λ r. (load_from kind (visit kind rid (ms, max_id) r) xs).0) found
        ∙ ap (λ l. (load_from kind (l, largest) xs).0) fresh
        ∙ load_from-decoded (ms ++ (entry ∷ [])) largest xs
            (subst (λ l. Distinct kind l) (sym moved) whole)
        ∙ moved
        ∙ sym (ap (λ l. ms ++ l) kept)
  ]

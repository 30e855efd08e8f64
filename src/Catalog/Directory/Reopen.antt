-- ===== src/Catalog/Directory/Reopen.antt =====
-- The maps of catalog/catalog_manager.cpp agree with their heap files, so that loading finds them again.
use mathlib.Core.List.{Permᴰ, filter_map}
use mathlib.Core.List.Permᴰ
use database_engine.Base.{
  ℕ, ◌+◌, ◌%◌, ◌^◌, ◌<◌, ◌≡◌, refl, ap, sym, subst, ◌⊎◌, inl, inr, none, some, List, [], ◌∷◌, ◌++◌,
  map, arith, length, take, ltb, Option-cases, Bool-cases, All,
}
use database_engine.Util.Status.{Result, ok, err, Status, invalid_argument}
use database_engine.Common.Schema.{same_bytes}
use database_engine.Storage.Page.{RecordId}
use database_engine.Catalog.Directory.{
  Heap, Kind, find_entry, erase_entry, load_from, Directory, load_entries, created, create_entry,
  dropped, drop_entry,
}
use database_engine.Catalog.Directory.Entries.{
  Absent, Distinct, Distinct-Permᴰ, find_entry-Permᴰ, find_entry-none, erase_entry-Permᴰ,
  All-append, Distinct-append,
}
use database_engine.Catalog.Directory.Loading.{
  HeapLaws, KindLaws, stored, decoded, decoded-stored, load_from-decoded,
}

take_whole : (xs : List ℕ) → take (length xs) xs ≡ xs
take_whole [] = refl
take_whole (x ∷ xs) = ap (◌∷◌ x) (take_whole xs)

module _ (kind : Kind) (laws : KindLaws kind) where
  module _ (heap : Heap) (client : HeapLaws heap) where
    abbrev pub IsValid : Directory kind heap → Type 0
    IsValid d =
        client.Valid d.heap_file
        × Permᴰ (heap.visited d.heap_file) (map (stored kind laws) d.entries)
        × Distinct kind d.entries
        × All laws.Fits d.entries
        × (d.next_id < 2 ^ 32)

    -- The map that a fresh manager would load has the same entries.
    load_entries-IsValid :
        (d : Directory kind heap)
        → IsValid d
        → Permᴰ (load_entries kind heap d.heap_file).entries d.entries
    unfolding load_entries
    load_entries-IsValid d (good, agree, distinct, fit, small) =
        let back = decoded-stored kind laws d.entries fit in
        let same : Permᴰ (filter_map (decoded kind laws) (heap.visited d.heap_file)) d.entries =
          subst (λ l. Permᴰ (filter_map (decoded kind laws) (heap.visited d.heap_file)) l) back
            (Permᴰ.filter_map (decoded kind laws) agree) in
        let found =
          load_from-decoded kind laws [] 0 (heap.visited d.heap_file)
            (Distinct-Permᴰ kind (Permᴰ.symm same) distinct) in
        subst (λ l. Permᴰ l d.entries) (sym found) same

    created-IsValid :
        (d : Directory kind heap) (m : kind.Meta) (r : Result RecordId) (after : heap.State)
        → IsValid d
        → laws.Fits m
        → Absent kind (kind.name_of m) d.entries
        → heap.insert_record d.heap_file (kind.encode_meta m) ≡ (r, after)
        → IsValid (created kind heap d m (r, after)).1
    created-IsValid d m (err code) after (good, agree, distinct, fit, small) fits absent inserting =
        let (still, same) =
          client.not_inserted d.heap_file (kind.encode_meta m) code after good inserting in
        (still, Permᴰ.trans same agree, distinct, fit, small)
    created-IsValid d m (ok rid) after (good, agree, distinct, fit, small) fits absent inserting =
        let entry = kind.at_record rid m in
        let (still, more) =
          client.inserted d.heap_file (kind.encode_meta m) rid after good (laws.not_empty m)
            inserting in
        let head : (rid, kind.encode_meta m) ≡ stored kind laws entry =
          λ i. (sym (laws.record_of-at_record rid m) i, sym (laws.encode-at_record rid m) i) in
        let turned : Permᴰ (stored kind laws entry ∷ map (stored kind laws) d.entries)
            (map (stored kind laws) (d.entries ++ (entry ∷ []))) =
          Permᴰ.map (stored kind laws) (Permᴰ.append_comm (entry ∷ []) d.entries) in
        (
          still,
          Permᴰ.trans more (Permᴰ.trans (Permᴰ.cons head agree) turned),
          Distinct-append kind d.entries entry distinct (rw (laws.name-at_record rid m) absent),
          All-append laws.Fits d.entries (entry ∷ []) fit (laws.at_record-Fits rid m fits, tt),
          small,
        )

    -- The creation under a name that is not taken.
    -- A record that is not refused for its size is inserted whole: the cast keeps its size.
    create_entry-absent :
        (d : Directory kind heap) (name : List ℕ) (made : ℕ → kind.Meta)
        → find_entry kind name d.entries ≡ none
        → let next : Directory kind heap = record d { next_id = (d.next_id + 1) % 2 ^ 32 } in
          let encoded = kind.encode_meta (made d.next_id) in
          (create_entry kind heap d name made ≡ (err invalid_argument, next))
          ⊎ (create_entry kind heap d name made
              ≡ created kind heap next (made d.next_id) (heap.insert_record d.heap_file encoded))
    unfolding create_entry
    create_entry-absent d name made missing =
        let encoded = kind.encode_meta (made d.next_id) in
        elim (Bool-cases (ltb 0xFFFF (length encoded))) [
          | inl long ↦ inl (rw (create_entry, missing, long) refl)
          | inr short ↦
              let same : length encoded % 2 ^ 16 ≡ length encoded = ground (arith, short) in
              inr (rw (create_entry, missing, short, same, take_whole encoded) refl)
        ]

    create_entry-IsValid :
        (d : Directory kind heap) (name : List ℕ) (made : ℕ → kind.Meta)
        → ((n : ℕ) → kind.name_of (made n) ≡ name)
        → ((n : ℕ) → n < 2 ^ 32 → laws.Fits (made n))
        → IsValid d
        → IsValid (create_entry kind heap d name made).1
    unfolding create_entry
    create_entry-IsValid d name made named fits (good, agree, distinct, fit, small) =
        elim (Option-cases (find_entry kind name d.entries)) [
          | inr (m, there) ↦ rw (create_entry, there) (good, agree, distinct, fit, small)
          | inl missing ↦
              let m = made d.next_id in
              let next : Directory kind heap = record d { next_id = (d.next_id + 1) % 2 ^ 32 } in
              let valid : IsValid next = (good, agree, distinct, fit, omega arith) in
              let absent : Absent kind (kind.name_of m) d.entries =
                rw (named d.next_id) (find_entry-none kind name d.entries missing) in
              let inserting = heap.insert_record d.heap_file (kind.encode_meta m) in
              let room =
                created-IsValid next m inserting.0 inserting.1 valid (fits d.next_id small) absent
                  refl in
              elim (create_entry-absent d name made missing) [
                | inl refused ↦ subst (λ p. IsValid p.1) (sym refused) valid
                | inr inserted ↦ subst (λ p. IsValid p.1) (sym inserted) room
              ]
        ]

    erased-Fits :
        (name : List ℕ) (ms : List kind.Meta)
        → All laws.Fits ms
        → All laws.Fits (erase_entry kind name ms)
    unfolding erase_entry
    erased-Fits name [] h = tt
    erased-Fits name (m ∷ ms) (h, k) = elim (Bool-cases (same_bytes (kind.name_of m) name)) [
      | inl same ↦ rw same k
      | inr other ↦ rw other (h, erased-Fits name ms k)
    ]

    dropped-IsValid :
        (d : Directory kind heap) (name : List ℕ) (m : kind.Meta) (r : Status) (after : heap.State)
        → IsValid d
        → find_entry kind name d.entries ≡ some m
        → heap.delete_record d.heap_file (kind.record_of m) ≡ (r, after)
        → IsValid (dropped kind heap d name (r, after)).1
    dropped-IsValid d name m (err code) after (good, agree, distinct, fit, small) there deleting =
        let (still, same) =
          client.not_deleted d.heap_file (kind.record_of m) code after good deleting in
        (still, Permᴰ.trans same agree, distinct, fit, small)
    dropped-IsValid d name m (ok _) after (good, agree, distinct, fit, small) there deleting =
        let split = erase_entry-Permᴰ kind name d.entries m there in
        let whole = Permᴰ.trans agree (Permᴰ.map (stored kind laws) split) in
        let (still, fewer) =
          client.deleted d.heap_file (kind.record_of m) after (kind.encode_meta m)
            (map (stored kind laws) (erase_entry kind name d.entries)) good deleting whole in
        (
          still,
          fewer,
          (Distinct-Permᴰ kind split distinct).1,
          erased-Fits name d.entries fit,
          small,
        )

    drop_entry-IsValid :
        (d : Directory kind heap) (name : List ℕ)
        → IsValid d
        → IsValid (drop_entry kind heap d name).1
    unfolding drop_entry
    drop_entry-IsValid d name valid = elim (Option-cases (find_entry kind name d.entries)) [
      | inl missing ↦ rw (drop_entry, missing) valid
      | inr (m, there) ↦
          rw (drop_entry, there)
            (dropped-IsValid d name m (heap.delete_record d.heap_file (kind.record_of m)).0
              (heap.delete_record d.heap_file (kind.record_of m)).1 valid there refl)
    ]

    -- The states of a manager that has opened an empty heap file: creations and drops, with whatever
    -- results.
    pub data Reached (start : heap.State) : Directory kind heap → Type 0 where
      at_start : Reached start (load_entries kind heap start)
      create :
          {d : Directory kind heap} (name : List ℕ) (made : ℕ → kind.Meta)
          → ((n : ℕ) → kind.name_of (made n) ≡ name)
          → ((n : ℕ) → n < 2 ^ 32 → laws.Fits (made n))
          → Reached start d
          → Reached start (create_entry kind heap d name made).1
      drop :
          {d : Directory kind heap} (name : List ℕ)
          → Reached start d
          → Reached start (drop_entry kind heap d name).1

    pub Reached-IsValid :
        (start : heap.State) {d : Directory kind heap}
        → client.Valid start
        → heap.visited start ≡ []
        → Reached start d
        → IsValid d
    unfolding load_entries load_from
    Reached-IsValid start good empty at_start = rw empty (good, Permᴰ.nil, tt, tt, omega arith)
    Reached-IsValid start good empty (create name made named fits before) =
        create_entry-IsValid _ name made named fits (Reached-IsValid start good empty before)
    Reached-IsValid start good empty (drop name before) =
        drop_entry-IsValid _ name (Reached-IsValid start good empty before)

    -- The catalog outlives the process: after any creations and drops, with whatever results, a manager
    -- that opens the heap file has the same entries, and finds under each name what the old one did. The
    -- heap file was empty at first, it keeps its records, and what is created fits its encoding.
    pub load_entries-Reached :
        (start : heap.State) {d : Directory kind heap}
        → client.Valid start
        → heap.visited start ≡ []
        → Reached start d
        → Permᴰ (load_entries kind heap d.heap_file).entries d.entries
          × ((name : List ℕ)
              → find_entry kind name (load_entries kind heap d.heap_file).entries
                ≡ find_entry kind name d.entries)
    load_entries-Reached start {d} good empty reached =
        let valid = Reached-IsValid start good empty reached in
        let same = load_entries-IsValid d valid in
        let distinct = Distinct-Permᴰ kind (Permᴰ.symm same) valid.2 in
        (same, λ name. find_entry-Permᴰ kind name same distinct)

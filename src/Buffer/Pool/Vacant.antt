-- ===== src/Buffer/Pool/Vacant.antt =====
-- How buffer/buffer_pool.cpp empties a frame for another page.
use database_engine.Base.{
  ℕ, ◌<◌, ◌≡◌, refl, sym, ap, ◌∙◌, ◌≢◌, ◌⊎◌, inl, inr, false, Option, none, some, List, arith, ◌==◌,
  if◌then◌else◌, ==_iff, Bool-cases, lt-or-le,
}
use database_engine.Util.Maps.{update}
use database_engine.Util.Sets.{nat_eq}
use database_engine.Storage.Page.{invalid_page_id, page_size}
use database_engine.Storage.PageFile.{PageManager, write_page}
use database_engine.Storage.PageFile.Contents.{
  content, write_page-out_of_range, read_page_lem, Written,
}
use database_engine.Storage.PageFile.Contents
use database_engine.Buffer.Replacer.{LruReplacer}
use database_engine.Buffer.Pool.{BufferPool, vacate}
use database_engine.Buffer.Pool.Invariant.{Holds, IsValid, Vacant, seen_at, Keeps}
use database_engine.Buffer.Pool.Take.{Taken, with_lists}

-- The data file and the page table once the page of frame `f`, if there is one, has left memory.
record Evicted (b : BufferPool) (f : ℕ) (disk : PageManager) (table : ℕ → Option ℕ) : Type 0 where
  valid : Contents.IsValid disk
  same_count : disk.page_count ≡ b.page_manager.page_count
  gone :
      (id : ℕ)
      → b.page_table id ≡ some f
      → (table id ≡ none) × ((i : ℕ) → i < page_size → content disk id i ≡ (b.frames f).page i)
  others :
      (id : ℕ)
      → b.page_table id ≢ some f
      → (table id ≡ b.page_table id)
        × ((i : ℕ) → i < page_size → content disk id i ≡ content b.page_manager id i)

abbrev vacated : BufferPool → List ℕ → LruReplacer → PageManager → (ℕ → Option ℕ) → BufferPool
vacated b left lru disk table = record b {
  page_manager = disk;
  page_table = table;
  free_list = left;
  replacer = lru;
}

pub same_option : (f g : ℕ) → some f ≡ some g → f ≡ g
same_option f g e = cc e

table_cases : (x : Option ℕ) (f : ℕ) → (x ≡ some f) ⊎ (x ≢ some f)
table_cases none f = ground arith
table_cases (some g) f = ground (arith, lt-or-le f g, lt-or-le g f)

module _ (b : BufferPool) (v : IsValid b) (f : ℕ) (left : List ℕ) (lru : LruReplacer)
    (t : Taken b f left lru) (disk : PageManager) (table : ℕ → Option ℕ)
    (e : Evicted b f disk table) where
  Evicted-Vacant : Vacant (vacated b left lru disk table) f
  Evicted-Vacant = (
    record {
      disk = e.valid;
      in_table = λ id g found. elim (table_cases (b.page_table id) f) [
        | inl here ↦ absurd (ground (arith, (e.gone id here).0, found))
        | inr away ↦
            let before = sym (e.others id away).0 ∙ found in
            let (u, small, holds, low) = v.in_table id g before in
            (λ same. away (before ∙ ap some same), small, holds, (low.0, rw e.same_count low.1))
      ];
      in_frame = λ g other holds.
          let before = v.in_frame g tt holds in
          (e.others _ (λ here. other (same_option g f (sym before ∙ here)))).0 ∙ before;
      evictable = λ g there.
          let (out, was) = t.lru_rest g there in
          let (u, holds, pins) = v.evictable g was in (out, holds, pins);
      listed = λ g other holds pins. t.lru_keeps g other (v.listed g tt holds pins);
      free = λ g there.
          let (out, was) = t.free_rest g there in
          let (u, small, empty) = v.free g was in (out, small, empty);
      replacer_once = t.lru_once;
      free_once = t.left_once;
      clean = λ g other holds pins dirt i lt.
          let before = v.in_frame g tt holds in
          v.clean g tt holds pins dirt i lt
          ∙ sym ((e.others _ (λ here. other (same_option g f (sym before ∙ here)))).1 i lt);
    },
    t.in_pool,
  )

  seen_elsewhere :
      (id i : ℕ) (place : Option ℕ)
      → content disk id i ≡ content b.page_manager id i
      → seen_at (vacated b left lru disk table) id place i ≡ seen_at b id place i
  seen_elsewhere id i none same = same
  seen_elsewhere id i (some g) same = refl

  Evicted-Keeps : Keeps b (vacated b left lru disk table)
  Evicted-Keeps = record {
    same_size = refl;
    same_count = e.same_count;
    same_seen = λ id i lt. elim (table_cases (b.page_table id) f) [
      | inl here ↦ let (out, bytes) = e.gone id here in rw (out, here) (bytes i lt)
      | inr away ↦
          let (same, bytes) = e.others id away in
          rw same (seen_elsewhere id i (b.page_table id) (bytes i lt))
    ];
    pinned = λ g holds pins. (refl, omega arith);
  }

module _ (b : BufferPool) (v : IsValid b) (f : ℕ) (left : List ℕ) (lru : LruReplacer)
    (t : Taken b f left lru) where
  pid : ℕ
  pid = (b.frames f).page_id

  written_back : PageManager
  written_back =
      if (b.frames f).is_dirty
      then (write_page b.page_manager (b.frames f).page_id (b.frames f).page).1
      else b.page_manager

  -- The victim's page is on disk after the write, if one was needed.
  written_back-Written :
      Holds b f
      → Contents.IsValid written_back
        × (written_back.page_count ≡ b.page_manager.page_count)
        × ((id i : ℕ)
            → i < page_size
            → content written_back id i ≡ (
                if (b.frames f).page_id == id
                then (b.frames f).page i
                else content b.page_manager id i))
  unfolding written_back
  written_back-Written holds =
      let (u, small, same, low) = v.in_table _ f (v.in_frame f tt holds) in
      elim (Bool-cases (b.frames f).is_dirty) [
        | inl dirt ↦
            elim (write_page-out_of_range b.page_manager v.disk (b.frames f).page_id
              (b.frames f).page) [
                | inl (inside, took, wrote) ↦ rw dirt (wrote.valid, wrote.same_count, wrote.holds)
                | inr (refused, e) ↦ absurd (ground (arith, low.0, low.1))
              ]
        | inr undirt ↦ rw undirt (
          v.disk,
          refl,
          λ id i lt. elim (Bool-cases ((b.frames f).page_id == id)) [
            | inl here ↦ rw here (
                rw (sym ((==_iff _ id).0 here))
                  (sym (v.clean f tt holds (t.unpinned holds) undirt i lt)))
            | inr away ↦ rw away refl
          ],
        )
      ]

  held_Evicted :
      Holds b f → Evicted b f written_back (update b.page_table (b.frames f).page_id none)
  unfolding update
  held_Evicted holds =
      let (valid, count, bytes) = written_back-Written holds in
      let before = v.in_frame f tt holds in
      record {
        valid = valid;
        same_count = count;
        gone = λ id here.
            let (u, small, same, low) = v.in_table id f here in
            let hit = (==_iff (b.frames f).page_id id).1 same in
            (rw hit refl, λ i lt. bytes id i lt ∙ rw hit refl);
        others = λ id away.
            let miss : ((b.frames f).page_id == id) ≡ false =
              elim (Bool-cases ((b.frames f).page_id == id)) [
                | inl hit ↦ absurd (away (ap b.page_table (sym ((==_iff _ id).0 hit)) ∙ before))
                | inr miss ↦ miss
              ] in
            (rw miss refl, λ i lt. bytes id i lt ∙ rw miss refl);
      }

  empty_Evicted : (b.frames f).page_id ≡ invalid_page_id → Evicted b f b.page_manager b.page_table
  empty_Evicted empty = record {
    valid = v.disk;
    same_count = refl;
    gone = λ id here.
        let (u, small, same, low) = v.in_table id f here in
        absurd (omega (arith, empty, same, low.0));
    others = λ id away. (refl, λ i lt. refl);
  }

  -- A victim's frame is emptied without a loss: every page reads as before.
  pub vacate-Vacant :
      Vacant (vacate (with_lists b left lru) f) f × Keeps b (vacate (with_lists b left lru) f)
  unfolding vacate written_back
  vacate-Vacant = elim (Bool-cases ((b.frames f).page_id == invalid_page_id)) [
    | inl empty ↦
        let e = empty_Evicted ((==_iff _ invalid_page_id).0 empty) in
        rw (vacate, empty)
          (Evicted-Vacant b v f left lru t _ _ e, Evicted-Keeps b v f left lru t _ _ e)
    | inr held ↦
        let e = held_Evicted (t.in_pool, λ same. ground (arith, held, same)) in
        rw (vacate, held)
          (Evicted-Vacant b v f left lru t _ _ e, Evicted-Keeps b v f left lru t _ _ e)
  ]

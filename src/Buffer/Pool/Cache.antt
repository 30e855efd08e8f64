-- ===== src/Buffer/Pool/Cache.antt =====
-- `FetchPage` of buffer/buffer_pool.cpp on every branch.
use database_engine.Base.{
  ℕ, ◌+◌, ◌≤◌, ◌≡◌, refl, ap, ◌∙◌, sym, ◌⊎◌, inl, inr, true, false, Option, none, some, List, [],
  ◌≢◌, arith, ◌==◌, if◌then◌else◌, Bool-cases, Option-cases,
}
use database_engine.Util.Maps.{update}
use database_engine.Util.Status.{Status, Code, ok, err}
use database_engine.Util.Sets.{nat_eq}
use database_engine.Storage.Page.{Page, blank}
use database_engine.Storage.PageFile.{out_of_range, read_page}
use database_engine.Buffer.Pool.{BufferPool, vacate, load, fetch_hit, fetch_into, fetch_page}
use database_engine.Buffer.Pool.Invariant.{Holds, OnDisk, IsValid, seen_at, Keeps}
use database_engine.Buffer.Pool.Take.{with_lists, find_victim_frame_lem}
use database_engine.Buffer.Pool.Vacant.{vacate-Vacant}
use database_engine.Buffer.Pool.Fetch.{
  fetch_hit-IsValid, fetch_hit-Keeps, hit_id, hit_page, hit_pin,
}
use database_engine.Buffer.Pool.Fill.{eq_cases}
use database_engine.Buffer.Pool.Vacant.{same_option}
use database_engine.Buffer.Pool.Load.{Keeps-trans, Fetched, load_ok, load_err}

is_more : (f p q : ℕ) → p ≡ q + (if f == f then 1 else 0) → 1 ≤ p
is_more f p q e = ground arith

fetch_page_hit :
    (b : BufferPool) (id f : ℕ)
    → IsValid b
    → b.page_table id ≡ some f
    → Fetched b id f (fetch_hit b f)
fetch_page_hit b id f v here =
    let (u, small, has, low) = v.in_table id f here in
    record {
      valid = fetch_hit-IsValid b v id f here;
      keeps = fetch_hit-Keeps b v id f here;
      holds_page = hit_id b v id f here f ∙ has;
      is_pinned = is_more f ((fetch_hit b f).frames f).pin_count _ (hit_pin b v id f here f);
      right_bytes = λ i lt. rw here (ap (λ (p : Page). p i) (hit_page b v id f here f));
    }

vacate_frames : (c : BufferPool) (f : ℕ) → (vacate c f).frames ≡ c.frames
unfolding vacate
vacate_frames c f = ground arith

vacate_table :
    (c : BufferPool) (f id : ℕ) → c.page_table id ≡ none → (vacate c f).page_table id ≡ none
unfolding vacate update
vacate_table c f id out = ground (arith, out)

abbrev missed : BufferPool → BufferPool
missed b = record b { miss_count = b.miss_count + 1 }

missed-IsValid : (b : BufferPool) → IsValid b → IsValid (missed b)
missed-IsValid b v = record {
  disk = v.disk;
  in_table = v.in_table;
  in_frame = v.in_frame;
  evictable = v.evictable;
  listed = v.listed;
  free = v.free;
  replacer_once = v.replacer_once;
  free_once = v.free_once;
  clean = v.clean;
}

missed_seen :
    (b : BufferPool) (jd i : ℕ) (place : Option ℕ)
    → seen_at (missed b) jd place i ≡ seen_at b jd place i
missed_seen b jd i none = refl
missed_seen b jd i (some g) = refl

missed-Keeps : (b : BufferPool) → Keeps b (missed b)
missed-Keeps b = record {
  same_size = refl;
  same_count = refl;
  same_seen = λ jd i lt. missed_seen b jd i (b.page_table jd);
  pinned = λ g holds pins. (refl, omega arith);
}

Fetched-after : (b c d : BufferPool) (id f : ℕ) → Keeps b c → Fetched c id f d → Fetched b id f d
Fetched-after b c d id f k l = record {
  valid = l.valid;
  keeps = Keeps-trans b c d k l.keeps;
  holds_page = l.holds_page;
  is_pinned = l.is_pinned;
  right_bytes = λ i lt. l.right_bytes i lt ∙ k.same_seen id i lt;
}

-- When page `id` is asked for: every page in memory stays in its frame, with its mark of having been changed
-- and its pins, one more for page `id`; or it is put out. A page that is put out has been written back,
-- since the clients see the same bytes on disk.
abbrev pub Marks : BufferPool → ℕ → BufferPool → Type 0
Marks b id c =
    (jd g : ℕ)
    → b.page_table jd ≡ some g
    → (c.page_table jd ≡ none)
      ⊎ (c.page_table jd ≡ some g)
        × ((c.frames g).is_dirty ≡ (b.frames g).is_dirty)
        × ((c.frames g).pin_count ≡ (b.frames g).pin_count + (if jd == id then 1 else 0))

fetch_hit-Marks :
    (b : BufferPool) (id f : ℕ) → IsValid b → b.page_table id ≡ some f → Marks b id (fetch_hit b f)
unfolding fetch_hit update
fetch_hit-Marks b id f v here jd g there =
    let (u, small, has, low) = v.in_table id f here in
    let (w, smaller, had, lower) = v.in_table jd g there in
    let pins = hit_pin b v id f here g in
    elim (eq_cases f g) [
      | inl (hit, same) ↦
          let at : jd ≡ id = sym had ∙ ap (λ k. (b.frames k).page_id) (sym same) ∙ has in
          inr (there, rw hit (ap (λ k. (b.frames k).is_dirty) same), ground (arith, pins, hit, at))
      | inr (miss, differ) ↦
          let apart : jd ≢ id =
            λ at. differ (same_option f g (sym here ∙ ap b.page_table (sym at) ∙ there)) in
          inr (there, rw miss refl, ground (arith, pins, miss, apart))
    ]

Status-cases : (s : Status) → (s ≡ ok tt) ⊎ ((code : Code) × (s ≡ err code))
Status-cases (ok tt) = inl refl
Status-cases (err code) = inr (code, refl)

-- Only the page that is asked for and the frame that it is put in change.
module _ (c : BufferPool) (f id : ℕ) where
  load_table : (jd : ℕ) → id ≢ jd → (load c f id).1.page_table jd ≡ c.page_table jd
  unfolding load update
  load_table jd apart =
      let miss : (id == jd) ≡ false = ground (arith, apart) in
      elim (Status-cases (read_page c.page_manager id blank).0) [
        | inl fine ↦ rw (load, fine, miss) refl
        | inr (code, failed) ↦ rw (load, failed) refl
      ]

  load_frames : (g : ℕ) → f ≢ g → (load c f id).1.frames g ≡ c.frames g
  unfolding load update
  load_frames g apart =
      let miss : (f == g) ≡ false = ground (arith, apart) in
      elim (Status-cases (read_page c.page_manager id blank).0) [
        | inl fine ↦ rw (load, fine, miss) refl
        | inr (code, failed) ↦ rw (load, failed, miss) refl
      ]

missed-Marks : (b : BufferPool) (id : ℕ) → b.page_table id ≡ none → Marks b id (missed b)
missed-Marks b id out jd g there =
    let apart : jd ≢ id =
      λ at. absurd (ground (arith, sym out ∙ ap b.page_table (sym at) ∙ there)) in
    inr (there, refl, ground (arith, apart))

-- Frame `f` is made vacant and given page `id`, or none.
module _ (b : BufferPool) (v : IsValid b) (left lru : List ℕ) (f id : ℕ)
    (out : b.page_table id ≡ none) where
  vacate-Marks :
      (jd g : ℕ)
      → b.page_table jd ≡ some g
      → let c = vacate (with_lists (missed b) left lru) f in
        (c.page_table jd ≡ none) ⊎ ((c.page_table jd ≡ some g) × (f ≢ g))
  unfolding vacate update
  vacate-Marks jd g there =
      let (u, small, has, low) = v.in_table jd g there in
      elim (eq_cases f g) [
        | inl (hit, same) ↦
            let here : (b.frames f).page_id ≡ jd = ap (λ k. (b.frames k).page_id) same ∙ has in
            inl (ground (arith, here, low.0))
        | inr (miss, differ) ↦ elim (eq_cases (b.frames f).page_id jd) [
          | inl (at, here) ↦ inl (ground (arith, here, low.0))
          | inr (beside, away) ↦ inr (ground (arith, beside, there), differ)
        ]
      ]

  load-Marks : Marks b id (load (vacate (with_lists (missed b) left lru) f) f id).1
  load-Marks jd g there =
      let c = vacate (with_lists (missed b) left lru) f in
      let apart : id ≢ jd =
        λ same. absurd (ground (arith, sym out ∙ ap b.page_table same ∙ there)) in
      let frames = vacate_frames (with_lists (missed b) left lru) f in
      elim (vacate-Marks jd g there) [
        | inl gone ↦ inl (load_table c f id jd apart ∙ gone)
        | inr (kept, other) ↦ inr (
          load_table c f id jd apart ∙ kept,
          ap (λ k. k.is_dirty) (load_frames c f id g other) ∙ ap (λ k. (k g).is_dirty) frames,
          ground (
            arith,
            apart,
            ap (λ k. k.pin_count) (load_frames c f id g other) ∙ ap (λ k. (k g).pin_count) frames,
          ),
        )
      ]

refused_lem : (b : BufferPool) (id : ℕ) → out_of_range b.page_manager id ≡ true → ¬ OnDisk b id
refused_lem b id refused (low, given) = ground arith

-- `fetch_page` on every branch. A page that is in memory, and one that is in the data file while a frame
-- is free or unpinned, is answered with a pinned frame that holds the page's bytes. There is no answer
-- only for a page that is not in memory, and then it is not in the data file or no frame is free or
-- unpinned. In both cases every page reads as before, no pinned frame loses its page, and every page in
-- memory stays in its frame, with its mark of having been changed and its pins, one more for the page
-- that was asked for, or is put out.
pub fetch_page_lem :
    (b : BufferPool) (id : ℕ)
    → IsValid b
    → ((f : ℕ) × ((fetch_page b id).0 ≡ some f)
        × Fetched b id f (fetch_page b id).1
        × Marks b id (fetch_page b id).1)
      ⊎ ((fetch_page b id).0 ≡ none)
        × IsValid (fetch_page b id).1
        × Keeps b (fetch_page b id).1
        × Marks b id (fetch_page b id).1
        × (b.page_table id ≡ none)
        × ((¬ OnDisk b id) ⊎ (b.free_list ≡ []) × (b.replacer ≡ []))
unfolding fetch_page fetch_into
fetch_page_lem b id v = elim (Option-cases (b.page_table id)) [
  | inr (f, here) ↦ inl (
    f,
    rw (fetch_page, here) refl,
    rw (fetch_page, here) (fetch_page_hit b id f v here),
    rw (fetch_page, here) (fetch_hit-Marks b id f v here),
  )
  | inl out ↦
      let w = missed-IsValid b v in
      elim (find_victim_frame_lem (missed b) w) [
        | inl (e, none_free, none_idle) ↦ inr (
            rw (fetch_page, out, e)
              (refl, w, missed-Keeps b, missed-Marks b id out, refl, inr (none_free, none_idle)))
        | inr (f, left, lru, e, t) ↦
            let c = vacate (with_lists (missed b) left lru) f in
            let (vac, kept) = vacate-Vacant (missed b) w f left lru t in
            let keeps = Keeps-trans b (missed b) c (missed-Keeps b) kept in
            let frames = vacate_frames (with_lists (missed b) left lru) f in
            let off = vacate_table (with_lists (missed b) left lru) f id out in
            let idle : Holds c f → (c.frames f).pin_count ≡ 0 = λ held.
              ap (λ k. (k f).pin_count) frames
              ∙ t.unpinned (rw kept.same_size at held.0, rw frames at held.1) in
            elim (Bool-cases (out_of_range c.page_manager id)) [
              | inr inside ↦
                  let (found, fetched) = load_ok c f id vac off idle inside in
                  inl (
                    f,
                    rw (fetch_page, out, e) found,
                    rw (fetch_page, out, e) (Fetched-after b c _ id f keeps fetched),
                    rw (fetch_page, out, e) (load-Marks b v left lru f id out),
                  )
              | inl refused ↦
                  let (lost, valid, more) = load_err c f id vac off idle refused in
                  inr (
                    rw (fetch_page, out, e)
                      (
                        lost,
                        valid,
                        Keeps-trans b c _ keeps more,
                        load-Marks b v left lru f id out,
                        refl,
                        inl (refused_lem b id (rw keeps.same_count at refused)),
                      ))
            ]
      ]
]

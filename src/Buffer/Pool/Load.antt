-- ===== src/Buffer/Pool/Load.antt =====
-- A page is read into an empty frame of buffer/buffer_pool.cpp, or is found not to exist.
use database_engine.Base.{
  ℕ, ◌≤◌, ◌<◌, ◌≡◌, refl, sym, ap, ◌∙◌, subst, ◌≢◌, ◌⊎◌, inl, inr, true, false, Option, none, some,
  ◌∷◌, arith, ◌==◌, Bool-cases,
}
use database_engine.Util.Status.{ok}
use database_engine.Util.Maps.{update}
use database_engine.Util.Sets.{contains, nat_eq}
use database_engine.Storage.Page.{Page, blank, page_size}
use database_engine.Storage.PageFile.{read_page, out_of_range}
use database_engine.Storage.PageFile.Contents.{read_page_lem}
use database_engine.Buffer.Replacer.{Once}
use database_engine.Buffer.Pool.{Frame, BufferPool, reset, set_frame, load}
use database_engine.Buffer.Pool.Invariant.{OnDisk, Holds, IsValid, Vacant, seen_at, seen, Keeps}
use database_engine.Buffer.Pool.Fill.{
  filled, filled-IsValid, seen-filled, frame_at, frame_beside, eq_cases,
}

pub Keeps-trans : (b c d : BufferPool) → Keeps b c → Keeps c d → Keeps b d
Keeps-trans b c d k l = record {
  same_size = l.same_size ∙ k.same_size;
  same_count = l.same_count ∙ k.same_count;
  same_seen = λ id i lt. l.same_seen id i lt ∙ k.same_seen id i lt;
  pinned = λ f holds pins.
      let (same, more) = k.pinned f holds pins in
      let held : Holds c f = (rw k.same_size holds.0, rw same holds.1) in
      let (again, yet_more) = l.pinned f held (omega arith) in (again ∙ same, omega arith);
}

-- The pool answers with a frame that holds the page, pinned, and its bytes are those of the page.
pub record Fetched (b : BufferPool) (id f : ℕ) (c : BufferPool) : Type 0 where
  pub valid : IsValid c
  pub keeps : Keeps b c
  pub holds_page : (c.frames f).page_id ≡ id
  pub is_pinned : 1 ≤ (c.frames f).pin_count
  pub right_bytes : (i : ℕ) → i < page_size → (c.frames f).page i ≡ seen b id i

unpinned_apart :
    (c : BufferPool) (f g : ℕ)
    → (Holds c f → (c.frames f).pin_count ≡ 0)
    → Holds c g
    → 1 ≤ (c.frames g).pin_count
    → f ≢ g
unpinned_apart c f g idle holds pins same =
    let held : Holds c f = (
      subst (λ k. k < c.pool_size) (sym same) holds.0,
      λ e. holds.1 (ap (λ k. (c.frames k).page_id) (sym same) ∙ e),
    ) in
    omega (arith, idle held, ap (λ k. (c.frames k).pin_count) same)

module _ (c : BufferPool) (f id : ℕ) (vac : Vacant c f) (out : c.page_table id ≡ none)
    (idle : Holds c f → (c.frames f).pin_count ≡ 0) where
  load-filled :
      (read_page c.page_manager id blank).0 ≡ ok tt
      → load c f id ≡ (
        some f,
        filled c f id (record {
          page = (read_page c.page_manager id blank).1;
          page_id = id;
          pin_count = 1;
          is_dirty = false;
        }),
      )
  unfolding load
  load-filled read = rw (load, read) refl

  -- The page is read into the empty frame.
  pub load_ok :
      out_of_range c.page_manager id ≡ false
      → ((load c f id).0 ≡ some f) × Fetched c id f (load c f id).1
  load_ok inside = elim (read_page_lem c.page_manager vac.0.disk id blank) [
    | inr (refused, e) ↦ absurd (ground (arith, inside, refused))
    | inl (ins, read, bytes) ↦
        let page = (read_page c.page_manager id blank).1 in
        let low : OnDisk c id = ground (arith, inside) in
        let at = frame_at c f vac id low out page false in
        rw (load-filled read) (
          refl,
          record {
            valid = filled-IsValid c f vac id low out page false;
            keeps = record {
              same_size = refl;
              same_count = refl;
              same_seen = λ jd i lt.
                  seen-filled c f vac id low out page false jd i ∙ elim (eq_cases id jd) [
                    | inl (hit, same) ↦ rw (hit, sym same, out) (bytes i lt)
                    | inr (miss, differ) ↦ rw miss refl
                  ];
              pinned = λ g holds pins.
                  let apart = unpinned_apart c f g idle holds pins in
                  rw (frame_beside c f vac id low out page false g apart) (refl, omega arith);
            };
            holds_page = ap (λ (k : Frame). k.page_id) at;
            is_pinned = rw at (omega arith);
            right_bytes = λ i lt. rw (at, out) (bytes i lt);
          },
        )
  ]

  abbrev returned : Page → BufferPool
  returned page = record (set_frame c f (record reset { page = page })) {
    free_list = f ∷ c.free_list;
  }

  returned_at : (page : Page) → (returned page).frames f ≡ record reset { page = page }
  unfolding update
  returned_at page = ground arith

  returned_beside : (page : Page) (g : ℕ) → f ≢ g → (returned page).frames g ≡ c.frames g
  unfolding update
  returned_beside page g n = let miss : (f == g) ≡ false = ground (arith, n) in rw miss refl

  listed_free :
      (g : ℕ) → contains (f ∷ c.free_list) g ≡ true → (f ≡ g) ⊎ (contains c.free_list g ≡ true)
  unfolding contains
  listed_free g there = ground (arith, there)

  free_again : Once (f ∷ c.free_list)
  unfolding Once
  free_again = (
    elim (Bool-cases (contains c.free_list f)) [
      | inl there ↦ absurd ((vac.0.free f there).0 refl)
      | inr away ↦ away
    ],
    vac.0.free_once,
  )

  held_beside : (page : Page) (g : ℕ) → Holds (returned page) g → f ≢ g
  held_beside page g holds same = holds.1 (
      ap (λ k. ((returned page).frames k).page_id) (sym same)
      ∙ ap (λ (k : Frame). k.page_id) (returned_at page))

  returned-IsValid : (page : Page) → IsValid (returned page)
  returned-IsValid page =
      let v = vac.0 in
      record {
        disk = v.disk;
        in_table = λ jd g found.
            let (n, small, has, low) = v.in_table jd g found in
            rw (returned_beside page g (λ e. n (sym e))) (tt, small, has, low);
        in_frame = λ g u holds.
            let n = held_beside page g holds in
            rw (returned_beside page g n)
              (v.in_frame g (λ e. n (sym e)) (rw (returned_beside page g n) at holds));
        evictable = λ g there.
            let (n, holds, pins) = v.evictable g there in
            rw (returned_beside page g (λ e. n (sym e))) (tt, holds, pins);
        listed = λ g u holds pins.
            let n = held_beside page g holds in
            v.listed g (λ e. n (sym e)) (rw (returned_beside page g n) at holds)
              (rw (returned_beside page g n) at pins);
        free = λ g there. elim (listed_free g there) [
          | inl same ↦ (
            tt,
            subst (λ k. k < c.pool_size) same vac.1,
            ap (λ k. ((returned page).frames k).page_id) (sym same)
                ∙ ap (λ (k : Frame). k.page_id) (returned_at page),
          )
          | inr was ↦
              let (n, small, empty) = v.free g was in
              rw (returned_beside page g (λ e. n (sym e))) (tt, small, empty)
        ];
        replacer_once = v.replacer_once;
        free_once = free_again;
        clean = λ g u holds pins dirt.
            let n = held_beside page g holds in
            rw (returned_beside page g n) (
              v.clean g (λ e. n (sym e)) (rw (returned_beside page g n) at holds)
                (rw (returned_beside page g n) at pins) (rw (returned_beside page g n) at dirt));
      }

  returned_seen :
      (page : Page) (jd i : ℕ) (place : Option ℕ)
      → c.page_table jd ≡ place
      → seen_at (returned page) jd place i ≡ seen_at c jd place i
  returned_seen page jd i none e = refl
  returned_seen page jd i (some g) e =
      let (n, small, has, low) = vac.0.in_table jd g e in
      ap (λ (k : Frame). k.page i) (returned_beside page g (λ e. n (sym e)))

  returned-Keeps : (page : Page) → Keeps c (returned page)
  returned-Keeps page = record {
    same_size = refl;
    same_count = refl;
    same_seen = λ jd i lt. returned_seen page jd i (c.page_table jd) refl;
    pinned = λ g holds pins.
        rw (returned_beside page g (unpinned_apart c f g idle holds pins)) (refl, omega arith);
  }

  -- The page does not exist: the frame goes back to the free list.
  pub load_err :
      out_of_range c.page_manager id ≡ true
      → ((load c f id).0 ≡ none) × IsValid (load c f id).1 × Keeps c (load c f id).1
  unfolding load
  load_err refused = elim (read_page_lem c.page_manager vac.0.disk id blank) [
    | inl (inside, read, bytes) ↦ absurd (ground (arith, inside, refused))
    | inr (out_there, e) ↦ rw (load, ap (λ r. r.0) e) (refl, returned-IsValid _, returned-Keeps _)
  ]

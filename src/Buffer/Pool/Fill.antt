-- ===== src/Buffer/Pool/Fill.antt =====
-- A page is put into an empty frame of buffer/buffer_pool.cpp, or a resident page is pinned again.
use database_engine.Base.{
  ℕ, ◌≡◌, refl, sym, ap, ◌∙◌, ◌≢◌, ◌⊎◌, inl, inr, Bool, true, false, Option, none, some, arith,
  ◌==◌, if◌then◌else◌, ==_iff,
}
use database_engine.Util.Maps.{update}
use database_engine.Util.Sets.{nat_eq}
use database_engine.Storage.Page.{Page}
use database_engine.Buffer.Pool.{Frame, BufferPool}
use database_engine.Buffer.Pool.Invariant.{OnDisk, Holds, IsValid, Vacant, seen_at, seen}
use database_engine.Buffer.Pool.Vacant.{same_option}

-- Frame `f` with another content, and the table entry of its page.
abbrev pub filled : BufferPool → ℕ → ℕ → Frame → BufferPool
filled c f id frame = record c {
  frames = update c.frames f frame;
  page_table = update c.page_table id (some f);
}

-- The decision whether two frames or pages are the same.
pub eq_cases : (m n : ℕ) → (((m == n) ≡ true) × (m ≡ n)) ⊎ (((m == n) ≡ false) × (m ≢ n))
eq_cases m n = ground arith

==_refl : (n : ℕ) → (n == n) ≡ true
==_refl n = (==_iff n n).1 refl

module _ (c : BufferPool) (f : ℕ) (vac : Vacant c f) (id : ℕ) (on_disk : OnDisk c id)
    (out : c.page_table id ≡ none) (p : Page) (d : Bool) where
  abbrev pub new_frame : Frame
  new_frame = record { page = p; page_id = id; pin_count = 1; is_dirty = d }

  abbrev new_pool_of : BufferPool
  new_pool_of = filled c f id new_frame

  pub frame_at : (filled c f id new_frame).frames f ≡ new_frame
  unfolding update
  frame_at = rw (==_refl f) refl

  pub frame_beside : (g : ℕ) → f ≢ g → (filled c f id new_frame).frames g ≡ c.frames g
  unfolding update
  frame_beside g n = let miss : (f == g) ≡ false = ground (arith, n) in rw miss refl

  table_at : (filled c f id new_frame).page_table id ≡ some f
  unfolding update
  table_at = rw (==_refl id) refl

  table_beside : (jd : ℕ) → id ≢ jd → (filled c f id new_frame).page_table jd ≡ c.page_table jd
  unfolding update
  table_beside jd n = let miss : (id == jd) ≡ false = ground (arith, n) in rw miss refl

  -- No other frame has the page.
  beside_page : (g : ℕ) → f ≢ g → Holds c g → id ≢ (c.frames g).page_id
  beside_page g n holds same =
      let there = vac.0.in_frame g (λ e. n (sym e)) holds in
      absurd (ground (arith, sym out ∙ ap c.page_table same ∙ there))

  pub filled-IsValid : IsValid (filled c f id new_frame)
  filled-IsValid =
      let v = vac.0 in
      record {
        disk = v.disk;
        in_table = λ jd g found. elim (eq_cases id jd) [
          | inl (hit, same) ↦
              let fg = same_option f g (sym table_at ∙ ap new_pool_of.page_table same ∙ found) in
              rw (sym fg, sym same, frame_at) (tt, vac.1, refl, on_disk)
          | inr (miss, differ) ↦
              let (n, small, has, low) = v.in_table jd g (sym (table_beside jd differ) ∙ found) in
              rw (frame_beside g (λ e. n (sym e))) (tt, small, has, low)
        ];
        in_frame = λ g u holds. elim (eq_cases f g) [
          | inl (hit, same) ↦ rw (sym same, frame_at, table_at) refl
          | inr (miss, differ) ↦
              let was : Holds c g = rw (frame_beside g differ) at holds in
              rw (frame_beside g differ, table_beside _ (beside_page g differ was))
                (v.in_frame g (λ e. differ (sym e)) was)
        ];
        evictable = λ g there.
            let (n, holds, pins) = v.evictable g there in
            rw (frame_beside g (λ e. n (sym e))) (tt, holds, pins);
        listed = λ g u holds pins. elim (eq_cases f g) [
          | inl (hit, same) ↦ absurd (
              omega (
                arith,
                ap (λ k. (new_pool_of.frames k).pin_count) same,
                pins,
                ap (λ k. k.pin_count) frame_at,
              ))
          | inr (miss, differ) ↦
              v.listed g (λ e. differ (sym e)) (rw (frame_beside g differ) at holds)
                (rw (frame_beside g differ) at pins)
        ];
        free = λ g there.
            let (n, small, empty) = v.free g there in
            rw (frame_beside g (λ e. n (sym e))) (tt, small, empty);
        replacer_once = v.replacer_once;
        free_once = v.free_once;
        clean = λ g u holds pins dirt. elim (eq_cases f g) [
          | inl (hit, same) ↦ absurd (
              omega (
                arith,
                ap (λ k. (new_pool_of.frames k).pin_count) same,
                pins,
                ap (λ k. k.pin_count) frame_at,
              ))
          | inr (miss, differ) ↦ rw (frame_beside g differ) (
              v.clean g (λ e. differ (sym e)) (rw (frame_beside g differ) at holds)
                (rw (frame_beside g differ) at pins) (rw (frame_beside g differ) at dirt))
        ];
      }

  seen_beside :
      (jd i : ℕ) (place : Option ℕ)
      → c.page_table jd ≡ place
      → seen_at (filled c f id new_frame) jd place i ≡ seen_at c jd place i
  seen_beside jd i none e = refl
  seen_beside jd i (some g) e =
      let (n, small, has, low) = vac.0.in_table jd g e in
      ap (λ (k : Frame). k.page i) (frame_beside g (λ e. n (sym e)))

  -- The new page reads as what was put there; the others read as before.
  pub seen-filled :
      (jd i : ℕ) → seen (filled c f id new_frame) jd i ≡ (if id == jd then p i else seen c jd i)
  seen-filled jd i = elim (eq_cases id jd) [
    | inl (hit, same) ↦
        ap (λ k. seen (filled c f id new_frame) k i) (sym same)
        ∙ ap (λ t. seen_at (filled c f id new_frame) id t i) table_at
        ∙ ap (λ (k : Frame). k.page i) frame_at
        ∙ rw hit refl
    | inr (miss, differ) ↦
        rw (miss, table_beside jd differ) (seen_beside jd i (c.page_table jd) refl)
  ]

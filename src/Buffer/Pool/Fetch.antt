-- ===== src/Buffer/Pool/Fetch.antt =====
-- A page that `FetchPage` of buffer/buffer_pool.cpp finds in memory.
use database_engine.Base.{
  ℕ, ◌+◌, ◌≡◌, refl, sym, ap, ◌∙◌, inl, inr, true, false, Option, none, some, arith, ◌==◌,
  if◌then◌else◌, ==_iff, Bool-cases,
}
use database_engine.Util.Maps.{update}
use database_engine.Util.Sets.{contains, nat_eq}
use database_engine.Storage.Page.{Page}
use database_engine.Buffer.Replacer.{Once, contains-pin, pin-Once}
use database_engine.Buffer.Pool.{BufferPool, fetch_hit}
use database_engine.Buffer.Pool.Invariant.{IsValid, seen_at, Keeps}
use database_engine.Buffer.Pool.Fill.{eq_cases}

module _ (b : BufferPool) (v : IsValid b) (id f : ℕ) (here : b.page_table id ≡ some f) where
  pub hit_id : (g : ℕ) → ((fetch_hit b f).frames g).page_id ≡ (b.frames g).page_id
  unfolding fetch_hit update
  hit_id g = ground (arith, ap (λ k. (b.frames k).page_id))

  pub hit_page : (g : ℕ) → ((fetch_hit b f).frames g).page ≡ (b.frames g).page
  unfolding fetch_hit update
  hit_page g = elim (eq_cases f g) [
    | inl (hit, same) ↦ rw hit (ap (λ k. (b.frames k).page) same)
    | inr (miss, differ) ↦ rw miss refl
  ]

  hit_dirty : (g : ℕ) → ((fetch_hit b f).frames g).is_dirty ≡ (b.frames g).is_dirty
  unfolding fetch_hit update
  hit_dirty g = elim (eq_cases f g) [
    | inl (hit, same) ↦ rw hit (ap (λ k. (b.frames k).is_dirty) same)
    | inr (miss, differ) ↦ rw miss refl
  ]

  pub hit_pin :
      (g : ℕ)
      → ((fetch_hit b f).frames g).pin_count ≡ (b.frames g).pin_count + (if f == g then 1 else 0)
  unfolding fetch_hit update
  hit_pin g = elim (eq_cases f g) [
    | inl (hit, same) ↦ rw hit (ap (λ k. (b.frames k).pin_count + 1) same)
    | inr (miss, differ) ↦ rw miss (omega arith)
  ]

  hit_replacer :
      (g : ℕ)
      → contains (fetch_hit b f).replacer g ≡ (if f == g then false else contains b.replacer g)
  unfolding fetch_hit
  hit_replacer g = elim (Bool-cases (contains b.replacer f)) [
    | inl there ↦
        let (u, holds, pins) = v.evictable f there in
        rw ((==_iff (b.frames f).pin_count 0).1 pins) (contains-pin b.replacer f g)
    | inr out ↦ ground (arith, contains-pin b.replacer f g, ap (contains b.replacer))
  ]

  hit-Once : Once (fetch_hit b f).replacer
  unfolding fetch_hit
  hit-Once = ground (arith, v.replacer_once, pin-Once b.replacer f v.replacer_once)

  pub fetch_hit-IsValid : IsValid (fetch_hit b f)
  unfolding fetch_hit
  fetch_hit-IsValid = record {
    disk = v.disk;
    in_table = λ jd g found.
        let (u, small, has, low) = v.in_table jd g found in (tt, small, hit_id g ∙ has, low);
    in_frame = λ g u holds. rw (hit_id g) (v.in_frame g tt (holds.0, rw (hit_id g) at holds.1));
    evictable = λ g there.
        let was : contains b.replacer g ≡ true = ground (arith, there, hit_replacer g) in
        let (u, holds, pins) = v.evictable g was in
        (
          tt,
          (holds.0, rw (hit_id g) holds.1),
          ground (arith, hit_pin g, hit_replacer g, there, pins),
        );
    listed = λ g u holds pins.
        let was =
          v.listed g tt (holds.0, rw (hit_id g) at holds.1) (omega (arith, hit_pin g, pins)) in
        ground (arith, hit_replacer g, hit_pin g, was, pins);
    free = λ g there. let (u, small, empty) = v.free g there in (tt, small, hit_id g ∙ empty);
    replacer_once = hit-Once;
    free_once = v.free_once;
    clean = λ g u holds pins dirt.
        rw (hit_page g, hit_id g)
          (v.clean g tt (holds.0, rw (hit_id g) at holds.1) (omega (arith, hit_pin g, pins))
            (sym (hit_dirty g) ∙ dirt));
  }

  hit_seen :
      (jd i : ℕ) (place : Option ℕ) → seen_at (fetch_hit b f) jd place i ≡ seen_at b jd place i
  unfolding fetch_hit
  hit_seen jd i none = refl
  hit_seen jd i (some g) = ap (λ (p : Page). p i) (hit_page g)

  pub fetch_hit-Keeps : Keeps b (fetch_hit b f)
  unfolding fetch_hit
  fetch_hit-Keeps = record {
    same_size = refl;
    same_count = refl;
    same_seen = λ jd i lt. hit_seen jd i (b.page_table jd);
    pinned = λ g holds pins. (hit_id g, omega (arith, hit_pin g));
  }

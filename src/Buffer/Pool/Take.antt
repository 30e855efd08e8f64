-- ===== src/Buffer/Pool/Take.antt =====
-- `FindVictimFrame` of buffer/buffer_pool.cpp: the frame that it takes.
use database_engine.Base.{
  ℕ, ◌<◌, ◌≡◌, refl, ap, ◌∙◌, ◌≢◌, ◌⊎◌, inl, inr, true, false, none, some, List, [], ◌∷◌, arith,
  ◌==◌, if◌then◌else◌,
}
use database_engine.Util.Sets.{contains, nat_eq}
use database_engine.Buffer.Replacer.{LruReplacer, victim, Once, victim_lem}
use database_engine.Buffer.Pool.{BufferPool, find_victim_frame}
use database_engine.Buffer.Pool.Invariant.{Holds, IsValid}

-- The frame that `FindVictimFrame` takes is in no list any more, and nobody holds it.
pub record Taken (b : BufferPool) (f : ℕ) (left : List ℕ) (lru : LruReplacer) : Type 0 where
  pub in_pool : f < b.pool_size
  pub unpinned : Holds b f → (b.frames f).pin_count ≡ 0
  pub free_rest : (g : ℕ) → contains left g ≡ true → (g ≢ f) × (contains b.free_list g ≡ true)
  pub lru_rest : (g : ℕ) → contains lru g ≡ true → (g ≢ f) × (contains b.replacer g ≡ true)
  pub lru_keeps : (g : ℕ) → g ≢ f → contains b.replacer g ≡ true → contains lru g ≡ true
  pub lru_once : Once lru
  pub left_once : Once left

abbrev pub with_lists : BufferPool → List ℕ → LruReplacer → BufferPool
with_lists b left lru = record b { free_list = left; replacer = lru }

list_cases : (xs : List ℕ) → (xs ≡ []) ⊎ ((x : ℕ) × (rest : List ℕ) × (xs ≡ x ∷ rest))
list_cases [] = inl refl
list_cases (x ∷ xs) = inr (x, xs, refl)

module _ (b : BufferPool) (v : IsValid b) where
  free-Taken : (f : ℕ) (left : List ℕ) → b.free_list ≡ f ∷ left → Taken b f left b.replacer
  free-Taken f left e =
      let here : contains b.free_list f ≡ true = rw e (unfold contains in ground arith) in
      let once : Once (f ∷ left) = rw e at v.free_once in
      let (u, small, empty) = v.free f here in
      let parts : (contains left f ≡ false) × Once left = unfold Once in once in
      let (out, rest) = parts in
      record {
        in_pool = small;
        unpinned = λ h. absurd (h.1 empty);
        free_rest = λ g there. (
          λ same. ground (arith, ap (contains left) same),
          rw e (unfold contains in ground (arith, there)),
        );
        lru_rest = λ g there. (
          λ same. (v.evictable g there).1.1 (ap (λ k. (b.frames k).page_id) same ∙ empty),
          there,
        );
        lru_keeps = λ g n there. there;
        lru_once = v.replacer_once;
        left_once = rest;
      }

  lru-Taken :
      (f : ℕ) (lru : LruReplacer)
      → b.free_list ≡ []
      → contains b.replacer f ≡ true
      → Once lru
      → ((g : ℕ) → contains lru g ≡ (if f == g then false else contains b.replacer g))
      → Taken b f [] lru
  lru-Taken f lru none_free there once rest =
      let (u, holds, pins) = v.evictable f there in
      record {
        in_pool = holds.0;
        unpinned = λ h. pins;
        free_rest = λ g e. absurd (unfold contains in ground (arith, e));
        lru_rest = λ g e. ground (arith, rest g, e);
        lru_keeps = λ g n e. ground (arith, rest g, e);
        lru_once = once;
        left_once = unfold Once in tt;
      }

  pub find_victim_frame_lem :
      ((find_victim_frame b ≡ (none, b)) × (b.free_list ≡ []) × (b.replacer ≡ []))
      ⊎ ((f : ℕ) × (left : List ℕ) × (lru : LruReplacer) × (find_victim_frame b
            ≡ (some f, with_lists b left lru))
          × Taken b f left lru)
  unfolding find_victim_frame
  find_victim_frame_lem = elim (list_cases b.free_list) [
    | inr (f, left, e) ↦
        inr (f, left, b.replacer, rw (find_victim_frame, e) refl, free-Taken f left e)
    | inl none_free ↦ elim (victim_lem b.replacer v.replacer_once) [
      | inl (e, empty) ↦
          inl (rw (find_victim_frame, none_free, e) (cc (none_free, empty)), none_free, empty)
      | inr (f, found, there, once, rest) ↦ inr (
        f,
        [],
        (victim b.replacer).1,
        rw (find_victim_frame, none_free, found) (cc none_free),
        lru-Taken f _ none_free there once rest,
      )
    ]
  ]

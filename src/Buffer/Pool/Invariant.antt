-- ===== src/Buffer/Pool/Invariant.antt =====
-- What holds of buffer/buffer_pool.cpp between its calls.
use database_engine.Base.{
  ℕ, zero, suc, ◌^◌, ◌≤◌, ◌<◌, ◌≡◌, refl, ◌≢◌, inl, inr, true, false, Option, none, some, arith,
  Bool-cases,
}
use database_engine.Util.Sets.{contains, nat_eq}
use database_engine.Storage.Page.{invalid_page_id, page_size}
use database_engine.Storage.PageFile.{PageManager}
use database_engine.Storage.PageFile.Contents.{
  content, write_page-out_of_range, read_page_lem, Written,
}
use database_engine.Storage.PageFile.Contents
use database_engine.Buffer.Replacer.{Once}
use database_engine.Buffer.Pool.{BufferPool, new_pool, frames_below}

-- A page that has been given out.
abbrev pub OnDisk : BufferPool → ℕ → Type 0
OnDisk b id = (id < 2 ^ 31) × (id < b.page_manager.page_count)

-- The frame holds a page.
abbrev pub Holds : BufferPool → ℕ → Type 0
Holds b f = (f < b.pool_size) × ((b.frames f).page_id ≢ invalid_page_id)

-- The frame's page is as it is on disk.
abbrev pub Clean : BufferPool → ℕ → Type 0
Clean b f =
    (i : ℕ) → i < page_size → (b.frames f).page i ≡ content b.page_manager (b.frames f).page_id i

-- All that holds of the pool but for one frame, which is being given another page; `Other f` says which
-- frames are meant.
pub record ValidFor (b : BufferPool) (Other : ℕ → Type 0) : Type 0 where
  pub disk : Contents.IsValid b.page_manager
  pub in_table :
      (id f : ℕ)
      → b.page_table id ≡ some f
      → Other f × (f < b.pool_size) × ((b.frames f).page_id ≡ id) × OnDisk b id
  pub in_frame : (f : ℕ) → Other f → Holds b f → b.page_table (b.frames f).page_id ≡ some f
  pub evictable :
      (f : ℕ) → contains b.replacer f ≡ true → Other f × Holds b f × ((b.frames f).pin_count ≡ 0)
  pub listed :
      (f : ℕ) → Other f → Holds b f → (b.frames f).pin_count ≡ 0 → contains b.replacer f ≡ true
  pub free :
      (f : ℕ)
      → contains b.free_list f ≡ true
      → Other f × (f < b.pool_size) × ((b.frames f).page_id ≡ invalid_page_id)
  pub replacer_once : Once b.replacer
  pub free_once : Once b.free_list
  pub clean :
      (f : ℕ)
      → Other f
      → Holds b f
      → (b.frames f).pin_count ≡ 0
      → (b.frames f).is_dirty ≡ false
      → Clean b f

abbrev pub AllFrames : ℕ → Type 0
AllFrames f = Unit {0}

-- Between two calls.
abbrev pub IsValid : BufferPool → Type 0
IsValid b = ValidFor b AllFrames

-- Frame `f` is empty and in no list.
abbrev pub Vacant : BufferPool → ℕ → Type 0
Vacant b f = ValidFor b (λ g. g ≢ f) × (f < b.pool_size)

-- A byte of a page as the clients see it: in memory if the page is there, else on disk.
abbrev pub seen_at : BufferPool → ℕ → Option ℕ → ℕ → ℕ
seen_at b id none i = content b.page_manager id i
seen_at b id (some f) i = (b.frames f).page i

abbrev pub seen : BufferPool → ℕ → ℕ → ℕ
seen b id i = seen_at b id (b.page_table id) i

-- No page changed for the clients, and pinned frames were left alone.
pub record Keeps (b c : BufferPool) : Type 0 where
  pub same_size : c.pool_size ≡ b.pool_size
  pub same_count : c.page_manager.page_count ≡ b.page_manager.page_count
  pub same_seen : (id i : ℕ) → i < page_size → seen c id i ≡ seen b id i
  pub pinned :
      (f : ℕ)
      → Holds b f
      → 1 ≤ (b.frames f).pin_count
      → ((c.frames f).page_id ≡ (b.frames f).page_id)
        × ((b.frames f).pin_count ≤ (c.frames f).pin_count)

below-frames_below : (n f : ℕ) → contains (frames_below n) f ≡ true → f < n
unfolding frames_below contains
below-frames_below zero f h = absurd (ground arith)
below-frames_below (suc n) f h = ground (arith, below-frames_below n f)

frames_below-Once : (n : ℕ) → Once (frames_below n)
unfolding frames_below Once
frames_below-Once zero = tt
frames_below-Once (suc n) = (
  elim (Bool-cases (contains (frames_below n) n)) [
    | inl there ↦ absurd (omega (arith, below-frames_below n n there))
    | inr out ↦ out
  ],
  frames_below-Once n,
)

pub new_pool-IsValid :
    (m : PageManager) (pool_size : ℕ) → Contents.IsValid m → IsValid (new_pool m pool_size)
unfolding new_pool contains Once
new_pool-IsValid m pool_size v = record {
  disk = v;
  in_table = λ id f e. absurd (ground arith);
  in_frame = λ f o h. absurd (h.1 refl);
  evictable = λ f e. absurd (ground arith);
  listed = λ f o h. absurd (h.1 refl);
  free = λ f e. (tt, below-frames_below pool_size f e, refl);
  replacer_once = tt;
  free_once = frames_below-Once pool_size;
  clean = λ f o h. absurd (h.1 refl);
}

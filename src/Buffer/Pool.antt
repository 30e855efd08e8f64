-- ===== src/Buffer/Pool.antt =====
-- buffer/frame.hpp, buffer_pool.hpp and buffer_pool.cpp: the pages that are held in memory. A pointer to
-- a page is the id of its frame; `frames_` is a function of which `pool_size` values are used. The
-- mutex and the counts of hits as a rate are left out.
pub mod Invariant
pub mod Take
pub mod Vacant
pub mod Fill
pub mod Fetch
pub mod Load
pub mod Cache
use database_engine.Base.{
  ℕ, zero, suc, ◌+◌, ◌-◌, ◌*◌, ◌/◌, ◌%◌, ◌^◌, ◌≤◌, ◌<◌, ◌≡◌, refl, sym, ap, ◌∙◌, fun_ext, subst,
  ◌≢◌, ◌↔◌, ◌⊎◌, inl, inr, Bool, true, false, not, ◌&&◌, ◌||◌, Option, none, some, List, [], ◌∷◌,
  ◌++◌, map, append_assoc, append-nil, arith, ltb, leb, ◌==◌, if◌then◌else◌, ltb→lt, lt→ltb, le→ltb,
  leb→le, ==_iff, Bool-cases, Option-cases, lt-or-le, length, get_elem?, set, get_or, take, drop,
  replicate, All, length-append, length-replicate, take_append, drop_append, length-take,
  length-drop, length-set, get_elem?-set_self, get_elem?-set_ne,
}
use database_engine.Util.Status.{Result, ok, err, not_found, Status}
use database_engine.Util.Maps.{update}
use database_engine.Util.Sets.{nat_eq}
use database_engine.Storage.Page.{Page, blank, invalid_page_id}
use database_engine.Storage.PageFile.{PageManager, read_page, write_page, allocate_page}
use database_engine.Buffer.Replacer.{LruReplacer, unpin, pin, victim}

pub record Frame : Type 0 where
  pub page : Page
  pub page_id : ℕ
  pub pin_count : ℕ
  pub is_dirty : Bool

-- `Frame()` and `Reset`.
abbrev pub reset : Frame
reset = record { page = blank; page_id = invalid_page_id; pin_count = 0; is_dirty = false }

pub record BufferPool : Type 0 where
  pub page_manager : PageManager
  pub frames : ℕ → Frame
  pub pool_size : ℕ
  pub page_table : ℕ → Option ℕ
  -- The back of the vector is the front of this list.
  pub free_list : List ℕ
  pub replacer : LruReplacer
  pub hit_count : ℕ
  pub miss_count : ℕ

unfoldable pub frames_below : ℕ → List ℕ
frames_below zero = []
frames_below (suc n) = n ∷ frames_below n

unfoldable pub new_pool : PageManager → ℕ → BufferPool
unfolding frames_below
new_pool m pool_size = record {
  page_manager = m;
  frames = λ f. reset;
  pool_size = pool_size;
  page_table = λ id. none;
  free_list = frames_below pool_size;
  replacer = [];
  hit_count = 0;
  miss_count = 0;
}

abbrev pub set_frame : BufferPool → ℕ → Frame → BufferPool
set_frame b f frame = record b { frames = update b.frames f frame }

unfoldable pub find_victim_frame : BufferPool → Option ℕ × BufferPool
find_victim_frame b = elim b.free_list [
  | f ∷ left ↦ (some f, record b { free_list = left })
  | [] ↦ let (found, left) = victim b.replacer in (found, record b { replacer = left })
]

-- What `FetchPage` and `NewPage` do with the page that is in the victim's frame. What `WritePage`
-- returns is not looked at.
unfoldable pub vacate : BufferPool → ℕ → BufferPool
vacate b f =
    let frame = b.frames f in
    if frame.page_id == invalid_page_id then b else record b {
      page_manager =
          if frame.is_dirty
          then (write_page b.page_manager frame.page_id frame.page).1
          else b.page_manager;
      page_table = update b.page_table frame.page_id none;
    }

-- The page that was asked for, in a frame that holds no other.
unfoldable pub load : BufferPool → ℕ → ℕ → Option ℕ × BufferPool
load b f page_id =
    let (status, page) = read_page b.page_manager page_id blank in
    elim status [
      | err code ↦ (
        none,
        record (set_frame b f (record reset { page = page })) { free_list = f ∷ b.free_list },
      )
      | ok _ ↦ (
        some f,
        record b {
          frames =
              update b.frames f
                (record { page = page; page_id = page_id; pin_count = 1; is_dirty = false });
          page_table = update b.page_table page_id (some f);
        },
      )
    ]

unfoldable pub fetch_hit : BufferPool → ℕ → BufferPool
fetch_hit b f =
    let frame = b.frames f in
    record b {
      frames = update b.frames f (record frame { pin_count = frame.pin_count + 1 });
      replacer = if frame.pin_count == 0 then pin b.replacer f else b.replacer;
      hit_count = b.hit_count + 1;
    }

-- The rest of `FetchPage`, with what `FindVictimFrame` answered.
unfoldable pub fetch_into : Option ℕ × BufferPool → ℕ → Option ℕ × BufferPool
unfolding load vacate
fetch_into (none, b) page_id = (none, b)
fetch_into (some f, b) page_id = load (vacate b f) f page_id

unfoldable pub fetch_page : BufferPool → ℕ → Option ℕ × BufferPool
unfolding fetch_into find_victim_frame fetch_hit
fetch_page b page_id = elim (b.page_table page_id) [
  | some f ↦ (some f, fetch_hit b f)
  | none ↦ fetch_into (find_victim_frame (record b { miss_count = b.miss_count + 1 })) page_id
]

-- The page id, and the frame that the page is in.
unfoldable pub new_page : BufferPool → Option (ℕ × ℕ) × BufferPool
new_page b =
    let (allocated, m) = allocate_page b.page_manager in
    elim allocated [
      | err code ↦ (none, record b { page_manager = m })
      | ok page_id ↦
          let (found, c) = find_victim_frame (record b { page_manager = m }) in
          elim found [
            | none ↦ (none, c)
            | some f ↦
                let d = vacate c f in
                (
                  some (page_id, f),
                  record d {
                    frames =
                        update d.frames f
                          (record reset { page_id = page_id; pin_count = 1; is_dirty = true });
                    page_table = update d.page_table page_id (some f);
                  },
                )
          ]
    ]

unfoldable pub unpin_page : BufferPool → ℕ → Bool → Bool × BufferPool
unpin_page b page_id is_dirty = elim (b.page_table page_id) [
  | none ↦ (false, b)
  | some f ↦
      let frame = b.frames f in
      if frame.pin_count == 0 then (false, b) else (
        true,
        record b {
          frames = update b.frames f (record frame {
            is_dirty = frame.is_dirty || is_dirty;
            pin_count = frame.pin_count - 1;
          });
          replacer = if frame.pin_count == 1 then unpin b.replacer f else b.replacer;
        },
      )
]

unfoldable pub flush_page : BufferPool → ℕ → Status × BufferPool
flush_page b page_id = elim (b.page_table page_id) [
  | none ↦ (err not_found, b)
  | some f ↦
      let frame = b.frames f in
      let (status, m) = write_page b.page_manager page_id frame.page in
      elim status [
        | err code ↦ (err code, record b { page_manager = m })
        | ok _ ↦ (
          ok tt,
          record b {
            page_manager = m;
            frames = update b.frames f (record frame { is_dirty = false });
          },
        )
      ]
]

-- `FlushAll`, with the order in which the loop meets the entries of `page_table_`, which is unordered.
unfoldable pub flush_all : BufferPool → List (ℕ × ℕ) → Status × BufferPool
flush_all b [] = (ok tt, b)
flush_all b ((page_id, f) ∷ order) = elim (b.frames f).is_dirty [
  | false ↦ flush_all b order
  | true ↦
      let frame = b.frames f in
      let (status, m) = write_page b.page_manager page_id frame.page in
      elim status [
        | err code ↦ (err code, record b { page_manager = m })
        | ok _ ↦
            flush_all
              (record b {
                page_manager = m;
                frames = update b.frames f (record frame { is_dirty = false });
              })
              order
      ]
]

-- What the owner of a pin may do: change the page in the frame.
unfoldable pub write_frame : BufferPool → ℕ → Page → BufferPool
write_frame b f page = set_frame b f (record (b.frames f) { page = page })

-- ===== src/Recovery/Replay.antt =====
-- recovery/recovery_manager.hpp and recovery_manager.cpp: the replay of the log on the data file.
pub mod Passes
pub mod Undone
pub mod Pages
pub mod Crash
use database_engine.Base.{
  ℕ, zero, suc, ◌+◌, ◌-◌, ◌*◌, ◌/◌, ◌%◌, ◌^◌, ◌≤◌, ◌<◌, ◌≡◌, refl, sym, ap, ◌∙◌, fun_ext, subst,
  ◌≢◌, ◌↔◌, ◌⊎◌, inl, inr, Bool, true, false, not, ◌&&◌, ◌||◌, Option, none, some, List, [], ◌∷◌,
  ◌++◌, map, append_assoc, append-nil, arith, ltb, leb, ◌==◌, if◌then◌else◌, ltb→lt, lt→ltb, le→ltb,
  leb→le, ==_iff, Bool-cases, Option-cases, lt-or-le, length, get_elem?, set, get_or, take, drop,
  replicate, All, length-append, length-replicate, take_append, drop_append, length-take,
  length-drop, length-set, get_elem?-set_self, get_elem?-set_ne,
}
use database_engine.Util.Status.{Result, ok, err, Status}
use database_engine.Util.Bytes.{data_of}
use database_engine.Util.Sets.{contains, insert, nat_eq}
use database_engine.Storage.Page.{Page}
use database_engine.Storage.PageFile.{PageManager, write_page}
use database_engine.Recovery.Wal.{WalRecord, update_type, commit_type, checkpoint_type, read_all}

pub record RecoveryStats : Type 0 where
  pub redo_count : ℕ
  pub undo_count : ℕ
  pub checkpoint_lsn_used : ℕ

-- The first loop: the committed transactions, the number of the last checkpoint and the records
-- behind it. The set `aborted` of the source is never read.
pub record Analysis : Type 0 where
  pub committed : List ℕ
  pub checkpoint_lsn : ℕ
  pub redo_from : List WalRecord

unfoldable pub analyse : Analysis → List WalRecord → Analysis
analyse a [] = a
analyse a (r ∷ records) = elim (r.type == commit_type) [
  | true ↦ analyse (record a { committed = insert a.committed r.txn_id }) records
  | false ↦ elim (r.type == checkpoint_type) [
    | true ↦ analyse (record a { checkpoint_lsn = r.lsn; redo_from = records }) records
    | false ↦ analyse a records
  ]
]

-- `std::memcpy(page.Data(), image.data(), Page::Size())`.
abbrev pub image_page : List ℕ → Page
image_page image = data_of image

-- The second loop. The count is that of the pages written.
unfoldable pub redo : PageManager → ℕ → List WalRecord → Result ℕ × PageManager
unfolding data_of
redo m count [] = (ok count, m)
redo m count (r ∷ records) = elim (r.type == update_type) [
  | false ↦ redo m count records
  | true ↦
      let (status, n) = write_page m r.page_id (image_page r.after_image) in
      elim status [ ok _ ↦ redo n (count + 1) records | err code ↦ (err code, n) ]
]

unfoldable pub reversed : List WalRecord → List WalRecord
reversed [] = []
reversed (r ∷ records) = reversed records ++ r ∷ []

-- The third loop, on the records from the last to the first.
unfoldable pub undo : List ℕ → PageManager → ℕ → List WalRecord → Result ℕ × PageManager
unfolding data_of
undo committed m count [] = (ok count, m)
undo committed m count (r ∷ records) =
    elim (r.type == update_type && not (contains committed r.txn_id)) [
      | false ↦ undo committed m count records
      | true ↦
          let (status, n) = write_page m r.page_id (image_page r.before_image) in
          elim status [ ok _ ↦ undo committed n (count + 1) records | err code ↦ (err code, n) ]
    ]

abbrev pub analysis_of : List WalRecord → Analysis
analysis_of records =
    analyse (record { committed = []; checkpoint_lsn = 0; redo_from = records }) records

-- What `Recover` does with the records of the log.
unfoldable pub replay : PageManager → List WalRecord → Result RecoveryStats × PageManager
unfolding analyse redo undo reversed
replay m records =
    let a = analysis_of records in
    let (redone, n) = redo m 0 a.redo_from in
    let (undone, k) = undo a.committed n 0 (reversed records) in
    elim redone [
      | err code ↦ (err code, n)
      | ok redo_count ↦ elim undone [
        | err code ↦ (err code, k)
        | ok undo_count ↦ (
          ok (record {
            redo_count = redo_count;
            undo_count = undo_count;
            checkpoint_lsn_used = a.checkpoint_lsn;
          }),
          k,
        )
      ]
    ]

unfoldable pub recover : PageManager → List ℕ → Result RecoveryStats × PageManager
unfolding read_all replay
recover m file = elim (read_all file) [ err code ↦ (err code, m) | ok records ↦ replay m records ]

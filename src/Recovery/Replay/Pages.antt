-- ===== src/Recovery/Replay/Pages.antt =====
-- What `Recover` in recovery/recovery_manager.cpp leaves on every page.
use database_engine.Base.{
  ℕ, ◌<◌, ◌≡◌, refl, sym, ap, ◌∙◌, not, ◌&&◌, Option, none, some, List, [], ◌∷◌, arith,
  if◌then◌else◌, Option-cases, All,
}
use database_engine.Util.Status.{ok}
use database_engine.Util.Sets.{contains, nat_eq}
use database_engine.Storage.Page.{page_size}
use database_engine.Storage.PageFile.{PageManager}
use database_engine.Storage.PageFile.Contents.{content, IsValid}
use database_engine.Recovery.Wal.{WalRecord}
use database_engine.Recovery.Replay.{
  RecoveryStats, Analysis, analysis_of, image_page, redo, undo, reversed, replay,
}
use database_engine.Recovery.Replay.Passes.{
  has_commit, since_checkpoint, since_checkpoint-All, analyse-committed, analyse-redo_from, InFile,
  updates_page, redone, redo_lem,
}
use database_engine.Recovery.Replay.Undone.{undone, overwritten-reversed, reversed-All, undo_lem}

-- The before-image of the first update of page `id` by a transaction without a commit record in `log`.
unfoldable pub loser_image : List WalRecord → List WalRecord → ℕ → Option (List ℕ)
loser_image log [] id = none
loser_image log (r ∷ records) id =
    if updates_page r id && not (has_commit log r.txn_id)
    then some r.before_image
    else loser_image log records id

-- The after-image of the last update of page `id`.
unfoldable pub last_image : List WalRecord → ℕ → Option (List ℕ)
last_image [] id = none
last_image (r ∷ records) id = elim (last_image records id) [
  | some image ↦ some image
  | none ↦ if updates_page r id then some r.after_image else none
]

abbrev pub image_or : Option (List ℕ) → ℕ → ℕ → ℕ
image_or none i b = b
image_or (some image) i b = image_page image i

-- What the page should hold after recovery, where it held `b`.
abbrev pub recovered : List WalRecord → ℕ → ℕ → ℕ → ℕ
recovered log id i b =
    image_or (loser_image log log id) i (image_or (last_image (since_checkpoint log log) id) i b)

undone-loser_image :
    (committed : List ℕ) (log records : List WalRecord) (b id i : ℕ)
    → ((txn : ℕ) → contains committed txn ≡ has_commit log txn)
    → undone committed b records id i ≡ image_or (loser_image log records id) i b
unfolding undone loser_image
undone-loser_image committed log [] b id i same = refl
undone-loser_image committed log (r ∷ records) b id i same =
    rw (same r.txn_id, undone-loser_image committed log records b id i same) (ground arith)

redone-last_image :
    (records : List WalRecord) (b id i : ℕ)
    → redone b records id i ≡ image_or (last_image records id) i b
unfolding redone last_image
redone-last_image [] b id i = refl
redone-last_image (r ∷ records) b id i =
    redone-last_image records (if updates_page r id then image_page r.after_image i else b) id i
    ∙ ground (arith, Option-cases (last_image records id))

replay_passes :
    (m : PageManager) (log : List WalRecord) (n k : ℕ)
    → let a = analysis_of log in
      (redo m 0 a.redo_from).0 ≡ ok n
      → (undo a.committed (redo m 0 a.redo_from).1 0 (reversed log)).0 ≡ ok k
      → replay m log ≡ (
        ok (record { redo_count = n; undo_count = k; checkpoint_lsn_used = a.checkpoint_lsn }),
        (undo a.committed (redo m 0 a.redo_from).1 0 (reversed log)).1,
      )
unfolding replay
replay_passes m log n k redid undid = rw (replay, redid, undid) refl

module _ (m : PageManager) (v : IsValid m) (log : List WalRecord)
    (given : All (InFile m.page_count) log) where
  -- Replay of a log whose updates lie in the data file succeeds. Then a page that a transaction
  -- without a commit record had updated holds the before-image of the first such update; any other
  -- page holds the after-image of its last update since the last checkpoint, and is unchanged if
  -- there was none.
  pub replay_lem :
      (stats : RecoveryStats) × ((replay m log).0 ≡ ok stats)
      × IsValid (replay m log).1
      × ((replay m log).1.page_count ≡ m.page_count)
      × ((id i : ℕ)
          → i < page_size
          → content (replay m log).1 id i ≡ recovered log id i (content m id i))
  unfolding contains
  replay_lem =
      let a = analysis_of log in
      let start : Analysis = record { committed = []; checkpoint_lsn = 0; redo_from = log } in
      let tail : a.redo_from ≡ since_checkpoint log log = analyse-redo_from log start in
      let again : All (InFile m.page_count) a.redo_from =
        rw tail (since_checkpoint-All (InFile m.page_count) log log given given) in
      let (n, redid, redo_valid, redo_count, redo_bytes) = redo_lem m 0 a.redo_from v again in
      let behind = reversed-All (InFile m.page_count) log given in
      let (k, undid, undo_valid, undo_count, undo_bytes) =
        undo_lem a.committed (redo m 0 a.redo_from).1 0 (reversed log) redo_valid
          (rw redo_count behind) in
      rw (replay_passes m log n k redid undid) (
        record { redo_count = n; undo_count = k; checkpoint_lsn_used = a.checkpoint_lsn },
        refl,
        undo_valid,
        undo_count ∙ redo_count,
        λ id i lt.
            undo_bytes id i lt
            ∙ overwritten-reversed a.committed _ log id i
            ∙ undone-loser_image a.committed log log _ id i (λ txn. analyse-committed log start txn)
            ∙ ap (λ b. image_or (loser_image log log id) i b)
                (redo_bytes id i lt
                  ∙ redone-last_image a.redo_from (content m id i) id i
                  ∙ ap (λ t. image_or (last_image t id) i (content m id i)) tail),
      )

recovered_again :
    (log : List WalRecord) (id i b : ℕ)
    → recovered log id i (recovered log id i b) ≡ recovered log id i b
recovered_again log id i b = ground (
  arith,
  Option-cases (loser_image log log id),
  Option-cases (last_image (since_checkpoint log log) id),
)

module _ (m : PageManager) (v : IsValid m) (log : List WalRecord)
    (given : All (InFile m.page_count) log) where
  -- To replay the log a second time, as after a crash at the end of the first replay, succeeds and
  -- changes no page.
  pub replay-replay :
      let n = (replay m log).1 in
      (stats : RecoveryStats) × ((replay n log).0 ≡ ok stats)
      × ((id i : ℕ) → i < page_size → content (replay n log).1 id i ≡ content n id i)
  replay-replay =
      let (stats, done, valid, pages, bytes) = replay_lem m v log given in
      let (stats_again, done_again, valid_again, pages_again, bytes_again) =
        replay_lem (replay m log).1 valid log (rw pages given) in
      (
        stats_again,
        done_again,
        λ id i lt.
            bytes_again id i lt
            ∙ ap (recovered log id i) (bytes id i lt)
            ∙ recovered_again log id i (content m id i)
            ∙ sym (bytes id i lt),
      )

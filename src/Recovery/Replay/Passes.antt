-- ===== src/Recovery/Replay/Passes.antt =====
-- The three loops of `Recover` in recovery/recovery_manager.cpp, each by what it leaves.
use database_engine.Base.{
  ℕ, ◌+◌, ◌^◌, ◌<◌, ◌≡◌, refl, ◌∙◌, ◌⊎◌, inl, inr, Bool, true, false, ◌&&◌, ◌||◌, List, [], ◌∷◌,
  arith, ◌==◌, if◌then◌else◌, ==_iff, Bool-cases, All,
}
use database_engine.Util.Status.{ok}
use database_engine.Util.Sets.{contains, insert, nat_eq, contains-insert}
use database_engine.Storage.Page.{Page, page_size}
use database_engine.Storage.PageFile.{PageManager, write_page}
use database_engine.Storage.PageFile.Contents.{content, IsValid, Written, write_page-out_of_range}
use database_engine.Recovery.Wal.{WalRecord, update_type, commit_type, checkpoint_type}
use database_engine.Recovery.Replay.{Analysis, analyse, image_page, redo}

-- The log holds a commit record of the transaction.
unfoldable pub has_commit : List WalRecord → ℕ → Bool
has_commit [] txn = false
has_commit (r ∷ records) txn = (r.type == commit_type && r.txn_id == txn) || has_commit records txn

-- The records behind the last checkpoint, all where there is none: `tail` if there is none in `records`.
unfoldable pub since_checkpoint : List WalRecord → List WalRecord → List WalRecord
since_checkpoint tail [] = tail
since_checkpoint tail (r ∷ records) =
    since_checkpoint (if r.type == checkpoint_type then records else tail) records

module _ (r : WalRecord) (records : List WalRecord) (a : Analysis) where
  analyse_commit :
      (r.type == commit_type) ≡ true
      → analyse a (r ∷ records)
        ≡ analyse (record a { committed = insert a.committed r.txn_id }) records
  unfolding analyse
  analyse_commit commits = rw (analyse, commits) refl

  analyse_checkpoint :
      (r.type == checkpoint_type) ≡ true
      → analyse a (r ∷ records)
        ≡ analyse (record a { checkpoint_lsn = r.lsn; redo_from = records }) records
  unfolding analyse
  analyse_checkpoint marks =
      let other : (r.type == commit_type) ≡ false = ground arith in rw (analyse, other, marks) refl

  analyse_other :
      (r.type == commit_type) ≡ false
      → (r.type == checkpoint_type) ≡ false
      → analyse a (r ∷ records) ≡ analyse a records
  unfolding analyse
  analyse_other other plain = rw (analyse, other, plain) refl

  -- What kind of record it is.
  record_cases :
      (r.type == commit_type) ≡ true
      ⊎ ((r.type == commit_type) ≡ false)
        × ((r.type == checkpoint_type) ≡ true ⊎ (r.type == checkpoint_type) ≡ false)
  record_cases = ground arith

pub analyse-committed :
    (records : List WalRecord) (a : Analysis) (txn : ℕ)
    → contains (analyse a records).committed txn
      ≡ (contains a.committed txn || has_commit records txn)
unfolding has_commit
analyse-committed [] a txn = unfold analyse in ground arith
analyse-committed (r ∷ records) a txn = elim (record_cases r records a) [
  | inl commits ↦
      let later =
        analyse-committed records (record a { committed = insert a.committed r.txn_id }) txn in
      rw (analyse_commit r records a commits)
        (later ∙ rw (contains-insert a.committed r.txn_id txn, commits) (ground arith))
  | inr (other, inl marks) ↦
      rw (analyse_checkpoint r records a marks) (analyse-committed records _ txn ∙ rw other refl)
  | inr (other, inr plain) ↦
      rw (analyse_other r records a other plain) (analyse-committed records a txn ∙ rw other refl)
]

pub analyse-redo_from :
    (records : List WalRecord) (a : Analysis)
    → (analyse a records).redo_from ≡ since_checkpoint a.redo_from records
unfolding since_checkpoint
analyse-redo_from [] a = unfold analyse in refl
analyse-redo_from (r ∷ records) a = elim (record_cases r records a) [
  | inl commits ↦
      let plain : (r.type == checkpoint_type) ≡ false = ground arith in
      rw (analyse_commit r records a commits) (analyse-redo_from records _ ∙ rw plain refl)
  | inr (other, inl marks) ↦
      rw (analyse_checkpoint r records a marks) (analyse-redo_from records _ ∙ rw marks refl)
  | inr (other, inr plain) ↦
      rw (analyse_other r records a other plain) (analyse-redo_from records a ∙ rw plain refl)
]

pub since_checkpoint-All :
    (P : WalRecord → Type 0) (records tail : List WalRecord)
    → All P tail
    → All P records
    → All P (since_checkpoint tail records)
unfolding since_checkpoint
since_checkpoint-All P [] tail t h = t
since_checkpoint-All P (r ∷ records) tail t h = elim (Bool-cases (r.type == checkpoint_type)) [
  | inl marks ↦ rw marks (since_checkpoint-All P records records h.1 h.1)
  | inr other ↦ rw other (since_checkpoint-All P records tail t h.1)
]

-- The page of an update has been given out.
abbrev pub InFile : ℕ → WalRecord → Type 0
InFile count r = r.type ≡ update_type → (r.page_id < 2 ^ 31) × (r.page_id < count)

abbrev pub updates_page : WalRecord → ℕ → Bool
updates_page r id = r.type == update_type && r.page_id == id

-- Byte `i` of page `id` after a redo of the records, where it was `b`.
unfoldable pub redone : ℕ → List WalRecord → ℕ → ℕ → ℕ
redone b [] id i = b
redone b (r ∷ records) id i =
    redone (if updates_page r id then image_page r.after_image i else b) records id i

pub write_page-InFile :
    (m : PageManager) (id : ℕ) (p : Page)
    → IsValid m
    → id < 2 ^ 31
    → id < m.page_count
    → ((write_page m id p).0 ≡ ok tt) × Written m id p (write_page m id p).1
write_page-InFile m id p v small given = elim (write_page-out_of_range m v id p) [
  | inl (inside, took, wrote) ↦ (took, wrote)
  | inr (refused, e) ↦ absurd (ground arith)
]

redo_skips :
    (m : PageManager) (count : ℕ) (r : WalRecord) (records : List WalRecord)
    → (r.type == update_type) ≡ false
    → redo m count (r ∷ records) ≡ redo m count records
unfolding redo
redo_skips m count r records other = rw (redo, other) refl

redo_writes :
    (m : PageManager) (count : ℕ) (r : WalRecord) (records : List WalRecord)
    → (r.type == update_type) ≡ true
    → (write_page m r.page_id (image_page r.after_image)).0 ≡ ok tt
    → redo m count (r ∷ records)
      ≡ redo (write_page m r.page_id (image_page r.after_image)).1 (count + 1) records
unfolding redo
redo_writes m count r records update written = rw (redo, update, written) refl

pub redo_lem :
    (m : PageManager) (count : ℕ) (records : List WalRecord)
    → IsValid m
    → All (InFile m.page_count) records
    → (n : ℕ) × ((redo m count records).0 ≡ ok n)
      × IsValid (redo m count records).1
      × ((redo m count records).1.page_count ≡ m.page_count)
      × ((id i : ℕ)
          → i < page_size
          → content (redo m count records).1 id i ≡ redone (content m id i) records id i)
unfolding redone
redo_lem m count [] v h = unfold redo in (count, refl, v, refl, λ id i lt. refl)
redo_lem m count (r ∷ records) v h = elim (Bool-cases (r.type == update_type)) [
  | inr other ↦
      let (n, done, valid, pages, bytes) = redo_lem m count records v h.1 in
      rw (redo_skips m count r records other)
        (n, done, valid, pages, λ id i lt. rw other (bytes id i lt))
  | inl update ↦
      let (small, given) = h.0 ((==_iff r.type update_type).0 update) in
      let image = image_page r.after_image in
      let (took, wrote) = write_page-InFile m r.page_id image v small given in
      let same = wrote.same_count in
      let (n, done, valid, pages, bytes) =
        redo_lem (write_page m r.page_id image).1 (count + 1) records wrote.valid (rw same h.1) in
      rw (redo_writes m count r records update took) (
        n,
        done,
        valid,
        pages ∙ same,
        λ id i lt. bytes id i lt ∙ rw (update, wrote.holds id i lt) refl,
      )
]

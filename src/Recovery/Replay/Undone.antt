-- ===== src/Recovery/Replay/Undone.antt =====
-- The undo loop of `Recover` in recovery/recovery_manager.cpp.
use database_engine.Base.{
  ℕ, ◌+◌, ◌<◌, ◌≡◌, refl, ◌∙◌, inl, inr, Bool, true, false, not, ◌&&◌, List, [], ◌∷◌, ◌++◌, arith,
  ◌==◌, if◌then◌else◌, Bool-cases, All,
}
use database_engine.Util.Status.{ok}
use database_engine.Util.Sets.{contains, nat_eq}
use database_engine.Storage.Page.{page_size}
use database_engine.Storage.PageFile.{PageManager, write_page}
use database_engine.Storage.PageFile.Contents.{content, IsValid}
use database_engine.Recovery.Wal.{WalRecord, update_type}
use database_engine.Recovery.Replay.{image_page, undo, reversed}
use database_engine.Recovery.Replay.Passes.{InFile, write_page-InFile}

-- An update by a transaction that is not in the set.
abbrev pub to_undo : List ℕ → WalRecord → Bool
to_undo committed r = r.type == update_type && not (contains committed r.txn_id)

-- Byte `i` of page `id` after the before-images of `records` were written from the last to the first:
-- the first of them that is undone decides.
unfoldable pub undone : List ℕ → ℕ → List WalRecord → ℕ → ℕ → ℕ
undone committed b [] id i = b
undone committed b (r ∷ records) id i =
    if to_undo committed r && r.page_id == id
    then image_page r.before_image i
    else undone committed b records id i

-- The same, with the records in the order in which they are undone.
unfoldable pub overwritten : List ℕ → ℕ → List WalRecord → ℕ → ℕ → ℕ
overwritten committed b [] id i = b
overwritten committed b (r ∷ records) id i =
    overwritten committed
      (if to_undo committed r && r.page_id == id then image_page r.before_image i else b) records id
      i

overwritten_last :
    (committed : List ℕ) (front : List WalRecord) (b : ℕ) (r : WalRecord) (id i : ℕ)
    → overwritten committed b (front ++ r ∷ []) id i ≡ (
        if to_undo committed r && r.page_id == id
        then image_page r.before_image i
        else overwritten committed b front id i)
unfolding overwritten
overwritten_last committed [] b r id i = refl
overwritten_last committed (q ∷ front) b r id i =
    overwritten_last committed front
      (if to_undo committed q && q.page_id == id then image_page q.before_image i else b) r id i

pub overwritten-reversed :
    (committed : List ℕ) (b : ℕ) (records : List WalRecord) (id i : ℕ)
    → overwritten committed b (reversed records) id i ≡ undone committed b records id i
unfolding overwritten undone reversed
overwritten-reversed committed b [] id i = refl
overwritten-reversed committed b (r ∷ records) id i =
    overwritten_last committed (reversed records) b r id i
    ∙ rw (overwritten-reversed committed b records id i) refl

All-last :
    (P : WalRecord → Type 0) (records : List WalRecord) (r : WalRecord)
    → All P records
    → P r
    → All P (records ++ r ∷ [])
All-last P [] r h p = (p, tt)
All-last P (q ∷ records) r h p = (h.0, All-last P records r h.1 p)

pub reversed-All :
    (P : WalRecord → Type 0) (records : List WalRecord) → All P records → All P (reversed records)
unfolding reversed
reversed-All P [] h = tt
reversed-All P (r ∷ records) h = All-last P (reversed records) r (reversed-All P records h.1) h.0

undo_skips :
    (committed : List ℕ) (m : PageManager) (count : ℕ) (r : WalRecord) (records : List WalRecord)
    → to_undo committed r ≡ false
    → undo committed m count (r ∷ records) ≡ undo committed m count records
unfolding undo
undo_skips committed m count r records other = rw (undo, other) refl

undo_writes :
    (committed : List ℕ) (m : PageManager) (count : ℕ) (r : WalRecord) (records : List WalRecord)
    → to_undo committed r ≡ true
    → (write_page m r.page_id (image_page r.before_image)).0 ≡ ok tt
    → undo committed m count (r ∷ records)
      ≡ undo committed (write_page m r.page_id (image_page r.before_image)).1 (count + 1) records
unfolding undo
undo_writes committed m count r records loser written = rw (undo, loser, written) refl

loser_updates :
    (committed : List ℕ) (r : WalRecord) → to_undo committed r ≡ true → r.type ≡ update_type
loser_updates committed r h = ground arith

pub undo_lem :
    (committed : List ℕ) (m : PageManager) (count : ℕ) (records : List WalRecord)
    → IsValid m
    → All (InFile m.page_count) records
    → (n : ℕ) × ((undo committed m count records).0 ≡ ok n)
      × IsValid (undo committed m count records).1
      × ((undo committed m count records).1.page_count ≡ m.page_count)
      × ((id i : ℕ)
          → i < page_size
          → content (undo committed m count records).1 id i
            ≡ overwritten committed (content m id i) records id i)
unfolding overwritten
undo_lem committed m count [] v h = unfold undo in (count, refl, v, refl, λ id i lt. refl)
undo_lem committed m count (r ∷ records) v h = elim (Bool-cases (to_undo committed r)) [
  | inr other ↦
      let (n, done, valid, pages, bytes) = undo_lem committed m count records v h.1 in
      rw (undo_skips committed m count r records other)
        (n, done, valid, pages, λ id i lt. rw other (bytes id i lt))
  | inl loser ↦
      let (small, given) = h.0 (loser_updates committed r loser) in
      let image = image_page r.before_image in
      let (took, wrote) = write_page-InFile m r.page_id image v small given in
      let same = wrote.same_count in
      let (n, done, valid, pages, bytes) =
        undo_lem committed (write_page m r.page_id image).1 (count + 1) records wrote.valid
          (rw same h.1) in
      rw (undo_writes committed m count r records loser took) (
        n,
        done,
        valid,
        pages ∙ same,
        λ id i lt. bytes id i lt ∙ rw (loser, wrote.holds id i lt) refl,
      )
]

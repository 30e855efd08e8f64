-- ===== src/Recovery/Wal/History.antt =====
-- The log of recovery/wal_manager.cpp after any calls, read back and opened again.
use database_engine.Base.{
  ℕ, zero, suc, ◌+◌, ◌-◌, ◌%◌, ◌^◌, ◌≤◌, ◌<◌, ◌≡◌, refl, sym, ap, ◌∙◌, subst, ◌⊎◌, inl, inr, List,
  [], ◌∷◌, ◌++◌, append_assoc, append-nil, arith, length, All, length-append,
}
use database_engine.Util.Status.{Result, ok, ◌>>=◌, >>=-ok, >>=-ok_ok}
use database_engine.Util.Bytes.{read_bytes, fixed_bytes, length-fixed_bytes, length-read_bytes}
use database_engine.Storage.Page.{Page, page_size}
use database_engine.Recovery.Wal.{
  WalRecord, WalManager, update_type, commit_type, abort_type, checkpoint_type, plain, body, frame,
  append_record, append_update, append_commit, append_abort, append_checkpoint, read_from, read_all,
  lsn_after, open_log,
}
use database_engine.Recovery.Wal.Frames.{Fits, read_from-frame}

unfoldable pub framed : List WalRecord → List ℕ
framed [] = []
framed (r ∷ rs) = frame r ++ framed rs

framed_append : (rs : List WalRecord) (r : WalRecord) → framed (rs ++ r ∷ []) ≡ framed rs ++ frame r
unfolding framed
framed_append [] r = append-nil (frame r)
framed_append (q ∷ rs) r = rw (framed_append rs r, append_assoc) refl

length-frame : (r : WalRecord) → 4 ≤ length (frame r)
unfolding frame
length-frame r = omega (
  arith,
  length-append (fixed_bytes 4 (length (body r) % 2 ^ 32)) (body r),
  length-fixed_bytes 4 (length (body r) % 2 ^ 32),
)

pub length-framed : (rs : List WalRecord) → length rs ≤ length (framed rs)
unfolding framed
length-framed [] = omega arith
length-framed (r ∷ rs) =
    omega (arith, length-framed rs, length-frame r, length-append (frame r) (framed rs))

-- The log is read up to whatever follows its records.
pub read_from-framed :
    (rs : List WalRecord) (fuel : ℕ) (tail : List ℕ)
    → All Fits rs
    → read_from (length rs + fuel) (framed rs ++ tail)
      ≡ (read_from fuel tail >>= λ later. ok (rs ++ later))
unfolding framed
read_from-framed [] fuel tail fits =
    let none_read : 0 + fuel ≡ fuel = omega arith in
    rw (none_read, >>=-ok (read_from fuel tail)) refl
read_from-framed (r ∷ rs) fuel tail fits =
    let count : suc (length rs) + fuel ≡ suc (length rs + fuel) = omega arith in
    rw (append_assoc (frame r) (framed rs) tail, count)
      (read_from-frame (length rs + fuel) r (framed rs ++ tail) fits.0
        ∙ ap (λ (m : Result (List WalRecord)). m >>= λ records. ok (r ∷ records))
            (read_from-framed rs fuel tail fits.1)
        ∙ >>=-ok_ok (read_from fuel tail) (λ later. rs ++ later) (λ records. r ∷ records))

pub read_all-framed :
    (rs : List WalRecord) (tail : List ℕ)
    → All Fits rs
    → (fuel : ℕ) × (length tail ≤ fuel)
      × (read_all (framed rs ++ tail) ≡ (read_from fuel tail >>= λ later. ok (rs ++ later)))
unfolding read_all
read_all-framed rs tail fits =
    let spare = length (framed rs ++ tail) - length rs in
    let size = length-append (framed rs) tail in
    let fuel : length (framed rs ++ tail) ≡ length rs + spare =
      omega (arith, size, length-framed rs) in
    (
      spare,
      omega (arith, size, length-framed rs),
      subst
          (λ n.
            read_from n (framed rs ++ tail) ≡ (read_from spare tail >>= λ later. ok (rs ++ later)))
          (sym fuel) (read_from-framed rs spare tail fits),
    )

-- The calls of a log.
pub data Call : Type 0 where
  updates : ℕ → ℕ → Page → Page → Call
  commits aborts : ℕ → Call
  checkpoints : Call

unfoldable pub step : WalManager → Call → WalManager
step w (updates txn_id page_id before after) = (append_update w txn_id page_id before after).1
step w (commits txn_id) = (append_commit w txn_id).1
step w (aborts txn_id) = (append_abort w txn_id).1
step w checkpoints = (append_checkpoint w).1

unfoldable pub run : WalManager → List Call → WalManager
unfolding step
run w [] = w
run w (call ∷ calls) = run (step w call) calls

-- The record of a call, with its number in the log.
unfoldable pub logged : ℕ → Call → WalRecord
logged lsn (updates txn_id page_id before after) = record {
  lsn = lsn;
  type = update_type;
  txn_id = txn_id;
  page_id = page_id;
  before_image = read_bytes page_size before 0;
  after_image = read_bytes page_size after 0;
}
logged lsn (commits txn_id) = record (plain commit_type txn_id) { lsn = lsn }
logged lsn (aborts txn_id) = record (plain abort_type txn_id) { lsn = lsn }
logged lsn checkpoints = record (plain checkpoint_type 0) { lsn = lsn }

unfoldable pub log_from : ℕ → List Call → List WalRecord
unfolding logged
log_from lsn [] = []
log_from lsn (call ∷ calls) = logged lsn call ∷ log_from (lsn + 1) calls

-- The ids fit their types.
abbrev pub InRange : Call → Type 0
InRange (updates txn_id page_id before after) = (txn_id < 2 ^ 64) × (page_id < 2 ^ 32)
InRange (commits txn_id) = txn_id < 2 ^ 64
InRange (aborts txn_id) = txn_id < 2 ^ 64
InRange checkpoints = Unit {0}

step-logged :
    (w : WalManager) (call : Call)
    → step w call ≡ record {
      file = w.file ++ frame (logged w.next_lsn call);
      next_lsn = (w.next_lsn + 1) % 2 ^ 64;
    }
unfolding step logged append_record append_update append_commit append_abort append_checkpoint
step-logged w (updates txn_id page_id before after) = refl
step-logged w (commits txn_id) = refl
step-logged w (aborts txn_id) = refl
step-logged w checkpoints = refl

logged-Fits : (lsn : ℕ) (call : Call) → lsn < 2 ^ 64 → InRange call → Fits (logged lsn call)
unfolding logged
logged-Fits lsn (updates txn_id page_id before after) l r = record {
  lsn_fits = l;
  txn_fits = r.0;
  page_fits = r.1;
  images = inl (refl, length-read_bytes page_size before 0, length-read_bytes page_size after 0);
}
logged-Fits lsn (commits txn_id) l r = record {
  lsn_fits = l;
  txn_fits = r;
  page_fits = omega arith;
  images = inr (λ e. omega arith, refl, refl);
}
logged-Fits lsn (aborts txn_id) l r = record {
  lsn_fits = l;
  txn_fits = r;
  page_fits = omega arith;
  images = inr (λ e. omega arith, refl, refl);
}
logged-Fits lsn checkpoints l r = record {
  lsn_fits = l;
  txn_fits = omega arith;
  page_fits = omega arith;
  images = inr (λ e. omega arith, refl, refl);
}

log_from-Fits :
    (calls : List Call) (lsn : ℕ)
    → lsn + length calls ≤ 2 ^ 64
    → All InRange calls
    → All Fits (log_from lsn calls)
unfolding log_from
log_from-Fits [] lsn l r = tt
log_from-Fits (call ∷ calls) lsn l r =
    (logged-Fits lsn call (omega arith) r.0, log_from-Fits calls (lsn + 1) (omega arith) r.1)

abbrev pub log_at : List ℕ → ℕ → WalManager
log_at file lsn = record { file = file; next_lsn = lsn }

run-framed :
    (calls : List Call) (file : List ℕ) (lsn : ℕ)
    → lsn + length calls < 2 ^ 64
    → run (log_at file lsn) calls
      ≡ log_at (file ++ framed (log_from lsn calls)) (lsn + length calls)
unfolding run log_from framed
run-framed [] file lsn l = let stays : lsn + 0 ≡ lsn = omega arith in cc (append-nil file, stays)
run-framed (call ∷ calls) file lsn l =
    let next : (lsn + 1) % 2 ^ 64 ≡ lsn + 1 = omega arith in
    let written = frame (logged lsn call) in
    let count : (lsn + 1) + length calls ≡ lsn + suc (length calls) = omega arith in
    ap (λ w. run w calls) (step-logged (log_at file lsn) call)
    ∙ rw next (
        run-framed calls (file ++ written) (lsn + 1) (omega arith)
        ∙ cc (append_assoc file written (framed (log_from (lsn + 1) calls)), count))

lsn_after-log_from :
    (calls : List Call) (lsn : ℕ)
    → lsn + length calls < 2 ^ 64
    → lsn ≡ 1 ⊎ 1 ≤ length calls
    → lsn_after (log_from lsn calls) ≡ lsn + length calls
unfolding lsn_after log_from logged
lsn_after-log_from [] lsn l h = ground (arith, h)
lsn_after-log_from (updates t p b a ∷ []) lsn l h = omega arith
lsn_after-log_from (commits t ∷ []) lsn l h = omega arith
lsn_after-log_from (aborts t ∷ []) lsn l h = omega arith
lsn_after-log_from (checkpoints ∷ []) lsn l h = omega arith
lsn_after-log_from (call ∷ next ∷ calls) lsn l h =
    lsn_after-log_from (next ∷ calls) (lsn + 1) (omega arith) (inr (omega arith)) ∙ omega arith

-- Nothing is read from fewer than 4 bytes.
pub read_from_short : (fuel : ℕ) (bytes : List ℕ) → length bytes < 4 → read_from fuel bytes ≡ ok []
unfolding read_from
read_from_short zero bytes short = refl
read_from_short (suc fuel) bytes short = ground arith

module _ (calls : List Call) (room : 1 + length calls < 2 ^ 64) (ranged : All InRange calls) where
  pub run-file : (run (log_at [] 1) calls).file ≡ framed (log_from 1 calls)
  run-file = ap (λ w. w.file) (run-framed calls [] 1 room)

  pub log-Fits : All Fits (log_from 1 calls)
  log-Fits = log_from-Fits calls 1 (omega arith) ranged

  -- Whatever was appended to a new log, `ReadAll` returns the records of all calls in their order,
  -- numbered from 1. There are fewer than 2 ^ 64 - 1 calls, and their ids fit their types.
  pub read_all-run : read_all (run (log_at [] 1) calls).file ≡ ok (log_from 1 calls)
  read_all-run =
      let (fuel, enough, read) = read_all-framed (log_from 1 calls) [] log-Fits in
      rw run-file (
        rw append-nil at read
        ∙ rw (read_from_short fuel [] (omega arith)) (ap ok (append-nil (log_from 1 calls))))

  -- A log that is opened again goes on with the number after the last one.
  pub open_log-run : open_log (run (log_at [] 1) calls).file ≡ run (log_at [] 1) calls
  unfolding open_log
  open_log-run =
      rw (open_log, read_all-run)
        (cc (lsn_after-log_from calls 1 room (inl refl), run-file, run-framed calls [] 1 room))

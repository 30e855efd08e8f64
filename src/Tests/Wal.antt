-- ===== src/Tests/Wal.antt =====
-- recovery/wal_manager.cpp on a log of four records.
use database_engine.Base.{◌%◌, ◌^◌, ◌≡◌, refl, inr, List, [], ◌∷◌, ◌++◌, arith, length, All}
use database_engine.Util.Status.{ok, err, corruption}
use database_engine.Util.Bytes.{fixed_bytes}
use database_engine.Storage.Page.{blank}
use database_engine.Recovery.Wal.{WalRecord, commit_type, plain, body, read_all, open_log}
use database_engine.Recovery.Wal.Frames.{Fits}
use database_engine.Recovery.Wal.History.{
  Call, updates, commits, aborts, checkpoints, run, log_at, log_from, InRange, framed, read_all-run,
  open_log-run,
}
use database_engine.Recovery.Wal.Torn.{read_all-torn_body}
use database_engine.Tests.PageFile.{sevens}

abbrev pub calls : List Call
calls = updates 1 1 blank sevens ∷ commits 1 ∷ checkpoints ∷ aborts 2 ∷ []

pub calls-InRange : All InRange calls
calls-InRange = ((omega arith, omega arith), (omega arith, (tt, (omega arith, tt))))

read_all-run_example : read_all (run (log_at [] 1) calls).file ≡ ok (log_from 1 calls)
read_all-run_example = read_all-run calls (omega arith) calls-InRange

open_log-run_example : open_log (run (log_at [] 1) calls).file ≡ run (log_at [] 1) calls
open_log-run_example = open_log-run calls (omega arith) calls-InRange

abbrev pub commit_record : WalRecord
commit_record = record (plain commit_type 1) { lsn = 1 }

pub commit_record-Fits : All Fits (commit_record ∷ [])
commit_record-Fits = (
  record {
    lsn_fits = omega arith;
    txn_fits = omega arith;
    page_fits = omega arith;
    images = inr (λ e. omega arith, refl, refl);
  },
  tt,
)

pub commit_size : length (body commit_record) ≡ 21
unfolding body fixed_bytes
commit_size = refl

read_all-torn_body_example :
    let file =
      framed (commit_record ∷ [])
      ++ (fixed_bytes 4 (length (body commit_record) % 2 ^ 32) ++ (2 ∷ 0 ∷ [])) in
    (read_all file ≡ err corruption) × ((open_log file).next_lsn ≡ 1)
read_all-torn_body_example =
    read_all-torn_body (commit_record ∷ []) commit_record-Fits commit_record
      (omega (arith, commit_size)) (2 ∷ 0 ∷ []) (omega (arith, commit_size))

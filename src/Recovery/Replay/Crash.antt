-- ===== src/Recovery/Replay/Crash.antt =====
-- The log of recovery/wal_manager.cpp and its replay in recovery/recovery_manager.cpp together.
use database_engine.Base.{ℕ, ◌+◌, ◌%◌, ◌^◌, ◌<◌, ◌≡◌, refl, List, [], ◌++◌, length, All}
use database_engine.Util.Status.{ok, err, corruption}
use database_engine.Util.Bytes.{fixed_bytes}
use database_engine.Storage.Page.{page_size}
use database_engine.Storage.PageFile.{PageManager}
use database_engine.Storage.PageFile.Contents.{content, IsValid}
use database_engine.Recovery.Wal.{WalRecord, body}
use database_engine.Recovery.Wal.Frames.{Fits}
use database_engine.Recovery.Wal.History.{
  Call, run, log_at, log_from, InRange, read_all-run, framed,
}
use database_engine.Recovery.Wal.Torn.{read_all-torn_body}
use database_engine.Recovery.Replay.{RecoveryStats, replay, recover}
use database_engine.Recovery.Replay.Passes.{InFile}
use database_engine.Recovery.Replay.Pages.{recovered, replay_lem}

module _ (m : PageManager) (calls : List Call) (room : 1 + length calls < 2 ^ 64)
    (ranged : All InRange calls) where
  recover-replay : recover m (run (log_at [] 1) calls).file ≡ replay m (log_from 1 calls)
  unfolding recover
  recover-replay = rw (recover, read_all-run calls room ranged) refl

  -- `Recover` on the file of a log to which these calls appended succeeds, and leaves on every page
  -- what the records of the calls demand. There are fewer than 2 ^ 64 - 1 calls, their ids fit their
  -- types, and the pages of their updates lie in the data file.
  pub recover-run :
      IsValid m
      → All (InFile m.page_count) (log_from 1 calls)
      → let found = recover m (run (log_at [] 1) calls).file in
        (stats : RecoveryStats) × (found.0 ≡ ok stats)
        × IsValid found.1
        × ((id i : ℕ)
            → i < page_size
            → content found.1 id i ≡ recovered (log_from 1 calls) id i (content m id i))
  recover-run v given =
      let (stats, done, valid, pages, bytes) = replay_lem m v (log_from 1 calls) given in
      rw recover-replay (stats, done, valid, bytes)

-- `Recover` refuses a log whose last record was cut within its body, and leaves the data file as it is.
recover-torn :
    (m : PageManager) (rs : List WalRecord) (r : WalRecord) (part : List ℕ)
    → All Fits rs
    → length (body r) < 2 ^ 32
    → length part < length (body r)
    → recover m (framed rs ++ (fixed_bytes 4 (length (body r) % 2 ^ 32) ++ part))
      ≡ (err corruption, m)
unfolding recover
recover-torn m rs r part fits small short =
    rw (recover, (read_all-torn_body rs fits r small part short).0) refl

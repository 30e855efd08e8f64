-- ===== src/Tests/Replay.antt =====
-- recovery/recovery_manager.cpp on a data file of one page.
use database_engine.Base.{ℕ, ◌<◌, ◌≡◌, List, [], ◌∷◌, arith, All}
use database_engine.Util.Status.{ok}
use database_engine.Storage.Page.{page_size}
use database_engine.Storage.PageFile.Contents.{content, IsValid}
use database_engine.Recovery.Wal.{WalRecord, update_type, commit_type, plain}
use database_engine.Recovery.Wal.History.{run, log_at, log_from, logged}
use database_engine.Recovery.Replay.{RecoveryStats, replay, recover}
use database_engine.Recovery.Replay.Passes.{InFile}
use database_engine.Recovery.Replay.Pages.{recovered, replay_lem, replay-replay}
use database_engine.Recovery.Replay.Crash.{recover-run}
use database_engine.Tests.PageFile.{one_page, one_page-IsValid, one_page_count}
use database_engine.Tests.Wal.{calls, calls-InRange}

-- Transaction 2 has committed, transaction 1 has not.
abbrev log : List WalRecord
log =
    record (plain update_type 1) { page_id = 1; before_image = 3 ∷ []; after_image = 4 ∷ [] }
    ∷ record (plain update_type 2) { page_id = 1; before_image = 4 ∷ []; after_image = 5 ∷ [] }
    ∷ plain commit_type 2
    ∷ []

log-InFile : All (InFile one_page.page_count) log
log-InFile = (
  λ u. (omega arith, omega (arith, one_page_count)),
  (λ u. (omega arith, omega (arith, one_page_count)), (λ u. absurd (omega (arith, u)), tt)),
)

calls-InFile : All (InFile one_page.page_count) (log_from 1 calls)
unfolding log_from logged
calls-InFile = (
  λ u. (omega arith, omega (arith, one_page_count)),
  (
    λ u. absurd (omega (arith, u)),
    (λ u. absurd (omega (arith, u)), (λ u. absurd (omega (arith, u)), tt)),
  ),
)

replay_lem_example :
    (stats : RecoveryStats) × ((replay one_page log).0 ≡ ok stats)
    × IsValid (replay one_page log).1
    × ((replay one_page log).1.page_count ≡ one_page.page_count)
    × ((id i : ℕ)
        → i < page_size
        → content (replay one_page log).1 id i ≡ recovered log id i (content one_page id i))
replay_lem_example = replay_lem one_page one_page-IsValid log log-InFile

replay-replay_example :
    let n = (replay one_page log).1 in
    (stats : RecoveryStats) × ((replay n log).0 ≡ ok stats)
    × ((id i : ℕ) → i < page_size → content (replay n log).1 id i ≡ content n id i)
replay-replay_example = replay-replay one_page one_page-IsValid log log-InFile

recover-run_example :
    let found = recover one_page (run (log_at [] 1) calls).file in
    (stats : RecoveryStats) × (found.0 ≡ ok stats)
    × IsValid found.1
    × ((id i : ℕ)
        → i < page_size
        → content found.1 id i ≡ recovered (log_from 1 calls) id i (content one_page id i))
recover-run_example =
    recover-run one_page calls (omega arith) calls-InRange one_page-IsValid calls-InFile

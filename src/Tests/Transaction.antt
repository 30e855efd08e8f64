-- ===== src/Tests/Transaction.antt =====
-- transaction/transaction_manager.cpp and mvcc.cpp on a few transactions.
use database_engine.Base.{ℕ, length, ◌≡◌, refl, some, List, [], ◌∷◌, arith}
use database_engine.Util.Sets.{nat_eq}
use database_engine.Util.Maps.{update}
use database_engine.Transaction.Manager.{
  active, begin, commit, snapshot_isolation, read_committed, begun, new_manager, TransactionManager,
  Transaction,
}
use database_engine.Transaction.Manager.History.{Call, begins, commits, run, IsValid, run-IsValid}
use database_engine.Transaction.Visibility.{VersionMeta, is_visible}
use database_engine.Transaction.Versions.{deleted_version, encode_versioned, deleted_version_lem}
use database_engine.Transaction.Visibility.Snapshot.{
  after_begin, in_snapshot, is_visible-snapshot, is_visible-read_committed,
}

abbrev past : List Call
past = begins snapshot_isolation ∷ begins snapshot_isolation ∷ commits (some 1) ∷ []

abbrev before : TransactionManager
before = run new_manager past

abbrev future : List Call
future = commits (some 2) ∷ begins read_committed ∷ []

-- Made by transaction 1 and deleted by transaction 2.
abbrev version : VersionMeta
version = record { xmin = 1; xmax = 2 }

abbrev reader : Transaction
reader = record {
  txn_id = 3;
  state = active;
  isolation_level = read_committed;
  active_at_start = [];
}

before-IsValid : IsValid before
before-IsValid = run-IsValid past (omega arith)

run-IsValid_example : IsValid (run new_manager past)
run-IsValid_example = run-IsValid past (omega arith)

next_id : before.next_txn_id ≡ 3
unfolding run begin commit update
next_id = refl

is_visible-snapshot_example :
    is_visible version
      (begun before snapshot_isolation)
      (after_begin before snapshot_isolation future)
    ≡ in_snapshot version before.next_txn_id before
is_visible-snapshot_example =
    is_visible-snapshot before future version (omega (arith, next_id)) before-IsValid

is_visible-read_committed_example : is_visible version reader before ≡ in_snapshot version 3 before
is_visible-read_committed_example =
    is_visible-read_committed before reader version before-IsValid refl

abbrev stored : List ℕ
stored = encode_versioned version (7 ∷ [])

deleted_version_lem_example :
    (deleted_version 3 stored ≡ encode_versioned (record version { xmax = 3 }) (7 ∷ []))
    × (length (deleted_version 3 stored) ≡ length stored)
deleted_version_lem_example = deleted_version_lem version (7 ∷ []) (omega arith) (omega arith) 3

-- ===== src/Tests/Locks.antt =====
-- transaction/lock_manager.cpp on two transactions and two rows.
use database_engine.Base.{
  ℕ, ◌<◌, ◌≡◌, refl, ◌≢◌, ◌⊎◌, true, false, ◌&&◌, List, [], ◌∷◌, arith, ◌==◌, if◌then◌else◌,
}
use database_engine.Util.Status.{ok, err, conflict, not_found}
use database_engine.Util.Sets.{insert, contains}
use database_engine.Util.Maps.{update}
use database_engine.Storage.Page.{RecordId, same_rid}
use database_engine.Transaction.Locks.{
  LockManager, no_locks, lock_shared, lock_exclusive, unlock, release_all,
}
use database_engine.Transaction.Locks.Holders.{holds, exclusive_holder, SameLocks}
use database_engine.Transaction.Locks.Exclusion.{IsValid, no_locks-IsValid}
use database_engine.Transaction.Locks.Release.{
  Call, shared, exclusive, run, run-IsValid, run-exclusion, holds-release_all,
}
use database_engine.Transaction.Locks.Grants.{
  Granted, GrantedShared, NoOther, lock_shared_lem, lock_exclusive_lem, unlock_lem,
}

abbrev row_a : RecordId
row_a = record { page_id = 1; slot_id = 0 }

abbrev row_b : RecordId
row_b = record { page_id = 1; slot_id = 1 }

abbrev calls : List Call
calls = shared 1 row_a ∷ exclusive 1 row_a ∷ exclusive 2 row_a ∷ exclusive 2 row_b ∷ []

abbrev busy : LockManager
busy = run no_locks calls

busy-IsValid : IsValid busy
busy-IsValid = run-IsValid no_locks calls (omega arith) no_locks-IsValid

owner_of_a : exclusive_holder busy row_a ≡ 1
unfolding exclusive_holder run lock_shared lock_exclusive update insert contains
owner_of_a = refl

holder_of_a : holds busy 1 row_a ≡ true
unfolding holds run lock_shared lock_exclusive update insert contains
holder_of_a = refl

run-exclusion_example : ◌≡◌ {A = ℕ} 1 1
run-exclusion_example =
    run-exclusion calls 1 1 row_a (omega arith) (omega arith) (omega arith) owner_of_a holder_of_a

holds-release_all_example : holds (release_all busy 1) 1 row_a ≡ false
holds-release_all_example =
    holds-release_all busy 1 1 row_a busy-IsValid (omega arith) (omega arith)

lock_shared_lem_example :
    let (s, n) = lock_shared busy 2 row_a in
    ((s ≡ ok tt)
      × ((exclusive_holder busy row_a ≡ 0) ⊎ (exclusive_holder busy row_a ≡ 2))
      × GrantedShared busy 2 row_a n)
    ⊎ ((s ≡ err conflict)
        × (exclusive_holder busy row_a ≢ 0)
        × (exclusive_holder busy row_a ≢ 2)
        × SameLocks busy n)
lock_shared_lem_example = lock_shared_lem busy 2 row_a

lock_exclusive_lem_example :
    let (s, n) = lock_exclusive busy 2 row_a in
    ((s ≡ ok tt) × NoOther busy 2 row_a × (exclusive_holder n row_a ≡ 2) × Granted busy 2 row_a n)
    ⊎ ((s ≡ err conflict) × (¬ NoOther busy 2 row_a) × SameLocks busy n)
lock_exclusive_lem_example = lock_exclusive_lem busy 2 row_a busy-IsValid (omega arith)

unlock_lem_example :
    let (s, n) = unlock busy 1 row_a in
    (s ≡ (if holds busy 1 row_a then ok tt else err not_found))
    × ((u : ℕ) (r : RecordId)
        → 0 < u
        → holds n u r ≡ (if same_rid row_a r && 1 == u then false else holds busy u r))
unlock_lem_example = unlock_lem busy 1 row_a (omega arith)

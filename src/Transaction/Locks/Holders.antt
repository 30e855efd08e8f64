-- ===== src/Transaction/Locks/Holders.antt =====
-- Who holds which row after a call of transaction/lock_manager.cpp.
use database_engine.Base.{
  ℕ, ◌<◌, ◌≡◌, refl, inl, inr, Bool, true, false, ◌&&◌, ◌||◌, arith, ◌==◌, if◌then◌else◌,
  Option-cases,
}
use database_engine.Util.Status.{ok, err, Code}
use database_engine.Util.Sets.{contains, contains-insert, contains-erase, nat_eq}
use database_engine.Util.Maps.{update}
use database_engine.Storage.Page.{RecordId, rid_eq, same_rid, same_rid_iff}
use database_engine.Transaction.Locks.{
  LockManager, entry_of, rows_of, held_by, lock_shared, lock_exclusive, unlock,
}

-- The lock of `txn` on `rid`, in either mode.
unfoldable pub holds : LockManager → ℕ → RecordId → Bool
holds m txn rid = held_by (entry_of (m.lock_table rid)) txn

unfoldable pub exclusive_holder : LockManager → RecordId → ℕ
exclusive_holder m rid = (entry_of (m.lock_table rid)).exclusive_holder

unfoldable pub shares : LockManager → ℕ → RecordId → Bool
shares m txn rid = contains (entry_of (m.lock_table rid)).shared_holders txn

-- The rows in the set that `txn_locks_` keeps for a transaction.
unfoldable pub notes : LockManager → ℕ → RecordId → Bool
notes m txn rid = contains (rows_of (m.txn_locks txn)) rid

module _ (m : LockManager) (t : ℕ) (rid : RecordId) (u : ℕ) (r : RecordId) where
  pub shares-lock_shared :
      (lock_shared m t rid).0 ≡ ok tt
      → shares (lock_shared m t rid).1 u r
        ≡ (if same_rid rid r && t == u then true else shares m u r)
  unfolding shares lock_shared update
  shares-lock_shared done =
      ground (
        arith,
        same_rid_iff rid r,
        contains-insert (entry_of (m.lock_table rid)).shared_holders t u,
      )

  pub exclusive_holder-lock_shared :
      exclusive_holder (lock_shared m t rid).1 r ≡ exclusive_holder m r
  unfolding exclusive_holder lock_shared update
  exclusive_holder-lock_shared = ground (arith, same_rid_iff rid r)

  pub shares-lock_exclusive :
      (lock_exclusive m t rid).0 ≡ ok tt
      → shares (lock_exclusive m t rid).1 u r ≡ (if same_rid rid r then false else shares m u r)
  unfolding shares lock_exclusive update contains
  shares-lock_exclusive done = ground (arith, same_rid_iff rid r)

  pub exclusive_holder-lock_exclusive :
      (lock_exclusive m t rid).0 ≡ ok tt
      → exclusive_holder (lock_exclusive m t rid).1 r
        ≡ (if same_rid rid r then t else exclusive_holder m r)
  unfolding exclusive_holder lock_exclusive update
  exclusive_holder-lock_exclusive done = ground (arith, same_rid_iff rid r)

  pub notes-lock_shared :
      (lock_shared m t rid).0 ≡ ok tt
      → notes (lock_shared m t rid).1 u r ≡ (if same_rid rid r && t == u then true else notes m u r)
  unfolding notes lock_shared update
  notes-lock_shared done =
      ground (arith, same_rid_iff rid r, contains-insert (rows_of (m.txn_locks t)) rid r)

  pub notes-lock_exclusive :
      (lock_exclusive m t rid).0 ≡ ok tt
      → notes (lock_exclusive m t rid).1 u r
        ≡ (if same_rid rid r && t == u then true else notes m u r)
  unfolding notes lock_exclusive update
  notes-lock_exclusive done =
      ground (arith, same_rid_iff rid r, contains-insert (rows_of (m.txn_locks t)) rid r)

  pub shares-unlock :
      shares (unlock m t rid).1 u r ≡ (if same_rid rid r && t == u then false else shares m u r)
  unfolding shares unlock update contains
  shares-unlock =
      ground
        (arith, same_rid_iff rid r, contains-erase (entry_of (m.lock_table rid)).shared_holders t u)

  pub exclusive_holder-unlock :
      exclusive_holder (unlock m t rid).1 r
      ≡ (if same_rid rid r && exclusive_holder m r == t then 0 else exclusive_holder m r)
  unfolding exclusive_holder unlock update
  exclusive_holder-unlock = ground (arith, same_rid_iff rid r)

  -- The set of a transaction is left alone where there is no lock at all.
  pub notes-unlock :
      0 < t
      → (holds m t rid ≡ false → notes m t rid ≡ false)
      → notes (unlock m t rid).1 u r ≡ (if same_rid rid r && t == u then false else notes m u r)
  unfolding notes unlock update holds contains
  notes-unlock pos h = elim (Option-cases (m.lock_table rid)) [
    | inl e ↦ ground (arith, same_rid_iff rid r, h (ground arith))
    | inr (entry, e) ↦
        ground (arith, same_rid_iff rid r, contains-erase (rows_of (m.txn_locks t)) rid r)
  ]

-- Nobody's locks differ.
pub record SameLocks (m n : LockManager) : Type 0 where
  pub shares_same : (u : ℕ) (r : RecordId) → shares n u r ≡ shares m u r
  pub exclusive_same : (r : RecordId) → exclusive_holder n r ≡ exclusive_holder m r
  pub notes_same : (u : ℕ) (r : RecordId) → notes n u r ≡ notes m u r

-- A refused lock changes nobody's locks.
pub lock_shared-SameLocks :
    (m : LockManager) (t : ℕ) (rid : RecordId) (c : Code)
    → (lock_shared m t rid).0 ≡ err c
    → SameLocks m (lock_shared m t rid).1
unfolding lock_shared shares exclusive_holder notes update
lock_shared-SameLocks m t rid c e = record {
  shares_same = λ u r. ground (arith, same_rid_iff rid r);
  exclusive_same = λ r. ground (arith, same_rid_iff rid r);
  notes_same = λ u r. ground arith;
}

pub lock_exclusive-SameLocks :
    (m : LockManager) (t : ℕ) (rid : RecordId) (c : Code)
    → (lock_exclusive m t rid).0 ≡ err c
    → SameLocks m (lock_exclusive m t rid).1
unfolding lock_exclusive shares exclusive_holder notes update
lock_exclusive-SameLocks m t rid c e = record {
  shares_same = λ u r. ground (arith, same_rid_iff rid r);
  exclusive_same = λ r. ground (arith, same_rid_iff rid r);
  notes_same = λ u r. ground arith;
}

pub holds-parts :
    (m : LockManager) (u : ℕ) (r : RecordId)
    → holds m u r ≡ (shares m u r || exclusive_holder m r == u)
unfolding holds shares exclusive_holder
holds-parts m u r = refl

-- ===== src/Transaction/Locks/Release.antt =====
-- `ReleaseAll` of transaction/lock_manager.cpp, and whole histories of calls.
use database_engine.Base.{
  ℕ, ◌<◌, ◌≡◌, refl, inl, inr, true, false, ◌&&◌, List, [], ◌∷◌, arith, ◌==◌, if◌then◌else◌,
  Option-cases, All,
}
use database_engine.Util.Sets.{contains, nat_eq}
use database_engine.Util.Maps.{update}
use database_engine.Storage.Page.{RecordId, rid_eq, same_rid, same_rid_iff}
use database_engine.Transaction.Locks.{
  LockManager, lock_shared, lock_exclusive, unlock, unlock_all, release_all, no_locks,
}
use database_engine.Transaction.Locks.Holders.{
  holds, exclusive_holder, shares, notes, holds-parts, shares-unlock, exclusive_holder-unlock,
}
use database_engine.Transaction.Locks.Exclusion.{
  IsValid, no_locks-IsValid, lock_shared-IsValid, lock_exclusive-IsValid, unlock-IsValid,
}

pub holds-unlock :
    (m : LockManager) (t : ℕ) (rid : RecordId) (u : ℕ) (r : RecordId)
    → 0 < u
    → holds (unlock m t rid).1 u r ≡ (if same_rid rid r && t == u then false else holds m u r)
holds-unlock m t rid u r pos = ground (
  arith,
  same_rid_iff rid r,
  shares-unlock m t rid u r,
  exclusive_holder-unlock m t rid u r,
  holds-parts m u r,
  holds-parts (unlock m t rid).1 u r,
)

holds-unlock_all :
    (m : LockManager) (t : ℕ) (held : List RecordId) (u : ℕ) (r : RecordId)
    → 0 < u
    → holds (unlock_all m t held) u r ≡ (if contains held r && t == u then false else holds m u r)
unfolding unlock_all contains
holds-unlock_all m t [] u r pos = refl
holds-unlock_all m t (rid ∷ held) u r pos =
    ground (arith, holds-unlock m t rid u r pos, holds-unlock_all (unlock m t rid).1 t held u r pos)

unlock_all-IsValid :
    (m : LockManager) (t : ℕ) (held : List RecordId)
    → 0 < t
    → IsValid m
    → IsValid (unlock_all m t held)
unfolding unlock_all
unlock_all-IsValid m t [] pos v = v
unlock_all-IsValid m t (rid ∷ held) pos v =
    unlock_all-IsValid (unlock m t rid).1 t held pos (unlock-IsValid m t rid pos v)

-- From a consistent lock table, `release_all` leaves the transaction without a lock, and every other
-- transaction with the locks that it had.
pub holds-release_all :
    (m : LockManager) (t u : ℕ) (r : RecordId)
    → IsValid m
    → 0 < t
    → 0 < u
    → holds (release_all m t) u r ≡ (if t == u then false else holds m u r)
unfolding release_all notes holds
holds-release_all m t u r v pt pu = elim (Option-cases (m.txn_locks t)) [
  | inl e ↦ rw (e, release_all) (unfold contains in ground (arith, v.noted t r pt))
  | inr (held, e) ↦
      rw (e, release_all) (ground (arith, v.noted t r pt, holds-unlock_all m t held u r pu))
]

release_all-IsValid : (m : LockManager) (t : ℕ) → 0 < t → IsValid m → IsValid (release_all m t)
unfolding release_all
release_all-IsValid m t pos v = elim (Option-cases (m.txn_locks t)) [
  | inl e ↦ rw (e, release_all) v
  | inr (held, e) ↦
      let w = unlock_all-IsValid m t held pos v in
      rw (e, release_all)
        (record {
          alone = unfold exclusive_holder shares in w.alone;
          noted = λ u r p.
              unfold notes holds update contains in
              ground (arith, w.noted u r p, v.noted t r pos, holds-unlock_all m t held u r p);
          real = unfold shares in w.real;
        })
]

pub data Call : Type 0 where
  shared exclusive unlocks : ℕ → RecordId → Call
  releases : ℕ → Call

-- The manager that a call leaves, whatever it answered.
unfoldable pub step : LockManager → Call → LockManager
step m (shared t rid) = (lock_shared m t rid).1
step m (exclusive t rid) = (lock_exclusive m t rid).1
step m (unlocks t rid) = (unlock m t rid).1
step m (releases t) = release_all m t

unfoldable pub run : LockManager → List Call → LockManager
unfolding step
run m [] = m
run m (c ∷ cs) = run (step m c) cs

-- Callers pass the ids of transactions.
abbrev pub HasTxn : Call → Type 0
HasTxn (shared t rid) = 0 < t
HasTxn (exclusive t rid) = 0 < t
HasTxn (unlocks t rid) = 0 < t
HasTxn (releases t) = 0 < t

step-IsValid : (m : LockManager) (c : Call) → HasTxn c → IsValid m → IsValid (step m c)
unfolding step
step-IsValid m (shared t rid) h v = lock_shared-IsValid m t rid h v
step-IsValid m (exclusive t rid) h v = lock_exclusive-IsValid m t rid h v
step-IsValid m (unlocks t rid) h v = unlock-IsValid m t rid h v
step-IsValid m (releases t) h v = release_all-IsValid m t h v

pub run-IsValid :
    (m : LockManager) (cs : List Call) → All HasTxn cs → IsValid m → IsValid (run m cs)
unfolding run
run-IsValid m [] h v = v
run-IsValid m (c ∷ cs) h v = run-IsValid (step m c) cs h.1 (step-IsValid m c h.0 v)

-- After any history of calls by transactions, if one of them has a row's exclusive lock, no other has a
-- lock on that row in either mode.
pub run-exclusion :
    (cs : List Call) (t u : ℕ) (r : RecordId)
    → All HasTxn cs
    → 0 < t
    → 0 < u
    → exclusive_holder (run no_locks cs) r ≡ t
    → holds (run no_locks cs) u r ≡ true
    → u ≡ t
run-exclusion cs t u r h pt pu owner locked =
    let v = run-IsValid no_locks cs h no_locks-IsValid in
    ground (arith, holds-parts (run no_locks cs) u r, v.alone u r pu)

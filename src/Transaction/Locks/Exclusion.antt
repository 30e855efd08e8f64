-- ===== src/Transaction/Locks/Exclusion.antt =====
-- The invariant of transaction/lock_manager.cpp: an exclusive lock excludes the locks of others.
use database_engine.Base.{
  ℕ, ◌<◌, ◌≡◌, refl, ◌∙◌, ◌≢◌, ◌⊎◌, inl, inr, true, false, List, [], ◌∷◌, arith,
}
use database_engine.Util.Status.{ok, err, Code, Status}
use database_engine.Util.Sets.{contains, nat_eq}
use database_engine.Storage.Page.{RecordId, rid_eq, same_rid_iff}
use database_engine.Transaction.Locks.{
  LockManager, entry_of, others_share, lock_shared, lock_exclusive, unlock, no_locks,
}
use database_engine.Transaction.Locks.Holders.{
  holds, exclusive_holder, shares, notes, SameLocks, holds-parts, shares-lock_shared,
  exclusive_holder-lock_shared, notes-lock_shared, shares-lock_exclusive,
  exclusive_holder-lock_exclusive, notes-lock_exclusive, shares-unlock, exclusive_holder-unlock,
  notes-unlock, lock_shared-SameLocks, lock_exclusive-SameLocks,
}

pub record IsValid (m : LockManager) : Type 0 where
  pub alone :
      (u : ℕ) (r : RecordId)
      → 0 < u
      → exclusive_holder m r ≢ 0
      → shares m u r ≡ true
      → u ≡ exclusive_holder m r
  pub noted : (u : ℕ) (r : RecordId) → 0 < u → notes m u r ≡ holds m u r
  pub real : (r : RecordId) → shares m 0 r ≡ false

pub no_locks-IsValid : IsValid no_locks
unfolding exclusive_holder shares notes holds contains
no_locks-IsValid = record {
  alone = λ u r p n s. cc;
  noted = λ u r p. ground arith;
  real = λ r. refl;
}

SameLocks-IsValid : (m n : LockManager) → SameLocks m n → IsValid m → IsValid n
SameLocks-IsValid m n s v = record {
  alone = λ u r p. rw (s.exclusive_same r, s.shares_same u r) (v.alone u r p);
  noted = λ u r p. rw holds-parts (
      rw (s.notes_same u r, s.shares_same u r, s.exclusive_same r)
        (v.noted u r p ∙ holds-parts m u r));
  real = λ r. rw (s.shares_same 0 r) (v.real r);
}

pub Status-cases : (s : Status) → (s ≡ ok tt) ⊎ ((c : Code) × (s ≡ err c))
Status-cases (ok tt) = inl refl
Status-cases (err c) = inr (c, refl)

-- A granted shared lock means that nobody else had an exclusive one.
pub lock_shared-granted :
    (m : LockManager) (t : ℕ) (rid : RecordId)
    → (lock_shared m t rid).0 ≡ ok tt
    → (exclusive_holder m rid ≡ 0) ⊎ (exclusive_holder m rid ≡ t)
unfolding lock_shared exclusive_holder
lock_shared-granted m t rid e = ground arith

others_share-contains :
    (holders : List ℕ) (t u : ℕ)
    → others_share holders t ≡ false
    → contains holders u ≡ true
    → u ≡ t
unfolding others_share contains
others_share-contains [] t u h c = cc
others_share-contains (x ∷ xs) t u h c = ground (arith, others_share-contains xs t u)

pub lock_exclusive-granted :
    (m : LockManager) (t : ℕ) (rid : RecordId)
    → (lock_exclusive m t rid).0 ≡ ok tt
    → ((exclusive_holder m rid ≡ 0) ⊎ (exclusive_holder m rid ≡ t))
      × ((u : ℕ) → shares m u rid ≡ true → u ≡ t)
unfolding lock_exclusive exclusive_holder shares
lock_exclusive-granted m t rid e = (
  ground arith,
  λ u s. others_share-contains (entry_of (m.lock_table rid)).shared_holders t u (ground arith) s,
)

pub lock_shared-IsValid :
    (m : LockManager) (t : ℕ) (rid : RecordId) → 0 < t → IsValid m → IsValid (lock_shared m t rid).1
lock_shared-IsValid m t rid pos v = elim (Status-cases (lock_shared m t rid).0) [
  | inr (c, e) ↦ SameLocks-IsValid m _ (lock_shared-SameLocks m t rid c e) v
  | inl e ↦ record {
    alone = λ u r p n s. ground (
      arith,
      same_rid_iff rid r,
      lock_shared-granted m t rid e,
      shares-lock_shared m t rid u r e,
      exclusive_holder-lock_shared m t rid u r,
      v.alone u r p,
    );
    noted = λ u r p. ground (
      arith,
      same_rid_iff rid r,
      notes-lock_shared m t rid u r e,
      shares-lock_shared m t rid u r e,
      exclusive_holder-lock_shared m t rid u r,
      holds-parts m u r,
      holds-parts (lock_shared m t rid).1 u r,
      v.noted u r p,
    );
    real = λ r. ground (arith, shares-lock_shared m t rid 0 r e, v.real r);
  }
]

pub lock_exclusive-IsValid :
    (m : LockManager) (t : ℕ) (rid : RecordId)
    → 0 < t
    → IsValid m
    → IsValid (lock_exclusive m t rid).1
lock_exclusive-IsValid m t rid pos v = elim (Status-cases (lock_exclusive m t rid).0) [
  | inr (c, e) ↦ SameLocks-IsValid m _ (lock_exclusive-SameLocks m t rid c e) v
  | inl e ↦ record {
    alone = λ u r p n s. ground (
      arith,
      same_rid_iff rid r,
      shares-lock_exclusive m t rid u r e,
      exclusive_holder-lock_exclusive m t rid u r e,
      v.alone u r p,
    );
    noted = λ u r p. ground (
      arith,
      same_rid_iff rid r,
      (lock_exclusive-granted m t rid e).0,
      (lock_exclusive-granted m t rid e).1 u,
      notes-lock_exclusive m t rid u r e,
      shares-lock_exclusive m t rid u r e,
      exclusive_holder-lock_exclusive m t rid u r e,
      holds-parts m u r,
      holds-parts (lock_exclusive m t rid).1 u r,
      v.noted u r p,
    );
    real = λ r. ground (arith, shares-lock_exclusive m t rid 0 r e, v.real r);
  }
]

pub unlock-IsValid :
    (m : LockManager) (t : ℕ) (rid : RecordId) → 0 < t → IsValid m → IsValid (unlock m t rid).1
unlock-IsValid m t rid pos v = record {
  alone = λ u r p n s. ground (
    arith,
    same_rid_iff rid r,
    shares-unlock m t rid u r,
    exclusive_holder-unlock m t rid u r,
    v.alone u r p,
  );
  noted = λ u r p. ground (
    arith,
    same_rid_iff rid r,
    v.noted t rid pos,
    notes-unlock m t rid u r pos,
    shares-unlock m t rid u r,
    exclusive_holder-unlock m t rid u r,
    holds-parts m u r,
    holds-parts (unlock m t rid).1 u r,
    v.noted u r p,
  );
  real = λ r. ground (arith, shares-unlock m t rid 0 r, v.real r);
}

-- ===== src/Transaction/Locks/Grants.antt =====
-- When transaction/lock_manager.cpp grants a lock, and what a call does to the locks.
use database_engine.Base.{
  ℕ, ◌<◌, ◌≡◌, ◌≢◌, ◌⊎◌, inl, inr, true, false, ◌&&◌, List, [], ◌∷◌, arith, ◌==◌, if◌then◌else◌,
  Bool-cases,
}
use database_engine.Util.Status.{ok, err, Code, conflict, not_found}
use database_engine.Util.Sets.{contains, nat_eq}
use database_engine.Storage.Page.{RecordId, rid_eq, same_rid, same_rid_iff}
use database_engine.Transaction.Locks.{
  LockManager, entry_of, excluded, others_share, lock_shared, lock_exclusive, unlock,
}
use database_engine.Transaction.Locks.Holders.{
  holds, exclusive_holder, shares, notes, SameLocks, holds-parts, shares-lock_shared,
  notes-lock_shared, exclusive_holder-lock_shared, shares-lock_exclusive,
  exclusive_holder-lock_exclusive, lock_shared-SameLocks, lock_exclusive-SameLocks,
}
use database_engine.Transaction.Locks.Exclusion.{
  IsValid, Status-cases, lock_shared-granted, lock_exclusive-granted,
}
use database_engine.Transaction.Locks.Release.{holds-unlock}

-- The locks after a call that granted `t` a lock on `rid`.
abbrev pub Granted : LockManager → ℕ → RecordId → LockManager → Type 0
Granted m t rid n =
    (u : ℕ) (r : RecordId)
    → 0 < u
    → holds n u r ≡ (if same_rid rid r && t == u then true else holds m u r)

-- Nobody but `t` has a lock on `rid`.
abbrev pub NoOther : LockManager → ℕ → RecordId → Type 0
NoOther m t rid = (u : ℕ) → 0 < u → holds m u rid ≡ true → u ≡ t

lock_shared-refused :
    (m : LockManager) (t : ℕ) (rid : RecordId) (c : Code)
    → (lock_shared m t rid).0 ≡ err c
    → (c ≡ conflict) × (exclusive_holder m rid ≢ 0) × (exclusive_holder m rid ≢ t)
unfolding lock_shared exclusive_holder
lock_shared-refused m t rid c e = ground arith

-- The locks after a call that granted `t` a shared lock on `rid`, mode by mode.
abbrev pub GrantedShared : LockManager → ℕ → RecordId → LockManager → Type 0
GrantedShared m t rid n =
    ((u : ℕ) (r : RecordId)
      → shares n u r ≡ (if same_rid rid r && t == u then true else shares m u r))
    × ((r : RecordId) → exclusive_holder n r ≡ exclusive_holder m r)
    × ((u : ℕ) (r : RecordId)
        → notes n u r ≡ (if same_rid rid r && t == u then true else notes m u r))

-- `lock_shared` by `t` is granted exactly when no other transaction has the row's exclusive lock. Then `t`
-- is among those that share the row, which is listed with the locks of `t`; those that share rows and the
-- lists are otherwise the same, and every row's exclusive lock is where it was; a refusal is a `conflict` and changes nobody's locks.
pub lock_shared_lem :
    (m : LockManager) (t : ℕ) (rid : RecordId)
    → let (s, n) = lock_shared m t rid in
      ((s ≡ ok tt)
        × ((exclusive_holder m rid ≡ 0) ⊎ (exclusive_holder m rid ≡ t))
        × GrantedShared m t rid n)
      ⊎ ((s ≡ err conflict)
          × (exclusive_holder m rid ≢ 0)
          × (exclusive_holder m rid ≢ t)
          × SameLocks m n)
lock_shared_lem m t rid = elim (Status-cases (lock_shared m t rid).0) [
  | inl e ↦ inl (
    e,
    lock_shared-granted m t rid e,
    (
      λ u r. shares-lock_shared m t rid u r e,
      λ r. exclusive_holder-lock_shared m t rid t r,
      λ u r. notes-lock_shared m t rid u r e,
    ),
  )
  | inr (c, e) ↦ inr (
      let (a, b, d) = lock_shared-refused m t rid c e in
      (rw a at e, b, d, lock_shared-SameLocks m t rid c e))
]

unfold_real :
    (m : LockManager)
    → IsValid m
    → (rid : RecordId) → contains (entry_of (m.lock_table rid)).shared_holders 0 ≡ false
unfolding shares
unfold_real m v rid = v.real rid

others_share-witness :
    (holders : List ℕ) (t : ℕ)
    → others_share holders t ≡ true
    → (u : ℕ) × (contains holders u ≡ true) × (u ≢ t)
unfolding others_share contains
others_share-witness [] t h = cc
others_share-witness (x ∷ xs) t h = elim (Bool-cases (x == t)) [
  | inl e ↦ let (u, c, ne) = others_share-witness xs t (ground arith) in (u, ground arith, ne)
  | inr e ↦ (x, ground arith, λ eq. ground arith)
]

-- A refused exclusive lock means that somebody else has a lock.
lock_exclusive-refused :
    (m : LockManager) (t : ℕ) (rid : RecordId) (c : Code)
    → IsValid m
    → (lock_exclusive m t rid).0 ≡ err c
    → (c ≡ conflict) × (u : ℕ) × (0 < u) × (holds m u rid ≡ true) × (u ≢ t)
unfolding lock_exclusive holds
lock_exclusive-refused m t rid c v e =
    let entry = entry_of (m.lock_table rid) in
    elim (Bool-cases (excluded entry t)) [
      | inl x ↦
          (ground arith, entry.exclusive_holder, ground arith, ground arith, λ eq. ground arith)
      | inr x ↦
          let (u, shared, ne) = others_share-witness entry.shared_holders t (ground arith) in
          (ground arith, u, (ground (arith, unfold_real m v rid)), ground arith, ne)
    ]

-- From a consistent lock table, `lock_exclusive` by `t` is granted exactly when no other transaction has
-- a lock on the row in either mode. Then `t` has the row's exclusive lock and nobody's other locks differ;
-- a refusal is a `conflict` and changes nobody's locks.
pub lock_exclusive_lem :
    (m : LockManager) (t : ℕ) (rid : RecordId)
    → IsValid m
    → 0 < t
    → let (s, n) = lock_exclusive m t rid in
      ((s ≡ ok tt) × NoOther m t rid × (exclusive_holder n rid ≡ t) × Granted m t rid n)
      ⊎ ((s ≡ err conflict) × (¬ NoOther m t rid) × SameLocks m n)
lock_exclusive_lem m t rid v pos = elim (Status-cases (lock_exclusive m t rid).0) [
  | inl e ↦
      let (owner, sharers) = lock_exclusive-granted m t rid e in
      inl (
        e,
        λ u p h. ground (arith, sharers u, holds-parts m u rid),
        ground (arith, exclusive_holder-lock_exclusive m t rid t rid e, same_rid_iff rid rid),
        λ u r p. ground (
          arith,
          same_rid_iff rid r,
          sharers u,
          shares-lock_exclusive m t rid u r e,
          exclusive_holder-lock_exclusive m t rid u r e,
          holds-parts m u r,
          holds-parts (lock_exclusive m t rid).1 u r,
        ),
      )
  | inr (c, e) ↦
      let (a, u, pu, hu, ne) = lock_exclusive-refused m t rid c v e in
      inr (rw a at e, λ no_other. ne (no_other u pu hu), lock_exclusive-SameLocks m t rid c e)
]

-- `unlock` succeeds exactly when the transaction has a lock on the row, and answers `not_found` otherwise.
-- Afterwards it has none there, and all other locks are as they were.
pub unlock_lem :
    (m : LockManager) (t : ℕ) (rid : RecordId)
    → 0 < t
    → let (s, n) = unlock m t rid in
      (s ≡ (if holds m t rid then ok tt else err not_found))
      × ((u : ℕ) (r : RecordId)
          → 0 < u
          → holds n u r ≡ (if same_rid rid r && t == u then false else holds m u r))
unlock_lem m t rid pos =
    ((unfold unlock holds contains in ground arith), λ u r. holds-unlock m t rid u r)

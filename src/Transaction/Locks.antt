-- ===== src/Transaction/Locks.antt =====
-- transaction/lock_manager.hpp and lock_manager.cpp: row locks in two modes. The mutex makes each call
-- one step, but for `ReleaseAll`, which takes it anew for each row.
pub mod Holders
pub mod Exclusion
pub mod Release
pub mod Grants
use database_engine.Base.{
  ℕ, zero, suc, ◌+◌, ◌-◌, ◌*◌, ◌/◌, ◌%◌, ◌^◌, ◌≤◌, ◌<◌, ◌≡◌, refl, sym, ap, ◌∙◌, fun_ext, subst,
  ◌≢◌, ◌↔◌, ◌⊎◌, inl, inr, Bool, true, false, not, ◌&&◌, ◌||◌, Option, none, some, List, [], ◌∷◌,
  ◌++◌, map, append_assoc, append-nil, arith, ltb, leb, ◌==◌, if◌then◌else◌, ltb→lt, lt→ltb, le→ltb,
  leb→le, ==_iff, Bool-cases, Option-cases, lt-or-le, length, get_elem?, set, get_or, take, drop,
  replicate, All, length-append, length-replicate, take_append, drop_append, length-take,
  length-drop, length-set, get_elem?-set_self, get_elem?-set_ne,
}
use database_engine.Util.Status.{Result, ok, err, Code, conflict, not_found, Status}
use database_engine.Util.Sets.{contains, insert, erase, nat_eq}
use database_engine.Util.Maps.{update}
use database_engine.Storage.Page.{RecordId, rid_eq}
use database_engine.Transaction.Manager.{invalid_txn_id}

pub record LockEntry : Type 0 where
  pub shared_holders : List ℕ
  pub exclusive_holder : ℕ

pub record LockManager : Type 0 where
  pub lock_table : RecordId → Option LockEntry
  pub txn_locks : ℕ → Option (List RecordId)

abbrev pub no_locks : LockManager
no_locks = record { lock_table = λ rid. none; txn_locks = λ txn. none }

-- `lock_table_[rid]` and `txn_locks_[txn_id]` make an empty entry where there is none.
abbrev pub entry_of : Option LockEntry → LockEntry
entry_of none = record { shared_holders = []; exclusive_holder = invalid_txn_id }
entry_of (some e) = e

abbrev pub rows_of : Option (List RecordId) → List RecordId
rows_of none = []
rows_of (some rows) = rows

-- `txn_locks_[txn_id].insert(rid)`.
abbrev pub noted : LockManager → ℕ → RecordId → ℕ → Option (List RecordId)
noted m txn_id rid = update m.txn_locks txn_id (some (insert (rows_of (m.txn_locks txn_id)) rid))

-- `exclusive_holder != kInvalidTxnId && exclusive_holder != txn_id`.
abbrev pub excluded : LockEntry → ℕ → Bool
excluded entry txn_id =
    not (entry.exclusive_holder == invalid_txn_id) && not (entry.exclusive_holder == txn_id)

-- The loop over the shared holders.
unfoldable pub others_share : List ℕ → ℕ → Bool
others_share [] txn_id = false
others_share (holder ∷ holders) txn_id =
    let rest = others_share holders txn_id in if not (holder == txn_id) then true else rest

unfoldable pub lock_shared : LockManager → ℕ → RecordId → Status × LockManager
lock_shared m txn_id rid =
    let entry = entry_of (m.lock_table rid) in
    if excluded entry txn_id
    then (err conflict, record m { lock_table = update m.lock_table rid (some entry) })
    else (
      ok tt,
      record {
        lock_table =
            update m.lock_table rid
              (some (record entry { shared_holders = insert entry.shared_holders txn_id }));
        txn_locks = noted m txn_id rid;
      },
    )

unfoldable pub lock_exclusive : LockManager → ℕ → RecordId → Status × LockManager
unfolding others_share
lock_exclusive m txn_id rid =
    let entry = entry_of (m.lock_table rid) in
    if excluded entry txn_id
    then (err conflict, record m { lock_table = update m.lock_table rid (some entry) })
    else if others_share entry.shared_holders txn_id
    then (err conflict, record m { lock_table = update m.lock_table rid (some entry) })
    else (
      ok tt,
      record {
        lock_table =
            update m.lock_table rid
              (some (record { shared_holders = []; exclusive_holder = txn_id }));
        txn_locks = noted m txn_id rid;
      },
    )

-- `entry.shared_holders.erase(txn_id)`, and the exclusive lock given up if `txn_id` has it.
abbrev pub given_up : LockEntry → ℕ → LockEntry
given_up entry txn_id = record {
  shared_holders = erase entry.shared_holders txn_id;
  exclusive_holder =
      if entry.exclusive_holder == txn_id then invalid_txn_id else entry.exclusive_holder;
}

abbrev pub is_empty {ℓ} : {A : Type ℓ} → List A → Bool
is_empty [] = true
is_empty (x ∷ xs) = false

-- An entry without holders is erased.
abbrev pub kept : LockEntry → Option LockEntry
kept entry =
    if is_empty entry.shared_holders && entry.exclusive_holder == invalid_txn_id
    then none
    else some entry

abbrev pub held_by : LockEntry → ℕ → Bool
held_by entry txn_id = contains entry.shared_holders txn_id || entry.exclusive_holder == txn_id

-- `txn_it->second.erase(rid)`, if `txn_id` has a set.
abbrev pub struck : LockManager → ℕ → RecordId → ℕ → Option (List RecordId)
struck m txn_id rid = elim (m.txn_locks txn_id) [
  | none ↦ m.txn_locks
  | some rows ↦ update m.txn_locks txn_id (some (erase rows rid))
]

unfoldable pub unlock : LockManager → ℕ → RecordId → Status × LockManager
unlock m txn_id rid = elim (m.lock_table rid) [
  | none ↦ (err not_found, m)
  | some entry ↦ (
    if held_by entry txn_id then ok tt else err not_found,
    record {
      lock_table = update m.lock_table rid (kept (given_up entry txn_id));
      txn_locks = struck m txn_id rid;
    },
  )
]

-- The loop of `ReleaseAll` over the rows that it copied.
unfoldable pub unlock_all : LockManager → ℕ → List RecordId → LockManager
unfolding unlock
unlock_all m txn_id [] = m
unlock_all m txn_id (rid ∷ held) = unlock_all (unlock m txn_id rid).1 txn_id held

unfoldable pub release_all : LockManager → ℕ → LockManager
unfolding unlock_all
release_all m txn_id = elim (m.txn_locks txn_id) [
  | none ↦ m
  | some held ↦
      let m' = unlock_all m txn_id held in record m' { txn_locks = update m'.txn_locks txn_id none }
]

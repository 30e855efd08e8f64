-- ===== src/Transaction/Visibility.antt =====
-- `IsVisible` of transaction/mvcc.hpp and mvcc.cpp.
pub mod Snapshot
use database_engine.Base.{
  ℕ, zero, suc, ◌+◌, ◌-◌, ◌*◌, ◌/◌, ◌%◌, ◌^◌, ◌≤◌, ◌<◌, ◌≡◌, refl, sym, ap, ◌∙◌, fun_ext, subst,
  ◌≢◌, ◌↔◌, ◌⊎◌, inl, inr, Bool, true, false, not, ◌&&◌, ◌||◌, Option, none, some, List, [], ◌∷◌,
  ◌++◌, map, append_assoc, append-nil, arith, ltb, leb, ◌==◌, if◌then◌else◌, ltb→lt, lt→ltb, le→ltb,
  leb→le, ==_iff, Bool-cases, Option-cases, lt-or-le, length, get_elem?, set, get_or, take, drop,
  replicate, All, length-append, length-replicate, take_append, drop_append, length-take,
  length-drop, length-set, get_elem?-set_self, get_elem?-set_ne,
}
use database_engine.Util.Sets.{contains, nat_eq}
use database_engine.Transaction.Manager.{
  Transaction, TransactionManager, TxnState, IsolationLevel, read_committed, snapshot_isolation,
  invalid_txn_id, is_committed_state, get_transaction,
}

pub record VersionMeta : Type 0 where
  pub xmin : ℕ
  pub xmax : ℕ

-- The test on the isolation level that ends `CommittedAndVisibleTo`.
abbrev pub seen_at_level : IsolationLevel → ℕ → Transaction → Bool
seen_at_level read_committed id reader = true
seen_at_level snapshot_isolation id reader =
    ltb id reader.txn_id && not (contains reader.active_at_start id)

unfoldable pub committed_and_visible_to : ℕ → Transaction → TransactionManager → Bool
committed_and_visible_to id reader m =
    if id == invalid_txn_id then false else elim (get_transaction m id) [
      | none ↦ false
      | some actor ↦
          if not (is_committed_state actor.state)
          then false
          else seen_at_level reader.isolation_level id reader
    ]

unfoldable pub is_visible : VersionMeta → Transaction → TransactionManager → Bool
unfolding committed_and_visible_to
is_visible meta reader m =
    let created_by_self = meta.xmin == reader.txn_id in
    let deleted_by_self = meta.xmax == reader.txn_id in
    if deleted_by_self
    then false
    else if not (created_by_self || committed_and_visible_to meta.xmin reader m)
    then false
    else if meta.xmax == invalid_txn_id
    then true
    else not (committed_and_visible_to meta.xmax reader m)

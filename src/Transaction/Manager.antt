-- ===== src/Transaction/Manager.antt =====
-- transaction/transaction.hpp, transaction_manager.hpp and transaction_manager.cpp. A `Transaction*`
-- is `none` for a null pointer, and otherwise the id of the transaction in `transactions_` that it
-- points to. The mutex makes each call one step.
pub mod History
use database_engine.Base.{
  ℕ, zero, suc, ◌+◌, ◌-◌, ◌*◌, ◌/◌, ◌%◌, ◌^◌, ◌≤◌, ◌<◌, ◌≡◌, refl, sym, ap, ◌∙◌, fun_ext, subst,
  ◌≢◌, ◌↔◌, ◌⊎◌, inl, inr, Bool, true, false, not, ◌&&◌, ◌||◌, Option, none, some, List, [], ◌∷◌,
  ◌++◌, map, append_assoc, append-nil, arith, ltb, leb, ◌==◌, if◌then◌else◌, ltb→lt, lt→ltb, le→ltb,
  leb→le, ==_iff, Bool-cases, Option-cases, lt-or-le, length, get_elem?, set, get_or, take, drop,
  replicate, All, length-append, length-replicate, take_append, drop_append, length-take,
  length-drop, length-set, get_elem?-set_self, get_elem?-set_ne,
}
use database_engine.Util.Status.{Result, ok, err, Code, invalid_argument, Status}
use database_engine.Util.Sets.{contains, insert, erase, contains-insert, contains-erase, nat_eq}
use database_engine.Util.Maps.{update}

pub data TxnState : Type 0 where
  active committed aborted : TxnState

pub data IsolationLevel : Type 0 where
  read_committed snapshot_isolation : IsolationLevel

abbrev pub invalid_txn_id : ℕ
invalid_txn_id = 0

pub record Transaction : Type 0 where
  pub txn_id : ℕ
  pub state : TxnState
  pub isolation_level : IsolationLevel
  pub active_at_start : List ℕ

pub record TransactionManager : Type 0 where
  pub next_txn_id : ℕ
  pub transactions : ℕ → Option Transaction
  pub active_txn_ids : List ℕ

abbrev pub new_manager : TransactionManager
new_manager = record { next_txn_id = 1; transactions = λ id. none; active_txn_ids = [] }

abbrev pub is_active_state : TxnState → Bool
is_active_state active = true
is_active_state _ = false

abbrev pub is_committed_state : TxnState → Bool
is_committed_state committed = true
is_committed_state _ = false

-- The new transaction of `Begin`.
abbrev pub begun : TransactionManager → IsolationLevel → Transaction
begun m level = record {
  txn_id = m.next_txn_id;
  state = active;
  isolation_level = level;
  active_at_start = m.active_txn_ids;
}

unfoldable pub begin : TransactionManager → IsolationLevel → Transaction × TransactionManager
begin m level = (
  begun m level,
  record {
    next_txn_id = (m.next_txn_id + 1) % 2 ^ 64;
    transactions = update m.transactions m.next_txn_id (some (begun m level));
    active_txn_ids = insert m.active_txn_ids m.next_txn_id;
  },
)

-- `Commit` and `Abort` differ in the state that they set.
unfoldable pub finish : TransactionManager → TxnState → Option ℕ → Status × TransactionManager
finish m state none = (err invalid_argument, m)
finish m state (some id) = elim (m.transactions id) [
  | none ↦ (err invalid_argument, m)
  | some t ↦ if not (is_active_state t.state) then (err invalid_argument, m) else (
    ok tt,
    record m {
      transactions = update m.transactions id (some (record t { state = state }));
      active_txn_ids = erase m.active_txn_ids t.txn_id;
    },
  )
]

unfoldable pub commit : TransactionManager → Option ℕ → Status × TransactionManager
unfolding finish
commit m = finish m committed

unfoldable pub abort : TransactionManager → Option ℕ → Status × TransactionManager
unfolding finish
abort m = finish m aborted

abbrev pub get_transaction : TransactionManager → ℕ → Option Transaction
get_transaction m = m.transactions

unfoldable pub is_committed : TransactionManager → ℕ → Bool
is_committed m id = elim (get_transaction m id) [
  | none ↦ false
  | some t ↦ is_committed_state t.state
]

unfoldable pub is_active : TransactionManager → ℕ → Bool
is_active m id = elim (get_transaction m id) [ none ↦ false | some t ↦ is_active_state t.state ]

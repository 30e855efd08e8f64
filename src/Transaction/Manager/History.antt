-- ===== src/Transaction/Manager/History.antt =====
-- What every history of calls of transaction/transaction_manager.cpp keeps.
use database_engine.Base.{
  ℕ, ◌+◌, ◌^◌, ◌≤◌, ◌<◌, ◌≡◌, refl, ◌⊎◌, inl, inr, false, Option, none, some, List, [], ◌∷◌, arith,
  Bool-cases, Option-cases, length,
}
use database_engine.Util.Status.{ok, err, invalid_argument}
use database_engine.Util.Sets.{contains, erase, contains-insert, contains-erase, nat_eq}
use database_engine.Util.Maps.{update}
use database_engine.Transaction.Manager.{
  TxnState, active, committed, aborted, IsolationLevel, Transaction, TransactionManager,
  new_manager, is_active_state, begin, finish, commit, abort, is_active,
}

pub data Call : Type 0 where
  begins : IsolationLevel → Call
  commits : Option ℕ → Call
  aborts : Option ℕ → Call

unfoldable pub step : TransactionManager → Call → TransactionManager
step m (begins level) = (begin m level).1
step m (commits t) = (commit m t).1
step m (aborts t) = (abort m t).1

unfoldable pub run : TransactionManager → List Call → TransactionManager
unfolding step
run m [] = m
run m (c ∷ cs) = run (step m c) cs

-- Ids are given out in order from 1, a transaction is filed under its id, and the set of active ids
-- is that of the active transactions.
pub record IsValid (m : TransactionManager) : Type 0 where
  pub started : 0 < m.next_txn_id
  pub filed :
      (id : ℕ) (t : Transaction)
      → m.transactions id ≡ some t
      → (t.txn_id ≡ id) × (0 < id) × (id < m.next_txn_id)
  pub actives : (id : ℕ) → contains m.active_txn_ids id ≡ is_active m id

pub new_manager-IsValid : IsValid new_manager
unfolding is_active contains
new_manager-IsValid = record { started = omega arith; filed = λ id t e. cc; actives = λ id. refl }

pub begin-IsValid :
    (m : TransactionManager) (level : IsolationLevel)
    → m.next_txn_id + 1 < 2 ^ 64
    → IsValid m
    → IsValid (begin m level).1
unfolding begin is_active update
begin-IsValid m level room v = record {
  started = omega arith;
  filed = λ id t e. ground (arith, v.filed id t);
  actives = λ id. ground (arith, contains-insert m.active_txn_ids m.next_txn_id id, v.actives id);
}

-- The manager after `t`, filed under `id`, has ended.
abbrev pub ended : TransactionManager → ℕ → Transaction → TxnState → TransactionManager
ended m id t state = record m {
  transactions = update m.transactions id (some (record t { state = state }));
  active_txn_ids = erase m.active_txn_ids t.txn_id;
}

-- A call to end a transaction is refused and changes nothing, or ends an active one.
pub finish_cases :
    (m : TransactionManager) (state : TxnState) (t : Option ℕ)
    → (finish m state t ≡ (err invalid_argument, m))
      ⊎ ((id : ℕ) × (txn : Transaction) × (t ≡ some id)
          × (m.transactions id ≡ some txn)
          × (txn.state ≡ active)
          × (finish m state t ≡ (ok tt, ended m id txn state)))
unfolding finish
finish_cases m state none = inl refl
finish_cases m state (some id) = elim (Option-cases (m.transactions id)) [
  | inl e ↦ inl (ground arith)
  | inr (txn, e) ↦ elim (Bool-cases (is_active_state txn.state)) [
    | inl a ↦ inr (id, txn, refl, e, ground arith, ground arith)
    | inr a ↦ inl (ground arith)
  ]
]

finish-IsValid :
    (m : TransactionManager) (state : TxnState) (t : Option ℕ)
    → is_active_state state ≡ false
    → IsValid m
    → IsValid (finish m state t).1
finish-IsValid m state t h v = elim (finish_cases m state t) [
  | inl e ↦ rw e v
  | inr (id, txn, _, found, _, e) ↦ rw e (
      unfold update is_active in
      record {
        started = v.started;
        filed = λ j u f. ground (arith, v.filed j u, v.filed id txn);
        actives = λ j. ground (
          arith,
          v.filed id txn found,
          v.actives j,
          contains-erase m.active_txn_ids txn.txn_id j,
        );
      })
]

step-IsValid :
    (m : TransactionManager) (c : Call)
    → m.next_txn_id + 1 < 2 ^ 64
    → IsValid m
    → IsValid (step m c)
unfolding step commit abort
step-IsValid m (begins level) room v = begin-IsValid m level room v
step-IsValid m (commits t) room v = finish-IsValid m committed t refl v
step-IsValid m (aborts t) room v = finish-IsValid m aborted t refl v

next_txn_id-finish :
    (m : TransactionManager) (state : TxnState) (t : Option ℕ)
    → (finish m state t).1.next_txn_id ≡ m.next_txn_id
next_txn_id-finish m state t = elim (finish_cases m state t) [
  | inl e ↦ rw e refl
  | inr (id, txn, _, _, _, e) ↦ rw e refl
]

next_txn_id-step :
    (m : TransactionManager) (c : Call)
    → m.next_txn_id + 1 < 2 ^ 64
    → (m.next_txn_id ≤ (step m c).next_txn_id) × ((step m c).next_txn_id ≤ m.next_txn_id + 1)
unfolding step commit abort begin
next_txn_id-step m (begins level) room = omega arith
next_txn_id-step m (commits t) room = omega (arith, next_txn_id-finish m committed t)
next_txn_id-step m (aborts t) room = omega (arith, next_txn_id-finish m aborted t)

-- A property that each call keeps, while ids do not wrap, holds after a history.
pub run_induction {ℓ} :
    (P : TransactionManager → Type ℓ)
    → ((m : TransactionManager) (c : Call)
        → m.next_txn_id + 1 < 2 ^ 64
        → IsValid m
        → P m
        → P (step m c))
    → (m : TransactionManager) (cs : List Call) → m.next_txn_id + length cs < 2 ^ 64
    → IsValid m
    → P m
    → IsValid (run m cs) × P (run m cs)
unfolding run
run_induction P keep m [] room v h = (v, h)
run_induction P keep m (c ∷ cs) room v h =
    run_induction P keep (step m c) cs (omega (arith, next_txn_id-step m c))
      (step-IsValid m c (omega arith) v) (keep m c (omega arith) v h)

-- After any history of fewer than 2 ^ 64 - 1 calls, ids run upwards from 1, every transaction is filed
-- under its own id, and the active set is exactly the active transactions.
pub run-IsValid : (cs : List Call) → length cs + 1 < 2 ^ 64 → IsValid (run new_manager cs)
run-IsValid cs room =
    (run_induction (λ m. Unit {0}) (λ m c r v h. tt) new_manager cs (omega arith)
      new_manager-IsValid tt).0

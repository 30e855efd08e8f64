-- ===== src/Transaction/Visibility/Snapshot.antt =====
-- What a reader sees, against the transactions that had committed when it began.
use database_engine.Base.{
  ℕ, ◌+◌, ◌^◌, ◌≤◌, ◌<◌, ◌≡◌, refl, inl, inr, Bool, false, not, ◌&&◌, ◌||◌, Option, List, arith,
  ◌==◌, Option-cases, length,
}
use database_engine.Util.Sets.{nat_eq}
use database_engine.Util.Maps.{update}
use database_engine.Transaction.Manager.{
  TxnState, committed, aborted, IsolationLevel, read_committed, snapshot_isolation, Transaction,
  TransactionManager, begun, begin, finish, commit, abort, is_committed, is_active,
}
use database_engine.Transaction.Manager.History.{
  Call, begins, commits, aborts, step, run, IsValid, begin-IsValid, finish_cases, run_induction,
}
use database_engine.Transaction.Visibility.{VersionMeta, committed_and_visible_to, is_visible}

-- Whatever had an id below `n` and was not running in `m₀` is as it was.
record Settled (m₀ m : TransactionManager) : Type 0 where
  later : m₀.next_txn_id ≤ m.next_txn_id
  same :
      (id : ℕ)
      → id < m₀.next_txn_id
      → is_active m₀ id ≡ false
      → m.transactions id ≡ m₀.transactions id

begin-Settled :
    (m₀ m : TransactionManager) (level : IsolationLevel)
    → m.next_txn_id + 1 < 2 ^ 64
    → Settled m₀ m
    → Settled m₀ (begin m level).1
unfolding begin update
begin-Settled m₀ m level room s = record {
  later = omega (arith, s.later);
  same = λ id lt off. ground (arith, s.later, s.same id lt off);
}

finish-Settled :
    (m₀ m : TransactionManager) (state : TxnState) (t : Option ℕ)
    → Settled m₀ m
    → Settled m₀ (finish m state t).1
finish-Settled m₀ m state t s = elim (finish_cases m state t) [
  | inl e ↦ rw e s
  | inr (id, txn, _, found, running, e) ↦ rw e (
      unfold update is_active in
      record { later = s.later; same = λ j lt off. ground (arith, s.same j lt off) })
]

step-Settled :
    (m₀ m : TransactionManager) (c : Call)
    → m.next_txn_id + 1 < 2 ^ 64
    → IsValid m
    → Settled m₀ m
    → Settled m₀ (step m c)
unfolding step commit abort
step-Settled m₀ m (begins level) room v s = begin-Settled m₀ m level room s
step-Settled m₀ m (commits t) room v s = finish-Settled m₀ m committed t s
step-Settled m₀ m (aborts t) room v s = finish-Settled m₀ m aborted t s

-- The manager after the reader began and then the calls `cs` were made.
abbrev pub after_begin : TransactionManager → IsolationLevel → List Call → TransactionManager
after_begin m level cs = run (begin m level).1 cs

module _ (m : TransactionManager) (cs : List Call) (room : m.next_txn_id + 1 + length cs < 2 ^ 64)
    (v : IsValid m) where
  after_begin-Settled : (level : IsolationLevel) → Settled m (after_begin m level cs)
  after_begin-Settled level =
      (run_induction (Settled m) (step-Settled m) (begin m level).1 cs (unfold begin in omega arith)
        (begin-IsValid m level (omega arith) v)
        (begin-Settled m m level (omega arith)
          (record { later = omega arith; same = λ id lt off. refl }))).1

  committed_and_visible_to-snapshot :
      (id : ℕ)
      → committed_and_visible_to id
          (begun m snapshot_isolation)
          (after_begin m snapshot_isolation cs)
        ≡ is_committed m id
  unfolding committed_and_visible_to is_committed is_active
  committed_and_visible_to-snapshot id =
      let s = after_begin-Settled snapshot_isolation in
      elim (Option-cases (m.transactions id)) [
        | inl e ↦ ground (arith, s.same id, v.actives id)
        | inr (t, e) ↦ ground (arith, v.filed id t e, s.same id, v.actives id)
      ]

-- No transaction has the invalid id.
is_committed-zero : (m : TransactionManager) → IsValid m → is_committed m 0 ≡ false
unfolding is_committed
is_committed-zero m v = elim (Option-cases (m.transactions 0)) [
  | inl e ↦ ground arith
  | inr (t, e) ↦ absurd (omega (arith, v.filed 0 t e))
]

committed_and_visible_to-read_committed :
    (m : TransactionManager) (reader : Transaction)
    → IsValid m
    → reader.isolation_level ≡ read_committed
    → (id : ℕ) → committed_and_visible_to id reader m ≡ is_committed m id
unfolding committed_and_visible_to is_committed
committed_and_visible_to-read_committed m reader v level id =
    elim (Option-cases (m.transactions id)) [
      | inl e ↦ ground arith
      | inr (t, e) ↦ ground (arith, v.filed id t e)
    ]

-- What a snapshot of `m` shows to the transaction `me`: the versions that it made or that had been made
-- by a committed transaction, and that neither it nor a committed transaction had deleted.
unfoldable pub in_snapshot : VersionMeta → ℕ → TransactionManager → Bool
in_snapshot meta me m =
    not (meta.xmax == me)
    && ((meta.xmin == me || is_committed m meta.xmin) && not (is_committed m meta.xmax))

-- A reader under snapshot isolation sees, whatever begins, commits or aborts after it began, exactly
-- the versions of the snapshot that was taken when it began. Fewer than 2 ^ 64 ids are given out.
pub is_visible-snapshot :
    (m : TransactionManager) (cs : List Call) (meta : VersionMeta)
    → m.next_txn_id + 1 + length cs < 2 ^ 64
    → IsValid m
    → is_visible meta (begun m snapshot_isolation) (after_begin m snapshot_isolation cs)
      ≡ in_snapshot meta m.next_txn_id m
unfolding is_visible in_snapshot
is_visible-snapshot m cs meta room v =
    let xmin = committed_and_visible_to-snapshot m cs room v meta.xmin in
    let xmax = committed_and_visible_to-snapshot m cs room v meta.xmax in
    ground (arith, xmin, xmax, is_committed-zero m v)

-- A reader under read committed sees at each moment what a snapshot of that moment shows.
pub is_visible-read_committed :
    (m : TransactionManager) (reader : Transaction) (meta : VersionMeta)
    → IsValid m
    → reader.isolation_level ≡ read_committed
    → is_visible meta reader m ≡ in_snapshot meta reader.txn_id m
unfolding is_visible in_snapshot
is_visible-read_committed m reader meta v level = ground (
  arith,
  committed_and_visible_to-read_committed m reader v level meta.xmin,
  committed_and_visible_to-read_committed m reader v level meta.xmax,
  is_committed-zero m v,
)

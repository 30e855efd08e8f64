-- ===== src/Executor/Select/Links.antt =====
-- What each operator of the chain of `ExecuteSelect` answers.
use database_engine.Base.{
  ℕ, suc, ◌≤◌, ◌<◌, ◌≡◌, refl, inl, inr, Bool, true, false, Option, none, some, List, [], ◌∷◌,
  length, take, arith, if◌then◌else◌, leb, All, length-take, Bool-cases,
}
use database_engine.Util.Status.{ok, Status}
use database_engine.Common.Schema.{Schema, index_of}
use database_engine.Parser.Ast.{Expr, SelectItem, OrderByClause}
use database_engine.Storage.Record.Accepts.{TakesRow}
use database_engine.Executor.Eval.Types.{shape_of, flag, evaluate_predicate-typed}
use database_engine.Executor.Operator.{Tuple}
use database_engine.Executor.Operator.Rows.{Runs, drain-Runs}
use database_engine.Executor.Scan.{at_cursor}
use database_engine.Executor.Filter.{matching, filter-Runs}
use database_engine.Executor.Limit.{limit-Runs}
use database_engine.Executor.Project.{build_column_plan, projected, project-Runs}
use database_engine.Executor.Sort.{sort-Runs, stable_sort, insert_sorted, tuple_before}
use database_engine.Executor.Sort.Stable.{All-stable_sort}
use database_engine.Executor.Select.Columns.{build_column_plan-InSchema, projected-taken}
use database_engine.Executor.Select.{
  Chain, with_filter, with_sort, with_project, with_limit, run_chain,
}

-- An opened chain answers `xs` and no error, and has turns enough.
abbrev pub IsRun : Chain → List Tuple → Type 0
IsRun c xs = Runs c.op (c.op.start c.made) xs (ok tt) × (length xs < c.rounds)

pub run_chain-IsRun : (c : Chain) (xs : List Tuple) → IsRun c xs → run_chain c ≡ (xs, ok tt)
unfolding run_chain
run_chain-IsRun c xs h =
    let (t, all, error) = drain-Runs c.op c.rounds (c.op.start c.made) xs (ok tt) h.0 h.1 in
    rw (all, error) refl

-- The rows that a condition keeps, and the order and the limit of a statement.
abbrev pub kept_by : Option Expr → Schema → List Tuple → List Tuple
kept_by none schema xs = xs
kept_by (some e) schema xs = (matching (some e) schema xs).0

abbrev pub sorted_by : Option OrderByClause → ℕ → List Tuple → List Tuple
sorted_by none column xs = xs
sorted_by (some order_by) column xs = stable_sort (tuple_before order_by.descending column) xs

abbrev pub limited_to : Option ℕ → List Tuple → List Tuple
limited_to none xs = xs
limited_to (some n) xs = take n xs

-- A condition is missing or well typed, and so is an order or its column is known.
abbrev pub IsTyped : Option Expr → Schema → Type 0
IsTyped none schema = Unit
IsTyped (some e) schema = shape_of schema e ≡ some flag

abbrev pub SortsBy : Option OrderByClause → Schema → ℕ → Type 0
SortsBy none schema column = Unit
SortsBy (some order_by) schema column = index_of schema order_by.column ≡ some column

matching-typed :
    (e : Expr) (schema : Schema) (xs : List Tuple)
    → shape_of schema e ≡ some flag
    → All (λ x. TakesRow schema x.values) xs
    → ((matching (some e) schema xs).1 ≡ ok tt)
      × (length (matching (some e) schema xs).0 ≤ length xs)
      × All (λ x. TakesRow schema x.values) (matching (some e) schema xs).0
unfolding matching
matching-typed e schema [] typed taken = (refl, omega arith, tt)
matching-typed e schema (x ∷ xs) typed taken =
    let (none_failed, fewer, kept) = matching-typed e schema xs typed taken.1 in
    let (b, decided) = evaluate_predicate-typed schema x.values e taken.0 typed in
    elim (Bool-cases b) [
      | inl holds ↦ rw (decided, holds) (none_failed, omega (arith, fewer), (taken.0, kept))
      | inr fails ↦ rw (decided, fails) (none_failed, omega (arith, fewer), kept)
    ]

pub with_filter-IsRun :
    (condition : Option Expr) (schema : Schema) (c : Chain) (xs : List Tuple)
    → IsTyped condition schema
    → All (λ x. TakesRow schema x.values) xs
    → IsRun c xs
    → IsRun (with_filter schema condition c) (kept_by condition schema xs)
with_filter-IsRun none schema c xs typed taken h = h
with_filter-IsRun (some e) schema c xs typed taken h =
    let (none_failed, fewer, _) = matching-typed e schema xs typed taken in
    let runs = filter-Runs c.op (some e) schema c.rounds (c.op.start c.made) xs (ok tt) h.0 h.1 in
    (rw none_failed at runs, omega (arith, fewer, h.1))

length-insert_sorted :
    (before : Tuple → Tuple → Bool) (x : Tuple) (xs : List Tuple)
    → length (insert_sorted before x xs) ≡ suc (length xs)
unfolding insert_sorted
length-insert_sorted before x [] = refl
length-insert_sorted before x (y ∷ ys) = ground (arith, length-insert_sorted before x ys)

length-stable_sort :
    (before : Tuple → Tuple → Bool) (xs : List Tuple) → length (stable_sort before xs) ≡ length xs
unfolding stable_sort
length-stable_sort before [] = refl
length-stable_sort before (x ∷ xs) =
    omega
      (arith, length-insert_sorted before x (stable_sort before xs), length-stable_sort before xs)

pub with_sort-IsRun :
    (order_by : Option OrderByClause) (column : ℕ) (schema : Schema) (c : Chain) (xs : List Tuple)
    → SortsBy order_by schema column
    → IsRun c xs
    → IsRun (with_sort schema order_by c) (sorted_by order_by column xs)
with_sort-IsRun none column schema c xs found h = h
with_sort-IsRun (some order_by) column schema c xs found h = (
  sort-Runs c.op c.rounds order_by schema column
      (record { below = c.made; rows = at_cursor [] 0; error = ok tt; child_error = ok tt }) xs
      found h.0 h.1,
  omega (arith, length-stable_sort (tuple_before order_by.descending column) xs, h.1),
)

same_if : (b : Bool) (e : Status) → (if b then e else e) ≡ e
same_if true e = refl
same_if false e = refl

pub with_limit-IsRun :
    (limit : Option ℕ) (c : Chain) (xs : List Tuple)
    → IsRun c xs
    → IsRun (with_limit limit c) (limited_to limit xs)
with_limit-IsRun none c xs h = h
with_limit-IsRun (some n) c xs h =
    let runs = limit-Runs c.op n n (c.op.start c.made) 0 xs (ok tt) h.0 (omega arith) in
    (rw (same_if (leb n (length xs)) (ok tt)) at runs, omega (arith, length-take n xs, h.1))

pub with_project-IsRun :
    (schema : Schema) (items : List SelectItem) (c : Chain) (xs : List Tuple)
    → All (λ x. TakesRow schema x.values) xs
    → IsRun c xs
    → IsRun
        (with_project (build_column_plan schema items) c)
        (projected (build_column_plan schema items).indices xs).0
with_project-IsRun schema items c xs taken h =
    let plan = build_column_plan schema items in
    let (fine, size) =
      projected-taken schema plan xs (build_column_plan-InSchema schema items) taken in
    let runs = project-Runs c.op plan (c.op.start c.made) xs (ok tt) h.0 in
    (rw fine at runs, omega (arith, size, h.1))

pub kept_by-taken :
    (condition : Option Expr) (schema : Schema) (xs : List Tuple)
    → IsTyped condition schema
    → All (λ x. TakesRow schema x.values) xs
    → All (λ x. TakesRow schema x.values) (kept_by condition schema xs)
kept_by-taken none schema xs typed taken = taken
kept_by-taken (some e) schema xs typed taken = (matching-typed e schema xs typed taken).2

pub sorted_by-taken :
    (order_by : Option OrderByClause) (column : ℕ) (schema : Schema) (xs : List Tuple)
    → All (λ x. TakesRow schema x.values) xs
    → All (λ x. TakesRow schema x.values) (sorted_by order_by column xs)
sorted_by-taken none column schema xs taken = taken
sorted_by-taken (some order_by) column schema xs taken =
    All-stable_sort (tuple_before order_by.descending column) (λ x. TakesRow schema x.values) xs
      taken

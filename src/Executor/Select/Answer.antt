-- ===== src/Executor/Select/Answer.antt =====
-- What `ExecuteSelect` of executor/executor.cpp answers without an index.
use database_engine.Base.{ℕ, ◌≡◌, ap, ◌∙◌, false, Option, none, some, List, [], arith, All, map}
use database_engine.Util.Status.{ok}
use database_engine.Common.Schema.{Schema}
use database_engine.Parser.Ast.{Expr, SelectItem, OrderByClause}
use database_engine.Storage.Record.Accepts.{TakesRow}
use database_engine.Executor.Operator.{Tuple}
use database_engine.Executor.Scan.{seq_scan-Runs, at_cursor}
use database_engine.Executor.Project.{build_column_plan, projected}
use database_engine.Executor.Plan.{chosen_index}
use database_engine.Executor.Aggregate.{Arithmetic}
use database_engine.Executor.Select.{
  Database, Chain, scan_chain, with_filter, with_sort, with_project, with_limit, run_chain,
  any_aggregate, plan_select, execute_select, query_result,
}
use database_engine.Executor.Select.Links.{
  IsRun, run_chain-IsRun, kept_by, sorted_by, limited_to, IsTyped, SortsBy, with_filter-IsRun,
  with_sort-IsRun, with_limit-IsRun, with_project-IsRun, kept_by-taken, sorted_by-taken,
}

-- The rows of an answer: those that the condition keeps, in the order, cut down to the columns and to the limit.
abbrev pub answer_rows :
    List SelectItem
    → Option Expr
    → Option OrderByClause
    → Option ℕ
    → Schema
    → ℕ
    → List Tuple
    → List Tuple
answer_rows items condition order_by limit schema column xs =
    limited_to limit
      (projected (build_column_plan schema items).indices
        (sorted_by order_by column (kept_by condition schema xs))).0

module _ (db : Database) (machine : Arithmetic) (items : List SelectItem) (table : List ℕ)
    (condition : Option Expr) (order_by : Option OrderByClause) (limit : Option ℕ) (schema : Schema)
    (column : ℕ) (plain : any_aggregate items ≡ false) (typed : IsTyped condition schema)
    (sorts : SortsBy order_by schema column) where
  -- The plan over any chain of rows of the table.
  chain-IsRun :
      (c : Chain) (xs : List Tuple)
      → All (λ x. TakesRow schema x.values) xs
      → IsRun c xs
      → run_chain (
          with_limit limit (
            with_project
              (build_column_plan schema items)
              (with_sort schema order_by (with_filter schema condition c))))
        ≡ (answer_rows items condition order_by limit schema column xs, ok tt)
  chain-IsRun c xs taken h =
      let kept = with_filter-IsRun condition schema c xs typed taken h in
      let kept_taken = kept_by-taken condition schema xs typed taken in
      let sorted = with_sort-IsRun order_by column schema _ _ sorts kept in
      let sorted_taken = sorted_by-taken order_by column schema _ kept_taken in
      run_chain-IsRun _ _
        (with_limit-IsRun limit _ _ (with_project-IsRun schema items _ _ sorted_taken sorted))

  execute_select-plan :
      db.schema_of table ≡ some schema
      → execute_select db machine items table condition order_by limit
        ≡ plan_select db machine items table condition order_by limit schema
  unfolding execute_select
  execute_select-plan known = ground (arith, known, plain)

  -- A SELECT of columns without an index answers the rows of the table that satisfy the condition, in the
  -- stable order of the column, cut down to the columns of the plan and to the limit. The rows fit the
  -- schema, the condition is well typed, and the column of the order is known.
  pub execute_select-scan :
      db.schema_of table ≡ some schema
      → chosen_index (db.indexes_of table) condition ≡ none
      → All (λ x. TakesRow schema x.values) (db.rows_of table)
      → execute_select db machine items table condition order_by limit
        ≡ ok (record {
          column_names = (build_column_plan schema items).column_names;
          rows =
              map
                (λ x. x.values)
                (answer_rows items condition order_by limit schema column (db.rows_of table));
          scan_strategy = none;
        })
  unfolding plan_select
  execute_select-scan known unindexed taken =
      let start : IsRun (scan_chain db table) (db.rows_of table) =
        (seq_scan-Runs (db.rows_of table) (at_cursor [] 0), omega arith) in
      let answer = chain-IsRun (scan_chain db table) (db.rows_of table) taken start in
      let plan = build_column_plan schema items in
      execute_select-plan known
      ∙ (rw (plain, unindexed) (ap (query_result plan.column_names none) answer))

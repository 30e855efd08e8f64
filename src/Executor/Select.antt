-- ===== src/Executor/Select.antt =====
-- `ExecuteSelect` of executor/executor.cpp. The text of the message, which counts the rows, is left out.
pub mod Links
pub mod Answer
pub mod Columns
pub mod Indexed
use database_engine.Base.{
  ℕ, zero, suc, ◌+◌, ◌≡◌, Bool, true, false, not, ◌&&◌, ◌||◌, Option, none, some, List, [], ◌∷◌,
  map, length, if◌then◌else◌,
}
use database_engine.Util.Status.{Result, ok, err, Status, invalid_argument, not_found, ◌>>=◌}
use database_engine.Common.Value.{Value}
use database_engine.Common.Schema.{Schema}
use database_engine.Storage.Page.{RecordId}
use database_engine.Catalog.Metadata.{IndexMetadata}
use database_engine.Parser.Ast.{Expr, SelectItem, OrderByClause, BinaryOp, op_eq}
use database_engine.Executor.Operator.{Operator, Tuple}
use database_engine.Executor.Operator.Rows.{drain}
use database_engine.Executor.Scan.{seq_scan, at_cursor}
use database_engine.Executor.IndexScan.{index_scan, IndexScanState}
use database_engine.Executor.Filter.{filter}
use database_engine.Executor.Limit.{limit_operator}
use database_engine.Executor.Project.{ColumnPlan, build_column_plan, project_operator}
use database_engine.Executor.Sort.{sort_operator, SortState}
use database_engine.Executor.Aggregate.{
  Arithmetic, aggregate_operator, AggregateState, column_names,
}
use database_engine.Executor.Plan.{IndexableConjunct, chosen_index, Bounds, bounds_of, is_equality}

-- What a statement asks of the tables, the catalog and the indexes. A search names the tree by its meta
-- page.
pub record Database : Type 0 where
  pub schema_of : List ℕ → Option Schema
  pub rows_of : List ℕ → List Tuple
  pub get_row : List ℕ → RecordId → Result (List Value)
  pub indexes_of : List ℕ → List IndexMetadata
  pub search_equal : ℕ → ℕ → Result (List RecordId)
  pub range_scan : ℕ → Bounds → Result (List (ℕ × RecordId))

pub record QueryResult : Type 0 where
  pub column_names : List (List ℕ)
  pub rows : List (List Value)
  pub scan_strategy : Option (List ℕ)

-- An operator with the state that its constructor makes, and more turns than it has tuples.
pub record Chain : Type 1 where
  pub op : Operator
  pub made : op.State
  pub rounds : ℕ

-- The loop that begins `ExecuteSelect`.
unfoldable pub any_aggregate : List SelectItem → Bool
any_aggregate [] = false
any_aggregate (item ∷ items) = elim item.aggregate [ none ↦ any_aggregate items | some f ↦ true ]

unfoldable pub any_plain : List SelectItem → Bool
any_plain [] = false
any_plain (item ∷ items) = elim item.aggregate [ none ↦ true | some f ↦ any_plain items ]

-- The candidates of a search: `SearchEqual` for an equality, `RangeScan` for the other operators.
unfoldable pub search_index : Database → IndexableConjunct → IndexMetadata → Result (List RecordId)
unfolding bounds_of
search_index db c m =
    if is_equality c.op
    then db.search_equal m.meta_page_id c.value
    else db.range_scan m.meta_page_id (bounds_of c.op c.value) >>= λ found.
        ok (map (λ x. x.1) found)

abbrev pub count_of : Result (List RecordId) → ℕ
count_of (ok rids) = length rids
count_of (err code) = 0

abbrev pub scan_chain : Database → List ℕ → Chain
scan_chain db table = record {
  op = seq_scan (db.rows_of table);
  made = at_cursor [] 0;
  rounds = suc (length (db.rows_of table));
}

abbrev pub index_chain : Database → List ℕ → Result (List RecordId) → Chain
index_chain db table found = record {
  op = index_scan found (db.get_row table);
  made = record { candidates = []; error = ok tt };
  rounds = suc (count_of found);
}

abbrev pub scan_by : Database → List ℕ → Option (IndexableConjunct × IndexMetadata) → Chain
scan_by db table none = scan_chain db table
scan_by db table (some (c, m)) = index_chain db table (search_index db c m)

abbrev pub with_filter : Schema → Option Expr → Chain → Chain
with_filter schema none chain = chain
with_filter schema (some e) chain = record {
  op = filter chain.op (some e) schema chain.rounds;
  made = (chain.made, ok tt);
  rounds = chain.rounds;
}

abbrev pub with_sort : Schema → Option OrderByClause → Chain → Chain
with_sort schema none chain = chain
with_sort schema (some order_by) chain = record {
  op = sort_operator chain.op chain.rounds order_by schema;
  made = record { below = chain.made; rows = at_cursor [] 0; error = ok tt; child_error = ok tt };
  rounds = chain.rounds;
}

abbrev pub with_project : ColumnPlan → Chain → Chain
with_project plan chain = record {
  op = project_operator chain.op plan;
  made = (chain.made, plan.error);
  rounds = chain.rounds;
}

abbrev pub with_limit : Option ℕ → Chain → Chain
with_limit none chain = chain
with_limit (some n) chain = record {
  op = limit_operator chain.op n;
  made = (chain.made, 0);
  rounds = chain.rounds;
}

abbrev pub with_aggregate : Arithmetic → Schema → List SelectItem → Chain → Chain
with_aggregate machine schema items chain = record {
  op = aggregate_operator machine chain.op schema items chain.rounds;
  made = record { below = chain.made; done = false; error = ok tt };
  rounds = suc (suc chain.rounds);
}

-- `Open`, `Next` until there is no tuple, and `GetError`.
unfoldable pub run_chain : Chain → List Tuple × Status
run_chain chain =
    let (rows, t) = drain chain.op chain.rounds (chain.op.start chain.made) in
    (rows, chain.op.get_error t)

abbrev pub query_result : List (List ℕ) → Option (List ℕ) → List Tuple × Status → Result QueryResult
query_result names strategy (rows, err code) = err code
query_result names strategy (rows, ok _) =
    ok (record { column_names = names; rows = map (λ x. x.values) rows; scan_strategy = strategy })

abbrev pub strategy_of : Option (IndexableConjunct × IndexMetadata) → Option (List ℕ)
strategy_of none = none
strategy_of (some (c, m)) = some m.index_name

module _ (db : Database) (machine : Arithmetic) where
  -- The plan over a table whose schema is known.
  unfoldable pub plan_select :
      List SelectItem
      → List ℕ
      → Option Expr
      → Option OrderByClause
      → Option ℕ
      → Schema
      → Result QueryResult
  plan_select items table condition order_by limit schema =
      let chosen = chosen_index (db.indexes_of table) condition in
      let rows = with_filter schema condition (scan_by db table chosen) in
      let plan = build_column_plan schema items in
      if any_aggregate items
      then query_result (column_names items) (strategy_of chosen)
          (run_chain (with_aggregate machine schema items rows))
      else query_result plan.column_names (strategy_of chosen)
          (run_chain (with_limit limit (with_project plan (with_sort schema order_by rows))))

  unfoldable pub execute_select :
      List SelectItem → List ℕ → Option Expr → Option OrderByClause → Option ℕ → Result QueryResult
  execute_select items table condition order_by limit = elim (db.schema_of table) [
    | none ↦ err not_found
    | some schema ↦
        if any_aggregate items && any_plain items
        then err invalid_argument
        else plan_select items table condition order_by limit schema
  ]

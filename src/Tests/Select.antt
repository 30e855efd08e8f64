-- ===== src/Tests/Select.antt =====
-- `ExecuteSelect` of executor/executor.cpp and the aggregates on a table of three rows.
use mathlib.Core.List.{Perm, filter_map}
use mathlib.Core.List.Perm
use database_engine.Base.{
  ℕ, ◌+◌, ◌≡◌, refl, true, false, none, some, List, [], ◌∷◌, map, arith, All, ◌==◌, if◌then◌else◌,
}
use database_engine.Util.Status.{Result, ok, err, not_found}
use database_engine.Common.Value.{Value, null, int, bigint, varchar, varchar_type, is_null}
use database_engine.Common.Schema.{index_of, same_bytes}
use database_engine.Storage.Page.{RecordId, invalid_page_id}
use database_engine.Parser.Ast.{op_gt, SelectItem, OrderByClause, agg_count, agg_min}
use database_engine.Storage.Record.Accepts.{TakesRow}
use database_engine.Catalog.Metadata.{IndexMetadata}
use database_engine.Executor.Compare.{compare_for_sort, is_negative, bytes_less}
use database_engine.Executor.Operator.{Tuple}
use database_engine.Executor.Operator.Rows.{Runs}
use database_engine.Executor.Scan.{seq_scan, seq_scan-Runs, at_cursor}
use database_engine.Executor.Filter.{matching}
use database_engine.Executor.Project.{build_column_plan}
use database_engine.Executor.Aggregate.{
  Arithmetic, aggregate_operator, check_items, function_of, accumulate, add_value, result_value,
}
use database_engine.Executor.Aggregate.Summary.{summaries, summary, aggregate-Runs}
use database_engine.Executor.Aggregate.Counts.{column_values}
use database_engine.Executor.Aggregate.Extremes.{summary-extremes, further}
use database_engine.Executor.Aggregate.Fold.{IsExtreme}
use database_engine.Executor.IndexScan.{rows_found}
use database_engine.Executor.Plan.{chosen_index, extract_int64_key, bounds_of}
use database_engine.Executor.Select.{
  Database, execute_select, any_aggregate, with_filter, scan_by, search_index,
}
use database_engine.Executor.Select.Links.{IsRun}
use database_engine.Executor.Select.Answer.{answer_rows, execute_select-scan}
use database_engine.Executor.Select.Indexed.{index_chain-equivalence, only, row_within}
use database_engine.Tests.Executor.{
  tuple, id_name, text_name, schema, rows, above_two, typed, text_Sortable, null_Sortable,
}

abbrev index : IndexMetadata
index = record {
  index_id = 1;
  index_name = b'x' ∷ [];
  table_name = b'q' ∷ [];
  column_name = id_name;
  meta_page_id = 7;
  catalog_record_id = record { page_id = 1; slot_id = 0 };
}

abbrev row_at : RecordId → Result (List Value)
row_at rid =
    if rid.slot_id == 0
    then ok (int 5 ∷ varchar (b'b' ∷ []) ∷ [])
    else if rid.slot_id == 1
    then ok (int 1 ∷ null ∷ [])
    else if rid.slot_id == 2
    then ok (int 3 ∷ varchar (b'a' ∷ []) ∷ [])
    else err not_found

abbrev at_slot : ℕ → RecordId
at_slot slot = record { page_id = 1; slot_id = slot }

-- With the index given, its tree answers to any range with the two rows above 2, by key.
abbrev database : List IndexMetadata → Database
database indexes = record {
  schema_of = λ name. some schema;
  rows_of = λ name. rows;
  get_row = λ name. row_at;
  indexes_of = λ name. indexes;
  search_equal = λ page key. ok [];
  range_scan = λ page bounds. ok ((3, at_slot 2) ∷ (5, at_slot 0) ∷ []);
}

-- The sum is that of the bit patterns: no test reads it.
abbrev machine : Arithmetic
machine = record { add = λ a b. a + b; divide = λ a b. a }

abbrev text_item : SelectItem
text_item = record {
  is_star = false;
  column = some text_name;
  aggregate = none;
  aggregate_star = false;
  alias = none;
}

abbrev by_text : OrderByClause
by_text = record { column = text_name; descending = true }

text_column : index_of schema text_name ≡ some 1
unfolding index_of same_bytes
text_column = refl

plain : any_aggregate (text_item ∷ []) ≡ false
unfolding any_aggregate
plain = refl

no_index : chosen_index [] (some above_two) ≡ none
unfolding chosen_index
no_index = refl

fitting : All (λ x. TakesRow schema x.values) rows
fitting = ground arith

-- SELECT t FROM q WHERE i > 2 ORDER BY t DESC LIMIT 1
execute_select-scan_example :
    execute_select
      (database [])
      machine
      (text_item ∷ [])
      (b'q' ∷ [])
      (some above_two)
      (some by_text)
      (some 1)
    ≡ ok (record {
      column_names = (build_column_plan schema (text_item ∷ [])).column_names;
      rows =
          map
            (λ x. x.values)
            (answer_rows (text_item ∷ []) (some above_two) (some by_text) (some 1) schema 1 rows);
      scan_strategy = none;
    })
execute_select-scan_example =
    execute_select-scan (database []) machine (text_item ∷ []) (b'q' ∷ []) (some above_two)
      (some by_text) (some 1) schema 1 plain typed text_column refl no_index fitting

chosen :
    chosen_index (index ∷ []) (some above_two)
    ≡ some (record { column = id_name; op = op_gt; value = 2 }, index)
unfolding chosen_index same_bytes
chosen = refl

id_column : index_of schema id_name ≡ some 0
unfolding index_of same_bytes
id_column = refl

answers :
    Perm
      (rows_found row_at (at_slot 2 ∷ at_slot 0 ∷ []))
      (only (row_within (bounds_of op_gt 2) 0) rows)
unfolding rows_found bounds_of extract_int64_key filter_map
answers =
    Perm.swap (tuple 0 (int 5 ∷ varchar (b'b' ∷ []) ∷ []))
      (tuple 2 (int 3 ∷ varchar (b'a' ∷ []) ∷ [])) []

searched :
    search_index (database (index ∷ [])) (record { column = id_name; op = op_gt; value = 2 }) index
    ≡ ok (at_slot 2 ∷ at_slot 0 ∷ [])
unfolding search_index
searched = refl

found_fitting : All (λ x. TakesRow schema x.values) (rows_found row_at (at_slot 2 ∷ at_slot 0 ∷ []))
unfolding rows_found
found_fitting = ground arith

index_chain-equivalence_example :
    (xs : List Tuple) × IsRun
      (with_filter schema (some above_two) (
        scan_by
          (database (index ∷ []))
          (b'q' ∷ [])
          (some (record { column = id_name; op = op_gt; value = 2 }, index))))
      xs
    × Perm xs (matching (some above_two) schema rows).0
index_chain-equivalence_example =
    index_chain-equivalence (database (index ∷ [])) (b'q' ∷ []) above_two schema
      (record { column = id_name; op = op_gt; value = 2 }) index 0 chosen id_column
      (omega arith, omega arith, omega arith) (at_slot 2 ∷ at_slot 0 ∷ []) typed fitting
      ((omega arith, λ h. cc), ((omega arith, λ h. cc), ((omega arith, λ h. cc), tt))) searched
      answers found_fitting

abbrev least_text : SelectItem
least_text = record text_item { aggregate = some agg_min }

abbrev count_star : SelectItem
count_star = record {
  is_star = false;
  column = none;
  aggregate = some agg_count;
  aggregate_star = true;
  alias = none;
}

checked : check_items schema (least_text ∷ count_star ∷ []) ≡ ok tt
unfolding check_items
checked = refl

least_and_count :
    summaries machine schema (least_text ∷ count_star ∷ []) rows
    ≡ ok (varchar (b'a' ∷ []) ∷ bigint 3 ∷ [])
unfolding summaries accumulate add_value result_value index_of same_bytes is_null compare_for_sort
    is_negative bytes_less
least_and_count = refl

-- SELECT MIN(t), COUNT(*) FROM q
aggregate-Runs_example :
    let op = aggregate_operator machine (seq_scan rows) schema (least_text ∷ count_star ∷ []) 4 in
    Runs op
      (op.start (record { below = at_cursor [] 0; done = false; error = ok tt }))
      (record {
        rid = record { page_id = invalid_page_id; slot_id = 0 };
        values = varchar (b'a' ∷ []) ∷ bigint 3 ∷ [];
      }
        ∷ [])
      (ok tt)
aggregate-Runs_example =
    aggregate-Runs machine (seq_scan rows) schema (least_text ∷ count_star ∷ []) 4
      (record { below = at_cursor [] 0; done = false; error = ok tt }) rows
      (varchar (b'a' ∷ []) ∷ bigint 3 ∷ []) (seq_scan-Runs rows (at_cursor [] 0)) (omega arith)
      checked least_and_count

summary-extremes_example :
    (m : Value) × (summary machine schema least_text rows ≡ ok m)
    × IsExtreme (further (function_of least_text)) (column_values 1 rows) m
summary-extremes_example =
    summary-extremes machine schema least_text 1 varchar_type rows refl text_column
      (text_Sortable (b'b' ∷ []), (null_Sortable, (text_Sortable (b'a' ∷ []), tt)))

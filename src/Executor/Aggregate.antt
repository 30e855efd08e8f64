-- ===== src/Executor/Aggregate.antt =====
-- executor/aggregate.hpp. The sum and the quotient of doubles are the machine's, and parameters here: they
-- decide what SUM and AVG say, and nothing else. An item of an aggregation has a function, and a column
-- unless it is COUNT(*); `ExecuteSelect` and the parser see to it.
pub mod Summary
pub mod Counts
pub mod Fold
pub mod Extremes
use database_engine.Base.{
  ℕ, zero, suc, ◌+◌, ◌<◌, ◌≡◌, refl, Bool, true, false, not, ◌&&◌, ◌||◌, Option, none, some, List,
  [], ◌∷◌, ◌++◌, length, get_or, map, replicate, if◌then◌else◌,
}
use database_engine.Util.Status.{
  Result, ok, err, Status, invalid_argument, ◌>>=◌, ◌>>◌, guard, status,
}
use database_engine.Common.Value.{
  Value, null, int, bigint, double, is_null, ColumnType, int_type, bigint_type, double_type,
  bool_type, varchar_type,
}
use database_engine.Common.Schema.{Column, Schema, index_of}
use database_engine.Common.Double.{double_of}
use database_engine.Parser.Ast.{
  SelectItem, AggregateFunc, agg_count, agg_sum, agg_avg, agg_min, agg_max,
}
use database_engine.Executor.Compare.{compare_for_sort, is_negative, flip, value_to_double_or_null}
use database_engine.Executor.Filter.{first_error}
use database_engine.Executor.Project.{value_or}
use database_engine.Storage.Page.{RecordId, invalid_page_id}
use database_engine.Executor.Operator.{Operator, Tuple}

-- `+` and `/` of two doubles, on their bit patterns.
pub record Arithmetic : Type 0 where
  pub add : ℕ → ℕ → ℕ
  pub divide : ℕ → ℕ → ℕ

pub record Accumulator : Type 0 where
  pub count : ℕ
  pub sum : ℕ
  pub has_value : Bool
  pub min_v : Option Value
  pub max_v : Option Value

abbrev pub new_accumulator : Accumulator
new_accumulator = record { count = 0; sum = 0; has_value = false; min_v = none; max_v = none }

abbrev pub function_of : SelectItem → AggregateFunc
function_of item = value_or item.aggregate agg_count

abbrev pub column_of : SelectItem → List ℕ
column_of item = value_or item.column []

-- `FuncName`.
unfoldable pub func_name : AggregateFunc → List ℕ
func_name agg_count = b'C' ∷ b'O' ∷ b'U' ∷ b'N' ∷ b'T' ∷ []
func_name agg_sum = b'S' ∷ b'U' ∷ b'M' ∷ []
func_name agg_avg = b'A' ∷ b'V' ∷ b'G' ∷ []
func_name agg_min = b'M' ∷ b'I' ∷ b'N' ∷ []
func_name agg_max = b'M' ∷ b'A' ∷ b'X' ∷ []

-- `BuildColumnNames`, and the name of one column.
abbrev default_name : SelectItem → List ℕ
default_name item =
    func_name (function_of item)
    ++ (b'('
        ∷ ((if item.aggregate_star then b'*' ∷ [] else value_or item.column (b'?' ∷ []))
            ++ (b')' ∷ [])))

unfoldable pub column_names : List SelectItem → List (List ℕ)
unfolding func_name
column_names [] = []
column_names (item ∷ items) = value_or item.alias (default_name item) ∷ column_names items

abbrev pub is_count : AggregateFunc → Bool
is_count agg_count = true
is_count _ = false

abbrev pub needs_number : AggregateFunc → Bool
needs_number agg_sum = true
needs_number agg_avg = true
needs_number _ = false

abbrev pub is_numeric : ColumnType → Bool
is_numeric bool_type = false
is_numeric varchar_type = false
is_numeric _ = true

-- `schema_->At(i).type`.
unfoldable pub type_at : Schema → ℕ → ColumnType
type_at [] i = int_type
type_at (col ∷ cols) zero = col.type
type_at (col ∷ cols) (suc i) = type_at cols i

-- The loop that begins `Compute`: SUM and AVG want a column of numbers.
unfoldable pub check_items : Schema → List SelectItem → Status
unfolding type_at
check_items schema [] = ok tt
check_items schema (item ∷ items) =
    let rest = check_items schema items in
    if needs_number (function_of item) && not item.aggregate_star
    then elim (index_of schema (column_of item)) [
      | none ↦ err invalid_argument
      | some i ↦ if is_numeric (type_at schema i) then rest else err invalid_argument
    ]
    else rest

abbrev pub is_lower : Value → Option Value → Bool
is_lower v none = true
is_lower v (some least) = is_negative (compare_for_sort v least)

abbrev pub is_higher : Value → Option Value → Bool
is_higher v none = true
is_higher v (some greatest) = is_negative (flip (compare_for_sort v greatest))

module _ (machine : Arithmetic) where
  -- The `switch` on a value that is not null, and the count of COUNT.
  unfoldable pub add_value : AggregateFunc → Value → Accumulator → Result Accumulator
  add_value agg_count v acc = ok (record acc { count = acc.count + 1 })
  add_value agg_min v acc =
      ok (record acc {
        min_v = if is_lower v acc.min_v then some v else acc.min_v;
        has_value = true;
      })
  add_value agg_max v acc =
      ok (record acc {
        max_v = if is_higher v acc.max_v then some v else acc.max_v;
        has_value = true;
      })
  add_value _ v acc = elim (value_to_double_or_null v) [
    | none ↦ err invalid_argument
    | some d ↦
        ok (record acc { sum = machine.add acc.sum d; count = acc.count + 1; has_value = true })
  ]

  -- An item and a row: the body of the inner loop.
  unfoldable pub accumulate : Schema → SelectItem → List Value → Accumulator → Result Accumulator
  accumulate schema item row acc =
      if is_count (function_of item) && item.aggregate_star
      then ok (record acc { count = acc.count + 1 })
      else elim (index_of schema (column_of item)) [
        | none ↦ err invalid_argument
        | some i ↦
            let v = get_or row i null in
            if is_null v then ok acc else add_value (function_of item) v acc
      ]

  -- The inner loop: a row, and the accumulators of the items.
  unfoldable pub accumulate_row :
      Schema → List SelectItem → List Value → List Accumulator → Result (List Accumulator)
  unfolding accumulate
  accumulate_row schema (item ∷ items) row (acc ∷ accs) = do
    first ← accumulate schema item row acc
    others ← accumulate_row schema items row accs
    ok (first ∷ others)
  accumulate_row schema _ row accs = ok accs

  -- The last loop: what an item makes of its accumulator.
  unfoldable pub result_value : AggregateFunc → Accumulator → Value
  result_value agg_count acc = bigint acc.count
  result_value agg_sum acc = if acc.has_value then double acc.sum else null
  result_value agg_avg acc =
      if acc.has_value then double (machine.divide acc.sum (double_of 64 acc.count)) else null
  result_value agg_min acc = value_or acc.min_v null
  result_value agg_max acc = value_or acc.max_v null

  unfoldable pub result_values : List SelectItem → List Accumulator → List Value
  unfolding result_value
  result_values (item ∷ items) (acc ∷ accs) =
      result_value (function_of item) acc ∷ result_values items accs
  result_values _ _ = []

  -- A plan is opened once, so that `result_values_`, which `Open` does not clear, is left out.
  module _ (child : Operator) (schema : Schema) (items : List SelectItem) where
    pub record AggregateState : Type 0 where
      pub below : child.State
      pub done : Bool
      pub error : Status

    abbrev pub aggregate_updated :
        (child.State → List Accumulator → Result (List Accumulator) × child.State)
        → child.State
        → Result (List Accumulator)
        → Result (List Accumulator) × child.State
    aggregate_updated rest t (err code) = (err code, t)
    aggregate_updated rest t (ok accs) = rest t accs

    -- `while (auto tuple = child_->Next())`, with `rounds` turns at most.
    abbrev pub aggregate_step :
        (child.State → List Accumulator → Result (List Accumulator) × child.State)
        → List Accumulator
        → Option Tuple × child.State
        → Result (List Accumulator) × child.State
    aggregate_step rest accs (none, t) = (ok accs, t)
    aggregate_step rest accs (some x, t) =
        aggregate_updated rest t (accumulate_row schema items x.values accs)

    unfoldable pub aggregate_loop :
        ℕ → child.State → List Accumulator → Result (List Accumulator) × child.State
    aggregate_loop zero s accs = (ok accs, s)
    aggregate_loop (suc rounds) s accs = aggregate_step (aggregate_loop rounds) accs (child.next s)

    -- The end of `Next`: the one tuple of the answer, whose id is that of no record, or none after an error.
    abbrev pub aggregate_answer :
        Result (List Accumulator) × child.State → Option Tuple × AggregateState
    aggregate_answer (err code, t) = (none, record { below = t; done = true; error = err code })
    aggregate_answer (ok accs, t) = (
      some (record {
        rid = record { page_id = invalid_page_id; slot_id = 0 };
        values = result_values items accs;
      }),
      record { below = t; done = true; error = ok tt },
    )

    -- `Next`, with `Compute`.
    unfoldable pub aggregate_next : ℕ → AggregateState → Option Tuple × AggregateState
    unfolding aggregate_loop check_items result_values
    aggregate_next rounds s = if s.done then (none, s) else elim (check_items schema items) [
      | err code ↦ (none, record s { done = true; error = err code })
      | ok _ ↦
          aggregate_answer
            (aggregate_loop rounds s.below (replicate (length items) new_accumulator))
    ]

    abbrev pub aggregate_operator : ℕ → Operator
    aggregate_operator rounds = record {
      State = AggregateState;
      start = λ s. record { below = child.start s.below; done = false; error = ok tt };
      next = aggregate_next rounds;
      close = λ s. record s { below = child.close s.below };
      get_error = λ s. first_error s.error (child.get_error s.below);
    }

-- ===== src/Executor/Insert.antt =====
-- How `ExecuteInsert` of executor/executor.cpp makes a row of a statement's literals: an integer literal is a
-- BIGINT, given by its bit pattern.
pub mod Row
use database_engine.Base.{
  ℕ, zero, suc, ◌+◌, ◌-◌, ◌%◌, ◌^◌, Bool, true, false, not, ◌||◌, Option, none, some, List, [], ◌∷◌,
  length, replicate, set, get_elem?, ltb, leb, ◌==◌, if◌then◌else◌,
}
use database_engine.Util.Status.{Result, ok, err, Status, invalid_argument, guard, ◌>>=◌, ◌>>◌}
use database_engine.Common.Value.{
  ColumnType, int_type, bigint_type, double_type, bool_type, varchar_type, Value, null, int, bigint,
  double, bool, varchar, is_null,
}
use database_engine.Common.Schema.{Column, Schema, index_of, column_count}
use database_engine.Common.Double.{double_of}

-- Not below INT32_MIN and not above INT32_MAX, as a signed number.
abbrev pub fits_int32 : ℕ → Bool
fits_int32 v = ltb v (2 ^ 31) || leb (2 ^ 64 - 2 ^ 31) v

-- The `switch` on the column's type.
unfoldable pub coerce_to : ColumnType → Value → Result Value
coerce_to int_type (bigint v) = if fits_int32 v then ok (int (v % 2 ^ 32)) else err invalid_argument
coerce_to bigint_type (bigint v) = ok (bigint v)
coerce_to double_type (double v) = ok (double v)
coerce_to double_type (bigint v) = ok (double (double_of 64 v))
coerce_to bool_type (bool b) = ok (bool b)
coerce_to varchar_type (varchar s) = ok (varchar s)
coerce_to _ _ = err invalid_argument

unfoldable pub coerce_literal_to_column_type : Value → Column → Result Value
unfolding coerce_to
coerce_literal_to_column_type literal col =
    if is_null literal
    then (if col.nullable then ok literal else err invalid_argument)
    else coerce_to col.type literal

-- The columns that the values are for: those of the statement, or all.
unfoldable pub all_below : ℕ → ℕ → List ℕ
all_below zero i = []
all_below (suc n) i = i ∷ all_below n (i + 1)

unfoldable pub indices_of : Schema → List (List ℕ) → Result (List ℕ)
unfolding index_of
indices_of schema [] = ok []
indices_of schema (name ∷ names) = elim (index_of schema name) [
  | none ↦ err invalid_argument
  | some i ↦ indices_of schema names >>= λ is. ok (i ∷ is)
]

unfoldable pub target_indices : Schema → List (List ℕ) → Result (List ℕ)
unfolding all_below indices_of
target_indices schema [] = ok (all_below (column_count schema) 0)
target_indices schema names = indices_of schema names

-- The loop over the values of a row. A target is a column of the schema.
unfoldable pub fill_row : Schema → List ℕ → List Value → List Value → Result (List Value)
unfolding coerce_literal_to_column_type
fill_row schema (i ∷ is) (v ∷ vs) full_row = elim (get_elem? schema i) [
  | none ↦ err invalid_argument
  | some col ↦ coerce_literal_to_column_type v col >>= λ coerced.
      fill_row schema is vs (set full_row i coerced)
]
fill_row schema _ _ full_row = ok full_row

-- The row that is stored: columns without a value are null.
unfoldable pub full_row : Schema → List ℕ → List Value → Result (List Value)
unfolding fill_row
full_row schema targets row =
    if not (length row == length targets)
    then err invalid_argument
    else fill_row schema targets row (replicate (column_count schema) null)

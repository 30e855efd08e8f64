-- ===== src/Tests/Executor.antt =====
-- executor/ on a table of three rows.
use mathlib.Core.List.{Perm}
use database_engine.Base.{ℕ, ◌+◌, ◌-◌, ◌^◌, ◌≡◌, refl, true, false, some, List, [], ◌∷◌, arith}
use database_engine.Util.Status.{ok, err, invalid_argument}
use database_engine.Common.Value.{
  Value, null, int, bigint, bool, varchar, int_type, varchar_type, is_null, value_matches_type,
}
use database_engine.Common.Schema.{Schema, index_of, same_bytes}
use database_engine.Common.Double.{double_of, magnitude_of, double_equal}
use database_engine.Parser.Ast.{op_eq, op_lt, op_gt, Expr, column_ref, literal, binary}
use database_engine.Executor.Compare.{value_to_double_or_null}
use database_engine.Executor.Eval.{evaluate, combine}
use database_engine.Executor.Eval.Types.{shape_of, flag, fits, evaluate-fits}
use database_engine.Executor.Eval.Integers.{compares, combine-integers, up_part, down_part}
use database_engine.Executor.Insert.{full_row, target_indices}
use database_engine.Executor.Insert.Row.{coerce_row, full_row-coerce_row}
use database_engine.Executor.Operator.{Tuple}
use database_engine.Executor.Operator.Rows.{Runs}
use database_engine.Executor.Scan.{seq_scan, seq_scan-Runs, at_cursor}
use database_engine.Executor.Filter.{filter, matching, filter-Runs, first_error}
use database_engine.Executor.Sort.{stable_sort, tuple_before}
use database_engine.Executor.Sort.Order.{Sortable}
use database_engine.Executor.Sort.Rows.{InOrder, of_rank, stable_sort-rows}

abbrev pub tuple : ℕ → List Value → Tuple
tuple slot values = record { rid = record { page_id = 1; slot_id = slot }; values = values }

abbrev pub id_name : List ℕ
id_name = b'i' ∷ []

abbrev pub text_name : List ℕ
text_name = b't' ∷ []

abbrev pub schema : Schema
schema =
    record { name = id_name; type = int_type; nullable = false; max_length = 255 }
    ∷ record { name = text_name; type = varchar_type; nullable = true; max_length = 9 }
    ∷ []

abbrev pub rows : List Tuple
rows =
    tuple 0 (int 5 ∷ varchar (b'b' ∷ []) ∷ [])
    ∷ tuple 1 (int 1 ∷ null ∷ [])
    ∷ tuple 2 (int 3 ∷ varchar (b'a' ∷ []) ∷ [])
    ∷ []

-- i > 2
abbrev pub above_two : Expr
above_two = binary (column_ref id_name) op_gt (literal (bigint 2))

pub typed : shape_of schema above_two ≡ some flag
unfolding shape_of index_of same_bytes
typed = refl

evaluate-fits_example :
    (v : Value) × (evaluate above_two schema (int 5 ∷ null ∷ []) ≡ ok v) × (fits v flag ≡ true)
evaluate-fits_example = evaluate-fits schema (int 5 ∷ null ∷ []) (refl, (refl, tt)) above_two typed

-- -1 < 2, where -1 is an `int32_t`.
combine-integers_example :
    combine op_lt (ok (int (2 ^ 32 - 1))) (ok (bigint 2))
    ≡ ok (
        bool (
          compares op_lt
            (up_part (int (2 ^ 32 - 1)) + down_part (bigint 2))
            (up_part (bigint 2) + down_part (int (2 ^ 32 - 1)))))
combine-integers_example =
    combine-integers op_lt (int (2 ^ 32 - 1)) (bigint 2) (omega arith) (omega arith) refl

-- Two integers that one double stands for.
equal_beyond_precision :
    combine op_eq (ok (bigint (2 ^ 53))) (ok (bigint (2 ^ 53 + 1))) ≡ ok (bool true)
unfolding combine is_null double_of magnitude_of double_equal
equal_beyond_precision = refl

filter-Runs_example :
    Runs
      (filter (seq_scan rows) (some above_two) schema 4)
      (at_cursor rows 0, ok tt)
      (matching (some above_two) schema rows).0
      (first_error (matching (some above_two) schema rows).1 (ok tt))
filter-Runs_example =
    filter-Runs (seq_scan rows) (some above_two) schema 4 (at_cursor rows 0) rows (ok tt)
      (seq_scan-Runs rows (at_cursor [] 0)) (omega arith)

pub text_Sortable : (s : List ℕ) → Sortable varchar_type (varchar s)
unfolding value_matches_type value_to_double_or_null
text_Sortable s = (refl, λ d h. cc)

pub null_Sortable : Sortable varchar_type null
unfolding value_matches_type value_to_double_or_null
null_Sortable = (refl, λ d h. cc)

stable_sort-rows_example :
    Perm (stable_sort (tuple_before true 1) rows) rows
    × InOrder true 1 (stable_sort (tuple_before true 1) rows)
    × (of_rank 1 (varchar (b'b' ∷ [])) (stable_sort (tuple_before true 1) rows)
        ≡ of_rank 1 (varchar (b'b' ∷ [])) rows)
stable_sort-rows_example =
    stable_sort-rows varchar_type true 1 rows (tuple 0 (int 5 ∷ varchar (b'b' ∷ []) ∷ []))
      (
        (text_Sortable (b'b' ∷ []), tt),
        ((null_Sortable, tt), ((text_Sortable (b'a' ∷ []), tt), tt)),
      )
      (text_Sortable (b'b' ∷ []), tt)

both : target_indices schema [] ≡ ok (0 ∷ (1 ∷ []))
unfolding target_indices
both = refl

-- What is stored, and a number that an INT column refuses.
stored_row : full_row schema (0 ∷ (1 ∷ [])) (bigint 7 ∷ (null ∷ [])) ≡ ok (int 7 ∷ (null ∷ []))
unfolding full_row is_null
stored_row = refl

refused_row : full_row schema (1 ∷ (0 ∷ [])) (null ∷ (bigint (2 ^ 31) ∷ [])) ≡ err invalid_argument
unfolding full_row is_null
refused_row = refl

full_row-coerce_row_example :
    full_row schema (0 ∷ (1 ∷ [])) (bigint 7 ∷ (null ∷ []))
    ≡ coerce_row schema (bigint 7 ∷ (null ∷ []))
full_row-coerce_row_example =
    full_row-coerce_row schema (0 ∷ (1 ∷ [])) (bigint 7 ∷ (null ∷ [])) both refl

-- ===== src/Executor/Aggregate/Counts.antt =====
-- What COUNT of executor/aggregate.hpp says of a column.
use database_engine.Base.{
  ℕ, ◌+◌, ◌≡◌, refl, ap, inl, inr, true, false, ◌&&◌, some, List, [], ◌∷◌, length, get_or, arith,
  fun_ext, if◌then◌else◌, Bool-cases,
}
use database_engine.Util.Status.{Result, ok, ◌>>=◌}
use database_engine.Common.Value.{Value, null, bigint, is_null}
use database_engine.Common.Schema.{Schema, index_of}
use database_engine.Parser.Ast.{SelectItem, AggregateFunc, agg_count}
use database_engine.Executor.Aggregate.{
  Arithmetic, Accumulator, new_accumulator, function_of, column_of, is_count, accumulate, add_value,
  result_value,
}
use database_engine.Executor.Aggregate.Summary.{accumulate_item, summary}
use database_engine.Executor.Operator.{Tuple}

-- The values of column `i` that are not null.
unfoldable pub column_values : ℕ → List Tuple → List Value
column_values i [] = []
column_values i (x ∷ xs) =
    let v = get_or x.values i null in
    if is_null v then column_values i xs else v ∷ column_values i xs

unfoldable pub add_values :
    Arithmetic → AggregateFunc → List Value → Accumulator → Result Accumulator
add_values machine f [] acc = ok acc
add_values machine f (v ∷ vs) acc =
    add_value machine f v acc >>= λ next. add_values machine f vs next

-- An item with a column adds up the column's values.
module _ (machine : Arithmetic) (schema : Schema) (item : SelectItem) (i : ℕ)
    (column : (is_count (function_of item) && item.aggregate_star) ≡ false)
    (found : index_of schema (column_of item) ≡ some i) where
  accumulate_lem :
      (row : List Value) (acc : Accumulator)
      → accumulate machine schema item row acc ≡ (
          if is_null (get_or row i null)
          then ok acc
          else add_value machine (function_of item) (get_or row i null) acc)
  unfolding accumulate
  accumulate_lem row acc = rw (column, found) refl

  pub accumulate_item-values :
      (xs : List Tuple) (acc : Accumulator)
      → accumulate_item machine schema item xs acc
        ≡ add_values machine (function_of item) (column_values i xs) acc
  unfolding accumulate_item add_values column_values
  accumulate_item-values [] acc = refl
  accumulate_item-values (x ∷ xs) acc =
      let v = get_or x.values i null in
      elim (Bool-cases (is_null v)) [
        | inl nothing ↦ rw (accumulate_lem x.values acc, nothing) (accumulate_item-values xs acc)
        | inr there ↦
            rw (accumulate_lem x.values acc, there)
              (ap
                (λ (k : Accumulator → Result Accumulator).
                  add_value machine (function_of item) v acc >>= k)
                (fun_ext (accumulate_item-values xs)))
      ]

add_values-count :
    (machine : Arithmetic) (vs : List Value) (acc : Accumulator)
    → add_values machine agg_count vs acc ≡ ok (record acc { count = acc.count + length vs })
unfolding add_values add_value
add_values-count machine [] acc = ground arith
add_values-count machine (v ∷ vs) acc =
    ground (arith, add_values-count machine vs (record acc { count = acc.count + 1 }))

accumulate_item-star :
    (machine : Arithmetic) (schema : Schema) (item : SelectItem) (xs : List Tuple)
    (acc : Accumulator)
    → (is_count (function_of item) && item.aggregate_star) ≡ true
    → accumulate_item machine schema item xs acc ≡ ok (record acc { count = acc.count + length xs })
unfolding accumulate_item accumulate
accumulate_item-star machine schema item [] acc h = ground arith
accumulate_item-star machine schema item (x ∷ xs) acc h = rw h (
    ground
      (arith, accumulate_item-star machine schema item xs (record acc { count = acc.count + 1 }) h))

-- COUNT(*) gives the number of the rows, and COUNT of a column that of its values that are not null.
pub summary-count :
    (machine : Arithmetic) (schema : Schema) (item : SelectItem) (i : ℕ) (xs : List Tuple)
    → function_of item ≡ agg_count
    → index_of schema (column_of item) ≡ some i
    → summary machine schema item xs
      ≡ ok (bigint (if item.aggregate_star then length xs else length (column_values i xs)))
unfolding summary result_value
summary-count machine schema item i xs counts found = elim (Bool-cases item.aggregate_star) [
  | inl star ↦
      let all =
        accumulate_item-star machine schema item xs new_accumulator (rw (counts, star) refl) in
      rw (all, counts, star) (ground arith)
  | inr column ↦
      let values =
        accumulate_item-values machine schema item i (rw (counts, column) refl) found xs
          new_accumulator in
      rw (values, counts, add_values-count machine (column_values i xs) new_accumulator, column)
        (ground arith)
]

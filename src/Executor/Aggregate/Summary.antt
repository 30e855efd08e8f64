-- ===== src/Executor/Aggregate/Summary.antt =====
-- What the answer of executor/aggregate.hpp is: each item's summary of the rows, by itself.
use database_engine.Base.{
  ℕ, zero, suc, ◌<◌, ◌≡◌, refl, ◌∙◌, true, some, List, [], ◌∷◌, length, replicate, arith,
}
use database_engine.Util.Status.{Result, ok, ◌>>=◌, >>=-ok_parts}
use database_engine.Common.Value.{Value}
use database_engine.Common.Schema.{Schema}
use database_engine.Parser.Ast.{SelectItem}
use database_engine.Storage.Page.{invalid_page_id}
use database_engine.Executor.Aggregate.{
  Arithmetic, Accumulator, new_accumulator, function_of, check_items, accumulate, accumulate_row,
  result_value, result_values, AggregateState, aggregate_loop, aggregate_next, aggregate_operator,
}
use database_engine.Executor.Operator.{Operator, Tuple}
use database_engine.Executor.Operator.Rows.{Runs, Runs-quiet}

module _ (machine : Arithmetic) (schema : Schema) where
  -- One item over the rows, and all items over them.
  unfoldable pub accumulate_item : SelectItem → List Tuple → Accumulator → Result Accumulator
  accumulate_item item [] acc = ok acc
  accumulate_item item (x ∷ xs) acc =
      accumulate machine schema item x.values acc >>= λ next. accumulate_item item xs next

  accumulate_rows : List SelectItem → List Tuple → List Accumulator → Result (List Accumulator)
  accumulate_rows items [] accs = ok accs
  accumulate_rows items (x ∷ xs) accs =
      accumulate_row machine schema items x.values accs >>= λ next. accumulate_rows items xs next

  -- The value of one item, and those of all.
  unfoldable pub summary : SelectItem → List Tuple → Result Value
  unfolding accumulate_item
  summary item xs = accumulate_item item xs new_accumulator >>= λ acc.
      ok (result_value machine (function_of item) acc)

  unfoldable pub summaries : List SelectItem → List Tuple → Result (List Value)
  unfolding summary
  summaries [] xs = ok []
  summaries (item ∷ items) xs = do v ← summary item xs; vs ← summaries items xs; ok (v ∷ vs)

  accumulate_rows-none : (xs : List Tuple) → accumulate_rows [] xs [] ≡ ok []
  unfolding accumulate_rows accumulate_row
  accumulate_rows-none [] = refl
  accumulate_rows-none (x ∷ xs) = accumulate_rows-none xs

  -- The items do not meet.
  accumulate_rows-cons :
      (item : SelectItem) (items : List SelectItem) (xs : List Tuple) (acc a : Accumulator)
      (accs bs : List Accumulator)
      → accumulate_item item xs acc ≡ ok a
      → accumulate_rows items xs accs ≡ ok bs
      → accumulate_rows (item ∷ items) xs (acc ∷ accs) ≡ ok (a ∷ bs)
  unfolding accumulate_rows accumulate_row accumulate_item
  accumulate_rows-cons item items [] acc a accs bs h k = cc
  accumulate_rows-cons item items (x ∷ xs) acc a accs bs h k =
      let (next, h', first) = >>=-ok_parts _ (accumulate machine schema item x.values acc) h in
      let (nexts, k', others) =
        >>=-ok_parts _ (accumulate_row machine schema items x.values accs) k in
      rw (first, others) (accumulate_rows-cons item items xs next a nexts bs h' k')

  accumulate_rows-summaries :
      (items : List SelectItem) (xs : List Tuple) {vs : List Value}
      → summaries items xs ≡ ok vs
      → (accs : List Accumulator) × (accumulate_rows items xs
            (replicate (length items) new_accumulator)
          ≡ ok accs)
        × (result_values machine items accs ≡ vs)
  unfolding summaries summary result_values
  accumulate_rows-summaries [] xs h = ([], accumulate_rows-none xs, ground arith)
  accumulate_rows-summaries (item ∷ items) xs h =
      let (v, h', at_item) = >>=-ok_parts _ (summary item xs) h in
      let (vs, same, at_items) = >>=-ok_parts _ (summaries items xs) h' in
      let (a, value, item_ok) = >>=-ok_parts _ (accumulate_item item xs new_accumulator) at_item in
      let (accs, items_ok, values) = accumulate_rows-summaries items xs at_items in
      (
        a ∷ accs,
        accumulate_rows-cons item items xs new_accumulator a _ accs item_ok items_ok,
        ground arith,
      )

module _ (machine : Arithmetic) (child : Operator) (schema : Schema) (items : List SelectItem) where
  aggregate_loop-turn :
      (rounds : ℕ) (s t : child.State) (x : Tuple) (accs next : List Accumulator)
      → child.next s ≡ (some x, t)
      → accumulate_row machine schema items x.values accs ≡ ok next
      → aggregate_loop machine child schema items (suc rounds) s accs
        ≡ aggregate_loop machine child schema items rounds t next
  unfolding aggregate_loop
  aggregate_loop-turn rounds s t x accs next first row = rw (first, row) refl

  -- The loop of `Compute` goes over the child's tuples.
  aggregate_loop-rows :
      (rounds : ℕ) (s : child.State) (xs : List Tuple) (accs bs : List Accumulator)
      → Runs child s xs (ok tt)
      → length xs < rounds
      → accumulate_rows machine schema items xs accs ≡ ok bs
      → (t : child.State) × (aggregate_loop machine child schema items rounds s accs ≡ (ok bs, t))
        × (child.get_error t ≡ ok tt)
  unfolding aggregate_loop accumulate_rows
  aggregate_loop-rows zero s xs accs bs h less all = absurd (omega arith)
  aggregate_loop-rows (suc rounds) s [] accs bs (_, t, ended, error) less all =
      (t, rw (ended, all) refl, error)
  aggregate_loop-rows (suc rounds) s (x ∷ xs) accs bs (_, t, first, others) less all =
      let (next, rest, row) =
        >>=-ok_parts _ (accumulate_row machine schema items x.values accs) all in
      let (end, done, error) = aggregate_loop-rows rounds t xs next bs others (omega arith) rest in
      (end, aggregate_loop-turn rounds s t x accs next first row ∙ done, error)

  -- An aggregation answers one tuple, whose values are the summaries of its child's tuples, one for
  -- each item by itself. The child runs to its end without an error, SUM and AVG are of numbers, and each
  -- summary can be made.
  pub aggregate-Runs :
      (rounds : ℕ) (s : AggregateState machine child schema items) (xs : List Tuple)
      (vs : List Value)
      → Runs child (child.start s.below) xs (ok tt)
      → length xs < rounds
      → check_items schema items ≡ ok tt
      → summaries machine schema items xs ≡ ok vs
      → let op = aggregate_operator machine child schema items rounds in
        Runs op
          (op.start s)
          ((record { rid = record { page_id = invalid_page_id; slot_id = 0 }; values = vs }) ∷ [])
          (ok tt)
  unfolding aggregate_next
  aggregate-Runs rounds s xs vs h less checked sums =
      let (accs, all, values) = accumulate_rows-summaries machine schema items xs sums in
      let (t, done, error) =
        aggregate_loop-rows rounds (child.start s.below) xs
          (replicate (length items) new_accumulator) accs h less all in
      (
        Runs-quiet child (child.start s.below) xs (ok tt) h,
        record { below = t; done = true; error = ok tt },
        rw (checked, done, values) refl,
        (error, record { below = t; done = true; error = ok tt }, refl, error),
      )

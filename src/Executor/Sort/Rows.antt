-- ===== src/Executor/Sort/Rows.antt =====
-- What `stable_sort` makes of rows, by the order of executor/sort.hpp.
use database_engine.Base.{
  ℕ, ◌≡◌, refl, sym, ap, ◌∙◌, Bool, true, false, not, List, [], ◌∷◌, All, get_or, if◌then◌else◌,
}
use mathlib.Core.List.{Perm}
use database_engine.Common.Value.{Value, null, ColumnType}
use database_engine.Executor.Operator.{Tuple}
use database_engine.Executor.Sort.{stable_sort, tuple_before}
use database_engine.Executor.Sort.Order.{Sortable, value_before_asym, value_before_split}
use database_engine.Executor.Sort.Rank.{
  InRange, may_precede, same_rank, value_before-may_precede, value_before-same_rank,
}
use database_engine.Executor.Sort.Stable.{
  IsSorted, level_with, stable_sort-perm, stable_sort-IsSorted, level_with-stable_sort,
  All-stable_sort,
}

module _ (t : ColumnType) (descending : Bool) (column : ℕ) where
  abbrev key : Tuple → Value
  key x = get_or x.values column null

  -- A row that the sort is sure to order.
  abbrev pub Orderable : Tuple → Type 0
  Orderable x = Sortable t (get_or x.values column null) × InRange (get_or x.values column null)

  abbrev row_before : Tuple → Tuple → Bool
  row_before = tuple_before descending column

  front_order :
      (x : Tuple) (ys : List Tuple)
      → Orderable x
      → All Orderable ys
      → All (λ y. row_before y x ≡ false) ys
      → All (λ y. may_precede descending (key x) (key y) ≡ true) ys
  front_order x [] good goods h = tt
  front_order x (y ∷ ys) good goods h = (
    value_before-may_precede t descending (key x) (key y) good.0 goods.0.0 good.1 goods.0.1
        ∙ ap not h.0,
    front_order x ys good goods.1 h.1,
  )

-- Every row of the list may stand in front of those behind it.
abbrev pub InOrder : Bool → ℕ → List Tuple → Type 0
InOrder descending column [] = Unit
InOrder descending column (x ∷ xs) =
    All
      (λ y.
        may_precede descending (get_or x.values column null) (get_or y.values column null) ≡ true)
      xs
    × InOrder descending column xs

-- The rows with a value of the rank of `v` in the column.
pub of_rank : ℕ → Value → List Tuple → List Tuple
of_rank column v [] = []
of_rank column v (x ∷ xs) =
    if same_rank (get_or x.values column null) v
    then x ∷ of_rank column v xs
    else of_rank column v xs

module _ (t : ColumnType) (descending : Bool) (column : ℕ) where
  IsSorted-InOrder :
      (xs : List Tuple)
      → All (Orderable t descending column) xs
      → IsSorted (tuple_before descending column) xs
      → InOrder descending column xs
  IsSorted-InOrder [] goods h = tt
  IsSorted-InOrder (x ∷ xs) goods h =
      (front_order t descending column x xs goods.0 goods.1 h.0, IsSorted-InOrder xs goods.1 h.1)

  level_with-of_rank :
      (p : Tuple) (xs : List Tuple)
      → Orderable t descending column p
      → All (Orderable t descending column) xs
      → level_with (tuple_before descending column) p xs
        ≡ of_rank column (get_or p.values column null) xs
  unfolding level_with of_rank
  level_with-of_rank p [] good goods = refl
  level_with-of_rank p (x ∷ xs) good goods =
      let ih = level_with-of_rank p xs good goods.1 in
      let same =
        value_before-same_rank t descending (get_or x.values column null)
          (get_or p.values column null) goods.0.0 good.0 goods.0.1 good.1 in
      rw (same, ih) refl

  -- ORDER BY gives the same rows in the order that was asked for. Ascending, the values of the column go
  -- up and the rows with null come first; descending, the values go down and the rows with null come
  -- last. Rows whose values the order does not tell apart keep their order. A BIGINT stands where its
  -- double does. The column's values are null or of its type, an INT in 32 bits, and no NaN.
  pub stable_sort-rows :
      (xs : List Tuple) (p : Tuple)
      → All (Orderable t descending column) xs
      → Orderable t descending column p
      → Perm (stable_sort (tuple_before descending column) xs) xs
        × InOrder descending column (stable_sort (tuple_before descending column) xs)
        × (of_rank column
              (get_or p.values column null)
              (stable_sort (tuple_before descending column) xs)
            ≡ of_rank column (get_or p.values column null) xs)
  stable_sort-rows xs p good p_good =
      let before = tuple_before descending column in
      let Good = Orderable t descending column in
      let value : Tuple → Value = λ x. get_or x.values column null in
      let asym = λ (x y : Tuple) (p : Good x) (q : Good y).
        value_before_asym t descending (value x) (value y) p.0 q.0 in
      let split = λ (x y z : Tuple) (p : Good x) (q : Good y) (r : Good z).
        value_before_split t descending (value x) (value y) p.0 q.0 (value z) r.0 in
      let sorted_good = All-stable_sort before Good xs good in
      (
        stable_sort-perm before xs,
        IsSorted-InOrder (stable_sort before xs) sorted_good
            (stable_sort-IsSorted before Good asym split xs good),
        sym (level_with-of_rank p (stable_sort before xs) p_good sorted_good)
            ∙ level_with-stable_sort before Good asym split p xs p_good good
            ∙ level_with-of_rank p xs p_good good,
      )

-- ===== src/Executor/Sort.antt =====
-- executor/sort.hpp. `std::stable_sort` is an insertion sort: for a comparison that is a strict weak
-- order, the sorted list in which equal elements keep their order is one.
pub mod Order
pub mod Rank
pub mod Stable
pub mod Rows
use database_engine.Base.{
  ℕ, zero, suc, ◌+◌, ◌<◌, ◌≡◌, refl, ap, sym, subst, ◌∙◌, ◌⊎◌, inl, inr, Bool, true, false, not,
  ◌&&◌, Option, none, some, List, [], ◌∷◌, length, get_or, arith, if◌then◌else◌, Option-cases,
}
use database_engine.Util.Status.{Result, ok, err, Status, invalid_argument}
use database_engine.Common.Value.{Value, null, is_null}
use database_engine.Common.Schema.{Schema, index_of}
use database_engine.Parser.Ast.{OrderByClause}
use database_engine.Executor.Compare.{compare_for_sort, is_negative, flip}
use database_engine.Executor.Scan.{Cursor, next_buffered, cursor-Runs, at_cursor}
use database_engine.Executor.Filter.{first_error}
use database_engine.Executor.Operator.{Operator, Tuple}
use database_engine.Executor.Operator.Rows.{Runs, drain, drain-Runs}

module _ {ℓ} {A : Type ℓ} (before : A → A → Bool) where
  -- In front of the first element that it does not have to follow.
  unfoldable pub insert_sorted : A → List A → List A
  insert_sorted x [] = x ∷ []
  insert_sorted x (y ∷ ys) =
      let further = insert_sorted x ys in if before y x then y ∷ further else x ∷ (y ∷ ys)

  unfoldable pub stable_sort : List A → List A
  unfolding insert_sorted
  stable_sort [] = []
  stable_sort (x ∷ xs) = insert_sorted x (stable_sort xs)

-- The comparison of `Open`, on the values of the column: nulls come first, or last if descending.
unfoldable pub value_before : Bool → Value → Value → Bool
value_before descending a b =
    if is_null a
    then (if is_null b then false else not descending)
    else if is_null b
    then descending
    else if descending
    then is_negative (flip (compare_for_sort a b))
    else is_negative (compare_for_sort a b)

abbrev pub tuple_before : Bool → ℕ → Tuple → Tuple → Bool
tuple_before descending column a b =
    value_before descending (get_or a.values column null) (get_or b.values column null)

module _ (child : Operator) where
  pub record SortState : Type 0 where
    pub below : child.State
    pub rows : Cursor
    pub error : Status
    pub child_error : Status

  -- What `Open` makes of the child's tuples and its last state.
  abbrev pub buffer_sorted : Bool → ℕ → List Tuple × child.State → SortState
  buffer_sorted descending column (tuples, ended) = record {
    below = child.close ended;
    rows = at_cursor (stable_sort (tuple_before descending column) tuples) 0;
    error = ok tt;
    child_error = child.get_error ended;
  }

  -- The loop over the child makes `rounds` turns at most.
  unfoldable pub sort_open : ℕ → OrderByClause → Schema → SortState → SortState
  sort_open rounds order_by schema s = elim (index_of schema order_by.column) [
    | none ↦ record s { rows = at_cursor [] 0; error = err invalid_argument }
    | some column ↦
        buffer_sorted order_by.descending column (drain child rounds (child.start s.below))
  ]

  abbrev pub sort_next : SortState → Option Tuple × SortState
  sort_next s = elim s.error [
    | err code ↦ (none, s)
    | ok _ ↦ let (x, rows) = next_buffered s.rows in (x, record s { rows = rows })
  ]

  abbrev pub sort_operator : ℕ → OrderByClause → Schema → Operator
  sort_operator rounds order_by schema = record {
    State = SortState;
    start = sort_open rounds order_by schema;
    next = sort_next;
    close = λ s. record s { rows = record s.rows { buffered = [] } };
    get_error = λ s. first_error s.error s.child_error;
  }

  -- A sort answers the tuples of its child, which has run to its end without an error, in the stable order
  -- of the column.
  pub sort-Runs :
      (rounds : ℕ) (order_by : OrderByClause) (schema : Schema) (column : ℕ) (s : SortState)
      (xs : List Tuple)
      → index_of schema order_by.column ≡ some column
      → Runs child (child.start s.below) xs (ok tt)
      → length xs < rounds
      → Runs
          (sort_operator rounds order_by schema)
          (sort_open rounds order_by schema s)
          (stable_sort (tuple_before order_by.descending column) xs)
          (ok tt)
  unfolding sort_open
  sort-Runs rounds order_by schema column s xs found h enough =
      let (t, all, error) = drain-Runs child rounds (child.start s.below) xs (ok tt) h enough in
      let op = sort_operator rounds order_by schema in
      let embed : Cursor → SortState = λ c. record {
        below = child.close t;
        rows = c;
        error = ok tt;
        child_error = child.get_error t;
      } in
      let sorted = stable_sort (tuple_before order_by.descending column) xs in
      let opened : sort_open rounds order_by schema s ≡ embed (at_cursor sorted 0) =
        rw (found, sort_open) (ap (buffer_sorted order_by.descending column) all) in
      subst (λ r. Runs op r sorted (ok tt)) (sym opened)
        (cursor-Runs op embed (λ c. refl) (λ c. error) sorted)

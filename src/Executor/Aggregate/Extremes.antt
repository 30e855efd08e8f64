-- ===== src/Executor/Aggregate/Extremes.antt =====
-- What MIN and MAX of executor/aggregate.hpp say of a column.
use database_engine.Base.{
  ℕ, ◌≡◌, refl, sym, ◌∙◌, ◌⊎◌, inl, inr, Bool, true, false, ◌&&◌, some, List, [], ◌∷◌, get_or,
  arith, if◌then◌else◌, Bool-cases, All,
}
use database_engine.Util.Status.{ok, ◌>>=◌}
use database_engine.Common.Value.{Value, null, is_null, ColumnType}
use database_engine.Common.Schema.{Schema, index_of}
use database_engine.Parser.Ast.{SelectItem, AggregateFunc, agg_min, agg_max}
use database_engine.Executor.Compare.{compare_for_sort, is_negative, flip}
use database_engine.Executor.Sort.Order.{Sortable, lower, there_asym, there_flip, there_split}
use database_engine.Executor.Aggregate.{
  Arithmetic, Accumulator, is_lower, is_higher, new_accumulator, function_of, column_of, is_count,
  add_value, result_value,
}
use database_engine.Executor.Aggregate.Fold.{IsExtreme, extreme, extreme_lem}
use database_engine.Executor.Aggregate.Summary.{summary}
use database_engine.Executor.Operator.{Tuple}
use database_engine.Executor.Aggregate.Counts.{column_values, add_values, accumulate_item-values}

-- A value of the column's type that is not null and no NaN.
abbrev pub Counts : ColumnType → Value → Type 0
Counts t v = Sortable t v × (is_null v ≡ false)

-- The order turned round, as MAX reads it.
abbrev pub higher : Value → Value → Bool
higher a b = is_negative (flip (compare_for_sort a b))

-- MIN and MAX keep the least and the greatest value that they have met.
module _ (machine : Arithmetic) where
  add_values-min :
      (vs : List Value) (m : Value) (acc : Accumulator)
      → acc.min_v ≡ some m
      → (next : Accumulator) × (add_values machine agg_min vs acc ≡ ok next)
        × (next.min_v ≡ some (extreme lower m vs))
  unfolding add_values add_value extreme
  add_values-min [] m acc h = (acc, refl, h)
  add_values-min (v ∷ vs) m acc h =
      add_values-min vs (if lower v m then v else m)
        (record acc {
          min_v = if is_lower v acc.min_v then some v else acc.min_v;
          has_value = true;
        })
        (ground arith)

  add_values-max :
      (vs : List Value) (m : Value) (acc : Accumulator)
      → acc.max_v ≡ some m
      → (next : Accumulator) × (add_values machine agg_max vs acc ≡ ok next)
        × (next.max_v ≡ some (extreme higher m vs))
  unfolding add_values add_value extreme
  add_values-max [] m acc h = (acc, refl, h)
  add_values-max (v ∷ vs) m acc h =
      add_values-max vs (if higher v m then v else m)
        (record acc {
          max_v = if is_higher v acc.max_v then some v else acc.max_v;
          has_value = true;
        })
        (ground arith)

-- `higher` is `lower` with the values changed about.
higher-lower : (t : ColumnType) (x y : Value) → Counts t x → Counts t y → higher x y ≡ lower y x
higher-lower t x y p q = there_flip t x y p.0 q.0 p.1 q.1

higher_split :
    (t : ColumnType) (x y z : Value)
    → Counts t x
    → Counts t y
    → Counts t z
    → higher x z ≡ true
    → (higher x y ≡ true) ⊎ (higher y z ≡ true)
higher_split t x y z p q r h =
    elim (there_split t z y x r.0 q.0 p.0 r.1 q.1 p.1 (sym (higher-lower t x z p r) ∙ h)) [
      | inl below ↦ inr (higher-lower t y z q r ∙ below)
      | inr above ↦ inl (higher-lower t x y p q ∙ above)
    ]

module _ (t : ColumnType) (m : Value) (vs : List Value) (good : All (Counts t) (m ∷ vs)) where
  lower-IsExtreme : IsExtreme lower (m ∷ vs) (extreme lower m vs)
  lower-IsExtreme =
      let found =
        extreme_lem lower (Counts t) (λ x y p q h. there_asym t x y p.0 q.0 p.1 q.1 h)
          (λ x y z p q r h. there_split t x y z p.0 q.0 r.0 p.1 q.1 r.1 h) m vs good.0 good.1 in
      inr (found.1, found.2)

  higher-IsExtreme : IsExtreme higher (m ∷ vs) (extreme higher m vs)
  higher-IsExtreme =
      let found =
        extreme_lem higher (Counts t)
          (λ x y p q h.
            higher-lower t y x q p
            ∙ there_asym t y x q.0 p.0 q.1 p.1 (sym (higher-lower t x y p q) ∙ h))
          (higher_split t) m vs good.0 good.1 in
      inr (found.1, found.2)

All-column_values :
    (t : ColumnType) (i : ℕ) (xs : List Tuple)
    → All (λ x. Sortable t (get_or x.values i null)) xs
    → All (Counts t) (column_values i xs)
unfolding column_values
All-column_values t i [] h = tt
All-column_values t i (x ∷ xs) h = elim (Bool-cases (is_null (get_or x.values i null))) [
  | inl nothing ↦ rw nothing (All-column_values t i xs h.1)
  | inr there ↦ rw there ((h.0, there), All-column_values t i xs h.1)
]

least_value :
    (machine : Arithmetic) (t : ColumnType) (vs : List Value)
    → All (Counts t) vs
    → (m : Value) × ((add_values machine agg_min vs new_accumulator >>= λ acc.
          ok (result_value machine agg_min acc))
        ≡ ok m)
      × IsExtreme lower vs m
unfolding add_values add_value result_value
least_value machine t [] good = (null, refl, inl (refl, refl))
least_value machine t (m ∷ vs) good =
    let (acc, all, least) =
      add_values-min machine vs m (record new_accumulator { min_v = some m; has_value = true })
        refl in
    (extreme lower m vs, rw (all, least) refl, lower-IsExtreme t m vs good)

greatest_value :
    (machine : Arithmetic) (t : ColumnType) (vs : List Value)
    → All (Counts t) vs
    → (m : Value) × ((add_values machine agg_max vs new_accumulator >>= λ acc.
          ok (result_value machine agg_max acc))
        ≡ ok m)
      × IsExtreme higher vs m
unfolding add_values add_value result_value
greatest_value machine t [] good = (null, refl, inl (refl, refl))
greatest_value machine t (m ∷ vs) good =
    let (acc, all, greatest) =
      add_values-max machine vs m (record new_accumulator { max_v = some m; has_value = true })
        refl in
    (extreme higher m vs, rw (all, greatest) refl, higher-IsExtreme t m vs good)

abbrev pub keeps_extreme : AggregateFunc → Bool
keeps_extreme agg_min = true
keeps_extreme agg_max = true
keeps_extreme _ = false

-- What MIN and MAX take for further than the value that they keep.
abbrev pub further : AggregateFunc → Value → Value → Bool
further agg_max = higher
further _ = lower

IsExtreme-value :
    (machine : Arithmetic) (t : ColumnType) (f : AggregateFunc) (vs : List Value)
    → keeps_extreme f ≡ true
    → All (Counts t) vs
    → (m : Value) × ((add_values machine f vs new_accumulator >>= λ acc.
          ok (result_value machine f acc))
        ≡ ok m)
      × IsExtreme (further f) vs m
IsExtreme-value machine t agg_min vs h good = least_value machine t vs good
IsExtreme-value machine t agg_max vs h good = greatest_value machine t vs good
IsExtreme-value machine t f vs h good = cc

no_count : (f : AggregateFunc) (star : Bool) → keeps_extreme f ≡ true → (is_count f && star) ≡ false
no_count agg_min star h = refl
no_count f star h = ground arith

-- MIN and MAX give null for a column without values, and else a value of the column that no other is
-- below, or above. The values are null or of the column's type, and none is a NaN.
pub summary-extremes :
    (machine : Arithmetic) (schema : Schema) (item : SelectItem) (i : ℕ) (t : ColumnType)
    (xs : List Tuple)
    → keeps_extreme (function_of item) ≡ true
    → index_of schema (column_of item) ≡ some i
    → All (λ x. Sortable t (get_or x.values i null)) xs
    → (m : Value) × (summary machine schema item xs ≡ ok m)
      × IsExtreme (further (function_of item)) (column_values i xs) m
unfolding summary
summary-extremes machine schema item i t xs extreme found good =
    let counted = All-column_values t i xs good in
    let column = no_count (function_of item) item.aggregate_star extreme in
    let values = accumulate_item-values machine schema item i column found xs new_accumulator in
    let (m, sum, outermost) =
      IsExtreme-value machine t (function_of item) (column_values i xs) extreme counted in
    (m, rw values sum, outermost)

-- ===== src/Executor/Select/Columns.antt =====
-- The columns that executor/project.hpp plans lie in the schema, and each row has them.
use database_engine.Base.{
  ℕ, zero, suc, ◌+◌, ◌<◌, ◌≡◌, refl, ap, inl, inr, some, List, [], ◌∷◌, length, arith, Option-cases,
  Bool-cases, All, get_elem?,
}
use database_engine.Util.Status.{ok}
use database_engine.Common.Value.{Value}
use database_engine.Common.Schema.{Column, Schema, index_of, index_from}
use database_engine.Parser.Ast.{SelectItem}
use database_engine.Storage.Record.Accepts.{TakesRow, TakesRow-length}
use database_engine.Executor.Operator.{Tuple}
use database_engine.Executor.Project.{
  ColumnPlan, build_column_plan, plan_star, plan_items, only_star, projected, pick, value_or,
}

index_from-lt :
    (schema : Schema) (name : List ℕ) (i j : ℕ)
    → index_from schema name i ≡ some j
    → j < i + length schema
unfolding index_from
index_from-lt [] name i j h = cc
index_from-lt (col ∷ cols) name i j h = ground (arith, index_from-lt cols name (i + 1) j)

index_of-lt :
    (schema : Schema) (name : List ℕ) (j : ℕ) → index_of schema name ≡ some j → j < length schema
unfolding index_of
index_of-lt schema name j h = omega (arith, index_from-lt schema name 0 j h)

-- The indices of a plan.
abbrev pub InSchema : Schema → ColumnPlan → Type 0
InSchema schema plan = All (λ i. i < length schema) plan.indices

plan_star-InSchema :
    (schema : Schema) (cols : List Column) → InSchema schema (plan_star schema cols)
unfolding plan_star
plan_star-InSchema schema [] = tt
plan_star-InSchema schema (col ∷ cols) = elim (Option-cases (index_of schema col.name)) [
  | inl missing ↦ rw (missing, plan_star) tt
  | inr (i, found) ↦
      rw (found, plan_star) (index_of-lt schema col.name i found, plan_star-InSchema schema cols)
]

plan_items-InSchema :
    (schema : Schema) (items : List SelectItem) → InSchema schema (plan_items schema items)
unfolding plan_items
plan_items-InSchema schema [] = tt
plan_items-InSchema schema (item ∷ items) =
    let name = value_or item.column [] in
    elim (Option-cases (index_of schema name)) [
      | inl missing ↦ rw (missing, plan_items) tt
      | inr (i, found) ↦
          rw (found, plan_items) (index_of-lt schema name i found, plan_items-InSchema schema items)
    ]

pub build_column_plan-InSchema :
    (schema : Schema) (items : List SelectItem) → InSchema schema (build_column_plan schema items)
unfolding build_column_plan
build_column_plan-InSchema schema items = elim (Bool-cases (only_star items)) [
  | inl star ↦ rw star (plan_star-InSchema schema schema)
  | inr columns ↦ rw columns (plan_items-InSchema schema items)
]

get_elem?-some : (vs : List Value) (i : ℕ) → i < length vs → (v : Value) × (get_elem? vs i ≡ some v)
get_elem?-some [] i h = elim h [ ]
get_elem?-some (v ∷ vs) zero h = (v, refl)
get_elem?-some (v ∷ vs) (suc i) h = get_elem?-some vs i (omega arith)

pick-some :
    (indices : List ℕ) (n : ℕ) (values : List Value)
    → All (λ i. i < n) indices
    → length values ≡ n
    → (vs : List Value) × (pick indices values ≡ some vs)
unfolding pick
pick-some [] n values h size = ([], refl)
pick-some (i ∷ is) n values h size =
    let (v, here) = get_elem?-some values i (omega (arith, h.0)) in
    let (vs, others) = pick-some is n values h.1 size in (v ∷ vs, ground (arith, here, others))

-- Each row of a table has the planned columns.
pub projected-taken :
    (schema : Schema) (plan : ColumnPlan) (xs : List Tuple)
    → InSchema schema plan
    → All (λ x. TakesRow schema x.values) xs
    → ((projected plan.indices xs).1 ≡ ok tt) × (length (projected plan.indices xs).0 ≡ length xs)
unfolding projected
projected-taken schema plan [] h taken = (refl, refl)
projected-taken schema plan (x ∷ xs) h taken =
    let (vs, picked) =
      pick-some plan.indices (length schema) x.values h (TakesRow-length schema x.values taken.0) in
    let (fine, size) = projected-taken schema plan xs h taken.1 in rw picked (fine, ap suc size)

-- ===== src/Executor/Plan.antt =====
-- The choice of an index in executor/executor.cpp. A key is an `int64_t`, given by its bit pattern.
pub mod Sound
pub mod Covers
use database_engine.Base.{
  ℕ, ◌+◌, ◌-◌, ◌*◌, ◌^◌, Bool, true, false, not, ◌&&◌, ◌||◌, Option, none, some, List, [], ◌∷◌,
  ◌++◌, ltb, ◌==◌, if◌then◌else◌,
}
use database_engine.Common.Value.{Value, null, int, bigint, double, bool, varchar}
use database_engine.Common.Schema.{same_bytes}
use database_engine.Parser.Ast.{
  BinaryOp, op_eq, op_neq, op_lt, op_lte, op_gt, op_gte, op_and, op_or, Expr, column_ref, literal,
  binary,
}
use database_engine.Catalog.Metadata.{IndexMetadata}

-- `static_cast<std::int64_t>` of an `int32_t`: the sign is carried on.
abbrev pub widened : ℕ → ℕ
widened v = if ltb (2 * v) (2 ^ 32) then v else v + (2 ^ 64 - 2 ^ 32)

unfoldable pub extract_int64_key : Value → Option ℕ
extract_int64_key (int v) = some (widened v)
extract_int64_key (bigint v) = some v
extract_int64_key _ = none

unfoldable pub flatten_and : Expr → List Expr
flatten_and (binary left op_and right) = flatten_and left ++ flatten_and right
flatten_and e = e ∷ []

unfoldable pub flip_comparison_op : BinaryOp → BinaryOp
flip_comparison_op op_lt = op_gt
flip_comparison_op op_gt = op_lt
flip_comparison_op op_lte = op_gte
flip_comparison_op op_gte = op_lte
flip_comparison_op op = op

pub record IndexableConjunct : Type 0 where
  pub column : List ℕ
  pub op : BinaryOp
  pub value : ℕ

-- A column and a literal that is an `int64_t`.
abbrev pub conjunct_of : List ℕ → BinaryOp → Value → Option IndexableConjunct
conjunct_of column op (bigint v) = some (record { column = column; op = op; value = v })
conjunct_of column op _ = none

-- The two sides, where the operator is a comparison.
unfoldable pub compared_sides : Expr → BinaryOp → Expr → Option IndexableConjunct
unfolding flip_comparison_op
compared_sides (column_ref column) op (literal v) = conjunct_of column op v
compared_sides (literal v) op (column_ref column) = conjunct_of column (flip_comparison_op op) v
compared_sides _ op _ = none

unfoldable pub extract_indexable_conjunct : Expr → Option IndexableConjunct
unfolding compared_sides
extract_indexable_conjunct (binary left op_and right) = none
extract_indexable_conjunct (binary left op_or right) = none
extract_indexable_conjunct (binary left op right) = compared_sides left op right
extract_indexable_conjunct _ = none

-- The first index on a column.
unfoldable pub index_on : List ℕ → List IndexMetadata → Option IndexMetadata
index_on column [] = none
index_on column (m ∷ ms) =
    let rest = index_on column ms in if same_bytes m.column_name column then some m else rest

abbrev pub is_equality : BinaryOp → Bool
is_equality op_eq = true
is_equality _ = false

abbrev pub or_else {ℓ} : {A : Type ℓ} → Option A → Option A → Option A
or_else (some a) other = some a
or_else none other = other

-- The loop over the conjuncts: the first equality on a column with an index, or else the first comparison.
unfoldable pub choose_index :
    List IndexMetadata
    → List Expr
    → Option (IndexableConjunct × IndexMetadata)
    → Option (IndexableConjunct × IndexMetadata)
unfolding extract_indexable_conjunct index_on
choose_index indexes [] chosen = chosen
choose_index indexes (c ∷ cs) chosen = elim (extract_indexable_conjunct c) [
  | none ↦ choose_index indexes cs chosen
  | some candidate ↦ elim (index_on candidate.column indexes) [
    | none ↦ choose_index indexes cs chosen
    | some found ↦
        let others = choose_index indexes cs (or_else chosen (some (candidate, found))) in
        if is_equality candidate.op then some (candidate, found) else others
  ]
]

abbrev pub top_is_or : Expr → Bool
top_is_or (binary left op_or right) = true
top_is_or _ = false

-- The index and the conjunct that the scan of `ExecuteSelect` goes by, if any.
unfoldable pub chosen_index :
    List IndexMetadata → Option Expr → Option (IndexableConjunct × IndexMetadata)
unfolding choose_index flatten_and
chosen_index indexes none = none
chosen_index indexes (some e) =
    if top_is_or e then none else choose_index indexes (flatten_and e) none

-- The arguments of `RangeScan`.
pub record Bounds : Type 0 where
  pub low : Option ℕ
  pub low_inclusive : Bool
  pub high : Option ℕ
  pub high_inclusive : Bool

-- The `switch` on the operator; an equality is no range, and gets the bounds that say the same.
unfoldable pub bounds_of : BinaryOp → ℕ → Bounds
bounds_of op_lt v = record {
  low = none;
  low_inclusive = true;
  high = some v;
  high_inclusive = false;
}
bounds_of op_lte v = record {
  low = none;
  low_inclusive = true;
  high = some v;
  high_inclusive = true;
}
bounds_of op_gt v = record {
  low = some v;
  low_inclusive = false;
  high = none;
  high_inclusive = true;
}
bounds_of op_gte v = record {
  low = some v;
  low_inclusive = true;
  high = none;
  high_inclusive = true;
}
bounds_of op_eq v = record {
  low = some v;
  low_inclusive = true;
  high = some v;
  high_inclusive = true;
}
bounds_of _ v = record { low = none; low_inclusive = true; high = none; high_inclusive = true }

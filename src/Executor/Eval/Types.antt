-- ===== src/Executor/Eval/Types.antt =====
-- Which expressions of executor/expr_eval.cpp are well typed: the rules that `Evaluate` follows at run
-- time, read off the schema.
use database_engine.Base.{
  ℕ, zero, suc, ◌≡◌, refl, ◌≢◌, ◌⊎◌, inl, inr, Bool, true, false, ◌&&◌, ◌||◌, Option, none, some,
  List, [], ◌∷◌, arith, if◌then◌else◌, get_or, Option-cases,
}
use database_engine.Util.Status.{ok, err, Code, Result-cases}
use database_engine.Common.Value.{
  ColumnType, int_type, bigint_type, double_type, bool_type, varchar_type, Value, null, int, bigint,
  double, bool, varchar, is_null,
}
use database_engine.Common.Schema.{Schema, index_of}
use database_engine.Parser.Ast.{
  BinaryOp, op_eq, op_neq, op_and, op_or, Expr, column_ref, literal, binary,
}
use database_engine.Storage.Record.Accepts.{TakesRow}
use database_engine.Executor.Compare.{compare_values, values_equal, compare_ordered}
use database_engine.Executor.Eval.{holds, ordered, combine, evaluate, evaluate_predicate}

-- What an expression gives: a number or null, a text or null, a truth value, a truth value or null,
-- or null.
pub data Shape : Type 0 where
  number text flag maybe_flag nothing : Shape

abbrev pub column_shape : ColumnType → Bool → Shape
column_shape int_type nullable = number
column_shape bigint_type nullable = number
column_shape double_type nullable = number
column_shape varchar_type nullable = text
column_shape bool_type nullable = if nullable then maybe_flag else flag

abbrev pub value_shape : Value → Shape
value_shape null = nothing
value_shape (int v) = number
value_shape (bigint v) = number
value_shape (double v) = number
value_shape (bool b) = flag
value_shape (varchar s) = text

abbrev pub comparable : Shape → Shape → Bool
comparable nothing t = true
comparable number number = true
comparable text text = true
comparable flag flag = true
comparable flag maybe_flag = true
comparable maybe_flag flag = true
comparable maybe_flag maybe_flag = true
comparable s nothing = true
comparable s t = false

abbrev is_flag : Shape → Bool
is_flag flag = true
is_flag _ = false

abbrev is_logical : BinaryOp → Bool
is_logical op_and = true
is_logical op_or = true
is_logical _ = false

shape_at : Schema → ℕ → Option Shape
shape_at [] i = none
shape_at (col ∷ cols) zero = some (column_shape col.type col.nullable)
shape_at (col ∷ cols) (suc i) = shape_at cols i

-- The shape of an operator's result, given those of its operands.
shape_with : BinaryOp → Option Shape → Option Shape → Option Shape
shape_with op (some s) (some t) =
    if (if is_logical op then is_flag s && is_flag t else comparable s t) then some flag else none
shape_with op s t = none

-- The shape of an expression over a schema, where it is well typed.
unfoldable pub shape_of : Schema → Expr → Option Shape
unfolding shape_at shape_with
shape_of schema (column_ref column) = elim (index_of schema column) [
  | none ↦ none
  | some i ↦ shape_at schema i
]
shape_of schema (literal v) = some (value_shape v)
shape_of schema (binary left op right) =
    shape_with op (shape_of schema left) (shape_of schema right)

abbrev pub fits : Value → Shape → Bool
fits null flag = false
fits null s = true
fits (int v) number = true
fits (bigint v) number = true
fits (double v) number = true
fits (varchar v) text = true
fits (bool v) flag = true
fits (bool v) maybe_flag = true
fits v s = false

comparable_lem :
    (l r : Value) (s t : Shape)
    → comparable s t ≡ true
    → fits l s ≡ true
    → fits r t ≡ true
    → (((is_null l || is_null r) ≡ true) ⊎ (compare_values l r ≢ none))
      × ((c : Code) → values_equal l r ≢ err c)
unfolding compare_values values_equal is_null
comparable_lem null r s t h k m = ground arith
comparable_lem (int a) (int b) s t h k m = ground arith
comparable_lem l r s t h k m = ground arith

-- A column's value fits the column's shape.
shape_at_lem :
    (schema : Schema) (row : List Value) (i : ℕ) (s : Shape)
    → TakesRow schema row
    → shape_at schema i ≡ some s
    → fits (get_or row i null) s ≡ true
unfolding shape_at
shape_at_lem [] row i s taken found = cc
shape_at_lem (col ∷ cols) [] i s taken found = absurd taken
shape_at_lem (col ∷ cols) (v ∷ vs) (suc i) s taken found = shape_at_lem cols vs i s taken.1 found
shape_at_lem (col ∷ cols) (null ∷ vs) zero s taken found = ground (arith, taken.0)
shape_at_lem (col ∷ cols) (v ∷ vs) zero s taken found = ground (arith, taken.0)

-- Whatever an operator gives is a truth value.
combine-flag :
    (op : BinaryOp) (l r v : Value) → combine op (ok l) (ok r) ≡ ok v → fits v flag ≡ true
unfolding combine holds
combine-flag op_and l r v h = ground arith
combine-flag op l r v h = ground arith

combine-ok :
    (op : BinaryOp) (l r : Value) (s t : Shape)
    → (if is_logical op then is_flag s && is_flag t else comparable s t) ≡ true
    → fits l s ≡ true
    → fits r t ≡ true
    → (c : Code) → combine op (ok l) (ok r) ≢ err c
unfolding combine ordered compare_ordered holds
combine-ok op_and l r s t h k m c e = ground arith
combine-ok op_or l r s t h k m c e = ground arith
combine-ok op_eq l r s t h k m c e = ground (arith, (comparable_lem l r s t h k m).1 c)
combine-ok op_neq l r s t h k m c e = ground (arith, (comparable_lem l r s t h k m).1 c)
combine-ok op l r s t h k m c e = ground (arith, (comparable_lem l r s t h k m).0)

shape_with_parts :
    (op : BinaryOp) (p q : Option Shape) {u : Shape}
    → shape_with op p q ≡ some u
    → (s : Shape) × (t : Shape) × (p ≡ some s)
      × (q ≡ some t)
      × (u ≡ flag)
      × ((if is_logical op then is_flag s && is_flag t else comparable s t) ≡ true)
unfolding shape_with
shape_with_parts op (some s) (some t) h = (s, t, refl, refl, ground arith, ground arith)
shape_with_parts op none q h = cc
shape_with_parts op (some s) none h = cc

module _ (schema : Schema) (row : List Value) (taken : TakesRow schema row) where
  -- An expression that is well typed over a schema is evaluated without an error on every row that the
  -- schema takes, and its value has the shape that the typing says.
  pub evaluate-fits :
      (e : Expr) {s : Shape}
      → shape_of schema e ≡ some s
      → (v : Value) × (evaluate e schema row ≡ ok v) × (fits v s ≡ true)
  unfolding shape_of evaluate
  evaluate-fits (literal null) h = (null, refl, ground arith)
  evaluate-fits (literal v) h = (v, refl, ground arith)
  evaluate-fits (column_ref column) {s} h = elim (Option-cases (index_of schema column)) [
    | inl missing ↦ absurd (ground arith)
    | inr (i, there) ↦
        (get_or row i null, ground arith, shape_at_lem schema row i s taken (ground arith))
  ]
  evaluate-fits (binary left op right) h =
      let (s, t, at_left, at_right, result, fine) =
        shape_with_parts op (shape_of schema left) (shape_of schema right) h in
      let (l, l_ok, l_fits) = evaluate-fits left at_left in
      let (r, r_ok, r_fits) = evaluate-fits right at_right in
      elim (Result-cases (combine op (ok l) (ok r))) [
        | inl (v, done) ↦ (v, rw (l_ok, r_ok) done, rw result (combine-flag op l r v done))
        | inr (c, failed) ↦ absurd (combine-ok op l r s t fine l_fits r_fits c failed)
      ]

flag-bool : (v : Value) → fits v flag ≡ true → (b : Bool) × (v ≡ bool b)
flag-bool (bool b) h = (b, refl)
flag-bool v h = ground arith

-- So a condition that is well typed is decided on every row that its schema takes.
pub evaluate_predicate-typed :
    (schema : Schema) (row : List Value) (e : Expr)
    → TakesRow schema row
    → shape_of schema e ≡ some flag
    → (b : Bool) × (evaluate_predicate (some e) schema row ≡ ok b)
unfolding evaluate_predicate
evaluate_predicate-typed schema row e taken typed =
    let (v, done, shape) = evaluate-fits schema row taken e typed in
    let (b, same) = flag-bool v shape in (b, rw (done, same) refl)

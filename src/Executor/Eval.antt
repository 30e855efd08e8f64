-- ===== src/Executor/Eval.antt =====
-- executor/expr_eval.cpp. A row has a value for each column: reading one past its end, which the
-- source leaves undefined, gives null here.
pub mod Types
pub mod Integers
use database_engine.Base.{
  ℕ, ◌≡◌, Bool, true, false, not, ◌&&◌, ◌||◌, Option, none, some, List, if◌then◌else◌, get_or,
}
use database_engine.Util.Status.{Result, ok, err, Code, invalid_argument, ◌>>=◌}
use database_engine.Common.Value.{Value, null, int, bigint, double, bool, varchar, is_null}
use database_engine.Common.Schema.{Schema, index_of}
use database_engine.Parser.Ast.{
  BinaryOp, op_eq, op_neq, op_lt, op_lte, op_gt, op_gte, op_and, op_or, Expr, column_ref, literal,
  binary,
}
use database_engine.Executor.Compare.{
  Sign, negative, nought, positive, compare_ordered, values_equal, is_negative, flip,
}

-- `std::holds_alternative<bool>` and `std::get<bool>`.
unfoldable pub truth : Value → Result Bool
truth (bool b) = ok b
truth _ = err invalid_argument

-- The end of the branch for `AND` and `OR`: the right operand is looked at only if the left one does
-- not decide.
unfoldable pub after_and : Bool → Result Value → Result Value
unfolding truth
after_and false right = ok (bool false)
after_and true right = do v ← right; b ← truth v; ok (bool b)

unfoldable pub after_or : Bool → Result Value → Result Value
unfolding truth
after_or true right = ok (bool true)
after_or false right = do v ← right; b ← truth v; ok (bool b)

-- The `switch` on a comparison's operator.
unfoldable pub holds : BinaryOp → Sign → Result Value
unfolding is_negative flip
holds op_lt sign = ok (bool (is_negative sign))
holds op_lte sign = ok (bool (not (is_negative (flip sign))))
holds op_gt sign = ok (bool (is_negative (flip sign)))
holds op_gte sign = ok (bool (not (is_negative sign)))
holds _ sign = err invalid_argument

unfoldable pub ordered : BinaryOp → Value → Value → Result Value
unfolding compare_ordered holds
ordered op left right =
    if is_null left || is_null right
    then ok (bool false)
    else compare_ordered left right >>= λ sign. holds op sign

-- An operator on the results of its operands.
unfoldable pub combine : BinaryOp → Result Value → Result Value → Result Value
unfolding truth after_and after_or values_equal ordered
combine op_and left right = do l ← left; lb ← truth l; after_and lb right
combine op_or left right = do l ← left; lb ← truth l; after_or lb right
combine op_eq left right = do l ← left; r ← right; same ← values_equal l r; ok (bool same)
combine op_neq left right = do l ← left; r ← right; same ← values_equal l r; ok (bool (not same))
combine op left right = do l ← left; r ← right; ordered op l r

unfoldable pub evaluate : Expr → Schema → List Value → Result Value
unfolding combine index_of
evaluate (column_ref column) schema row = elim (index_of schema column) [
  | none ↦ err invalid_argument
  | some i ↦ ok (get_or row i null)
]
evaluate (literal v) schema row = ok v
evaluate (binary left op right) schema row =
    combine op (evaluate left schema row) (evaluate right schema row)

unfoldable pub evaluate_predicate : Option Expr → Schema → List Value → Result Bool
unfolding evaluate truth
evaluate_predicate none schema row = ok true
evaluate_predicate (some expr) schema row = evaluate expr schema row >>= truth

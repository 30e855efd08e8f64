-- ===== src/Parser/Expression/Print.antt =====
-- Expressions of parser/ast.hpp, printed with parentheses.
use database_engine.Base.{ℕ, suc, true, false, List, [], ◌∷◌, ◌++◌}
use database_engine.Common.Value.{Value, null, int, bigint, double, bool, varchar}
use database_engine.Parser.Token.{
  k_and, k_eq, k_false, k_gt, k_gte, k_identifier, k_invalid, k_lparen, k_lt, k_lte, k_neq, k_null,
  k_or, k_rparen, k_string_literal, k_true, Token, token,
}
use database_engine.Parser.Ast.{
  BinaryOp, op_eq, op_neq, op_lt, op_lte, op_gt, op_gte, op_and, op_or, Expr, column_ref, literal,
  binary,
}
use Prim.Native.Nat.{max}

unfoldable pub value_token : Value → Token
value_token null = token k_null []
value_token (bool true) = token k_true []
value_token (bool false) = token k_false []
value_token (varchar text) = token k_string_literal text
value_token (int v) = token k_invalid []
value_token (bigint v) = token k_invalid []
value_token (double v) = token k_invalid []

unfoldable pub op_token : BinaryOp → Token
op_token op_eq = token k_eq []
op_token op_neq = token k_neq []
op_token op_lt = token k_lt []
op_token op_lte = token k_lte []
op_token op_gt = token k_gt []
op_token op_gte = token k_gte []
op_token op_and = token k_and []
op_token op_or = token k_or []

-- Each operation in parentheses.
unfoldable pub print : Expr → List Token
unfolding value_token op_token
print (column_ref name) = token k_identifier name ∷ []
print (literal v) = value_token v ∷ []
print (binary l op r) =
    token k_lparen [] ∷ (print l ++ (op_token op ∷ (print r ++ (token k_rparen [] ∷ []))))

-- Its literals are no numbers.
unfoldable pub Printable : Expr → Type 0
Printable (column_ref name) = Unit {0}
Printable (literal null) = Unit {0}
Printable (literal (bool v)) = Unit {0}
Printable (literal (varchar text)) = Unit {0}
Printable (literal (int v)) = ⊥
Printable (literal (bigint v)) = ⊥
Printable (literal (double v)) = ⊥
Printable (binary l op r) = Printable l × Printable r

unfoldable pub depth : Expr → ℕ
depth (column_ref name) = 0
depth (literal v) = 0
depth (binary l op r) = suc (max (depth l) (depth r))

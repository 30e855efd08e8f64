-- ===== src/Parser/Expression/Chains.antt =====
-- How the chains of parser/parser.cpp read one operation in parentheses.
use database_engine.Base.{
  ℕ, suc, ◌≡◌, refl, ◌∙◌, true, false, Option, none, some, List, [], ◌∷◌, length,
}
use database_engine.Util.Status.{ok}
use database_engine.Parser.Token.{k_and, k_or, k_rparen, TokenType, number, same_type, Token, token}
use database_engine.Parser.Ast.{BinaryOp, op_and, op_or, Expr, binary}
use database_engine.Parser.Stream.{Parsing, >>=-parsed, check}
use database_engine.Parser.Expression.{
  parse_primary, comparison_op, comparison_rest, parse_comparison, chain, parse_and_expr,
  parse_or_from,
}
use database_engine.Parser.Expression.Print.{op_token}

module _ (stod : List ℕ → Option ℕ) where
  pub chain_ends :
      (fuel : ℕ) (t : TokenType) (op : BinaryOp) (operand : Parsing Expr) (left : Expr)
      (ts : List Token)
      → check t ts ≡ false
      → chain stod (suc fuel) t op operand left ts ≡ ok (left, ts)
  unfolding chain
  chain_ends fuel t op operand left ts over = rw (chain, over) refl

  chain_goes_on :
      (fuel : ℕ) (t : TokenType) (op : BinaryOp) (operand : Parsing Expr) (l r : Expr) (u : Token)
      (right rest : List Token)
      → check t (u ∷ right) ≡ true
      → operand right ≡ ok (r, rest)
      → chain stod (suc fuel) t op operand l (u ∷ right)
        ≡ chain stod fuel t op operand (binary l op r) rest
  unfolding chain
  chain_goes_on fuel t op operand l r u right rest more found =
      rw (chain, more) (>>=-parsed operand _ right r rest found)

  -- Two operands and an operator before a closing parenthesis, where `ParsePrimary` reads the operands.
  module _ (inner : Parsing Expr) (l r : Expr) (op : BinaryOp) (left right rest : List Token)
      (hl : parse_primary stod inner left ≡ ok (l, op_token op ∷ right))
      (hr : parse_primary stod inner right ≡ ok (r, token k_rparen [] ∷ rest)) where
    compared :
        comparison_op (op_token op).type ≡ some op
        → parse_comparison stod inner left ≡ ok (binary l op r, token k_rparen [] ∷ rest)
    unfolding parse_comparison comparison_rest
    compared h =
        >>=-parsed (parse_primary stod inner) _ left l (op_token op ∷ right) hl
        ∙ rw h (>>=-parsed (parse_primary stod inner) _ right r (token k_rparen [] ∷ rest) hr)

    left_alone :
        comparison_op (op_token op).type ≡ none
        → parse_comparison stod inner left ≡ ok (l, op_token op ∷ right)
    unfolding parse_comparison comparison_rest
    left_alone h =
        >>=-parsed (parse_primary stod inner) _ left l (op_token op ∷ right) hl ∙ rw h refl

    right_alone : parse_comparison stod inner right ≡ ok (r, token k_rparen [] ∷ rest)
    unfolding parse_comparison comparison_rest comparison_op
    right_alone = >>=-parsed (parse_primary stod inner) _ right r (token k_rparen [] ∷ rest) hr

    -- The closing parenthesis ends the chains of `AND` and `OR`.
    no_and : check k_and (token k_rparen [] ∷ rest) ≡ false
    unfolding check same_type number
    no_and = refl

    no_or : check k_or (token k_rparen [] ∷ rest) ≡ false
    unfolding check same_type number
    no_or = refl

    and_right : parse_and_expr stod inner right ≡ ok (r, token k_rparen [] ∷ rest)
    unfolding parse_and_expr
    and_right =
        >>=-parsed (parse_comparison stod inner) _ right r (token k_rparen [] ∷ rest) right_alone
        ∙ chain_ends (suc (length rest)) k_and op_and (parse_comparison stod inner) r
            (token k_rparen [] ∷ rest) no_and

    pub and_compared :
        comparison_op (op_token op).type ≡ some op
        → parse_and_expr stod inner left ≡ ok (binary l op r, token k_rparen [] ∷ rest)
    unfolding parse_and_expr
    and_compared h =
        >>=-parsed (parse_comparison stod inner) _ left (binary l op r) (token k_rparen [] ∷ rest)
          (compared h)
        ∙ chain_ends (suc (length rest)) k_and op_and (parse_comparison stod inner) (binary l op r)
            (token k_rparen [] ∷ rest) no_and

    and_left :
        comparison_op (op_token op).type ≡ none
        → check k_and (op_token op ∷ right) ≡ false
        → parse_and_expr stod inner left ≡ ok (l, op_token op ∷ right)
    unfolding parse_and_expr
    and_left h over =
        >>=-parsed (parse_comparison stod inner) _ left l (op_token op ∷ right) (left_alone h)
        ∙ chain_ends (suc (length right)) k_and op_and (parse_comparison stod inner) l
            (op_token op ∷ right) over

    pub and_both :
        comparison_op (op_token op).type ≡ none
        → check k_and (op_token op ∷ right) ≡ true
        → parse_and_expr stod inner left ≡ ok (binary l op_and r, token k_rparen [] ∷ rest)
    unfolding parse_and_expr
    and_both h more =
        >>=-parsed (parse_comparison stod inner) _ left l (op_token op ∷ right) (left_alone h)
        ∙ chain_goes_on (suc (length right)) k_and op_and (parse_comparison stod inner) l r
            (op_token op) right (token k_rparen [] ∷ rest) more right_alone
        ∙ chain_ends (length right) k_and op_and (parse_comparison stod inner) (binary l op_and r)
            (token k_rparen [] ∷ rest) no_and

  module _ (fuel : ℕ) (l r : Expr) (op : BinaryOp) (left right rest : List Token)
      (hl : parse_primary stod (parse_or_from stod fuel) left ≡ ok (l, op_token op ∷ right))
      (hr : parse_primary stod (parse_or_from stod fuel) right
        ≡ ok (r, token k_rparen [] ∷ rest)) where
    pub or_ends :
        parse_and_expr stod (parse_or_from stod fuel) left
          ≡ ok (binary l op r, token k_rparen [] ∷ rest)
        → parse_or_from stod (suc fuel) left ≡ ok (binary l op r, token k_rparen [] ∷ rest)
    unfolding parse_or_from
    or_ends found =
        >>=-parsed (parse_and_expr stod (parse_or_from stod fuel)) _ left (binary l op r)
          (token k_rparen [] ∷ rest) found
        ∙ chain_ends (suc (length rest)) k_or op_or (parse_and_expr stod (parse_or_from stod fuel))
            (binary l op r) (token k_rparen [] ∷ rest)
            (no_or (parse_or_from stod fuel) l r op left right rest hl hr)

    pub or_both :
        comparison_op (op_token op).type ≡ none
        → check k_and (op_token op ∷ right) ≡ false
        → check k_or (op_token op ∷ right) ≡ true
        → parse_or_from stod (suc fuel) left ≡ ok (binary l op_or r, token k_rparen [] ∷ rest)
    unfolding parse_or_from
    or_both h over more =
        >>=-parsed (parse_and_expr stod (parse_or_from stod fuel)) _ left l (op_token op ∷ right)
          (and_left (parse_or_from stod fuel) l r op left right rest hl hr h over)
        ∙ chain_goes_on (suc (length right)) k_or op_or
            (parse_and_expr stod (parse_or_from stod fuel)) l r (op_token op) right
            (token k_rparen [] ∷ rest) more
            (and_right (parse_or_from stod fuel) l r op left right rest hl hr)
        ∙ chain_ends (length right) k_or op_or (parse_and_expr stod (parse_or_from stod fuel))
            (binary l op_or r) (token k_rparen [] ∷ rest)
            (no_or (parse_or_from stod fuel) l r op left right rest hl hr)

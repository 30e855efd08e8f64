-- ===== src/Parser/Expression/RoundTrip.antt =====
-- Expressions of parser/parser.cpp, printed with parentheses and parsed.
use database_engine.Base.{
  ℕ, zero, suc, ◌≤◌, ◌≡◌, refl, ap, ◌∙◌, true, false, Option, none, List, [], ◌∷◌, ◌++◌,
  append_assoc, arith, length, length-append,
}
use database_engine.Util.Status.{ok}
use database_engine.Common.Value.{Value, null, int, bigint, double, bool, varchar}
use database_engine.Parser.Token.{k_and, k_lparen, k_or, k_rparen, number, same_type, Token, token}
use database_engine.Parser.Ast.{
  BinaryOp, op_eq, op_neq, op_lt, op_lte, op_gt, op_gte, op_and, op_or, Expr, column_ref, literal,
  binary,
}
use database_engine.Parser.Stream.{Parsing, >>=-parsed, type_of, check, expect}
use database_engine.Parser.Literal.{parse_literal, literal_of}
use database_engine.Parser.Expression.{
  parse_primary, comparison_op, comparison_rest, parse_comparison, parse_and_expr, parse_or_from,
  parse_or_expr,
}
use database_engine.Parser.Expression.Print.{value_token, op_token, print, Printable, depth}
use database_engine.Parser.Expression.Chains.{chain_ends, and_compared, and_both, or_ends, or_both}

module _ (stod : List ℕ → Option ℕ) where
  operation :
      (op : BinaryOp) (fuel : ℕ) (l r : Expr) (left right rest : List Token)
      → parse_primary stod (parse_or_from stod fuel) left ≡ ok (l, op_token op ∷ right)
      → parse_primary stod (parse_or_from stod fuel) right ≡ ok (r, token k_rparen [] ∷ rest)
      → parse_or_from stod (suc fuel) left ≡ ok (binary l op r, token k_rparen [] ∷ rest)
  unfolding op_token comparison_op check same_type number
  operation op_eq fuel l r left right rest hl hr =
      or_ends stod fuel l r op_eq left right rest hl hr
        (and_compared stod (parse_or_from stod fuel) l r op_eq left right rest hl hr refl)
  operation op_neq fuel l r left right rest hl hr =
      or_ends stod fuel l r op_neq left right rest hl hr
        (and_compared stod (parse_or_from stod fuel) l r op_neq left right rest hl hr refl)
  operation op_lt fuel l r left right rest hl hr =
      or_ends stod fuel l r op_lt left right rest hl hr
        (and_compared stod (parse_or_from stod fuel) l r op_lt left right rest hl hr refl)
  operation op_lte fuel l r left right rest hl hr =
      or_ends stod fuel l r op_lte left right rest hl hr
        (and_compared stod (parse_or_from stod fuel) l r op_lte left right rest hl hr refl)
  operation op_gt fuel l r left right rest hl hr =
      or_ends stod fuel l r op_gt left right rest hl hr
        (and_compared stod (parse_or_from stod fuel) l r op_gt left right rest hl hr refl)
  operation op_gte fuel l r left right rest hl hr =
      or_ends stod fuel l r op_gte left right rest hl hr
        (and_compared stod (parse_or_from stod fuel) l r op_gte left right rest hl hr refl)
  operation op_and fuel l r left right rest hl hr =
      or_ends stod fuel l r op_and left right rest hl hr
        (and_both stod (parse_or_from stod fuel) l r op_and left right rest hl hr refl refl)
  operation op_or fuel l r left right rest hl hr =
      or_both stod fuel l r op_or left right rest hl hr refl refl refl

  group :
      (inner : Parsing Expr) (e : Expr) (ts rest : List Token)
      → inner ts ≡ ok (e, token k_rparen [] ∷ rest)
      → parse_primary stod inner (token k_lparen [] ∷ ts) ≡ ok (e, rest)
  unfolding parse_primary check same_type number expect
  group inner e ts rest found = >>=-parsed inner _ ts e (token k_rparen [] ∷ rest) found

  printed_shape :
      (l r : Expr) (op : BinaryOp) (rest : List Token)
      → print (binary l op r) ++ rest
        ≡ token k_lparen [] ∷ (print l ++ (op_token op ∷ (print r ++ (token k_rparen [] ∷ rest))))
  unfolding print
  printed_shape l r op rest =
      ap (λ ts. token k_lparen [] ∷ ts)
        (append_assoc (print l) (op_token op ∷ (print r ++ (token k_rparen [] ∷ []))) rest
          ∙ ap (λ ts. print l ++ (op_token op ∷ ts))
              (append_assoc (print r) (token k_rparen [] ∷ []) rest))

  parse_value :
      (inner : Parsing Expr) (v : Value) (rest : List Token)
      → Printable (literal v)
      → parse_primary stod inner (value_token v ∷ rest) ≡ ok (literal v, rest)
  unfolding parse_primary check same_type number value_token parse_literal literal_of Printable
  parse_value inner null rest p = refl
  parse_value inner (bool true) rest p = refl
  parse_value inner (bool false) rest p = refl
  parse_value inner (varchar text) rest p = refl
  parse_value inner (int v) rest p = absurd p
  parse_value inner (bigint v) rest p = absurd p
  parse_value inner (double v) rest p = absurd p

  pub parse_primary-print :
      (e : Expr) (fuel : ℕ) (rest : List Token)
      → depth e ≤ fuel
      → Printable e
      → parse_primary stod (parse_or_from stod fuel) (print e ++ rest) ≡ ok (e, rest)
  unfolding depth Printable
  parse_primary-print (column_ref name) fuel rest d p =
      unfold parse_primary check same_type number print in refl
  parse_primary-print (literal v) fuel rest d p =
      unfold print in parse_value (parse_or_from stod fuel) v rest p
  parse_primary-print (binary l op r) zero rest d p = absurd (omega arith)
  parse_primary-print (binary l op r) (suc fuel) rest d p =
      let right = print r ++ (token k_rparen [] ∷ rest) in
      rw (printed_shape l r op rest) (
        group (parse_or_from stod (suc fuel)) (binary l op r) (print l ++ (op_token op ∷ right))
          rest
          (operation op fuel l r (print l ++ (op_token op ∷ right)) right rest
            (parse_primary-print l fuel (op_token op ∷ right) (omega arith) p.0)
            (parse_primary-print r fuel (token k_rparen [] ∷ rest) (omega arith) p.1)))

  depth-print : (e : Expr) → depth e ≤ length (print e)
  unfolding depth print
  depth-print (column_ref name) = omega arith
  depth-print (literal v) = omega arith
  depth-print (binary l op r) = omega (
    arith,
    depth-print l,
    depth-print r,
    length-append (print l) (op_token op ∷ (print r ++ (token k_rparen [] ∷ []))),
    length-append (print r) (token k_rparen [] ∷ []),
  )

  -- `ParseOrExpr` reads a printed expression back, whatever follows it but an operator, `AND` or `OR`.
  -- The literals of the expression are nulls, truth values and texts.
  pub parse_or_expr-print :
      (e : Expr) (rest : List Token)
      → Printable e
      → comparison_op (type_of rest) ≡ none
      → check k_and rest ≡ false
      → check k_or rest ≡ false
      → parse_or_expr stod (print e ++ rest) ≡ ok (e, rest)
  unfolding parse_or_expr parse_or_from parse_and_expr parse_comparison comparison_rest
  parse_or_expr-print e rest p no_op no_and no_or =
      let fuel = length (print e ++ rest) in
      let deep : depth e ≤ fuel = omega (arith, depth-print e, length-append (print e) rest) in
      let inner = parse_or_from stod fuel in
      let found = parse_primary-print e fuel rest deep p in
      let compared : parse_comparison stod inner (print e ++ rest) ≡ ok (e, rest) =
        >>=-parsed (parse_primary stod inner) _ (print e ++ rest) e rest found ∙ rw no_op refl in
      let anded : parse_and_expr stod inner (print e ++ rest) ≡ ok (e, rest) =
        >>=-parsed (parse_comparison stod inner) _ (print e ++ rest) e rest compared
        ∙ chain_ends stod (length rest) k_and op_and (parse_comparison stod inner) e rest no_and in
      >>=-parsed (parse_and_expr stod inner) _ (print e ++ rest) e rest anded
      ∙ chain_ends stod (length rest) k_or op_or (parse_and_expr stod inner) e rest no_or

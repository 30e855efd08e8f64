-- ===== src/Parser/Expression.antt =====
-- The expressions of parser/parser.cpp: `ParsePrimary`, `ParseComparison`, `ParseAndExpr`, `ParseOrExpr` and
-- `ParseWhereClause`. A parenthesis within a parenthesis takes one of the fuel, the number of tokens.
pub mod Print
pub mod Chains
pub mod RoundTrip
use database_engine.Base.{
  ℕ, zero, suc, ◌+◌, ◌-◌, ◌*◌, ◌/◌, ◌%◌, ◌^◌, ◌≤◌, ◌<◌, ◌≡◌, refl, sym, ap, ◌∙◌, fun_ext, subst,
  ◌≢◌, ◌↔◌, ◌⊎◌, inl, inr, Bool, true, false, not, ◌&&◌, ◌||◌, Option, none, some, List, [], ◌∷◌,
  ◌++◌, map, append_assoc, append-nil, arith, ltb, leb, ◌==◌, if◌then◌else◌, ltb→lt, lt→ltb, le→ltb,
  leb→le, ==_iff, Bool-cases, Option-cases, lt-or-le, length, get_elem?, set, get_or, take, drop,
  replicate, All, length-append, length-replicate, take_append, drop_append, length-take,
  length-drop, length-set, get_elem?-set_self, get_elem?-set_ne,
}
use database_engine.Util.Status.{Result, ok, err, invalid_argument, corruption}
use database_engine.Common.Value.{Value}
use database_engine.Parser.Token.{
  k_and, k_as, k_asc, k_avg, k_bigint, k_boolean, k_by, k_comma, k_count, k_create, k_delete,
  k_desc, k_dot, k_double, k_drop, k_end_of_input, k_eq, k_false, k_float_literal, k_from, k_gt,
  k_gte, k_identifier, k_index, k_insert, k_int, k_int_literal, k_into, k_invalid, k_limit,
  k_lparen, k_lt, k_lte, k_max, k_min, k_neq, k_not, k_null, k_on, k_or, k_order, k_rparen,
  k_select, k_semicolon, k_set, k_star, k_string_literal, k_sum, k_table, k_true, k_update,
  k_values, k_varchar, k_where, TokenType, number, same_type, Token, token,
}
use database_engine.Parser.Ast.{
  BinaryOp, op_eq, op_neq, op_lt, op_lte, op_gt, op_gte, op_and, op_or, Expr, column_ref, literal,
  binary,
}
use database_engine.Parser.Stream.{
  Parsing, ◌>>=◌, ◌>>◌, parsed, refused, type_of, check, match_token, advance, expect, lexeme,
}
use database_engine.Parser.Literal.{parse_literal}

unfoldable pub comparison_op : TokenType → Option BinaryOp
comparison_op k_eq = some op_eq
comparison_op k_neq = some op_neq
comparison_op k_lt = some op_lt
comparison_op k_lte = some op_lte
comparison_op k_gt = some op_gt
comparison_op k_gte = some op_gte
comparison_op _ = none

module _ (stod : List ℕ → Option ℕ) where
  -- `inner` is `ParseOrExpr`.
  unfoldable pub parse_primary : Parsing Expr → Parsing Expr
  unfolding match_token check expect
  parse_primary inner ts = elim (check k_lparen ts) [
    | true ↦ (advance >>= λ _. inner >>= λ e. expect k_rparen >> parsed e) ts
    | false ↦ elim (check k_identifier ts) [
      | true ↦ (advance >>= λ name. parsed (column_ref name)) ts
      | false ↦ (parse_literal stod >>= λ v. parsed (literal v)) ts
    ]
  ]

  -- The rest of `ParseComparison`, with the operator that was found.
  unfoldable pub comparison_rest : Parsing Expr → Expr → Option BinaryOp → Parsing Expr
  unfolding parse_primary
  comparison_rest inner left none = parsed left
  comparison_rest inner left (some op) =
      advance >>= λ _. parse_primary inner >>= λ right. parsed (binary left op right)

  unfoldable pub parse_comparison : Parsing Expr → Parsing Expr
  unfolding parse_primary comparison_rest comparison_op
  parse_comparison inner =
      parse_primary inner >>= λ left ts. comparison_rest inner left (comparison_op (type_of ts)) ts

  -- `while (Match(t)) { ... }` over what `operand` parses. A turn takes a token, so the number of the
  -- tokens is enough fuel.
  unfoldable pub chain : ℕ → TokenType → BinaryOp → Parsing Expr → Expr → Parsing Expr
  unfolding match_token
  chain zero t op operand left ts = err corruption
  chain (suc fuel) t op operand left ts = elim (check t ts) [
    | false ↦ ok (left, ts)
    | true ↦ (operand >>= λ right. chain fuel t op operand (binary left op right)) (drop 1 ts)
  ]

  unfoldable pub parse_and_expr : Parsing Expr → Parsing Expr
  unfolding parse_comparison chain
  parse_and_expr inner = parse_comparison inner >>= λ left ts.
      chain (suc (length ts)) k_and op_and (parse_comparison inner) left ts

  unfoldable pub parse_or_from : ℕ → Parsing Expr
  unfolding parse_and_expr chain
  parse_or_from zero ts = err corruption
  parse_or_from (suc fuel) ts =
      let operand = parse_and_expr (parse_or_from fuel) in
      (operand >>= λ left rest. chain (suc (length rest)) k_or op_or operand left rest) ts

  unfoldable pub parse_or_expr : Parsing Expr
  unfolding parse_or_from
  parse_or_expr ts = parse_or_from (suc (length ts)) ts

  -- `if (Check(kWhere)) ...`, with `ParseWhereClause`.
  unfoldable pub parse_where : Parsing (Option Expr)
  unfolding check expect parse_or_expr
  parse_where ts =
      if check k_where ts
      then (expect k_where >> parse_or_expr >>= λ e. parsed (some e)) ts
      else ok (none, ts)

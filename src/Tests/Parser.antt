-- ===== src/Tests/Parser.antt =====
-- parser/: a statement, a text with a quote and an expression.
use database_engine.Base.{
  ℕ, ◌<◌, ◌⊎◌, length, ◌≡◌, refl, true, false, Option, none, some, List, [], ◌∷◌, ◌++◌, arith,
}
use database_engine.Util.Status.{ok, err, invalid_argument}
use database_engine.Common.Value.{bool, varchar, bigint}
use database_engine.Parser.Token.{
  k_and, k_or, k_semicolon, k_string_literal, number, same_type, Token, token,
}
use database_engine.Parser.Tokenizer.{
  scan_string, skip_whitespace_and_comments, scan_identifier_or_keyword,
  scan_operator_or_punctuation, scan_number, tokenize_from, tokenize_all,
}
use database_engine.Parser.Tokenizer.Progress.{tokenize_all_lem}
use database_engine.Parser.Tokenizer.Quotes.{quoted, scan_string-quoted}
use database_engine.Parser.Ast.{
  op_gte, op_and, op_or, op_eq, Expr, column_ref, literal, binary, select_stmt, Statement,
}
use database_engine.Parser.Stream.{type_of, check}
use database_engine.Parser.Expression.{parse_or_expr, comparison_op}
use database_engine.Parser.Expression.Print.{print, Printable}
use database_engine.Parser.Expression.RoundTrip.{parse_or_expr-print}
use database_engine.Parser.Selection.{star_item}
use database_engine.Parser.Statement.{parse_sql}

-- No decimal number is read as a double.
abbrev no_doubles : List ℕ → Option ℕ
no_doubles digits = none

-- `select * from t where a >= 10 or b`
abbrev sql : List ℕ
sql =
    115 ∷ 101 ∷ 108 ∷ 101 ∷ 99 ∷ 116 ∷ 32 ∷ 42 ∷ 32 ∷ 102 ∷ 114 ∷ 111 ∷ 109 ∷ 32 ∷ 116 ∷ 32 ∷ 119
    ∷ 104 ∷ 101 ∷ 114 ∷ 101 ∷ 32 ∷ 97 ∷ 32 ∷ 62 ∷ 61 ∷ 32 ∷ 49 ∷ 48 ∷ 32 ∷ 111 ∷ 114 ∷ 32 ∷ 98 ∷ []

abbrev expected : Statement
expected =
    select_stmt (star_item ∷ []) (116 ∷ [])
      (some (
        binary (binary (column_ref (97 ∷ [])) op_gte (literal (bigint 10))) op_or
          (column_ref (98 ∷ []))))
      none none

selected : parse_sql no_doubles sql ≡ ok expected
unfolding parse_sql skip_whitespace_and_comments scan_identifier_or_keyword
    scan_operator_or_punctuation scan_number
selected = refl

scan_string-quoted_example :
    scan_string (39 ∷ (quoted (105 ∷ 116 ∷ 39 ∷ 115 ∷ []) ++ (39 ∷ 41 ∷ [])))
    ≡ ok (token k_string_literal (105 ∷ 116 ∷ 39 ∷ 115 ∷ []), 41 ∷ [])
scan_string-quoted_example =
    scan_string-quoted (105 ∷ 116 ∷ 39 ∷ 115 ∷ []) (41 ∷ []) (λ e. omega (arith, e))

abbrev expression : Expr
expression =
    binary (binary (column_ref (97 ∷ [])) op_eq (literal (varchar (120 ∷ [])))) op_and
      (literal (bool true))

expression-Printable : Printable expression
unfolding Printable
expression-Printable = ((tt, tt), tt)

abbrev semicolon : List Token
semicolon = token k_semicolon (59 ∷ []) ∷ []

no_operator : comparison_op (type_of semicolon) ≡ none
unfolding comparison_op
no_operator = refl

no_and_next : check k_and semicolon ≡ false
unfolding check same_type number
no_and_next = refl

no_or_next : check k_or semicolon ≡ false
unfolding check same_type number
no_or_next = refl

parse_or_expr-print_example :
    parse_or_expr no_doubles (print expression ++ semicolon) ≡ ok (expression, semicolon)
parse_or_expr-print_example =
    parse_or_expr-print no_doubles expression semicolon expression-Printable no_operator no_and_next
      no_or_next

tokenize_all_lem_example :
    ((tokenize_all sql ≡ err invalid_argument)
      ⊎ ((tokens : List Token) × (tokenize_all sql ≡ ok tokens)))
    × ((fuel : ℕ) → length sql < fuel → tokenize_from fuel sql ≡ tokenize_all sql)
tokenize_all_lem_example = tokenize_all_lem sql

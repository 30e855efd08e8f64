-- ===== src/Parser/Statement.antt =====
-- The statements of parser/parser.cpp. The text of a refusal is left out.
use database_engine.Base.{ℕ, true, false, Option, List, [], if◌then◌else◌, drop}
use database_engine.Util.Status.{Result, ok, err, invalid_argument}
use database_engine.Common.Value.{Value}
use database_engine.Parser.Token.{
  k_create, k_delete, k_drop, k_end_of_input, k_eq, k_from, k_identifier, k_index, k_insert, k_into,
  k_lparen, k_rparen, k_select, k_semicolon, k_set, k_table, k_update, k_values, TokenType,
}
use database_engine.Parser.Ast.{Statement, insert_stmt, update_stmt, delete_stmt, select_stmt}
use database_engine.Parser.Stream.{
  Parsing, ◌>>=◌, ◌>>◌, parsed, type_of, check, match_token, expect, lexeme, comma_list,
}
use database_engine.Parser.Literal.{parse_literal}
use database_engine.Parser.Expression.{parse_where}
use database_engine.Parser.Tokenizer.{tokenize_all}
use database_engine.Parser.Tables.{
  parse_create_table, parse_drop_table, parse_create_index, parse_drop_index,
}
use database_engine.Parser.Selection.{parse_select_list, parse_order_by, parse_limit}

-- The list of columns of an `INSERT`, if it is there.
unfoldable pub parse_insert_columns : Parsing (List (List ℕ))
unfolding match_token comma_list lexeme expect
parse_insert_columns = match_token k_lparen >>= λ given. elim given [
  | false ↦ parsed []
  | true ↦ do columns ← comma_list (lexeme k_identifier); expect k_rparen; parsed columns
]

module _ (stod : List ℕ → Option ℕ) where
  unfoldable pub parse_row : Parsing (List Value)
  unfolding expect comma_list parse_literal
  parse_row = do expect k_lparen; row ← comma_list (parse_literal stod); expect k_rparen; parsed row

  unfoldable pub parse_insert : Parsing Statement
  unfolding expect lexeme parse_insert_columns comma_list parse_row
  parse_insert = do
    expect k_into
    table_name ← lexeme k_identifier
    columns ← parse_insert_columns
    expect k_values
    rows ← comma_list parse_row
    parsed (insert_stmt table_name columns rows)

  unfoldable pub parse_assignment : Parsing (List ℕ × Value)
  unfolding expect lexeme parse_literal
  parse_assignment = do
    column ← lexeme k_identifier
    expect k_eq
    value ← parse_literal stod
    parsed (column, value)

  unfoldable pub parse_update : Parsing Statement
  unfolding expect lexeme comma_list parse_assignment parse_where
  parse_update = do
    table_name ← lexeme k_identifier
    expect k_set
    assignments ← comma_list parse_assignment
    condition ← parse_where stod
    parsed (update_stmt table_name assignments condition)

  unfoldable pub parse_delete : Parsing Statement
  unfolding expect lexeme parse_where
  parse_delete = do
    expect k_from
    table_name ← lexeme k_identifier
    condition ← parse_where stod
    parsed (delete_stmt table_name condition)

  unfoldable pub parse_select : Parsing Statement
  unfolding parse_select_list expect lexeme parse_where parse_order_by parse_limit
  parse_select = do
    items ← parse_select_list
    expect k_from
    table_name ← lexeme k_identifier
    condition ← parse_where stod
    order_by ← parse_order_by
    limit ← parse_limit
    parsed (select_stmt items table_name condition order_by limit)

  -- The statement that begins with the token that was taken.
  unfoldable pub statement_of : TokenType → Parsing Statement
  unfolding parse_select parse_insert parse_update parse_delete check parse_create_table
      parse_create_index parse_drop_table parse_drop_index
  statement_of k_select ts = parse_select ts
  statement_of k_insert ts = parse_insert ts
  statement_of k_update ts = parse_update ts
  statement_of k_delete ts = parse_delete ts
  statement_of k_create ts =
      if check k_table ts
      then parse_create_table ts
      else if check k_index ts
      then parse_create_index ts
      else err invalid_argument
  statement_of k_drop ts =
      if check k_table ts
      then parse_drop_table ts
      else if check k_index ts
      then parse_drop_index ts
      else err invalid_argument
  statement_of _ ts = err invalid_argument

  -- A semicolon, if it is there, and the end.
  unfoldable pub parse_end : Parsing (Unit {0})
  unfolding match_token check
  parse_end = match_token k_semicolon >>= λ semicolon ts.
      if check k_end_of_input ts then ok (tt, ts) else err invalid_argument

  unfoldable pub parse_statement : Parsing Statement
  unfolding statement_of parse_end
  parse_statement ts =
      (statement_of (type_of ts) >>= λ statement. parse_end >> parsed statement) (drop 1 ts)

  unfoldable pub parse_sql : List ℕ → Result Statement
  unfolding tokenize_all parse_statement
  parse_sql sql = elim (tokenize_all sql) [
    | err code ↦ err code
    | ok tokens ↦ elim (parse_statement tokens) [ err code ↦ err code | ok found ↦ ok found.0 ]
  ]

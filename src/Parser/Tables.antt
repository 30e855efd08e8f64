-- ===== src/Parser/Tables.antt =====
-- The statements of parser/parser.cpp that create and drop tables and indexes.
use database_engine.Base.{ℕ, ◌%◌, ◌^◌, Bool, true, false, drop}
use database_engine.Common.Value.{
  ColumnType, int_type, bigint_type, double_type, bool_type, varchar_type,
}
use database_engine.Common.Schema.{Column}
use database_engine.Parser.Token.{
  k_bigint, k_boolean, k_double, k_identifier, k_index, k_int, k_int_literal, k_lparen, k_not,
  k_null, k_on, k_rparen, k_table, k_varchar, TokenType,
}
use database_engine.Parser.Ast.{
  Statement, create_table_stmt, drop_table_stmt, create_index_stmt, drop_index_stmt,
}
use database_engine.Parser.Stream.{
  Parsing, ◌>>=◌, ◌>>◌, parsed, refused, type_of, match_token, expect, lexeme, comma_list,
}
use database_engine.Parser.Literal.{stoul, number_or_refused}

-- The length in `VARCHAR(n)`, or 255.
unfoldable pub parse_length : Parsing ℕ
unfolding match_token lexeme expect stoul
parse_length = match_token k_lparen >>= λ given. elim given [
  | false ↦ parsed 255
  | true ↦ do
    digits ← lexeme k_int_literal
    max_length ← number_or_refused (λ n. n % 2 ^ 16) (stoul digits)
    expect k_rparen
    parsed max_length
]

-- The type of a column and its length, by the type of the token that was taken.
unfoldable pub column_type : TokenType → Parsing (ColumnType × ℕ)
unfolding parse_length
column_type k_int = parsed (int_type, 255)
column_type k_bigint = parsed (bigint_type, 255)
column_type k_double = parsed (double_type, 255)
column_type k_boolean = parsed (bool_type, 255)
column_type k_varchar = parse_length >>= λ n. parsed (varchar_type, n)
column_type _ = refused

-- The `switch` of `ParseColumnDef`.
unfoldable pub parse_column_type : Parsing (ColumnType × ℕ)
unfolding column_type
parse_column_type ts = column_type (type_of ts) (drop 1 ts)

-- `NOT NULL`, if it is there: whether the column takes nulls.
unfoldable pub parse_nullable : Parsing Bool
unfolding match_token expect
parse_nullable = match_token k_not >>= λ given. elim given [
  | false ↦ parsed true
  | true ↦ (expect k_null >> parsed false)
]

unfoldable pub parse_column_def : Parsing Column
unfolding lexeme parse_column_type parse_nullable
parse_column_def = do
  name ← lexeme k_identifier
  kind ← parse_column_type
  nullable ← parse_nullable
  parsed (record { name = name; type = kind.0; nullable = nullable; max_length = kind.1 })

unfoldable pub parse_create_table : Parsing Statement
unfolding expect lexeme comma_list parse_column_def
parse_create_table = do
  expect k_table
  table_name ← lexeme k_identifier
  expect k_lparen
  columns ← comma_list parse_column_def
  expect k_rparen
  parsed (create_table_stmt table_name columns)

unfoldable pub parse_drop_table : Parsing Statement
unfolding expect lexeme
parse_drop_table = do
  expect k_table
  table_name ← lexeme k_identifier
  parsed (drop_table_stmt table_name)

unfoldable pub parse_create_index : Parsing Statement
unfolding expect lexeme
parse_create_index = do
  expect k_index
  index_name ← lexeme k_identifier
  expect k_on
  table_name ← lexeme k_identifier
  expect k_lparen
  column_name ← lexeme k_identifier
  expect k_rparen
  parsed (create_index_stmt index_name table_name column_name)

unfoldable pub parse_drop_index : Parsing Statement
unfolding expect lexeme
parse_drop_index = do
  expect k_index
  index_name ← lexeme k_identifier
  parsed (drop_index_stmt index_name)

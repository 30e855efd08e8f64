-- ===== src/Parser/Selection.antt =====
-- The parts of a `SELECT` of parser/parser.cpp.
use database_engine.Base.{ℕ, Bool, true, false, Option, none, some, List, [], ◌∷◌, if◌then◌else◌}
use database_engine.Parser.Token.{
  k_as, k_asc, k_avg, k_by, k_count, k_desc, k_identifier, k_int_literal, k_limit, k_lparen, k_max,
  k_min, k_order, k_rparen, k_star, k_sum, TokenType,
}
use database_engine.Parser.Ast.{
  AggregateFunc, agg_count, agg_sum, agg_avg, agg_min, agg_max, SelectItem, OrderByClause,
}
use database_engine.Parser.Stream.{
  Parsing, ◌>>=◌, ◌>>◌, parsed, refused, type_of, match_token, advance, expect, lexeme, comma_list,
}
use database_engine.Parser.Literal.{stoll, number_or_refused}

unfoldable pub aggregate_for_token : TokenType → Option AggregateFunc
aggregate_for_token k_count = some agg_count
aggregate_for_token k_sum = some agg_sum
aggregate_for_token k_avg = some agg_avg
aggregate_for_token k_min = some agg_min
aggregate_for_token k_max = some agg_max
aggregate_for_token _ = none

abbrev pub is_count : AggregateFunc → Bool
is_count agg_count = true
is_count _ = false

-- `AS` and a name, if they are there.
unfoldable pub parse_alias : Parsing (Option (List ℕ))
unfolding match_token lexeme
parse_alias = match_token k_as >>= λ given. elim given [
  | false ↦ parsed none
  | true ↦ (lexeme k_identifier >>= λ alias. parsed (some alias))
]

-- What stands in the parentheses of an aggregate: the column, or nothing for a star.
unfoldable pub parse_aggregate_column : AggregateFunc → Parsing (Option (List ℕ))
unfolding match_token lexeme
parse_aggregate_column agg = match_token k_star >>= λ star. elim star [
  | true ↦ if is_count agg then parsed none else refused
  | false ↦ (lexeme k_identifier >>= λ column. parsed (some column))
]

abbrev pub is_none : {A : Type 0} → Option A → Bool
is_none none = true
is_none (some a) = false

unfoldable pub select_item : Option AggregateFunc → Parsing SelectItem
unfolding expect parse_aggregate_column parse_alias lexeme
select_item (some agg) = do
  advance
  expect k_lparen
  column ← parse_aggregate_column agg
  expect k_rparen
  alias ← parse_alias
  parsed (record {
    is_star = false;
    column = column;
    aggregate = some agg;
    aggregate_star = is_none column;
    alias = alias;
  })
select_item none = do
  column ← lexeme k_identifier
  alias ← parse_alias
  parsed (record {
    is_star = false;
    column = some column;
    aggregate = none;
    aggregate_star = false;
    alias = alias;
  })

unfoldable pub parse_select_item : Parsing SelectItem
unfolding select_item aggregate_for_token
parse_select_item ts = select_item (aggregate_for_token (type_of ts)) ts

abbrev pub star_item : SelectItem
star_item = record {
  is_star = true;
  column = none;
  aggregate = none;
  aggregate_star = false;
  alias = none;
}

-- A star, or a list of items.
unfoldable pub parse_select_list : Parsing (List SelectItem)
unfolding match_token comma_list parse_select_item
parse_select_list = match_token k_star >>= λ star. elim star [
  | true ↦ parsed (star_item ∷ [])
  | false ↦ comma_list parse_select_item
]

-- `DESC`, or `ASC` or nothing.
unfoldable pub parse_direction : Parsing Bool
unfolding match_token
parse_direction = match_token k_desc >>= λ desc. elim desc [
  | true ↦ parsed true
  | false ↦ (match_token k_asc >>= λ asc. parsed false)
]

unfoldable pub parse_order_by : Parsing (Option OrderByClause)
unfolding match_token expect lexeme parse_direction
parse_order_by = match_token k_order >>= λ given. elim given [
  | false ↦ parsed none
  | true ↦ do
    expect k_by
    column ← lexeme k_identifier
    descending ← parse_direction
    parsed (some (record { column = column; descending = descending }))
]

unfoldable pub parse_limit : Parsing (Option ℕ)
unfolding match_token lexeme stoll
parse_limit = match_token k_limit >>= λ given. elim given [
  | false ↦ parsed none
  | true ↦ do digits ← lexeme k_int_literal; number_or_refused some (stoll digits)
]

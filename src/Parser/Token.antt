-- ===== src/Parser/Token.antt =====
-- parser/token.hpp. The position of a token is left out: it stands in messages alone.
use database_engine.Base.{ℕ, Bool, List, ◌==◌}

pub data TokenType : Type 0 where
  k_identifier k_int_literal k_float_literal k_string_literal k_select k_from k_where : TokenType
  k_insert k_into k_values k_update k_set k_delete k_create k_table k_drop k_order k_by k_asc :
      TokenType
  k_desc k_limit k_and k_or k_not k_null k_true k_false k_as k_index k_on k_int k_bigint : TokenType
  k_double k_boolean k_varchar k_count k_sum k_avg k_min k_max k_star k_comma k_lparen : TokenType
  k_rparen k_semicolon k_dot k_eq k_neq k_lt k_lte k_gt k_gte k_end_of_input k_invalid : TokenType

-- The enumerator's number.
unfoldable pub number : TokenType → ℕ
number k_identifier = 0
number k_int_literal = 1
number k_float_literal = 2
number k_string_literal = 3
number k_select = 4
number k_from = 5
number k_where = 6
number k_insert = 7
number k_into = 8
number k_values = 9
number k_update = 10
number k_set = 11
number k_delete = 12
number k_create = 13
number k_table = 14
number k_drop = 15
number k_order = 16
number k_by = 17
number k_asc = 18
number k_desc = 19
number k_limit = 20
number k_and = 21
number k_or = 22
number k_not = 23
number k_null = 24
number k_true = 25
number k_false = 26
number k_as = 27
number k_index = 28
number k_on = 29
number k_int = 30
number k_bigint = 31
number k_double = 32
number k_boolean = 33
number k_varchar = 34
number k_count = 35
number k_sum = 36
number k_avg = 37
number k_min = 38
number k_max = 39
number k_star = 40
number k_comma = 41
number k_lparen = 42
number k_rparen = 43
number k_semicolon = 44
number k_dot = 45
number k_eq = 46
number k_neq = 47
number k_lt = 48
number k_lte = 49
number k_gt = 50
number k_gte = 51
number k_end_of_input = 52
number k_invalid = 53

unfoldable pub same_type : TokenType → TokenType → Bool
unfolding number
same_type t u = number t == number u

pub record Token : Type 0 where
  pub type : TokenType
  pub lexeme : List ℕ

abbrev pub token : TokenType → List ℕ → Token
token type lexeme = record { type = type; lexeme = lexeme }

-- ===== src/Parser/Literal.antt =====
-- `ParseLiteral` of parser/parser.cpp. `std::stod`, which rounds a decimal number to a double, is a parameter
-- that gives the bits or nothing; `std::stoll` and `std::stoul` are defined, on the digits that the
-- tokenizer puts into a lexeme.
use database_engine.Base.{
  ℕ, ◌+◌, ◌-◌, ◌*◌, ◌^◌, true, false, Option, none, some, List, [], ◌∷◌, ltb, if◌then◌else◌,
}
use database_engine.Util.Status.{err, invalid_argument}
use database_engine.Common.Value.{Value, null, bigint, double, bool, varchar}
use database_engine.Parser.Token.{
  k_false, k_float_literal, k_int_literal, k_null, k_string_literal, k_true, TokenType,
}
use database_engine.Parser.Stream.{Parsing, parsed, refused}

-- The number that the digits write.
unfoldable pub decimal : ℕ → List ℕ → ℕ
decimal n [] = n
decimal n (c ∷ cs) = decimal (n * 10 + (c - 48)) cs

-- `std::stoll` throws beyond 2 ^ 63 - 1.
unfoldable pub stoll : List ℕ → Option ℕ
unfolding decimal
stoll digits = let n = decimal 0 digits in if ltb n (2 ^ 63) then some n else none

-- `std::stoul` throws beyond 2 ^ 64 - 1.
unfoldable pub stoul : List ℕ → Option ℕ
unfolding decimal
stoul digits = let n = decimal 0 digits in if ltb n (2 ^ 64) then some n else none

-- A number, or the refusal of what threw.
abbrev pub number_or_refused : {A : Type 0} → (ℕ → A) → Option ℕ → Parsing A
number_or_refused f none = refused
number_or_refused f (some n) = parsed (f n)

module _ (stod : List ℕ → Option ℕ) where
  -- `ParseLiteral`, by the type of the next token.
  unfoldable pub literal_of : TokenType → List ℕ → Parsing Value
  unfolding stoll
  literal_of k_null text = parsed null
  literal_of k_true text = parsed (bool true)
  literal_of k_false text = parsed (bool false)
  literal_of k_int_literal text = number_or_refused bigint (stoll text)
  literal_of k_float_literal text = number_or_refused double (stod text)
  literal_of k_string_literal text = parsed (varchar text)
  literal_of _ text = refused

  unfoldable pub parse_literal : Parsing Value
  unfolding literal_of
  parse_literal [] = err invalid_argument
  parse_literal (t ∷ ts) = literal_of t.type t.lexeme ts

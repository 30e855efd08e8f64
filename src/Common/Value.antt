-- ===== src/Common/Value.antt =====
-- common/value.hpp. An `int32_t` or `int64_t` is its bit pattern, and so is a `double`: storage only
-- copies it. A `std::string` is the list of its bytes.
use database_engine.Base.{ℕ, ◌^◌, ◌<◌, Bool, true, false, List}

pub data ColumnType : Type 0 where
  int_type bigint_type double_type bool_type varchar_type : ColumnType

-- `std::monostate` is `null`.
pub data Value : Type 0 where
  null : Value
  int : ℕ → Value
  bigint : ℕ → Value
  double : ℕ → Value
  bool : Bool → Value
  varchar : List ℕ → Value

unfoldable pub is_null : Value → Bool
is_null null = true
is_null _ = false

unfoldable pub value_matches_type : Value → ColumnType → Bool
value_matches_type null t = true
value_matches_type (int v) int_type = true
value_matches_type (bigint v) bigint_type = true
value_matches_type (double v) double_type = true
value_matches_type (bool v) bool_type = true
value_matches_type (varchar v) varchar_type = true
value_matches_type _ _ = false

-- The bit patterns fit the widths of their types.
abbrev pub InRange : Value → Type 0
InRange (int v) = v < 2 ^ 32
InRange (bigint v) = v < 2 ^ 64
InRange (double v) = v < 2 ^ 64
InRange _ = Unit

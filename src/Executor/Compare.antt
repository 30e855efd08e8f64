-- ===== src/Executor/Compare.antt =====
-- executor/value_compare.hpp, and the comparisons of executor/expr_eval.cpp. The `int` of a comparison
-- is a sign.
use database_engine.Base.{
  ℕ, Bool, true, false, not, ◌||◌, Option, none, some, List, [], ◌∷◌, ltb, if◌then◌else◌,
}
use database_engine.Util.Status.{Result, ok, err, invalid_argument}
use database_engine.Common.Value.{Value, int, bigint, double, bool, varchar, is_null}
use database_engine.Common.Schema.{same_bytes}
use database_engine.Common.Double.{double_of, double_less, double_equal}

pub data Sign : Type 0 where
  negative nought positive : Sign

unfoldable pub flip : Sign → Sign
flip negative = positive
flip nought = nought
flip positive = negative

unfoldable pub is_negative : Sign → Bool
is_negative negative = true
is_negative _ = false

-- `ValueToDoubleOrNull`, and `ToDouble` of expr_eval.cpp, which is the same.
unfoldable pub value_to_double_or_null : Value → Option ℕ
value_to_double_or_null (int v) = some (double_of 32 v)
value_to_double_or_null (bigint v) = some (double_of 64 v)
value_to_double_or_null (double v) = some v
value_to_double_or_null _ = none

-- `operator<` of `std::string`: the first bytes that differ decide.
unfoldable pub bytes_less : List ℕ → List ℕ → Bool
bytes_less [] [] = false
bytes_less [] (y ∷ ys) = true
bytes_less (x ∷ xs) [] = false
bytes_less (x ∷ xs) (y ∷ ys) =
    let rest = bytes_less xs ys in if ltb x y then true else if ltb y x then false else rest

-- A test for less and its mirror image, as a sign.
abbrev pub sign_by : Bool → Bool → Sign
sign_by less more = if less then negative else if more then positive else nought

unfoldable pub compare_doubles : ℕ → ℕ → Sign
compare_doubles a b = sign_by (double_less a b) (double_less b a)

unfoldable pub compare_bytes : List ℕ → List ℕ → Sign
compare_bytes a b = sign_by (bytes_less a b) (bytes_less b a)

unfoldable pub compare_bools : Bool → Bool → Sign
compare_bools true true = nought
compare_bools false false = nought
compare_bools true false = positive
compare_bools false true = negative

-- The tests that follow where not both values are numbers.
unfoldable pub compare_others : Value → Value → Option Sign
unfolding compare_bytes compare_bools
compare_others (varchar a) (varchar b) = some (compare_bytes a b)
compare_others (bool a) (bool b) = some (compare_bools a b)
compare_others _ _ = none

-- What `CompareForSort` and `CompareOrdered` share; `none` where the values have no common order.
unfoldable pub compare_values : Value → Value → Option Sign
unfolding value_to_double_or_null compare_doubles compare_others
compare_values a b = elim (value_to_double_or_null a) [
  | none ↦ compare_others a b
  | some da ↦ elim (value_to_double_or_null b) [
    | none ↦ compare_others a b
    | some db ↦ some (compare_doubles da db)
  ]
]

unfoldable pub compare_for_sort : Value → Value → Sign
unfolding compare_values
compare_for_sort a b = elim (compare_values a b) [ none ↦ nought | some sign ↦ sign ]

unfoldable pub compare_ordered : Value → Value → Result Sign
unfolding compare_values
compare_ordered a b = elim (compare_values a b) [
  | none ↦ err invalid_argument
  | some sign ↦ ok sign
]

abbrev same_bool : Bool → Bool → Bool
same_bool true b = b
same_bool false b = not b

unfoldable pub equal_others : Value → Value → Result Bool
equal_others (varchar a) (varchar b) = ok (same_bytes a b)
equal_others (bool a) (bool b) = ok (same_bool a b)
equal_others _ _ = err invalid_argument

unfoldable pub values_equal : Value → Value → Result Bool
unfolding value_to_double_or_null equal_others
values_equal a b = if is_null a || is_null b then ok false else elim (value_to_double_or_null a) [
  | none ↦ equal_others a b
  | some da ↦ elim (value_to_double_or_null b) [
    | none ↦ equal_others a b
    | some db ↦ ok (double_equal da db)
  ]
]

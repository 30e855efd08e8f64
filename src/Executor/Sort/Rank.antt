-- ===== src/Executor/Sort/Rank.antt =====
-- The order that ORDER BY asks for, apart from the comparisons of executor/sort.hpp, and that these agree
-- with it.
use database_engine.Base.{
  ℕ, ◌+◌, ◌<◌, ◌^◌, ◌≡◌, refl, ◌∙◌, subst, Bool, true, false, not, ◌&&◌, ◌||◌, List, [], ◌∷◌, arith,
  ltb, ◌==◌, if◌then◌else◌,
}
use database_engine.Common.Value.{
  ColumnType, int_type, bigint_type, double_type, bool_type, varchar_type, Value, int, bigint,
  double, bool, varchar, is_null,
}
use database_engine.Common.Double.{double_of, double_less}
use database_engine.Executor.Compare.{
  compare_for_sort, compare_doubles, compare_bytes, compare_bools, bytes_less, is_negative,
}
use database_engine.Executor.Eval.Integers.{up_part, down_part, double_less-int}
use database_engine.Executor.Sort.{value_before}
use database_engine.Executor.Sort.Order.{Sortable, Typed, typed_lem, lower, there_flip}

-- The alphabetical order of texts, by the numbers of their bytes.
alphabetical : List ℕ → List ℕ → Bool
alphabetical _ [] = false
alphabetical [] (y ∷ ys) = true
alphabetical (x ∷ xs) (y ∷ ys) = ltb x y || (x == y) && alphabetical xs ys

-- `a` is the smaller value of the two: of integers the smaller one, of BIGINT values that whose double
-- is smaller, of truth values false, of texts the first one of the alphabet.
pub below : Value → Value → Bool
below (int a) (int b) =
    ltb (up_part (int a) + down_part (int b)) (up_part (int b) + down_part (int a))
below (bigint a) (bigint b) = double_less (double_of 64 a) (double_of 64 b)
below (double a) (double b) = double_less a b
below (bool a) (bool b) = not a && b
below (varchar a) (varchar b) = alphabetical a b
below _ _ = false

-- A row with value `x` in the column may stand in front of one with value `y`: the values go up and the
-- nulls come first, or the values go down and the nulls come last.
pub may_precede : (descending : Bool) → Value → Value → Bool
may_precede descending x y =
    if is_null x
    then not descending || is_null y
    else if is_null y
    then descending
    else not (if descending then below x y else below y x)

-- Two values that the order does not tell apart.
pub same_rank : Value → Value → Bool
same_rank x y =
    if is_null x then is_null y else if is_null y then false else not (below x y) && not (below y x)

-- An INT is stored in 32 bits.
abbrev pub InRange : Value → Type 0
InRange (int v) = v < 2 ^ 32
InRange _ = Unit

bytes_less-alphabetical : (a b : List ℕ) → bytes_less a b ≡ alphabetical a b
unfolding bytes_less alphabetical
bytes_less-alphabetical [] [] = refl
bytes_less-alphabetical [] (y ∷ ys) = refl
bytes_less-alphabetical (x ∷ xs) [] = refl
bytes_less-alphabetical (x ∷ xs) (y ∷ ys) = ground (arith, bytes_less-alphabetical xs ys)

negative-doubles : (a b : ℕ) → is_negative (compare_doubles a b) ≡ double_less a b
unfolding compare_doubles is_negative
negative-doubles a b = ground arith

lower-below :
    (t : ColumnType) (a b : Value)
    → Typed t a
    → Typed t b
    → InRange a
    → InRange b
    → lower a b ≡ below a b
unfolding below compare_for_sort compare_bytes compare_bools is_negative
lower-below int_type a b (x, p) (y, q) h k =
    rw (p, q)
      (negative-doubles (double_of 32 x) (double_of 32 y)
        ∙ double_less-int x y (subst InRange p h) (subst InRange q k))
lower-below bigint_type a b (x, p) (y, q) h k =
    rw (p, q) (negative-doubles (double_of 64 x) (double_of 64 y))
lower-below double_type a b (x, p) (y, q) h k = rw (p, q) (negative-doubles x y)
lower-below bool_type a b (x, p) (y, q) h k = ground arith
lower-below varchar_type a b (x, p) (y, q) h k = ground (arith, bytes_less-alphabetical x y)

module _ (t : ColumnType) (a b : Value) (a_fits : Sortable t a) (b_fits : Sortable t b)
    (a_range : InRange a) (b_range : InRange b) where
  there_below : is_null a ≡ false → is_null b ≡ false → lower a b ≡ below a b
  there_below a_there b_there =
      lower-below t a b (typed_lem t a a_fits.0 a_there) (typed_lem t b b_fits.0 b_there) a_range
        b_range

module _ (t : ColumnType) (descending : Bool) (a b : Value) (a_fits : Sortable t a)
    (b_fits : Sortable t b) (a_range : InRange a) (b_range : InRange b) where
  -- The code asks whether a row has to stand before another one.
  pub value_before-may_precede : may_precede descending a b ≡ not (value_before descending b a)
  unfolding value_before may_precede
  value_before-may_precede = ground (
    arith,
    there_flip t b a b_fits a_fits,
    there_below t a b a_fits b_fits a_range b_range,
    there_below t b a b_fits a_fits b_range a_range,
  )

  pub value_before-same_rank :
      (not (value_before descending a b) && not (value_before descending b a)) ≡ same_rank a b
  unfolding value_before same_rank
  value_before-same_rank = ground (
    arith,
    there_flip t a b a_fits b_fits,
    there_flip t b a b_fits a_fits,
    there_below t a b a_fits b_fits a_range b_range,
    there_below t b a b_fits a_fits b_range a_range,
  )

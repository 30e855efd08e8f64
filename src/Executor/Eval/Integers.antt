-- ===== src/Executor/Eval/Integers.antt =====
-- The comparisons of executor/expr_eval.cpp on integers.
use database_engine.Base.{
  ℕ, ◌+◌, ◌^◌, ◌<◌, ◌≡◌, refl, Bool, true, false, not, some, arith, ltb, ◌==◌,
}
use database_engine.Util.Status.{ok}
use database_engine.Common.Value.{Value, null, int, bigint, bool, is_null}
use database_engine.Common.Double.{double_of, double_less, double_equal}
use database_engine.Common.Double.Exact.{positive_int, negative_int, compare-double_of}
use database_engine.Parser.Ast.{
  BinaryOp, op_eq, op_neq, op_lt, op_lte, op_gt, op_gte, op_and, op_or,
}
use database_engine.Executor.Compare.{
  compare_ordered, compare_doubles, values_equal, is_negative, flip, value_to_double_or_null,
}
use database_engine.Executor.Eval.{combine, ordered, holds}

-- The integer that a value of an integer type is, as a difference; null is none.
abbrev pub up_part : Value → ℕ
up_part (int v) = positive_int 32 v
up_part (bigint v) = positive_int 64 v
up_part _ = 0

abbrev pub down_part : Value → ℕ
down_part (int v) = negative_int 32 v
down_part (bigint v) = negative_int 64 v
down_part _ = 0

-- An integer that a double holds exactly.
abbrev pub Exact : Value → Type 0
Exact (int v) = v < 2 ^ 32
Exact (bigint v) = (positive_int 64 v < 2 ^ 53) × (negative_int 64 v < 2 ^ 53) × (v < 2 ^ 64)
Exact _ = ⊥

-- The order of two integers that an operator asks for: `p` and `q` are the cross sums of their parts.
abbrev pub compares : BinaryOp → ℕ → ℕ → Bool
compares op_eq p q = p == q
compares op_neq p q = not (p == q)
compares op_lt p q = ltb p q
compares op_lte p q = not (ltb q p)
compares op_gt p q = ltb q p
compares op_gte p q = not (ltb p q)
compares _ p q = false

abbrev pub is_comparison : BinaryOp → Bool
is_comparison op_and = false
is_comparison op_or = false
is_comparison _ = true

number-there : (v : Value) (d : ℕ) → value_to_double_or_null v ≡ some d → is_null v ≡ false
unfolding value_to_double_or_null is_null
number-there null d h = cc
number-there v d h = ground arith

-- On two values that convert to doubles, given the outcomes of the doubles' comparisons.
module _ (l r : Value) (d e p q : ℕ) (at_l : value_to_double_or_null l ≡ some d)
    (at_r : value_to_double_or_null r ≡ some e) (less : double_less d e ≡ ltb p q)
    (more : double_less e d ≡ ltb q p) (same : double_equal d e ≡ (p == q)) where
  values_equal-doubles : values_equal l r ≡ ok (p == q)
  unfolding values_equal
  values_equal-doubles = rw (number-there l d at_l, number-there r e at_r, at_l, at_r, same) refl

  compare_ordered-doubles : compare_ordered l r ≡ ok (compare_doubles d e)
  unfolding compare_ordered
  compare_ordered-doubles = ground (arith, at_l, at_r)

  combine-doubles :
      (op : BinaryOp)
      → is_comparison op ≡ true
      → combine op (ok l) (ok r) ≡ ok (bool (compares op p q))
  unfolding combine ordered holds is_negative flip compare_doubles
  combine-doubles op_eq h = rw values_equal-doubles refl
  combine-doubles op_neq h = rw values_equal-doubles refl
  combine-doubles op_and h = cc
  combine-doubles op_or h = cc
  combine-doubles op h =
      rw (number-there l d at_l, number-there r e at_r, compare_ordered-doubles)
        (ground (arith, less, more))

number_of : Value → ℕ
number_of (int v) = double_of 32 v
number_of (bigint v) = double_of 64 v
number_of _ = 0

number_of-lem : (v : Value) → Exact v → value_to_double_or_null v ≡ some (number_of v)
unfolding value_to_double_or_null number_of
number_of-lem (int v) h = refl
number_of-lem (bigint v) h = refl
number_of-lem v h = absurd h

compare-number_of :
    (l r : Value)
    → Exact l
    → Exact r
    → (double_less (number_of l) (number_of r)
        ≡ ltb (up_part l + down_part r) (up_part r + down_part l))
      × (double_equal (number_of l) (number_of r)
          ≡ (up_part l + down_part r == up_part r + down_part l))
unfolding number_of
compare-number_of (int v) (int w) h k =
    compare-double_of 32 v 32 w (ground arith) (ground arith) (ground arith) (ground arith)
compare-number_of (int v) (bigint w) h k =
    compare-double_of 32 v 64 w (ground arith) (ground arith) k.0 k.1
compare-number_of (bigint v) (int w) h k =
    compare-double_of 64 v 32 w h.0 h.1 (ground arith) (ground arith)
compare-number_of (bigint v) (bigint w) h k = compare-double_of 64 v 64 w h.0 h.1 k.0 k.1
compare-number_of (int v) w h k = absurd k
compare-number_of (bigint v) w h k = absurd k
compare-number_of v w h k = absurd h

-- The double of an INT is below another one exactly if the integer is.
pub double_less-int :
    (v w : ℕ)
    → v < 2 ^ 32
    → w < 2 ^ 32
    → double_less (double_of 32 v) (double_of 32 w)
      ≡ ltb (up_part (int v) + down_part (int w)) (up_part (int w) + down_part (int v))
unfolding number_of
double_less-int v w h k = (compare-number_of (int v) (int w) h k).0

-- The comparisons of INT and BIGINT values, which go by way of doubles, are those of the integers where
-- the integers are below 2 ^ 53 in size, as those of an INT column are.
pub combine-integers :
    (op : BinaryOp) (l r : Value)
    → Exact l
    → Exact r
    → is_comparison op ≡ true
    → combine op (ok l) (ok r)
      ≡ ok (bool (compares op (up_part l + down_part r) (up_part r + down_part l)))
combine-integers op l r h k comparison =
    combine-doubles l r (number_of l) (number_of r) (up_part l + down_part r)
      (up_part r + down_part l) (number_of-lem l h) (number_of-lem r k)
      (compare-number_of l r h k).0 (compare-number_of r l k h).0 (compare-number_of l r h k).1 op
      comparison

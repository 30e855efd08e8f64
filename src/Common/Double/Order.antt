-- ===== src/Common/Double/Order.antt =====
-- The order of doubles: a NaN is less than nothing and nothing is less than it; the other doubles are
-- ordered totally, up to the two zeros.
use database_engine.Base.{ℕ, ◌≡◌, ◌⊎◌, true, false, arith}
use database_engine.Common.Double.{is_nan, double_less}

module _ (a b c : ℕ) where
  pub double_less_asym : double_less a b ≡ true → double_less b a ≡ false
  unfolding double_less
  double_less_asym h = ground arith

  pub double_less_trans : double_less a b ≡ true → double_less b c ≡ true → double_less a c ≡ true
  unfolding double_less
  double_less_trans h k = ground arith

  -- Whatever lies between two doubles is on one side of them.
  pub double_less_split :
      is_nan b ≡ false
      → double_less a c ≡ true
      → (double_less a b ≡ true) ⊎ (double_less b c ≡ true)
  unfolding double_less
  double_less_split h k = ground arith

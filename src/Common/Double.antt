-- ===== src/Common/Double.antt =====
-- `double` on its bit pattern (IEEE 754, 64 bits): what `static_cast<double>` makes of an integer, and
-- the comparisons of C++. The lowest 63 bits are read as a magnitude, which grows with the value, and
-- the highest bit is the sign; a comparison with a NaN is false. A conversion rounds to the nearest
-- double, and half way to the even one. Common.Double.Exact is about integers below 2 ^ 53.
pub mod Exact
pub mod Order
use database_engine.Base.{
  ℕ, zero, suc, ◌+◌, ◌-◌, ◌*◌, ◌/◌, ◌%◌, ◌^◌, Bool, true, false, not, ◌&&◌, ltb, leb, ◌==◌,
  if◌then◌else◌,
}

abbrev sign_bit : ℕ
sign_bit = 2 ^ 63

-- The magnitude of a number that is not negative, and of one that is.
abbrev pub positive_part : ℕ → ℕ
positive_part v = if ltb v (2 ^ 63) then v else 0

abbrev pub negative_part : ℕ → ℕ
negative_part v = if ltb v (2 ^ 63) then 0 else v - 2 ^ 63

unfoldable pub is_nan : ℕ → Bool
is_nan v = ltb (2047 * 2 ^ 52) (positive_part v + negative_part v)

unfoldable pub double_less : ℕ → ℕ → Bool
unfolding is_nan
double_less a b =
    not (is_nan a)
    && not (is_nan b)
    && ltb (positive_part a + negative_part b) (positive_part b + negative_part a)

unfoldable pub double_equal : ℕ → ℕ → Bool
unfolding is_nan
double_equal a b =
    not (is_nan a)
    && not (is_nan b)
    && (positive_part a + negative_part b) == (positive_part b + negative_part a)

-- The place of the highest bit, for a number of at most `rounds` bits.
unfoldable pub highest_bit : ℕ → ℕ → ℕ
highest_bit zero m = 0
highest_bit (suc rounds) m =
    let rest = suc (highest_bit rounds (m / 2)) in if ltb m 2 then 0 else rest

-- `m / 2 ^ s` to the nearest, and half way to the even number.
unfoldable pub rounded : ℕ → ℕ → ℕ
rounded m s =
    let quotient = m / 2 ^ s in
    let twice = 2 * (m % 2 ^ s) in
    if ltb twice (2 ^ s)
    then quotient
    else if ltb (2 ^ s) twice
    then quotient + 1
    else quotient + quotient % 2

-- The magnitude of `m`, below 2 ^ 64. The exponent's bias is 1023, and the highest bit is left out of
-- the 53 bits of the significand: a carry out of it counts the exponent up.
unfoldable pub magnitude_of : ℕ → ℕ
unfolding highest_bit rounded
magnitude_of m =
    if m == 0
    then 0
    else (let e = highest_bit 63 m in
        if leb e 52
        then (e + 1022) * 2 ^ 52 + m * 2 ^ (52 - e)
        else (e + 1022) * 2 ^ 52 + rounded m (e - 52))

-- `static_cast<double>` of a signed integer of `width` bits, given by its bit pattern.
unfoldable pub double_of : ℕ → ℕ → ℕ
double_of width v =
    if ltb (2 * v) (2 ^ width) then magnitude_of v else 2 ^ 63 + magnitude_of (2 ^ width - v)

-- ===== src/Executor/Sort/Order.antt =====
-- The order of executor/sort.hpp, and what it makes of a list.
use database_engine.Base.{
  ℕ, ◌≡◌, refl, ◌⊎◌, inl, inr, Bool, true, false, some, List, [], ◌∷◌, arith,
}
use database_engine.Common.Value.{
  ColumnType, int_type, bigint_type, double_type, bool_type, varchar_type, Value, int, bigint,
  double, bool, varchar, is_null, value_matches_type,
}
use database_engine.Common.Double.{is_nan, double_of}
use database_engine.Common.Double.Order.{double_less_asym, double_less_split}
use database_engine.Executor.Compare.{
  compare_for_sort, compare_doubles, compare_bytes, compare_bools, bytes_less, is_negative, flip,
  value_to_double_or_null,
}
use database_engine.Executor.Sort.{value_before}

bytes_less_asym : (a b : List ℕ) → bytes_less a b ≡ true → bytes_less b a ≡ false
unfolding bytes_less
bytes_less_asym [] [] h = cc
bytes_less_asym [] (y ∷ ys) h = refl
bytes_less_asym (x ∷ xs) [] h = cc
bytes_less_asym (x ∷ xs) (y ∷ ys) h = ground (arith, bytes_less_asym xs ys)

bytes_less_split :
    (a b c : List ℕ) → bytes_less a c ≡ true → (bytes_less a b ≡ true) ⊎ (bytes_less b c ≡ true)
unfolding bytes_less
bytes_less_split [] [] c h = inr h
bytes_less_split [] (y ∷ ys) c h = inl refl
bytes_less_split (x ∷ xs) b [] h = cc
bytes_less_split (x ∷ xs) [] (z ∷ zs) h = inr refl
bytes_less_split (x ∷ xs) (y ∷ ys) (z ∷ zs) h = ground (arith, bytes_less_split xs ys zs)

-- The value that a column's type makes of a value that is not null.
abbrev pub Typed : ColumnType → Value → Type 0
Typed int_type v = (a : ℕ) × (v ≡ int a)
Typed bigint_type v = (a : ℕ) × (v ≡ bigint a)
Typed double_type v = (a : ℕ) × (v ≡ double a)
Typed bool_type v = (b : Bool) × (v ≡ bool b)
Typed varchar_type v = (s : List ℕ) × (v ≡ varchar s)

pub typed_lem :
    (t : ColumnType) (v : Value) → value_matches_type v t ≡ true → is_null v ≡ false → Typed t v
unfolding value_matches_type is_null
typed_lem int_type (int a) h k = (a, refl)
typed_lem bigint_type (bigint a) h k = (a, refl)
typed_lem double_type (double a) h k = (a, refl)
typed_lem bool_type (bool b) h k = (b, refl)
typed_lem varchar_type (varchar s) h k = (s, refl)
typed_lem t v h k = absurd (ground arith)

-- No value of the column is a NaN, nor counts as one.
abbrev pub IsNumber : Value → Type 0
IsNumber v = (d : ℕ) → value_to_double_or_null v ≡ some d → is_nan d ≡ false

abbrev pub lower : Value → Value → Bool
lower a b = is_negative (compare_for_sort a b)

module _ (a b c : ℕ) where
  doubles_asym :
      is_negative (compare_doubles a b) ≡ true → is_negative (compare_doubles b a) ≡ false
  unfolding compare_doubles is_negative
  doubles_asym h = ground (arith, double_less_asym a b 0)

  doubles_split :
      is_nan b ≡ false
      → is_negative (compare_doubles a c) ≡ true
      → (is_negative (compare_doubles a b) ≡ true) ⊎ (is_negative (compare_doubles b c) ≡ true)
  unfolding compare_doubles is_negative
  doubles_split h k = ground (arith, double_less_split a b c)

  doubles_flip : is_negative (flip (compare_doubles a b)) ≡ is_negative (compare_doubles b a)
  unfolding compare_doubles is_negative flip
  doubles_flip = ground (arith, double_less_asym a b 0)

lower_asym :
    (t : ColumnType) (a b : Value) → Typed t a → Typed t b → lower a b ≡ true → lower b a ≡ false
unfolding compare_for_sort compare_bytes compare_bools is_negative
lower_asym int_type a b (x, p) (y, q) h =
    ground (arith, doubles_asym (double_of 32 x) (double_of 32 y) 0)
lower_asym bigint_type a b (x, p) (y, q) h =
    ground (arith, doubles_asym (double_of 64 x) (double_of 64 y) 0)
lower_asym double_type a b (x, p) (y, q) h = ground (arith, doubles_asym x y 0)
lower_asym bool_type a b (x, p) (y, q) h = ground arith
lower_asym varchar_type a b (x, p) (y, q) h = ground (arith, bytes_less_asym x y)

lower-flip :
    (t : ColumnType) (a b : Value)
    → Typed t a
    → Typed t b
    → is_negative (flip (compare_for_sort a b)) ≡ lower b a
unfolding compare_for_sort compare_bytes compare_bools is_negative flip
lower-flip int_type a b (x, p) (y, q) = rw (p, q) (doubles_flip (double_of 32 x) (double_of 32 y) 0)
lower-flip bigint_type a b (x, p) (y, q) =
    rw (p, q) (doubles_flip (double_of 64 x) (double_of 64 y) 0)
lower-flip double_type a b (x, p) (y, q) = rw (p, q) (doubles_flip x y 0)
lower-flip bool_type a b (x, p) (y, q) = ground arith
lower-flip varchar_type a b (x, p) (y, q) = ground (arith, bytes_less_asym x y)

lower_split :
    (t : ColumnType) (a b c : Value)
    → Typed t a
    → Typed t b
    → Typed t c
    → IsNumber b
    → lower a c ≡ true
    → (lower a b ≡ true) ⊎ (lower b c ≡ true)
unfolding compare_for_sort compare_bytes compare_bools is_negative
lower_split int_type a b c (x, p) (y, q) (z, r) number h = ground (
  arith,
  doubles_split (double_of 32 x) (double_of 32 y) (double_of 32 z),
  number (double_of 32 y),
)
lower_split bigint_type a b c (x, p) (y, q) (z, r) number h = ground (
  arith,
  doubles_split (double_of 64 x) (double_of 64 y) (double_of 64 z),
  number (double_of 64 y),
)
lower_split double_type a b c (x, p) (y, q) (z, r) number h =
    ground (arith, doubles_split x y z, number y)
lower_split bool_type a b c (x, p) (y, q) (z, r) number h = ground arith
lower_split varchar_type a b c (x, p) (y, q) (z, r) number h =
    ground (arith, bytes_less_split x y z)

-- A value that a sort is sure to order: of the column's type or null, and no NaN.
abbrev pub Sortable : ColumnType → Value → Type 0
Sortable t v = (value_matches_type v t ≡ true) × IsNumber v

-- The laws on values that are not null.
module _ (t : ColumnType) (a b : Value) (a_fits : Sortable t a) (b_fits : Sortable t b)
    (a_there : is_null a ≡ false) (b_there : is_null b ≡ false) where
  pub there_asym : lower a b ≡ true → lower b a ≡ false
  there_asym h =
      lower_asym t a b (typed_lem t a a_fits.0 a_there) (typed_lem t b b_fits.0 b_there) h

  pub there_flip : is_negative (flip (compare_for_sort a b)) ≡ lower b a
  there_flip = lower-flip t a b (typed_lem t a a_fits.0 a_there) (typed_lem t b b_fits.0 b_there)

pub there_split :
    (t : ColumnType) (a b c : Value)
    → Sortable t a
    → Sortable t b
    → Sortable t c
    → is_null a ≡ false
    → is_null b ≡ false
    → is_null c ≡ false
    → lower a c ≡ true
    → (lower a b ≡ true) ⊎ (lower b c ≡ true)
there_split t a b c a_fits b_fits c_fits a_there b_there c_there h =
    lower_split t a b c (typed_lem t a a_fits.0 a_there) (typed_lem t b b_fits.0 b_there)
      (typed_lem t c c_fits.0 c_there) b_fits.1 h

module _ (t : ColumnType) (descending : Bool) (a b : Value) (a_fits : Sortable t a)
    (b_fits : Sortable t b) where
  pub value_before_asym : value_before descending a b ≡ true → value_before descending b a ≡ false
  unfolding value_before
  value_before_asym h = ground (
    arith,
    there_asym t a b a_fits b_fits,
    there_asym t b a b_fits a_fits,
    there_flip t a b a_fits b_fits,
    there_flip t b a b_fits a_fits,
  )

  pub value_before_split :
      (c : Value)
      → Sortable t c
      → value_before descending a c ≡ true
      → (value_before descending a b ≡ true) ⊎ (value_before descending b c ≡ true)
  unfolding value_before
  value_before_split c c_fits h = ground (
    arith,
    there_flip t a b a_fits b_fits,
    there_flip t b c b_fits c_fits,
    there_flip t a c a_fits c_fits,
    there_split t a b c a_fits b_fits c_fits,
    there_split t c b a c_fits b_fits a_fits,
  )

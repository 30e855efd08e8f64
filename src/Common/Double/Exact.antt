-- ===== src/Common/Double/Exact.antt =====
-- Integers below 2 ^ 53 are compared as doubles like as integers.
use database_engine.Base.{
  ℕ, zero, suc, ◌+◌, ◌-◌, ◌*◌, ◌/◌, ◌^◌, ◌≤◌, ◌<◌, ◌≡◌, refl, ap, ◌∙◌, ◌⊎◌, inl, inr, false, arith,
  ltb, ◌==◌, if◌then◌else◌, ltb→lt, le→ltb, Bool-cases, lt-or-le,
}
use native.Mathlib.Nat.{
  pow-suc, one-le-pow, pow-le-pow_right, zero-add, mul-le-mul_right, mul_assoc,
  mul-lt-mul_of_pos_right,
}
use database_engine.Common.Double.{
  positive_part, negative_part, is_nan, double_less, double_equal, highest_bit, magnitude_of,
  double_of,
}

-- The highest bit brackets the number.
highest_bit_lem :
    (rounds m : ℕ)
    → 0 < m
    → m < 2 ^ suc rounds
    → (2 ^ highest_bit rounds m ≤ m) × (m < 2 * 2 ^ highest_bit rounds m)
unfolding highest_bit
highest_bit_lem zero m h k = omega arith
highest_bit_lem (suc rounds) m h k = elim (Bool-cases (ltb m 2)) [
  | inl small ↦ rw small (omega (arith, ltb→lt m 2 small))
  | inr large ↦
      let two : 2 ≤ m = ground (arith, large) in
      let ih =
        highest_bit_lem rounds (m / 2) (omega arith) (omega (arith, pow-suc 2 (suc rounds))) in
      rw large (omega (arith, ih.0, ih.1, pow-suc 2 (highest_bit rounds (m / 2))))
]

pow_add : (a b : ℕ) → 2 ^ a * 2 ^ b ≡ 2 ^ (a + b)
pow_add zero b = rw (zero-add b) (omega arith)
pow_add (suc a) b =
    let next : suc a + b ≡ suc (a + b) = omega arith in
    rw (next, pow-suc 2 a, pow-suc 2 (a + b), ← pow_add a b) (grind arith)

-- A number below 2 ^ 53 has its highest bit at 52 at most, and scaled up so that it stands at 52 it is
-- the significand.
module _ (m : ℕ) (positive : 0 < m) (small : m < 2 ^ 53) where
  highest_bit-le : highest_bit 63 m ≤ 52
  highest_bit-le = elim (lt-or-le (highest_bit 63 m) 53) [
    | inl below ↦ omega arith
    | inr above ↦ absurd (
        omega (
          arith,
          pow-le-pow_right {n = 2} (omega arith) above,
          (highest_bit_lem 63 m positive (omega arith)).0,
        ))
  ]

  significand :
      (2 ^ 52 ≤ m * 2 ^ (52 - highest_bit 63 m)) × (m * 2 ^ (52 - highest_bit 63 m) < 2 * 2 ^ 52)
  significand =
      let e = highest_bit 63 m in
      let k = 2 ^ (52 - e) in
      let bracket = highest_bit_lem 63 m positive (omega arith) in
      let split : e + (52 - e) ≡ 52 = omega (arith, highest_bit-le) in
      let whole : 2 ^ e * k ≡ 2 ^ 52 = pow_add e (52 - e) ∙ ap (λ (i : ℕ). 2 ^ i) split in
      let factor : 0 < k = one-le-pow (52 - e) 2 (omega arith) in
      (
        omega (arith, whole, mul-le-mul_right k bracket.0),
        omega (arith, whole, mul_assoc 2 (2 ^ e) k, mul-lt-mul_of_pos_right bracket.1 factor),
      )

  magnitude_lem :
      magnitude_of m ≡ (highest_bit 63 m + 1022) * 2 ^ 52 + m * 2 ^ (52 - highest_bit 63 m)
  unfolding magnitude_of
  magnitude_lem = ground (arith, highest_bit-le)

highest_bit_mono : (m n : ℕ) → 0 < m → m < n → n < 2 ^ 53 → highest_bit 63 m ≤ highest_bit 63 n
highest_bit_mono m n h k small = elim (lt-or-le (highest_bit 63 n) (highest_bit 63 m)) [
  | inl lower ↦
      let scale = pow-le-pow_right {n = 2} (omega arith) {i = suc (highest_bit 63 n)} lower in
      let low = highest_bit_lem 63 m h (omega arith) in
      let high = highest_bit_lem 63 n (omega arith) (omega arith) in
      absurd (omega (arith, low.0, high.1, scale, pow-suc 2 (highest_bit 63 n)))
  | inr higher ↦ higher
]

magnitude-zero : magnitude_of 0 ≡ 0
unfolding magnitude_of
magnitude-zero = refl

-- The magnitude grows with the number.
magnitude_mono : (m n : ℕ) → m < n → n < 2 ^ 53 → magnitude_of m < magnitude_of n
magnitude_mono zero n h small = omega (arith, magnitude-zero, magnitude_lem n (omega arith) small)
magnitude_mono (suc k) n h small =
    let m = suc k in
    let low : m < 2 ^ 53 = omega arith in
    let at_m = significand m (omega arith) low in
    let at_n = significand n (omega arith) small in
    let sum_m = magnitude_lem m (omega arith) low in
    let sum_n = magnitude_lem n (omega arith) small in
    elim (lt-or-le (highest_bit 63 m) (highest_bit 63 n)) [
      | inl higher ↦ omega (arith, at_m.1, at_n.0, sum_m, sum_n)
      | inr lower ↦
          let same : highest_bit 63 n ≡ highest_bit 63 m =
            omega (arith, highest_bit_mono m n (omega arith) h small) in
          let scale = 2 ^ (52 - highest_bit 63 m) in
          let factor : 0 < scale = one-le-pow (52 - highest_bit 63 m) 2 (omega arith) in
          let more : m * scale < n * scale = mul-lt-mul_of_pos_right h factor in
          rw (sum_m, sum_n, same) (omega (arith, more))
    ]

magnitude_mono_le : (m n : ℕ) → m ≤ n → n < 2 ^ 53 → magnitude_of m ≤ magnitude_of n
magnitude_mono_le m n h small = elim (lt-or-le m n) [
  | inl less ↦ omega (arith, magnitude_mono m n less small)
  | inr more ↦ let same : m ≡ n = omega arith in rw same (omega arith)
]

magnitude-lt : (m : ℕ) → m < 2 ^ 53 → magnitude_of m < 2047 * 2 ^ 52
magnitude-lt zero small = omega (arith, magnitude-zero)
magnitude-lt (suc k) small = omega (
  arith,
  highest_bit-le (suc k) (omega arith) small,
  significand (suc k) (omega arith) small,
  magnitude_lem (suc k) (omega arith) small,
)

-- The signed integer of `width` bits that `v` stands for, in two parts of which one is 0.
abbrev pub positive_int : ℕ → ℕ → ℕ
positive_int width v = if ltb (2 * v) (2 ^ width) then v else 0

abbrev pub negative_int : ℕ → ℕ → ℕ
negative_int width v = if ltb (2 * v) (2 ^ width) then 0 else 2 ^ width - v

one_zero : (width v : ℕ) → (positive_int width v ≡ 0) ⊎ (negative_int width v ≡ 0)
one_zero width v = elim (Bool-cases (ltb (2 * v) (2 ^ width))) [
  | inl plus ↦ inr (rw plus refl)
  | inr minus ↦ inl (rw minus refl)
]

module _ (width v : ℕ) (up : positive_int width v < 2 ^ 53)
    (down : negative_int width v < 2 ^ 53) where
  double_of_parts :
      (positive_part (double_of width v) ≡ magnitude_of (positive_int width v))
      × (negative_part (double_of width v) ≡ magnitude_of (negative_int width v))
  unfolding double_of
  double_of_parts = elim (Bool-cases (ltb (2 * v) (2 ^ width))) [
    | inl plus ↦
        let bound = magnitude-lt v (rw plus at up) in
        rw plus (ground (arith, magnitude-zero, bound))
    | inr minus ↦
        let bound = magnitude-lt (2 ^ width - v) (rw minus at down) in
        rw minus (ground (arith, magnitude-zero, bound))
  ]

  double_of-number : is_nan (double_of width v) ≡ false
  unfolding is_nan
  double_of-number =
      let up_bound = magnitude-lt (positive_int width v) up in
      let down_bound = magnitude-lt (negative_int width v) down in
      le→ltb (2047 * 2 ^ 52) _ (elim (one_zero width v) [
        | inl zeroed ↦ omega (arith, double_of_parts, magnitude-zero, ap magnitude_of zeroed)
        | inr zeroed ↦ omega (arith, double_of_parts, magnitude-zero, ap magnitude_of zeroed)
      ])

-- A sum of a positive part and a negative part, against another, where each number has one part.
module _ (p n q m : ℕ) (p_small : p < 2 ^ 53) (n_small : n < 2 ^ 53) (q_small : q < 2 ^ 53)
    (m_small : m < 2 ^ 53) (one : (p ≡ 0) ⊎ (n ≡ 0)) (other : (q ≡ 0) ⊎ (m ≡ 0)) where
  sums_mono : p + m < q + n → magnitude_of p + magnitude_of m < magnitude_of q + magnitude_of n
  sums_mono h = ground (
    arith,
    magnitude-zero,
    magnitude_mono p q,
    magnitude_mono m n,
    magnitude_mono 0 q,
    magnitude_mono 0 n,
  )

  sums_mono_le : p + m ≤ q + n → magnitude_of p + magnitude_of m ≤ magnitude_of q + magnitude_of n
  sums_mono_le h = ground (arith, magnitude-zero, magnitude_mono_le p q, magnitude_mono_le m n)

-- Sums that are in the same order compare alike.
module _ (a b c d : ℕ) (grows : a < b → c < d) (back : b < a → d < c) (same : a ≡ b → c ≡ d) where
  ltb_cong : ltb c d ≡ ltb a b
  ltb_cong = ground (arith, grows, back, same)

  ==_cong : (c == d) ≡ (a == b)
  ==_cong = ground (arith, grows, back, same)

-- The integers `v` of `width` bits and `w` of `span` bits, both below 2 ^ 53 in size.
module _ (width v span w : ℕ) (v_up : positive_int width v < 2 ^ 53)
    (v_down : negative_int width v < 2 ^ 53) (w_up : positive_int span w < 2 ^ 53)
    (w_down : negative_int span w < 2 ^ 53) where
  abbrev pub left_sum : ℕ
  left_sum = positive_int width v + negative_int span w

  abbrev pub right_sum : ℕ
  right_sum = positive_int span w + negative_int width v

  pub compare-double_of :
      (double_less (double_of width v) (double_of span w) ≡ ltb left_sum right_sum)
      × (double_equal (double_of width v) (double_of span w) ≡ (left_sum == right_sum))
  unfolding double_less double_equal
  compare-double_of =
      let p = positive_int width v in
      let n = negative_int width v in
      let q = positive_int span w in
      let m = negative_int span w in
      let v_zero = one_zero width v in
      let w_zero = one_zero span w in
      let at_v = double_of_parts width v v_up v_down in
      let at_w = double_of_parts span w w_up w_down in
      let grows = sums_mono p n q m v_up v_down w_up w_down v_zero w_zero in
      let back = sums_mono q m p n w_up w_down v_up v_down w_zero v_zero in
      let at_most = sums_mono_le p n q m v_up v_down w_up w_down v_zero w_zero in
      let at_least = sums_mono_le q m p n w_up w_down v_up v_down w_zero v_zero in
      let same : p + m ≡ q + n → magnitude_of p + magnitude_of m ≡ magnitude_of q + magnitude_of n =
        λ e. omega (arith, at_most (omega arith), at_least (omega arith)) in
      rw
        (
          double_of-number width v v_up v_down,
          double_of-number span w w_up w_down,
          at_v.0,
          at_v.1,
          at_w.0,
          at_w.1,
        )
        (ltb_cong (p + m) (q + n) _ _ grows back same, ==_cong (p + m) (q + n) _ _ grows back same)
